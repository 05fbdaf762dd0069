-- ===== src/Lib.antt =====
-- Verification library of kungfu-cpp, a low-latency trading framework in C++.
--
-- The program's processes talk through journals: append-only files of frames, each with one writer and
-- any number of readers. On top stand the trading rules and the books of the trading system, and the
-- brokers that turn order inputs into orders and trades.
--
-- Parts that are modelled, by file:
--   Base                    shared names, tests, lists, a map by numbers (Dict); `Double` is the
--                           program's floating-point type as a parameter, `Cents` an instance of it
--   Journal/Frame, Page     frames and pages: include/kungfu/yijinjing/journal/frame.h and page.h, the
--                           headers of include/kungfu/longfist/types.h, src/yijinjing/journal/page.cpp
--   Journal/Cursor          the class journal: src/yijinjing/journal/journal.cpp
--   Journal/Writer          the class writer: src/yijinjing/journal/writer.cpp
--   Journal/Reader          the class reader: src/yijinjing/journal/reader.cpp
--   Journal/Layout          which frames lie in the pages of a journal, the invariant of the writer
--   Journal/Stores, Turning, Append, Room      what a write does to a page and to the journal
--   Journal/Steps, Reading, RoundTrip          what a cursor that starts at the first page meets
--   Journal/Seeking, Suffix, Reopening, Creating  what a writer that opens a journal finds
--   Cache/RingQueue         include/kungfu/yijinjing/cache/ringqueue.h
--   Sim/OrderBook           brokers/sim/src/order_book.h and order_book.cpp
--   Sim/Trader              brokers/sim/src/trader_sim.h, trader_sim.cpp and match_mode.h
--   Wingchun                include/kungfu/longfist/enums.h, types.h and include/kungfu/wingchun/common.h
--   Accounting/Book, Holdings      include/kungfu/wingchun/book/book.h and src/wingchun/book/book.cpp
--   Accounting/Stock, Trades, Closing, Days   src/wingchun/book/accounting/stock.hpp: order inputs and
--                           orders; trades that open; trades that close; quotes and trading days
--   Accounting/Freezing, Moves, Lives, Bounds, Steps, Runs, Mirroring   what these do to positions
--   Basket                  src/wingchun/basketorder: a basket order (Volumes, Settling), and the engine
--                           of all basket orders (Engine, Tracking, Running)
--   Broker/Trader           include/kungfu/wingchun/broker/trader.h and src/wingchun/broker/trader.cpp:
--                           Events how its handlers run, Recovery its start after a restart
--   Broker/Client           include/kungfu/wingchun/broker/client.h and src/wingchun/broker/client.cpp:
--                           Queries, Calls and Events its functions, the others its connections
--                           (Renewing, Connecting, Requests, Runs) and subscriptions (Told to Owning)
--   Service/Bars            src/wingchun/service/bar.cpp
-- The files named Tests hold runs of the definitions at concrete arguments.
--
-- How the code is read:
--   A mapped page is its header and the frame that starts at each offset, and a journal's files are a
--   function from page ids; a file that is missing or shorter than a header is none. An address is an
--   offset. Functions that change objects take the state and return it. An exception is an error or
--   none. Assertions are left out, as they are in a release build. Times, uids and volumes are natural
--   numbers, which stands for the values that the program gives them; what it computes modulo a power
--   of two (frame lengths, the counters of the ring queue) is computed so. The volumes of basket orders
--   and the times of a client are integers without a bound. Clocks, the locator's list of pages,
--   hashes, the reading and formatting of numbers are arguments; so is what a client or an engine
--   of basket orders asks of its process, anew at each step. std::stoi, which reads the ids of the
--   exchange of Hong Kong, is an argument that may fail, and whatever asks for the type of an instrument
--   fails with it.
--
-- Loops and fuel: the two loops of seek_to_time take fuel, and running out is an error of the model;
-- one round more than the journal has frames is enough. A reader's run takes the number of its frames.
-- The loop of the bars takes one round more than the time of the quote.
-- The loop of the match mode Multiple takes the volume, of which every round trades something, and
-- the matching of the order book one round for each level.
--
-- Not modelled: memory maps, sockets, logging, databases and the CTP library; the processes (master,
-- hero, apprentice), sessions, assembling, strategies, the ledger, the book keeper and the accounting
-- of futures and crypto, whose volumes may fall below zero; the policy IntradayResumePolicy; the
-- interleavings of threads on one ring queue or writer.
pub mod Base
pub mod Accounting
pub mod Basket
pub mod Broker
pub mod Cache
pub mod Journal
pub mod Service
pub mod Sim
pub mod Wingchun
