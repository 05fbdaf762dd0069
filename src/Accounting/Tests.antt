-- ===== src/Accounting/Tests.antt =====
-- Runs of the accounting of stocks, in cents, and the theorem at an account.
use Prim.Native.String.{String}
use kungfu_cpp.Base.{List, arith, ℕ, ◌≡◌, refl, false, Option, none, some, [], ◌∷◌}
use kungfu_cpp.Base.Dict.{lookup, erase}
use kungfu_cpp.Base.Int.{ℤ, pos, ◌+ℤ◌, ◌-ℤ◌, ◌*ℤ◌}
use kungfu_cpp.Base.Cents.{cents}
use kungfu_cpp.Wingchun.Enums.{
  Direction, short, Side, buy, sell, margin_trade, limit, any, gfd, stock, speculation, «open»,
  close, cancelled, unknown, long, account,
}
use kungfu_cpp.Wingchun.Directions.{get_direction, is_shortable, is_final_status}
use kungfu_cpp.Wingchun.Orders.{OrderInput, Order, Trade, order_from_input}
use kungfu_cpp.Accounting.Book.{
  positions, Position, Asset, AssetMargin, Book, get_position, put_position, get_frozen_price,
}
use kungfu_cpp.Accounting.Stock.{
  apply_order_input, apply_order, finish_order, input_applied, order_finished, input_book,
  order_book, input_position, order_position, get_instr_conversion_margin_rate,
}
use kungfu_cpp.Accounting.Closing.{
  apply_trade, trade_applied, trade_position, trade_assets, sell_position, sell_margin, sell_assets,
  repaid_debt,
}
use kungfu_cpp.Accounting.Days.{StockMethod}
use kungfu_cpp.Accounting.Holdings.{mirror_position_from}
use kungfu_cpp.Base.Chains.{◌>>=◌}
use kungfu_cpp.Wingchun.Instruments.{get_instrument_type}
use kungfu_cpp.Accounting.Lives.{live, fills, live-Lived}
use kungfu_cpp.Accounting.Runs.{Call, input, order, trade, trading_day, calls, calls-StateBounded}
use kungfu_cpp.Accounting.Steps.{StateBounded}
use kungfu_cpp.Accounting.Mirroring.{lookup-mirror_position_from}
use kungfu_cpp.Accounting.Bounds.{AreBounded}

abbrev one_hash : String → String → ℕ
one_hash e i = 1

abbrev stoi : String → Option ℕ
stoi s = some 0

abbrev held : Position cents
held = record {
  update_time = 0;
  trading_day = "20240102";
  instrument_id = "600000";
  instrument_type = stock;
  exchange_id = "SSE";
  holder_uid = 9;
  ledger_category = account;
  direction = long;
  volume = 500;
  yesterday_volume = 300;
  frozen_total = 100;
  frozen_yesterday = 100;
  last_price = pos 1000;
  avg_open_price = pos 900;
  position_cost_price = pos 0;
  close_price = pos 0;
  pre_close_price = pos 0;
  settlement_price = pos 0;
  pre_settlement_price = pos 0;
  margin = pos 0;
  position_pnl = pos 0;
  close_pnl = pos 0;
  realized_pnl = pos 0;
  unrealized_pnl = pos 0;
}

abbrev held_asset : Asset cents
held_asset = record {
  update_time = 0;
  trading_day = "20240102";
  holder_uid = 9;
  ledger_category = account;
  initial_equity = pos 0;
  static_equity = pos 0;
  dynamic_equity = pos 0;
  realized_pnl = pos 0;
  unrealized_pnl = pos 0;
  avail = pos 1000000;
  market_value = pos 0;
  margin = pos 0;
  accumulated_fee = pos 0;
  intraday_fee = pos 0;
  frozen_cash = pos 0;
  frozen_margin = pos 0;
  frozen_fee = pos 0;
  position_pnl = pos 0;
  close_pnl = pos 0;
}

abbrev held_margin : AssetMargin cents
held_margin = record {
  update_time = 0;
  trading_day = "20240102";
  holder_uid = 9;
  ledger_category = account;
  total_asset = pos 0;
  avail_margin = pos 1000000;
  cash_margin = pos 0;
  short_margin = pos 0;
  margin = pos 0;
  cash_debt = pos 0;
  short_cash = pos 0;
  short_market_value = pos 0;
  margin_market_value = pos 0;
  margin_interest = pos 0;
  settlement = pos 0;
  credit = pos 0;
  collateral_ratio = pos 0;
}

abbrev held_book : Book cents
held_book = record {
  instruments = [];
  asset = held_asset;
  asset_margin = held_margin;
  long_positions = (1, held) ∷ [];
  short_positions = [];
  orders = [];
}

abbrev input_of : Side → OrderInput ℤ
input_of side = record {
  order_id = 7;
  parent_id = 0;
  instrument_id = "600000";
  exchange_id = "SSE";
  instrument_type = stock;
  limit_price = pos 1000;
  frozen_price = pos 1000;
  volume = 100;
  is_swap = false;
  side = side;
  offset = close;
  hedge_flag = speculation;
  price_type = limit;
  volume_condition = any;
  time_condition = gfd;
  block_id = 0;
  insert_time = 40;
}

abbrev blank : Order ℤ
blank = record {
  order_id = 0;
  external_order_id = "";
  parent_id = 0;
  insert_time = 0;
  update_time = 0;
  trading_day = "";
  instrument_id = "";
  exchange_id = "";
  instrument_type = unknown;
  limit_price = pos 0;
  frozen_price = pos 0;
  volume = 0;
  volume_left = 0;
  tax = pos 0;
  commission = pos 0;
  status = unknown;
  error_id = 0;
  error_msg = "";
  is_swap = false;
  side = buy;
  offset = «open»;
  hedge_flag = speculation;
  price_type = limit;
  volume_condition = any;
  time_condition = gfd;
}

abbrev avail_margin_of : Option (Book cents) → ℤ
avail_margin_of none = pos 0
avail_margin_of (some b) = b.asset_margin.avail_margin

abbrev margin_cancelled : Option (Book cents)
margin_cancelled =
    elim (apply_order_input cents one_hash stoi (pos 60) (pos 70) held_book
      (input_of margin_trade)) [
        | none ↦ none
        | some b ↦
            apply_order cents one_hash stoi (pos 60) (pos 70) b
              (record (order_from_input ℤ (input_of margin_trade) blank) { status = cancelled })
      ]

-- A margin trade that is cancelled leaves more margin than there was: 100 shares at 10.00 are released
-- twice.
margin_gained : avail_margin_of margin_cancelled ≡ pos 1100000
unfolding apply_order_input apply_order finish_order input_applied order_finished input_book
    order_book input_position order_position get_instr_conversion_margin_rate get_direction
    is_final_status get_position put_position get_frozen_price lookup erase ◌+ℤ◌ ◌-ℤ◌ ◌*ℤ◌
margin_gained = refl

held_book-AreBounded : AreBounded cents held_book
held_book-AreBounded long = ((omega arith, omega arith), tt)
held_book-AreBounded short = tt

abbrev filled : ℕ → Trade ℤ
filled n = record {
  trade_id = 3;
  order_id = 7;
  external_order_id = "x";
  external_trade_id = "y";
  trade_time = 50;
  trading_day = "20240102";
  instrument_id = "600000";
  exchange_id = "SSE";
  instrument_type = stock;
  side = sell;
  offset = close;
  hedge_flag = speculation;
  price = pos 1100;
  volume = n;
  tax = pos 10;
  commission = pos 20;
}

-- A sale of 100 that trades 30 and 40 and is cancelled: 430 of 500 are left, 230 of yesterday's 300,
-- and 100 frozen as before, of yesterday's too.
live-Lived_example :
    (b' : Book cents) × (q : Position cents) × (live cents one_hash stoi
        (pos 60)
        (pos 70)
        held_book
        (input_of sell)
        (fills cents one_hash stoi
          (pos 60)
          (pos 70)
          (order_from_input ℤ (input_of sell) blank)
          (filled 30 ∷ filled 40 ∷ []))
        (record (order_from_input ℤ (input_of sell) blank) { status = cancelled; volume_left = 30 })
      ≡ some b')
    × (get_position cents one_hash stoi long "SSE" "600000" b' ≡ some q)
    × ((q.volume ≡ 430)
        × (q.frozen_total ≡ 100)
        × (q.yesterday_volume ≡ 230)
        × (q.frozen_yesterday ≡ 100))
unfolding get_direction is_shortable get_position lookup is_final_status
live-Lived_example =
    live-Lived cents one_hash stoi (pos 60) (pos 70) held_book (input_of sell) blank
      (filled 30 ∷ filled 40 ∷ []) cancelled 30 long held refl refl refl refl

abbrev frozen_of : Option (Book cents) → Option ℕ
frozen_of r = do
  b ← r
  p ← get_position cents one_hash stoi long "SSE" "600000" b
  some p.frozen_yesterday

abbrev sale : OrderInput ℤ
sale = record (input_of sell) { volume = 250 }

-- A sale of 250, of which 200 of yesterday's volume were free, is cancelled: 50 stay frozen of the 100
-- that were.
thawed_twice :
    frozen_of (
      apply_order_input cents one_hash stoi (pos 60) (pos 70) held_book sale >>= λ b.
      apply_order cents one_hash stoi
        (pos 60)
        (pos 70)
        b
        (record (order_from_input ℤ sale blank) { status = cancelled; volume_left = 250 }))
    ≡ some 50
unfolding apply_order_input apply_order finish_order input_applied order_finished input_book
    order_book input_position order_position get_instr_conversion_margin_rate get_direction
    is_shortable is_final_status get_position put_position get_frozen_price lookup erase ◌+ℤ◌ ◌-ℤ◌
    ◌*ℤ◌
thawed_twice = refl

abbrev avail_of : Option (Book cents) → ℤ
avail_of none = pos 0
avail_of (some b) = b.asset.avail

-- 30 shares sold at 11.00 with 0.30 of fees.
sold :
    avail_of (apply_trade cents one_hash stoi (pos 60) (pos 70) held_book (filled 30)) ≡ pos 1032970
unfolding apply_trade trade_applied trade_position trade_assets sell_position sell_margin
    sell_assets repaid_debt get_instr_conversion_margin_rate get_direction get_position put_position
    get_frozen_price lookup erase ◌+ℤ◌ ◌-ℤ◌ ◌*ℤ◌
sold = refl

abbrev method : StockMethod cents one_hash stoi (pos 60) (pos 70)
method = record { counter = 0; short_market_value = pos 0; long_market_value = pos 0 }

abbrev some_calls : List (Call cents one_hash stoi (pos 60) (pos 70))
some_calls =
    input (input_of sell)
    ∷ trade (filled 30)
    ∷ order (record (order_from_input ℤ (input_of sell) blank) { status = cancelled })
    ∷ trading_day 20240103
    ∷ []

abbrev day_of : ℕ → String
day_of n = "20240103"

calls-StateBounded_example :
    StateBounded cents one_hash stoi
      (pos 60)
      (pos 70)
      (calls cents one_hash stoi (pos 60) (pos 70) day_of some_calls (method, held_book))
calls-StateBounded_example =
    calls-StateBounded cents one_hash stoi (pos 60) (pos 70) day_of some_calls (method, held_book)
      held_book-AreBounded

abbrev replica : Book cents
replica = record held_book { long_positions = (1, record held { volume = 700 }) ∷ [] }

lookup-mirror_position_from_example :
    (b' : Book cents) × (mirror_position_from cents one_hash stoi replica held_book ≡ some b')
    × ((dir : Direction) (k : ℕ)
        → lookup k (positions cents dir b') ≡ lookup k (positions cents dir replica))
unfolding lookup get_instrument_type
lookup-mirror_position_from_example =
    lookup-mirror_position_from cents one_hash stoi replica held_book
      (refl, refl, refl, (stock, refl), tt) tt
