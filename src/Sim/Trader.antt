-- ===== src/Sim/Trader.antt =====
-- The simulated trader, brokers/sim/src/trader_sim.cpp and match_mode.h. Parameters: `zero` is the
-- price 0.0, `number` is std::stoi, `decimal` formats a number, and `uid` is the uid of the frame that
-- the writer of a source is about to write, given all that has been written.
mod Volumes
mod Inserting
mod Cancelling
mod Tests
use Prim.Native.String.{String}
use text.Mathlib.Text.{◌==◌ as str_eq}
use kungfu_cpp.Base.{
  ℕ, zero, suc, ◌+◌, ◌-◌, Bool, true, false, not, ◌&&◌, Option, none, some, List, [], ◌∷◌, ◌++◌,
  ltb, ◌==◌, if◌then◌else◌, min,
}
use kungfu_cpp.Base.Chains.{◌>>=◌}
use kungfu_cpp.Base.Dict.{lookup, erase, assign}
use kungfu_cpp.Wingchun.Enums.{
  InstrumentType, Side, OrderStatus, unknown, stock, repo, buy, «open», speculation, limit, any,
  gfd, error, pending, cancelled, filled, partial_filled_not_active, partial_filled_active, ioc,
}
use kungfu_cpp.Wingchun.Instruments.{get_instrument_type}
use kungfu_cpp.Wingchun.Orders.{OrderInput, Order, Trade, order_from_input}

pub data MatchMode : Type 0 where
  reject pend cancel partial_fill_and_cancel partial_fill fill multiple : MatchMode

unfoldable pub match_mode_to_string : MatchMode → String
match_mode_to_string reject = "reject"
match_mode_to_string pend = "pend"
match_mode_to_string cancel = "cancel"
match_mode_to_string partial_fill_and_cancel = "partialfillandcancel"
match_mode_to_string partial_fill = "partialfill"
match_mode_to_string fill = "fill"
match_mode_to_string multiple = "multiple_transactions"

unfoldable pub match_mode_from_string : String → MatchMode
match_mode_from_string s =
    if str_eq s "reject"
    then reject
    else if str_eq s "pend"
    then pend
    else if str_eq s "cancel"
    then cancel
    else if str_eq s "partialfillandcancel"
    then partial_fill_and_cancel
    else if str_eq s "partialfill"
    then partial_fill
    else if str_eq s "multiple_transactions"
    then multiple
    else fill

unfoldable pub get_min_volume : InstrumentType → ℕ
get_min_volume stock = 100
get_min_volume _ = 1

-- What a handler reads of an event, and of the clock.
pub record Event : Type 0 where
  pub source : ℕ
  pub gen_time : ℕ
  pub now : ℕ
  pub today : String

-- The volume that a mode trades, the status that it gives and its message: the switch.
unfoldable pub decide : MatchMode → ℕ → ℕ → ℕ × OrderStatus × String
decide reject min_volume volume = (0, error, "rejected by sim")
decide pend min_volume volume = (0, pending, "")
decide cancel min_volume volume = (0, cancelled, "")
decide partial_fill_and_cancel min_volume volume =
    (min_volume, (if min_volume == volume then filled else partial_filled_not_active), "")
decide partial_fill min_volume volume =
    (min_volume, (if min_volume == volume then filled else partial_filled_active), "")
decide fill min_volume volume = (volume, filled, "")
decide multiple min_volume volume = (volume, filled, "")

abbrev is_repo_purchase : InstrumentType → Side → Bool
is_repo_purchase repo buy = true
is_repo_purchase _ _ = false

abbrev is_multiple : MatchMode → Bool
is_multiple multiple = true
is_multiple _ = false

module _ (Val : Type 0) (zero_price : Val) (number : String → Option ℕ) (decimal : ℕ → String) where
  pub data Message : Type 0 where
    order : Order Val → Message
    trade : Trade Val → Message

  -- `written` are the messages with the sources whose writers wrote them, oldest first.
  pub record TraderSim : Type 0 where
    pub match_mode : MatchMode
    pub orders : List (ℕ × Order Val)
    pub block_messages : List (ℕ × ℕ)
    pub order_inputs : List (ℕ × List (OrderInput Val))
    pub written : List (ℕ × Message)

  abbrev pub write : ℕ → Message → TraderSim → TraderSim
  write source m s = record s { written = s.written ++ (source, m) ∷ [] }

  -- `Order order{}` and `Trade trade{}`.
  abbrev new_order : Order Val
  new_order = record {
    order_id = 0;
    external_order_id = "";
    parent_id = 0;
    insert_time = 0;
    update_time = 0;
    trading_day = "";
    instrument_id = "";
    exchange_id = "";
    instrument_type = unknown;
    limit_price = zero_price;
    frozen_price = zero_price;
    volume = 0;
    volume_left = 0;
    tax = zero_price;
    commission = zero_price;
    status = unknown;
    error_id = 0;
    error_msg = "";
    is_swap = false;
    side = buy;
    offset = «open»;
    hedge_flag = speculation;
    price_type = limit;
    volume_condition = any;
    time_condition = ioc;
  }

  -- The order that an input becomes, of the type that its exchange and its id have.
  abbrev pub order_of : Event → OrderInput Val → InstrumentType → Order Val
  order_of e input instrument_type = record (order_from_input Val input new_order) {
    external_order_id = decimal input.order_id;
    insert_time = e.gen_time;
    update_time = e.gen_time;
    trading_day = e.today;
    instrument_type = instrument_type;
  }

  abbrev pub trade_of : Event → Order Val → ℕ → ℕ → Trade Val
  trade_of e o id volume = record {
    trade_id = id;
    order_id = o.order_id;
    external_order_id = o.external_order_id;
    external_trade_id = decimal id;
    trade_time = e.now;
    trading_day = e.today;
    instrument_id = o.instrument_id;
    exchange_id = o.exchange_id;
    instrument_type = o.instrument_type;
    side = o.side;
    offset = o.offset;
    hedge_flag = speculation;
    price = o.limit_price;
    volume = volume;
    tax = zero_price;
    commission = zero_price;
  }

  abbrev pub refused : String → Order Val → Order Val
  refused message o = record o { status = error; error_msg = message }

  module _ (uid : ℕ → List (ℕ × Message) → ℕ) where
    abbrev pub write_trade : Event → Order Val → ℕ → TraderSim → TraderSim
    write_trade e o volume s =
        write e.source (trade (trade_of e o (uid e.source s.written) volume)) s

    -- The loop of `Multiple`.
    unfoldable pub write_parts : ℕ → Event → Order Val → ℕ → ℕ → TraderSim → TraderSim
    write_parts zero e o min_volume remaining s = s
    write_parts (suc fuel) e o min_volume remaining s =
        let volume = min min_volume remaining in
        let rest =
          write_parts fuel e o min_volume (remaining - volume) (write_trade e o volume s) in
        if ltb 0 remaining then rest else s

    unfoldable pub write_trades : Event → Order Val → ℕ → ℕ → TraderSim → TraderSim
    unfolding write_parts
    write_trades e o min_volume traded s =
        if ltb 0 traded && not (is_multiple s.match_mode)
        then write_trade e o traded s
        else if ltb 0 traded
        then write_parts traded e o min_volume traded s
        else s

    abbrev pub has_block : ℕ → TraderSim → Bool
    has_block block s = elim (lookup block s.block_messages) [ none ↦ false | some b ↦ true ]

    -- `insert_order_` after the type of the instrument is known: the result, and the trader after it.
    unfoldable pub insert_typed :
        InstrumentType → Event → OrderInput Val → TraderSim → Bool × TraderSim
    unfolding write_trades decide get_min_volume
    insert_typed t e input s =
        let o = order_of e input t in
        let min_volume = get_min_volume o.instrument_type in
        let d = decide s.match_mode min_volume o.volume in
        let o' = record o { status = d.1; error_msg = d.2; volume_left = o.volume - d.0 } in
        if is_repo_purchase o.instrument_type o.side
        then (false, write e.source (order (refused "repo can not buy" o)) s)
        else if ltb input.volume min_volume
        then (false, write e.source (order (refused "volume less than minimum" o)) s)
        else if not (input.block_id == 0) && not (has_block input.block_id s)
        then (false, write e.source (order (refused "No Block Message" o')) s)
        else (
          true,
          write_trades e o' min_volume d.0
              (record (write e.source (order o') s) { orders = assign o'.order_id o' s.orders }),
        )

    -- `insert_order_`; none is the exception of `get_instrument_type`, before anything is written.
    unfoldable pub insert_order_ : Event → OrderInput Val → TraderSim → Option (Bool × TraderSim)
    unfolding insert_typed get_instrument_type
    insert_order_ e input s = do
      t ← get_instrument_type number input.exchange_id input.instrument_id
      some (insert_typed t e input s)

    -- The inputs of a batch, one after the other; their results are not looked at.
    unfoldable pub insert_all : Event → List (OrderInput Val) → TraderSim → Option TraderSim
    unfolding insert_order_
    insert_all e [] s = some s
    insert_all e (input ∷ inputs) s = insert_order_ e input s >>= λ r. insert_all e inputs r.1

    unfoldable pub insert_batch_orders : Event → TraderSim → Option (Bool × TraderSim)
    unfolding insert_all
    insert_batch_orders e s = elim (lookup e.source s.order_inputs) [
      | none ↦ some (true, s)
      | some inputs ↦
          (insert_all e inputs s >>= λ s'.
          some (true, record s' { order_inputs = erase e.source s'.order_inputs }))
    ]

    -- The difference of the volumes is signed, so that it is 0 exactly if they are equal.
    abbrev pub cancelled_order : Event → Order Val → Order Val
    cancelled_order e o = record o {
      update_time = e.now;
      status = if o.volume == o.volume_left then cancelled else partial_filled_not_active;
    }

    unfoldable pub cancel_order : Event → ℕ → TraderSim → Bool × TraderSim
    cancel_order e id s = elim (lookup id s.orders) [
      | none ↦ (true, s)
      | some o ↦
          (let s' = record s { orders = erase id s.orders } in
            if o.volume_left == 0
            then (true, s')
            else (true, write e.source (order (cancelled_order e o)) s'))
    ]
