-- ===== src/Broker/Trader.antt =====
-- The class `Trader`, include/kungfu/wingchun/broker/trader.h and src/wingchun/broker/trader.cpp: the
-- detection of trades with oneself, batches of orders, block messages and the recovery after a restart.
-- `insert_order` and `insert_batch_orders` belong to the broker behind it; here they are the outputs.
-- An event is its source, its time and its data. `blank` is an order in freshly opened memory.
mod Crossing
pub mod Events
mod Detection
mod Safety
mod Batches
mod Handing
pub mod Recovery
mod Answers
mod Tests
use Prim.Native.String.{String}
use kungfu_cpp.Base.{
  ℕ, Bool, true, false, not, ◌&&◌, ◌||◌, Option, none, some, List, [], ◌∷◌, ◌++◌, if◌then◌else◌,
  ◌==◌,
}
use kungfu_cpp.Base.Dict.{lookup, assign, erase}
use kungfu_cpp.Base.Sets.{add_id}
use kungfu_cpp.Base.Double.{Double}
use kungfu_cpp.Wingchun.Enums.{
  Side, PriceType, buy, sell, lock, unlock, exec, drop, purchase, redemption, split, merge,
  margin_trade, short_sell, repay_margin, repay_stock, cash_repay_margin, stock_repay_stock,
  surplus_stock_transfer, guarantee_stock_transfer_in, guarantee_stock_transfer_out, unknown, limit,
  error,
}
use kungfu_cpp.Wingchun.Directions.{is_final_status}
use kungfu_cpp.Wingchun.Orders.{OrderInput, Order, Trade, order_from_input}
use kungfu_cpp.Wingchun.Products.{codes, same}

-- The number of a side in its enumeration.
abbrev pub side_value : Side → ℕ
side_value buy = 0
side_value sell = 1
side_value lock = 2
side_value unlock = 3
side_value exec = 4
side_value drop = 5
side_value purchase = 6
side_value redemption = 7
side_value split = 8
side_value merge = 9
side_value margin_trade = 10
side_value short_sell = 11
side_value repay_margin = 12
side_value repay_stock = 13
side_value cash_repay_margin = 14
side_value stock_repay_stock = 15
side_value surplus_stock_transfer = 16
side_value guarantee_stock_transfer_in = 17
side_value guarantee_stock_transfer_out = 18
side_value unknown = 99

abbrev pub is_side : Side → Side → Bool
is_side a b = side_value a == side_value b

abbrev pub is_limit : PriceType → Bool
is_limit limit = true
is_limit _ = false

-- `map_ex_instrument_to_order_ids_`, by the exchange and the instrument written one after the other.
abbrev pub InstrumentIds : Type 0
InstrumentIds = List (List ℕ × List ℕ)

abbrev pub instrument_key : String → String → List ℕ
instrument_key exchange_id instrument_id = codes exchange_id ++ codes instrument_id

unfoldable pub ids_of : List ℕ → InstrumentIds → List ℕ
ids_of key [] = []
ids_of key ((j, ids) ∷ m) = let rest = ids_of key m in if same j key then ids else rest

-- `try_emplace(key).first->second.emplace(id)`
unfoldable pub register : List ℕ → ℕ → InstrumentIds → InstrumentIds
register key id [] = (key, id ∷ []) ∷ []
register key id ((j, ids) ∷ m) =
    let rest = register key id m in if same j key then (j, add_id id ids) ∷ m else (j, ids) ∷ rest

module _ (d : Double) where
  open d use {Val, lt}

  -- `state<Order>`
  pub record OrderState : Type 0 where
    pub source : ℕ
    pub dest : ℕ
    pub update_time : ℕ
    pub order : Order Val

  -- `state<Trade>`
  pub record TradeState : Type 0 where
    pub source : ℕ
    pub dest : ℕ
    pub update_time : ℕ
    pub trade : Trade Val

  pub record BlockMessage : Type 0 where
    pub block_id : ℕ
    pub opponent_seat : String
    pub match_number : ℕ
    pub is_specific : Bool
    pub insert_time : ℕ

  pub record Trader : Type 0 where
    pub self_deal_detect : Bool
    pub disable_recover : Bool
    pub orders : List (ℕ × OrderState)
    pub trades : List (ℕ × TradeState)
    pub block_messages : List (ℕ × BlockMessage)
    pub order_inputs : List (ℕ × List (OrderInput Val))
    pub batch_status : List (ℕ × Bool)
    pub ids_by_instrument : InstrumentIds

  -- The lambda of `has_self_deal_risk`: whether an input may trade with a known order.
  unfoldable pub crosses : OrderInput Val → Order Val → Bool
  unfolding is_final_status
  crosses input o =
      if is_side o.side input.side || is_final_status o.status
      then false
      else if not (is_limit input.price_type)
      then true
      else if is_side input.side buy && lt input.limit_price o.limit_price
      then false
      else if is_side input.side sell && lt o.limit_price input.limit_price
      then false
      else true

  abbrev pub crosses_known : OrderInput Val → Option OrderState → Bool
  crosses_known input none = false
  crosses_known input (some s) = crosses input s.order

  unfoldable pub any_crosses : OrderInput Val → List (ℕ × OrderState) → List ℕ → Bool
  any_crosses input orders [] = false
  any_crosses input orders (id ∷ ids) =
      crosses_known input (lookup id orders) || any_crosses input orders ids

  abbrev pub key_of : OrderInput Val → List ℕ
  key_of input = instrument_key input.exchange_id input.instrument_id

  unfoldable pub risk_check : OrderInput Val → Trader → Bool
  unfolding any_crosses ids_of
  risk_check input t = any_crosses input t.orders (ids_of (key_of input) t.ids_by_instrument)

  abbrev pub registered : OrderInput Val → Trader → Trader
  registered input t = record t {
    ids_by_instrument = register (key_of input) input.order_id t.ids_by_instrument;
  }

  unfoldable pub has_self_deal_risk : OrderInput Val → Trader → Bool × Trader
  unfolding risk_check register
  has_self_deal_risk input t =
      if not t.self_deal_detect
      then (false, t)
      else if risk_check input t
      then (true, t)
      else (false, registered input t)

  -- What a call hands on: an order for the strategy that is its source, one input for the broker's
  -- insert_order, or the batch of a source for its insert_batch_orders.
  pub data Output : Type 0 where
    write_order : ℕ → Order Val → Output
    insert_order : ℕ → OrderInput Val → Output
    insert_batch_orders : ℕ → List (OrderInput Val) → Output

  abbrev pub self_deal_message : String
  self_deal_message = "该委托存在自成交风险,已拒绝下单"

  abbrev pub refusal : ℕ → OrderInput Val → Order Val → Order Val
  refusal gen_time input blank = record (order_from_input Val input blank) {
    status = error;
    error_msg = self_deal_message;
    insert_time = gen_time;
    update_time = gen_time;
  }

  -- What a map holds, or else the value that `try_emplace` makes.
  abbrev pub or_false : Option Bool → Bool
  or_false none = false
  or_false (some b) = b

  abbrev pub or_empty : Option (List (OrderInput Val)) → List (OrderInput Val)
  or_empty none = []
  or_empty (some is) = is

  abbrev pub is_batch : ℕ → Trader → Bool
  is_batch source t = or_false (lookup source t.batch_status)

  abbrev pub inputs_of : ℕ → Trader → List (OrderInput Val)
  inputs_of source t = or_empty (lookup source t.order_inputs)

  -- `batch_status_.try_emplace(source)`
  abbrev pub with_status : ℕ → Trader → Trader
  with_status source t = record t {
    batch_status = assign source (is_batch source t) t.batch_status;
  }

  unfoldable pub accept : ℕ → OrderInput Val → Trader → List Output × Trader
  accept source input t =
      if is_batch source t
      then (
        [],
        record (with_status source t) {
          order_inputs = assign source (inputs_of source t ++ input ∷ []) t.order_inputs;
        },
      )
      else (insert_order source input ∷ [], with_status source t)

  unfoldable pub handle_order_input :
      Order Val → ℕ → ℕ → OrderInput Val → Trader → List Output × Trader
  unfolding has_self_deal_risk accept
  handle_order_input blank source gen_time input t =
      let (risk, t') = has_self_deal_risk input t in
      if risk
      then (write_order source (refusal gen_time input blank) ∷ [], t')
      else accept source input t'

  abbrev pub clear_order_inputs : ℕ → Trader → Trader
  clear_order_inputs source t = record t { order_inputs = erase source t.order_inputs }

  -- `handle_batch_order_tag`, of BatchOrderBegin if `begins`, else of BatchOrderEnd
  unfoldable pub handle_batch_order_tag : Bool → ℕ → Trader → List Output × Trader
  unfolding erase lookup
  handle_batch_order_tag true source t =
      ([], record t { batch_status = assign source true t.batch_status })
  handle_batch_order_tag false source t = (
    insert_batch_orders source (inputs_of source t) ∷ [],
    clear_order_inputs source (record t { batch_status = assign source false t.batch_status }),
  )

  unfoldable pub insert_block_message : BlockMessage → Trader → Bool × Trader
  unfolding lookup
  insert_block_message m t = elim (lookup m.block_id t.block_messages) [
    | none ↦ (true, record t { block_messages = assign m.block_id m t.block_messages })
    | some known ↦ (false, t)
  ]
