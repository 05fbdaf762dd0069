-- ===== src/Broker/Trader/Recovery.antt =====
-- What a trader does with the journals of the day when it starts again: `recover`, `deal_write_frame` and
-- `deal_read_frame` of src/wingchun/broker/trader.cpp. The frames are those that the assembled reader
-- yields from the start of the day on; `now` is the time of the clock, `has_writer` says to which
-- processes the trader can write, and `blank` is an order in freshly opened memory.
use text.Mathlib.Text.{◌==◌ as str_eq}
use kungfu_cpp.Base.{
  ℕ, Bool, not, ◌&&◌, ◌||◌, Option, none, some, List, [], ◌∷◌, ◌++◌, if◌then◌else◌,
}
use kungfu_cpp.Base.Dict.{lookup, assign}
use kungfu_cpp.Base.Double.{Double}
use kungfu_cpp.Wingchun.Enums.{lost}
use kungfu_cpp.Wingchun.Directions.{is_final_status}
use kungfu_cpp.Wingchun.Orders.{OrderInput, Order, order_from_input}
use kungfu_cpp.Broker.Trader.{
  OrderState, TradeState, Trader, Output, write_order, instrument_key, register,
}

module _ (d : Double) where
  open d use {Val}

  -- A frame that the trader wrote, and one that it was sent: an order input with its source.
  pub data Sent : Type 0 where
    order : OrderState d → Sent
    trade : TradeState d → Sent
    other : Sent

  pub data Received : Type 0 where
    order_input : ℕ → OrderInput Val → Received
    other : Received

  abbrev order_key : Order Val → List ℕ
  order_key o = instrument_key o.exchange_id o.instrument_id

  unfoldable pub take_frame : Sent → Trader d → Trader d
  unfolding register
  take_frame (order s) t = record t {
    orders = assign s.order.order_id s t.orders;
    ids_by_instrument = register (order_key s.order) s.order.order_id t.ids_by_instrument;
  }
  take_frame (trade s) t = record t { trades = assign s.trade.trade_id s t.trades }
  take_frame other t = t

  unfoldable pub take_frames : List Sent → Trader d → Trader d
  unfolding take_frame
  take_frames [] t = t
  take_frames (f ∷ fs) t = take_frames fs (take_frame f t)

  -- An order that the broker may never have got.
  unfoldable pub is_lost : Bool → Order Val → Bool
  unfolding is_final_status
  is_lost disabled o = not (is_final_status o.status) && (str_eq o.external_order_id "" || disabled)

  abbrev pub mark_lost : ℕ → Order Val → Order Val
  mark_lost now o = record o { status = lost; update_time = now }

  unfoldable pub mark_state : ℕ → Bool → OrderState d → OrderState d
  unfolding is_lost
  mark_state now disabled s =
      if is_lost disabled s.order then record s { order = mark_lost now s.order } else s

  unfoldable pub mark_orders : ℕ → Bool → List (ℕ × OrderState d) → List (ℕ × OrderState d)
  unfolding mark_state
  mark_orders now disabled [] = []
  mark_orders now disabled ((id, s) ∷ m) =
      (id, mark_state now disabled s) ∷ mark_orders now disabled m

  -- The lost orders that are written to those who sent them.
  unfoldable pub lost_orders : (ℕ → Bool) → ℕ → Bool → List (ℕ × OrderState d) → List (Output d)
  unfolding is_lost
  lost_orders has_writer now disabled [] = []
  lost_orders has_writer now disabled ((id, s) ∷ m) =
      (if is_lost disabled s.order && has_writer s.dest
        then write_order s.dest (mark_lost now s.order) ∷ []
        else [])
      ++ lost_orders has_writer now disabled m

  unfoldable pub deal_write_frame :
      (ℕ → Bool) → ℕ → List Sent → Trader d → List (Output d) × Trader d
  unfolding take_frames mark_orders lost_orders
  deal_write_frame has_writer now fs t0 =
      let t = take_frames fs t0 in
      (
        lost_orders has_writer now t.disable_recover t.orders,
        record t { orders = mark_orders now t.disable_recover t.orders },
      )

  -- The order that answers an input which left no order.
  abbrev pub lost_input : Order Val → ℕ → OrderInput Val → Order Val
  lost_input blank now i = mark_lost now (order_from_input Val i blank)

  abbrev pub answer_missing :
      Option (OrderState d) → (ℕ → Bool) → Order Val → ℕ → ℕ → OrderInput Val → List (Output d)
  answer_missing none has_writer blank now source i =
      if has_writer source then write_order source (lost_input blank now i) ∷ [] else []
  answer_missing (some s) has_writer blank now source i = []

  unfoldable pub answer_frame : (ℕ → Bool) → Order Val → ℕ → Trader d → Received → List (Output d)
  answer_frame has_writer blank now t (order_input source i) =
      answer_missing (lookup i.order_id t.orders) has_writer blank now source i
  answer_frame has_writer blank now t other = []

  unfoldable pub deal_read_frame :
      (ℕ → Bool) → Order Val → ℕ → List Received → Trader d → List (Output d)
  unfolding answer_frame
  deal_read_frame has_writer blank now [] t = []
  deal_read_frame has_writer blank now (f ∷ fs) t =
      answer_frame has_writer blank now t f ++ deal_read_frame has_writer blank now fs t

  unfoldable pub recover :
      (ℕ → Bool) → Order Val → ℕ → List Sent → List Received → Trader d → List (Output d) × Trader d
  unfolding deal_write_frame deal_read_frame
  recover has_writer blank now sent received t =
      if t.disable_recover
      then ([], t)
      else (let (os, t') = deal_write_frame has_writer now sent t in
          (os ++ deal_read_frame has_writer blank now received t', t'))
