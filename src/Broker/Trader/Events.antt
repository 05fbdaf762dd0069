-- ===== src/Broker/Trader/Events.antt =====
-- The events of a trader and what a run of them hands on, src/wingchun/broker/trader.cpp: the functions
-- `react` and `on_start` of TraderVendor subscribe the handlers. A run begins after the RequestStart that
-- order inputs wait for, and holds the events of order inputs, batches and block messages; the other
-- events that these two functions subscribe to are left out.
use kungfu_cpp.Base.{ℕ, true, false, List, [], ◌∷◌, ◌++◌, if◌then◌else◌, ◌==◌}
use kungfu_cpp.Base.Double.{Double}
use kungfu_cpp.Wingchun.Orders.{OrderInput, Order}
use kungfu_cpp.Broker.Trader.{
  BlockMessage, Trader, Output, write_order, insert_order, insert_batch_orders, handle_order_input,
  handle_batch_order_tag, insert_block_message,
}

module _ (d : Double) where
  open d use {Val}

  -- An order input has a source and a time, a batch a source.
  pub data Event : Type 0 where
    order_input : ℕ → ℕ → OrderInput Val → Event
    batch_order_begin : ℕ → Event
    batch_order_end : ℕ → Event
    block_message : BlockMessage d → Event

  unfoldable pub handle : Order Val → Event → Trader d → List (Output d) × Trader d
  unfolding handle_order_input handle_batch_order_tag insert_block_message
  handle blank (order_input source gen_time input) t =
      handle_order_input d blank source gen_time input t
  handle blank (batch_order_begin source) t = handle_batch_order_tag d true source t
  handle blank (batch_order_end source) t = handle_batch_order_tag d false source t
  handle blank (block_message m) t = ([], (insert_block_message d m t).1)

  unfoldable pub run : Order Val → List Event → Trader d → List (Output d) × Trader d
  unfolding handle
  run blank [] t = ([], t)
  run blank (e ∷ es) t =
      let (os, t') = handle blank e t in let (rest, t'') = run blank es t' in (os ++ rest, t'')

  -- The inputs that an output gives to the broker, and those of one source.
  abbrev pub delivered : Output d → List (OrderInput Val)
  delivered (write_order source o) = []
  delivered (insert_order source input) = input ∷ []
  delivered (insert_batch_orders source inputs) = inputs

  abbrev pub all_delivered : List (Output d) → List (OrderInput Val)
  all_delivered [] = []
  all_delivered (o ∷ os) = delivered o ++ all_delivered os

  abbrev pub delivered_for : ℕ → Output d → List (OrderInput Val)
  delivered_for source (write_order s o) = []
  delivered_for source (insert_order s input) = if s == source then input ∷ [] else []
  delivered_for source (insert_batch_orders s inputs) = if s == source then inputs else []

  abbrev pub all_delivered_for : ℕ → List (Output d) → List (OrderInput Val)
  all_delivered_for source [] = []
  all_delivered_for source (o ∷ os) = delivered_for source o ++ all_delivered_for source os
