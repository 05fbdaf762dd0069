-- ===== src/Broker/Trader/Tests.antt =====
-- Runs of a trader, in cents, and its theorems at concrete events.
use kungfu_cpp.Base.{ℕ, ◌≡◌, refl, inl, true, false, Bool, List, [], ◌∷◌, ◌++◌, All}
use kungfu_cpp.Base.Dict.{lookup, erase, Values}
use kungfu_cpp.Base.Int.{ℤ, pos}
use kungfu_cpp.Base.Cents.{cents}
use kungfu_cpp.Wingchun.Enums.{
  Side, buy, sell, limit, any, gfd, stock, speculation, «open», unknown, submitted,
}
use kungfu_cpp.Wingchun.Directions.{is_final_status}
use kungfu_cpp.Wingchun.Orders.{OrderInput, Order, order_from_input}
use kungfu_cpp.Broker.Trader.{
  OrderState, Trader, ids_of, register, crosses, any_crosses, risk_check, has_self_deal_risk,
  accept, handle_order_input, handle_batch_order_tag, inputs_of, insert_order, insert_batch_orders,
}
use kungfu_cpp.Broker.Trader.Crossing.{Safe}
use kungfu_cpp.Broker.Trader.Events.{
  Event, order_input, batch_order_begin, batch_order_end, handle, run, all_delivered_for,
}
use kungfu_cpp.Broker.Trader.Safety.{Reach, start, event, store, Reach-Safe}
use kungfu_cpp.Broker.Trader.Batches.{admitted, IsQuiet}
use kungfu_cpp.Broker.Trader.Handing.{run-Handled}
use kungfu_cpp.Broker.Trader.Recovery.{Sent, Received, order, recover}
use kungfu_cpp.Broker.Trader.Recovery
use kungfu_cpp.Broker.Trader.Answers.{IsPlaced, Answered, recover-Answered}

abbrev input_at : ℕ → Side → ℕ → OrderInput ℤ
input_at id side price = record {
  order_id = id;
  parent_id = 0;
  instrument_id = "600000";
  exchange_id = "SSE";
  instrument_type = stock;
  limit_price = pos price;
  frozen_price = pos price;
  volume = 100;
  is_swap = false;
  side = side;
  offset = «open»;
  hedge_flag = speculation;
  price_type = limit;
  volume_condition = any;
  time_condition = gfd;
  block_id = 0;
  insert_time = 40;
}

abbrev blank : Order ℤ
blank = record {
  order_id = 0;
  external_order_id = "";
  parent_id = 0;
  insert_time = 0;
  update_time = 0;
  trading_day = "";
  instrument_id = "";
  exchange_id = "";
  instrument_type = unknown;
  limit_price = pos 0;
  frozen_price = pos 0;
  volume = 0;
  volume_left = 0;
  tax = pos 0;
  commission = pos 0;
  status = unknown;
  error_id = 0;
  error_msg = "";
  is_swap = false;
  side = buy;
  offset = «open»;
  hedge_flag = speculation;
  price_type = limit;
  volume_condition = any;
  time_condition = gfd;
}

abbrev fresh : Trader cents
fresh = record {
  self_deal_detect = true;
  disable_recover = false;
  orders = [];
  trades = [];
  block_messages = [];
  order_inputs = [];
  batch_status = [];
  ids_by_instrument = [];
}

abbrev seller : OrderInput ℤ
seller = input_at 7 sell 1000

abbrev placed : OrderState cents
placed = record {
  source = 5;
  dest = 9;
  update_time = 50;
  order = record (order_from_input ℤ seller blank) { status = submitted; external_order_id = "x1" };
}

-- A sale at 10.00 is placed; a purchase at 9.00 is let through, and is safe with it.
abbrev sold : Trader cents
sold = (handle cents blank (order_input 9 45 seller) fresh).1

abbrev with_sale : Trader cents
with_sale = record sold { orders = (7, placed) ∷ erase 7 sold.orders }

reached : Reach cents blank (seller ∷ []) with_sale
unfolding handle handle_order_input has_self_deal_risk risk_check any_crosses ids_of accept lookup
reached =
    store seller placed (inl refl) (refl, refl)
      (event (order_input 9 45 seller)
        (start fresh (record { detects = refl; no_inputs = refl; no_orders = refl })))

Reach-Safe_example : Safe cents (input_at 8 buy 900) placed.order
unfolding handle handle_order_input has_self_deal_risk risk_check any_crosses ids_of accept lookup
    register crosses is_final_status erase
Reach-Safe_example = Reach-Safe cents (input_at 8 buy 900) 7 placed reached refl refl (refl, refl)

-- A purchase at 10.00 is refused.
refused : (has_self_deal_risk cents (input_at 8 buy 1000) with_sale).0 ≡ true
unfolding handle handle_order_input has_self_deal_risk risk_check any_crosses ids_of accept lookup
    register crosses is_final_status erase
refused = refl

abbrev batch : List (Event cents)
batch =
    order_input 9 45 (input_at 7 buy 900)
    ∷ batch_order_begin 9
    ∷ order_input 9 46 (input_at 8 buy 900)
    ∷ order_input 4 47 (input_at 10 buy 900)
    ∷ order_input 9 48 (input_at 11 buy 900)
    ∷ batch_order_end 9
    ∷ []

batched :
    (run cents blank batch fresh).0
    ≡ insert_order 9 (input_at 7 buy 900)
      ∷ insert_order 4 (input_at 10 buy 900)
      ∷ insert_batch_orders 9 (input_at 8 buy 900 ∷ input_at 11 buy 900 ∷ [])
      ∷ []
unfolding run handle handle_order_input handle_batch_order_tag has_self_deal_risk risk_check
    any_crosses ids_of accept lookup register crosses is_final_status erase
batched = refl

fresh-IsQuiet : IsQuiet cents fresh
unfolding lookup
fresh-IsQuiet source h = refl

run-Handled_example :
    (all_delivered_for cents 9 (run cents blank batch fresh).0
        ++ inputs_of cents 9 (run cents blank batch fresh).1
      ≡ inputs_of cents 9 fresh ++ admitted cents 9 blank batch fresh)
    × IsQuiet cents (run cents blank batch fresh).1
run-Handled_example = run-Handled cents blank 9 batch fresh fresh-IsQuiet

abbrev anywhere : ℕ → Bool
anywhere n = true

abbrev received : List (Received cents)
received = Recovery.order_input 9 seller ∷ Recovery.order_input 9 (input_at 8 buy 900) ∷ []

recover-Answered_example :
    let (os, t') = recover cents anywhere blank 99 (order placed ∷ []) received fresh in
    Values (IsPlaced cents) t'.orders × All (Answered cents anywhere blank 99 t' os) received
recover-Answered_example =
    recover-Answered cents anywhere blank 99 (order placed ∷ []) received fresh refl
