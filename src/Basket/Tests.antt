-- ===== src/Basket/Tests.antt =====
-- A dynamic basket order whose first order is cancelled and replaced by a second one, and the theorems at it.
use Prim.Native.String.{String}
use kungfu_cpp.Base.{ℕ, ◌≡◌, refl, false, Option, some, List, [], ◌∷◌, ◌==◌}
use kungfu_cpp.Base.Chains.{◌>>=◌}
use kungfu_cpp.Base.Dict.{lookup, erase}
use kungfu_cpp.Base.Int.{ℤ, pos, ◌+ℤ◌, ◌-ℤ◌}
use kungfu_cpp.Wingchun.Enums.{
  OrderStatus, filled, pending, stock, buy, «open», limit, any, gfd, speculation, last, dynamic,
  BasketOrderStatus,
}
use kungfu_cpp.Wingchun.Orders.{Order}
use kungfu_cpp.Wingchun.Directions.{get_direction, is_final_status}
use kungfu_cpp.Basket.{
  BasketOrder, BasketOrderState, hash_order, get_total_traded_volume, is_all_order_end,
  get_total_volume, update,
}
use kungfu_cpp.Basket.Volumes.{Keyed}
use kungfu_cpp.Basket.Settling.{updates, Balanced, updates-Balanced}
use kungfu_cpp.Basket.Engine.{Home, BasketOrderEngine, new_state, Event, inserts, order, run}
use kungfu_cpp.Basket.Tracking.{follow_all, Tracked}
use kungfu_cpp.Basket.Running.{run-Tracked}

abbrev hash : String → String → ℕ
hash exchange_id instrument_id = 5

abbrev order_at : ℕ → ℕ → ℕ → ℕ → OrderStatus → Order ℤ
order_at id insert_time volume volume_left status = record {
  order_id = id;
  external_order_id = "";
  parent_id = 77;
  insert_time = insert_time;
  update_time = insert_time;
  trading_day = "";
  instrument_id = "600000";
  exchange_id = "SSE";
  instrument_type = stock;
  limit_price = pos 1000;
  frozen_price = pos 1000;
  volume = volume;
  volume_left = volume_left;
  tax = pos 0;
  commission = pos 0;
  status = status;
  error_id = 0;
  error_msg = "";
  is_swap = false;
  side = buy;
  offset = «open»;
  hedge_flag = speculation;
  price_type = limit;
  volume_condition = any;
  time_condition = gfd;
}

abbrev basket_order : BasketOrder ℤ
basket_order = record {
  order_id = 77;
  parent_id = 0;
  insert_time = 10;
  update_time = 10;
  side = buy;
  price_type = limit;
  price_level = last;
  price_offset = pos 0;
  volume = pos 0;
  volume_left = pos 0;
  status = pending;
  source_id = 1;
  dest_id = 2;
  calculation_mode = dynamic;
}

abbrev first : Order ℤ
first = order_at 1 20 100 40 OrderStatus.cancelled

-- The second order asks for what the first one left.
abbrev second : Order ℤ
second = order_at 2 30 40 0 OrderStatus.filled

abbrev started : BasketOrderState ℤ
started = new_state ℤ 10 basket_order

first-Keyed : Keyed ℤ hash first
unfolding hash_order get_direction
first-Keyed = (5, refl)

second-Keyed : Keyed ℤ hash second
unfolding hash_order get_direction
second-Keyed = (5, refl)

abbrev alone : Order ℤ
alone = record second { parent_id = 0 }

alone-Keyed : Keyed ℤ hash alone
unfolding hash_order get_direction
alone-Keyed = (5, refl)

updates-Balanced_example :
    (s : BasketOrderState ℤ) × (updates ℤ hash (first ∷ second ∷ []) started ≡ some s)
    × Balanced ℤ hash s
updates-Balanced_example =
    updates-Balanced ℤ hash first (second ∷ []) started refl refl first-Keyed (second-Keyed, tt)

abbrev status_after : List (Order ℤ) → Option (ℤ × BasketOrderStatus)
status_after os =
    updates ℤ hash os started >>= λ s. some (s.basket_order.volume, s.basket_order.status)

all_filled : status_after (first ∷ second ∷ []) ≡ some (pos 100, filled)
unfolding update get_direction lookup erase get_total_traded_volume is_all_order_end
    get_total_volume ◌+ℤ◌ ◌-ℤ◌ is_final_status
all_filled = refl

one_cancelled :
    status_after (first ∷ []) ≡ some (pos 100, BasketOrderStatus.partial_filled_not_active)
unfolding update get_direction lookup erase get_total_traded_volume is_all_order_end
    get_total_volume ◌+ℤ◌ ◌-ℤ◌ is_final_status
one_cancelled = refl

abbrev home : Home
home = record { home_uid = 1; now = 50; has_writer = λ uid. uid == 2 }

abbrev empty : BasketOrderEngine ℤ
empty = record { baskets = []; basket_instruments = []; basket_order_states = [] }

abbrev events : List (Home × Event ℤ)
events =
    (home, inserts 10 basket_order)
    ∷ (home, order first)
    ∷ (home, order second)
    ∷ (home, order alone)
    ∷ []

run-Tracked_example :
    Tracked ℤ hash (λ id ms. follow_all ℤ hash id events ms) empty (run ℤ hash events empty)
run-Tracked_example =
    run-Tracked ℤ hash events empty tt (refl, (first-Keyed, (second-Keyed, (alone-Keyed, tt))))
