-- ===== src/Sim/Trader/Tests.antt =====
-- Runs of the simulated trader, and the theorems at concrete orders. A price is a number of cents.
use Prim.Native.String.{String}
use text.Mathlib.Text.{◌==◌ as str_eq}
use kungfu_cpp.Base.Chains.{◌>>=◌}
use kungfu_cpp.Base.{some, Option, ℕ, ◌+◌, ◌*◌, ◌≡◌, refl, false, List, [], ◌∷◌, length, ◌==◌}
use kungfu_cpp.Wingchun.Enums.{
  buy, limit, any, gfd, stock, speculation, «open», partial_filled_active,
}
use kungfu_cpp.Wingchun.Instruments.{get_instrument_type, sse_type}
use kungfu_cpp.Wingchun.Orders.{OrderInput, Order}
use kungfu_cpp.Sim.Trader.{
  match_mode_to_string, match_mode_from_string, Event, Message, TraderSim, MatchMode, insert_order_,
  decide, get_min_volume, write_parts, write_trades, partial_fill, multiple, order, trade, order_of,
}
use kungfu_cpp.Sim.Trader.Cancelling.{match_mode_from_string-match_mode_to_string}

abbrev stoi : String → Option ℕ
stoi s = some 0

abbrev decimal : ℕ → String
decimal n = "7"

abbrev uids : ℕ → List (ℕ × Message ℕ 0 stoi decimal) → ℕ
uids source ms = 1000 * source + length ms

abbrev start : MatchMode → TraderSim ℕ 0 stoi decimal
start mode = record {
  match_mode = mode;
  orders = [];
  block_messages = [];
  order_inputs = [];
  written = [];
}

abbrev event : Event
event = record { source = 3; gen_time = 50; now = 60; today = "20240102" }

abbrev input : OrderInput ℕ
input = record {
  order_id = 7;
  parent_id = 0;
  instrument_id = "600000";
  exchange_id = "SSE";
  instrument_type = stock;
  limit_price = 1025;
  frozen_price = 1025;
  volume = 250;
  is_swap = false;
  side = buy;
  offset = «open»;
  hedge_flag = speculation;
  price_type = limit;
  volume_condition = any;
  time_condition = gfd;
  block_id = 0;
  insert_time = 40;
}

volumes : List (ℕ × Message ℕ 0 stoi decimal) → List ℕ
volumes [] = []
volumes ((s, order o) ∷ ms) = volumes ms
volumes ((s, trade t) ∷ ms) = t.volume ∷ volumes ms

-- 250 shares in lots of 100.
trade_volumes :
    (insert_order_ ℕ 0 stoi decimal uids event input (start multiple) >>= λ r.
    some (volumes r.1.written))
    ≡ some (100 ∷ 100 ∷ 50 ∷ [])
unfolding volumes insert_order_ write_trades write_parts decide get_min_volume get_instrument_type
    sse_type
trade_volumes = refl

abbrev half : Order ℕ
half = record (order_of ℕ 0 stoi decimal event input stock) {
  volume_left = 150;
  status = partial_filled_active;
}

abbrev holding : TraderSim ℕ 0 stoi decimal
holding = record (start partial_fill) { orders = (7, half) ∷ [] }

match_mode_from_string-match_mode_to_string_example :
    match_mode_from_string "partialfill" ≡ partial_fill
unfolding match_mode_to_string
match_mode_from_string-match_mode_to_string_example =
    match_mode_from_string-match_mode_to_string partial_fill
