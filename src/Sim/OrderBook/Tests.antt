-- ===== src/Sim/OrderBook/Tests.antt =====
-- Runs of the order book, and the theorems at concrete books.
use kungfu_cpp.Base.{ℕ, ◌≡◌, refl, List, [], ◌∷◌, arith, All, not, length}
use kungfu_cpp.Base.Int.{ℤ, pos, ◌+ℤ◌, ◌-ℤ◌, ◌*ℤ◌}
use kungfu_cpp.Base.Cents.{cents}
use kungfu_cpp.Sim.OrderBook.Levels.{Level, find, insert, erase, drop_last}
use kungfu_cpp.Sim.OrderBook.{
  buy, sell, Order, OrderBook, Trade, ok, order, round_price, aggregate_bid_qty,
  aggregate_offer_qty,
}
use kungfu_cpp.Sim.OrderBook.Invariant.{IsValid, Conserves, order-IsValid, order-Conserves}
use kungfu_cpp.Sim.OrderBook.Prices.{WithinLimit, limit, order-WithinLimit, aggregate_lem, reached}
use kungfu_cpp.Sim.OrderBook.Generator.{Draws, MakerConfig, IsRound, gen_orders, gen_orders-IsRound}

abbrev level : ℕ → ℕ → Level ℤ
level p q = record { price = pos p; qty = q; order_count = 1 }

abbrev quoted : OrderBook cents
quoted = record {
  bids = level 10000 5 ∷ level 9900 2 ∷ [];
  offers = level 10100 3 ∷ level 10200 4 ∷ [];
  security = "600000";
  last_price = pos 0;
}

abbrev lift : Order cents
lift = record { secid = "600000"; side = buy; price = pos 10200; qty = 4 }

abbrev hit : Order cents
hit = record { secid = "600000"; side = sell; price = pos 9900; qty = 6 }

abbrev lifted : OrderBook cents × List (Trade cents)
lifted = (
  record quoted { offers = level 10200 3 ∷ []; last_price = pos 10200 },
  record { price = pos 10100; qty = 3; aggressor = buy }
      ∷ record { price = pos 10200; qty = 1; aggressor = buy }
      ∷ [],
)

order-lift : order cents quoted lift ≡ ok lifted
unfolding ◌+ℤ◌ ◌-ℤ◌ ◌*ℤ◌ order find insert erase drop_last
order-lift = refl

quoted-IsValid : IsValid cents quoted
quoted-IsValid = record {
  ordered = record {
    bids_sorted = ((refl, tt), (tt, tt));
    offers_sorted = ((refl, tt), (tt, tt));
    bids_positive = omega arith;
    offers_positive = omega arith;
  };
  bids_depth = omega arith;
  offers_depth = omega arith;
  apart = ((refl, (refl, tt)), ((refl, (refl, tt)), tt));
}

order-IsValid_example :
    (r : OrderBook cents × List (Trade cents)) × (order cents quoted lift ≡ ok r)
    × IsValid cents r.0
order-IsValid_example = order-IsValid cents quoted lift (omega arith) quoted-IsValid refl

order-Conserves_example : Conserves cents buy quoted 4 lifted
order-Conserves_example =
    order-Conserves cents quoted lift lifted (omega arith) quoted-IsValid order-lift

-- The sell meets bids at 100.00 and 99.00, and trades at 99.00, its own limit.
abbrev hit_trades : OrderBook cents × List (Trade cents)
hit_trades = (
  record quoted { bids = level 9900 1 ∷ []; last_price = pos 9900 },
  record { price = pos 9900; qty = 5; aggressor = sell }
      ∷ record { price = pos 9900; qty = 1; aggressor = sell }
      ∷ [],
)

order-hit : order cents quoted hit ≡ ok hit_trades
unfolding ◌+ℤ◌ ◌-ℤ◌ ◌*ℤ◌ order find insert erase drop_last
order-hit = refl

order-WithinLimit_example : All (WithinLimit cents (limit cents hit) sell) (hit_trades.1)
order-WithinLimit_example = order-WithinLimit cents quoted hit hit_trades quoted-IsValid order-hit

limit-hit : limit cents hit ≡ pos 9900
unfolding ◌+ℤ◌ ◌-ℤ◌ ◌*ℤ◌ round_price
limit-hit = refl

aggregate_lem_example :
    (aggregate_bid_qty cents quoted (pos 9950)
      ≡ reached cents (λ q. not (cents.lt q (pos 9950))) quoted.bids)
    × (aggregate_offer_qty cents quoted (pos 9950)
        ≡ reached cents (λ q. not (cents.lt (pos 9950) q)) quoted.offers)
aggregate_lem_example = aggregate_lem cents quoted (pos 9950) quoted-IsValid

abbrev constant : ℕ → Draws
constant n = record {
  start = pos 0;
  tick = λ i. 3;
  coin = λ i. 0;
  buy_pad = λ i j. n;
  sell_pad = λ i j. n;
}

abbrev maker : MakerConfig cents
maker = record { base = pos 20000; bound = 10; samples = 3; variation = 2 }

gen_orders-IsRound_example :
    All (IsRound cents quoted maker (constant 7)) (gen_orders cents quoted maker (constant 7))
    × (length (gen_orders cents quoted maker (constant 7)) ≡ 3)
gen_orders-IsRound_example =
    gen_orders-IsRound cents quoted maker (constant 7) (λ j. (λ k. omega arith, λ k. omega arith))
