-- ===== src/Sim/OrderBook/Generator.antt =====
-- The order generator of the simulated market: `pad_book` and `gen_orders` of
-- brokers/sim/src/order_book.cpp. What the random engines return is a parameter of each call.
use Prim.Native.String.{String}
use kungfu_cpp.Base.{
  ℕ, zero, suc, ◌+◌, ◌-◌, ◌*◌, ◌%◌, ◌≤◌, ◌≡◌, refl, not, List, [], ◌∷◌, ◌++◌, arith, length,
  length-append, All, All-append, min, leb, ◌==◌, if◌then◌else◌, Bool-cases, inl, inr,
}
use kungfu_cpp.Base.Double.{Double}
use kungfu_cpp.Base.Int.{ℤ, pos, negsuc}
use kungfu_cpp.Sim.OrderBook.{
  Side, buy, sell, Order, OrderBook, max_depth, round_price, aggregate_bid_qty, aggregate_offer_qty,
}

abbrev pub max_qty : ℕ
max_qty = 100

-- The draws of one call of `gen_orders`: `bound_dis` once, `tick_dis` and the coin in round `i`, and
-- `dis` for the `j`-th order that pads a side in round `i`.
pub record Draws : Type 0 where
  pub start : ℤ
  pub tick : ℕ → ℕ
  pub coin : ℕ → ℕ
  pub buy_pad : ℕ → ℕ → ℕ
  pub sell_pad : ℕ → ℕ → ℕ

module _ (d : Double) where
  open d use {Val, lt, add, sub, mul, neg, lit}

  pub record MakerConfig : Type 0 where
    pub base : Val
    pub bound : ℕ
    pub samples : ℕ
    pub variation : ℕ

  abbrev of_ℤ : ℤ → Val
  of_ℤ (pos n) = lit n 0
  of_ℤ (negsuc n) = neg (lit (suc n) 0)

  abbrev min_tick : Val
  min_tick = lit 1 2

  abbrev one : Val
  one = lit 1 0

  abbrev sign_of : Side → Val
  sign_of buy = neg one
  sign_of sell = one

  -- `num` orders from the `i`-th on, two ticks apart.
  unfoldable pub pad_from : String → Side → Val → (ℕ → ℕ) → ℕ → ℕ → List (Order d)
  pad_from security side price dis zero i = []
  pad_from security side price dis (suc num) i =
      record {
        secid = security;
        side = side;
        price = round_price d (add price (mul (mul (sign_of side) (lit (1 + 2 * i) 0)) min_tick));
        qty = dis i;
      }
      ∷ pad_from security side price dis num (i + 1)

  unfoldable pub pad_book : OrderBook d → ℕ → Val → Side → (ℕ → ℕ) → List (Order d)
  unfolding pad_from
  pad_book b depth price side dis =
      if leb max_depth depth then [] else pad_from b.security side price dis (max_depth - depth) 0

  module _ (b : OrderBook d) (config : MakerConfig) (draws : Draws) where
    -- The direction of round `i`, which is chosen anew every `variation` rounds. `variation` is 4
    -- in the program, where 0 would divide by zero.
    unfoldable pub turn : ℕ → Val → Val → Val
    turn i mid_price direction =
        if i % config.variation == 0
        then (if not (lt mid_price (add config.base (mul (lit config.bound 0) min_tick)))
            then neg one
            else if not (lt (sub config.base (mul (lit config.bound 0) min_tick)) mid_price)
            then one
            else if draws.coin i == 0
            then neg one
            else one)
        else direction

    abbrev order_at : Side → Val → ℕ → Order d
    order_at side price qty = record {
      secid = b.security;
      side = side;
      price = round_price d price;
      qty = qty;
    }

    -- The sweep of one side and the order on the other, then what pads both sides.
    unfoldable pub round_orders : ℕ → Val → Val → List (Order d)
    unfolding pad_book
    round_orders i mid_price direction =
        let sell_price = add mid_price min_tick in
        let buy_price = sub mid_price min_tick in
        (if lt direction (lit 0 0)
          then order_at sell sell_price (min (aggregate_bid_qty d b sell_price) max_qty + 1)
            ∷ order_at buy buy_price 1
            ∷ []
          else order_at buy buy_price (min (aggregate_offer_qty d b buy_price) max_qty + 1)
            ∷ order_at sell sell_price 1
            ∷ [])
        ++ (pad_book b (length b.bids) buy_price buy (draws.buy_pad i)
            ++ pad_book b (length b.offers) sell_price sell (draws.sell_pad i))

    unfoldable pub gen_from : ℕ → ℕ → Val → Val → List (List (Order d) × Val)
    unfolding turn round_orders
    gen_from zero i mid_price direction = []
    gen_from (suc rounds) i mid_price direction =
        let direction' = turn i mid_price direction in
        let mid_price' = add mid_price (mul (mul direction' (lit (draws.tick i) 0)) min_tick) in
        (round_orders i mid_price' direction', mid_price')
        ∷ gen_from rounds (i + 1) mid_price' direction'

    unfoldable pub gen_orders : List (List (Order d) × Val)
    unfolding gen_from
    gen_orders = gen_from config.samples 0 (add config.base (mul (of_ℤ draws.start) min_tick)) one

  module _ (b : OrderBook d) where
    -- An order for this book, of a quantity that no level of it could swell beyond.
    pub record IsModest (o : Order d) : Type 0 where
      pub for_book : o.secid ≡ b.security
      pub at_least : 1 ≤ o.qty
      pub at_most : o.qty ≤ max_qty + 1

    abbrev pub InDraws : (ℕ → ℕ) → Type 0
    InDraws dis = (j : ℕ) → (1 ≤ dis j) × (dis j ≤ 10)

    pad_from-IsModest :
        (side : Side) (price : Val) (dis : ℕ → ℕ) (num i : ℕ)
        → InDraws dis
        → All IsModest (pad_from b.security side price dis num i)
    unfolding pad_from
    pad_from-IsModest side price dis zero i h = tt
    pad_from-IsModest side price dis (suc num) i h = (
      record { for_book = refl; at_least = (h i).0; at_most = omega (arith, h i) },
      pad_from-IsModest side price dis num (i + 1) h,
    )

    length-pad_from :
        (side : Side) (price : Val) (dis : ℕ → ℕ) (num i : ℕ)
        → length (pad_from b.security side price dis num i) ≡ num
    unfolding pad_from
    length-pad_from side price dis zero i = refl
    length-pad_from side price dis (suc num) i =
        omega (arith, length-pad_from side price dis num (i + 1))

    pad_book-IsModest :
        (depth : ℕ) (price : Val) (side : Side) (dis : ℕ → ℕ)
        → InDraws dis
        → All IsModest (pad_book b depth price side dis)
          × (length (pad_book b depth price side dis) ≡ max_depth - depth)
    unfolding pad_book
    pad_book-IsModest depth price side dis h = elim (Bool-cases (leb max_depth depth)) [
      | inl deep ↦ rw deep (tt, ground (arith, deep))
      | inr room ↦ rw room (
        pad_from-IsModest side price dis (max_depth - depth) 0 h,
        length-pad_from side price dis (max_depth - depth) 0,
      )
    ]

  module _ (b : OrderBook d) (config : MakerConfig) (draws : Draws) where
    -- What a round offers: modest orders, enough to fill both sides and two more.
    abbrev pub IsRound : List (Order d) × Val → Type 0
    IsRound r =
        All (IsModest b) r.0
        × (length r.0 ≡ 2 + ((max_depth - length b.bids) + (max_depth - length b.offers)))

    round_orders-IsRound :
        (i : ℕ) (mid_price direction : Val)
        → InDraws b (draws.buy_pad i)
        → InDraws b (draws.sell_pad i)
        → IsRound (round_orders b config draws i mid_price direction, mid_price)
    unfolding round_orders
    round_orders-IsRound i mid_price direction hb hs =
        let buys =
          pad_book-IsModest b (length b.bids) (sub mid_price min_tick) buy (draws.buy_pad i) hb in
        let sells =
          pad_book-IsModest b (length b.offers) (add mid_price min_tick) sell (draws.sell_pad i)
            hs in
        let pads = All-append (IsModest b) _ _ buys.0 sells.0 in
        let count =
          length-append (pad_book b (length b.bids) (sub mid_price min_tick) buy (draws.buy_pad i))
            (pad_book b (length b.offers) (add mid_price min_tick) sell (draws.sell_pad i)) in
        elim (Bool-cases (lt direction (lit 0 0))) [
          | inl down ↦ rw down (
            (
              record { for_book = refl; at_least = omega arith; at_most = omega arith },
              (record { for_book = refl; at_least = omega arith; at_most = omega arith }, pads),
            ),
            omega (arith, count, buys.1, sells.1),
          )
          | inr up ↦ rw up (
            (
              record { for_book = refl; at_least = omega arith; at_most = omega arith },
              (record { for_book = refl; at_least = omega arith; at_most = omega arith }, pads),
            ),
            omega (arith, count, buys.1, sells.1),
          )
        ]

    gen_from-IsRound :
        (rounds i : ℕ) (mid_price direction : Val)
        → ((j : ℕ) → InDraws b (draws.buy_pad j) × InDraws b (draws.sell_pad j))
        → All IsRound (gen_from b config draws rounds i mid_price direction)
          × (length (gen_from b config draws rounds i mid_price direction) ≡ rounds)
    unfolding gen_from
    gen_from-IsRound zero i mid_price direction h = (tt, refl)
    gen_from-IsRound (suc rounds) i mid_price direction h =
        let rest =
          gen_from-IsRound rounds (i + 1) _ (turn b config draws i mid_price direction) h in
        ((round_orders-IsRound i _ _ (h i).0 (h i).1, rest.0), omega (arith, rest.1))

    -- With padding draws in 1..10 the generator makes `samples` rounds, each of modest orders for this
    -- book (quantity 1 to max_qty + 1) and of two more orders than both sides lack levels.
    pub gen_orders-IsRound :
        ((j : ℕ) → InDraws b (draws.buy_pad j) × InDraws b (draws.sell_pad j))
        → All IsRound (gen_orders b config draws)
          × (length (gen_orders b config draws) ≡ config.samples)
    unfolding gen_orders
    gen_orders-IsRound h = gen_from-IsRound config.samples 0 _ one h
