-- ===== src/Sim/OrderBook.antt =====
-- The order book of the simulated market, brokers/sim/src/order_book.h and order_book.cpp.
-- Both `std::set`s of price levels are lists with the best level first: `bids` in the order of
-- `rbegin()`, `offers` in that of `begin()`. A quantity is an int64_t that callers make positive.
pub mod Levels
pub mod Sorted
pub mod Matching
pub mod Placing
pub mod Invariant
pub mod Prices
pub mod Generator
mod Tests
use Prim.Native.String.{String}
use text.Mathlib.Text.{◌==◌ as str_eq}
use kungfu_cpp.Base.{
  ℕ, zero, suc, ◌+◌, ◌-◌, Bool, true, false, not, ◌&&◌, List, [], ◌∷◌, Option, none, some, length,
  min, get_elem?, ltb, ◌==◌, if◌then◌else◌, Option,
}
use kungfu_cpp.Base.Double.{Double}
use kungfu_cpp.Base.Int.{ℤ, pos, negsuc}
use Levels.{Level, insert, find, erase, drop_last}

pub data Side : Type 0 where
  buy sell : Side

abbrev pub max_depth : ℕ
max_depth = 20

abbrev pub max_level_qty : ℕ
max_level_qty = 2000

-- What a call that throws does: the two messages of the class.
pub data BookError : Type 0 where
  no_bids_or_offers wrong_security : BookError

pub data Result {ℓ} (A : Type ℓ) : Type ℓ where
  ok : A → Result A
  err : BookError → Result A

module _ {P : Type 0} (before : P → P → Bool) where
  -- The best level is erased, and what is left of it inserted again.
  unfoldable pub take_best : Level P → ℕ → List (Level P) → List (Level P)
  take_best v trade_qty [] = []
  take_best v trade_qty (_ ∷ rest) =
      if v.qty == trade_qty then rest else insert before (record v { qty = v.qty - trade_qty }) rest

  -- `levels.insert`, or a merge into the level of that price, whose quantity is capped.
  unfoldable pub add_level : Level P → List (Level P) → List (Level P)
  add_level v levels = elim (find before v.price levels) [
    | none ↦ insert before v levels
    | some old ↦
        insert before
          (record old {
            qty = min (old.qty + v.qty) max_level_qty;
            order_count = old.order_count + 1;
          })
          (erase before old.price levels)
  ]

module _ {P : Type 0} where
  -- The worst level of a side that has grown too deep is dropped.
  unfoldable pub trim : List (Level P) → List (Level P)
  trim levels = if ltb max_depth (length levels) then drop_last levels else levels

  -- The quantity of the best levels up to the first that `reaches` refuses.
  unfoldable pub aggregate : (P → Bool) → List (Level P) → ℕ
  aggregate reaches [] = 0
  aggregate reaches (v ∷ vs) = if reaches v.price then v.qty + aggregate reaches vs else 0

module _ (d : Double) where
  open d use {Val, lt, add, sub, mul, div, round, pow, lit}

  pub record Order : Type 0 where
    pub secid : String
    pub side : Side
    pub price : Val
    pub qty : ℕ

  pub record Trade : Type 0 where
    pub price : Val
    pub qty : ℕ
    pub aggressor : Side

  pub record OrderBook : Type 0 where
    pub bids : List (Level Val)
    pub offers : List (Level Val)
    pub security : String
    pub last_price : Val

  -- `LevelCompare` in the order of each list.
  abbrev pub higher : Val → Val → Bool
  higher a b = lt b a

  unfoldable pub new_book : String → OrderBook
  new_book s = record { bids = []; offers = []; security = s; last_price = lit 0 0 }

  unfoldable pub round_price : Val → Val
  round_price price = let scale = pow (lit 10 0) (lit 2 0) in div (round (mul price scale)) scale

  -- The price and the quantity of the level that `it` points at, 0 past the end.
  abbrev pub level_price : Option (Level Val) → Val
  level_price none = lit 0 0
  level_price (some v) = v.price

  abbrev pub level_qty : Option (Level Val) → ℕ
  level_qty none = 0
  level_qty (some v) = v.qty

  abbrev pub at : List (Level Val) → ℤ → Option (Level Val)
  at levels (pos n) = get_elem? levels n
  at levels (negsuc n) = none

  unfoldable pub bid_price : OrderBook → ℤ → Val
  bid_price b at_level = level_price (at b.bids at_level)

  unfoldable pub bid_qty : OrderBook → ℤ → ℕ
  bid_qty b at_level = level_qty (at b.bids at_level)

  unfoldable pub offer_price : OrderBook → ℤ → Val
  offer_price b at_level = level_price (at b.offers at_level)

  unfoldable pub offer_qty : OrderBook → ℤ → ℕ
  offer_qty b at_level = level_qty (at b.offers at_level)

  unfoldable pub best_bid : OrderBook → Val
  best_bid b = level_price (get_elem? b.bids 0)

  unfoldable pub best_offer : OrderBook → Val
  best_offer b = level_price (get_elem? b.offers 0)

  abbrev is_empty : List (Level Val) → Bool
  is_empty [] = true
  is_empty (_ ∷ _) = false

  unfoldable pub mid : OrderBook → Result Val
  unfolding best_bid best_offer
  mid b =
      if not (is_empty b.bids) && not (is_empty b.offers)
      then ok (div (add (best_bid b) (best_offer b)) (lit 2 0))
      else err no_bids_or_offers

  unfoldable pub spread : OrderBook → Val
  unfolding best_bid best_offer
  spread b =
      if not (is_empty b.bids) && not (is_empty b.offers)
      then sub (best_offer b) (best_bid b)
      else lit 0 0

  -- The two best levels, if `bid.price >= offer.price`.
  abbrev pub crossing_of : List (Level Val) → List (Level Val) → Option (Level Val × Level Val)
  crossing_of [] offers = none
  crossing_of (bid ∷ bids) [] = none
  crossing_of (bid ∷ bids) (offer ∷ offers) =
      if lt bid.price offer.price then none else some (bid, offer)

  abbrev pub crossing : OrderBook → Option (Level Val × Level Val)
  crossing b = crossing_of b.bids b.offers

  -- One round of the loop; `aggressor_side` is only noted in the trade.
  unfoldable pub match_step : OrderBook → Level Val → Level Val → OrderBook
  unfolding take_best
  match_step b bid offer =
      let trade_qty = min bid.qty offer.qty in
      record b {
        bids = take_best higher bid trade_qty b.bids;
        offers = take_best lt offer trade_qty b.offers;
        last_price = offer.price;
      }

  abbrev pub trade_of : Side → Level Val → Level Val → Trade
  trade_of side bid offer = record {
    price = offer.price;
    qty = min bid.qty offer.qty;
    aggressor = side;
  }

  -- The loop runs once for each level that it empties, at most.
  unfoldable pub match_loop : ℕ → Side → OrderBook → OrderBook × List Trade
  unfolding match_step
  match_loop zero side b = (b, [])
  match_loop (suc fuel) side b = elim (crossing b) [
    | none ↦ (b, [])
    | some (bid, offer) ↦
        let r = match_loop fuel side (match_step b bid offer) in
        (r.0, trade_of side bid offer ∷ r.1)
  ]

  unfoldable pub match : Side → OrderBook → OrderBook × List Trade
  unfolding match_loop
  match side b = match_loop (length b.bids + length b.offers) side b

  unfoldable pub place : OrderBook → Order → OrderBook
  unfolding add_level trim round_price
  place b o =
      let v : Level Val = record { price = round_price o.price; qty = o.qty; order_count = 1 } in
      elim o.side [
        | buy ↦ record b { bids = trim (add_level higher v b.bids) }
        | sell ↦ record b { offers = trim (add_level lt v b.offers) }
      ]

  unfoldable pub order : OrderBook → Order → Result (OrderBook × List Trade)
  unfolding place match
  order b o =
      if str_eq b.security o.secid then ok (match o.side (place b o)) else err wrong_security

  unfoldable pub aggregate_bid_qty : OrderBook → Val → ℕ
  unfolding aggregate
  aggregate_bid_qty b trade_price = aggregate (λ p. not (lt p trade_price)) b.bids

  unfoldable pub aggregate_offer_qty : OrderBook → Val → ℕ
  unfolding aggregate
  aggregate_offer_qty b trade_price = aggregate (λ p. not (lt trade_price p)) b.offers
