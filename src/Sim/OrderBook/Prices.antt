-- ===== src/Sim/OrderBook/Prices.antt =====
-- At which prices an order trades, and what the sweeps over the levels add up.
use kungfu_cpp.Base.{
  ℕ, zero, suc, ◌+◌, ◌-◌, ◌≡◌, refl, ◌⊎◌, inl, inr, Bool, true, false, not, List, [], ◌∷◌, arith,
  length, All, All-mono, sum_by, Bool-cases, Option-cases, ltb, if◌then◌else◌, subst₂,
}
use kungfu_cpp.Base.Double.{Double}
use kungfu_cpp.Sim.OrderBook.Levels.{Level, find}
use kungfu_cpp.Sim.OrderBook.Sorted.{IsSorted, insert-All, erase-All, find-equiv, drop_last-All}
use kungfu_cpp.Sim.OrderBook.{
  Side, buy, sell, Order, OrderBook, Trade, max_depth, ok, higher, round_price, trade_of, take_best,
  match_step, match_loop, add_level, trim, place, match, order, aggregate, aggregate_bid_qty,
  aggregate_offer_qty,
}
use kungfu_cpp.Sim.OrderBook.Matching.{crossing-cases, Crosses}
use kungfu_cpp.Sim.OrderBook.Invariant.{IsValid, order-ok, Side-cases, new_level}

module _ {P : Type 0} (before : P → P → Bool) where
  -- Neither price is before the other.
  abbrev pub Equiv : P → P → Type 0
  Equiv p q = (before p q ≡ false) × (before q p ≡ false)

  take_best-All :
      (R : P → Type 0) (v : Level P) (t : ℕ) (xs : List (Level P))
      → R v.price
      → All (λ w. R w.price) xs
      → All (λ w. R w.price) (take_best before v t xs)
  unfolding take_best
  take_best-All R v t [] r h = h
  take_best-All R v t (x ∷ xs) r h =
      ground (arith, insert-All before (λ w. R w.price) (record v { qty = v.qty - t }) xs r h.1)

  trim_add-All :
      (R : P → Type 0) (v : Level P) (xs : List (Level P))
      → ((q : P) → Equiv v.price q → R q)
      → R v.price
      → All (λ w. R w.price) xs
      → All (λ w. R w.price) (trim (add_level before v xs))
  unfolding trim add_level
  trim_add-All R v xs same r h =
      trimmed (add_level before v xs) (elim (Option-cases (find before v.price xs)) [
        | inl e ↦ rw (e, add_level) (insert-All before (λ w. R w.price) v xs r h)
        | inr (old, e) ↦
            rw (e, add_level)
              (insert-All before (λ w. R w.price) _ _
                (same old.price (find-equiv before v.price xs old e))
                (erase-All before (λ w. R w.price) old.price xs h))
      ])
    where
      trimmed : (ys : List (Level P)) → All (λ w. R w.price) ys → All (λ w. R w.price) (trim ys)
      trimmed ys k = elim (Bool-cases (ltb max_depth (length ys))) [
        | inl deep ↦ rw deep (drop_last-All (λ w. R w.price) ys k)
        | inr fits ↦ rw fits k
      ]

All-transpose :
    {A : Type 0} (R : A → A → Type 0) (xs ys : List A)
    → All (λ x. All (λ y. R x y) ys) xs
    → All (λ y. All (λ x. R x y) xs) ys
All-transpose R xs [] h = tt
All-transpose {A} R xs (y ∷ ys) h = (heads xs h, All-transpose R xs ys (tails xs h))
  where
    heads : (zs : List A) → All (λ x. All (λ w. R x w) (y ∷ ys)) zs → All (λ x. R x y) zs
    heads [] k = tt
    heads (z ∷ zs) k = (k.0.0, heads zs k.1)

    tails :
        (zs : List A) → All (λ x. All (λ w. R x w) (y ∷ ys)) zs → All (λ x. All (λ w. R x w) ys) zs
    tails [] k = tt
    tails (z ∷ zs) k = (k.0.1, tails zs k.1)

module _ (d : Double) (p : d.Val) where
  -- A buy trades at its limit or lower, a sell at its limit and not higher.
  abbrev pub WithinLimit : Side → Trade d → Type 0
  WithinLimit buy t = d.lt p t.price ≡ false
  WithinLimit sell t = Equiv d.lt p t.price

  -- Each level of one side is at the limit, or is apart from all levels of the other.
  abbrev Near : (d.Val → d.Val → Type 0) → List (Level d.Val) → List (Level d.Val) → Type 0
  Near R xs ys = All (λ v. Equiv d.lt p v.price ⊎ All (λ w. R v.price w.price) ys) xs

  Near-take_best :
      (R : d.Val → d.Val → Type 0) (f g : d.Val → d.Val → Bool) (v w : Level d.Val) (t : ℕ)
      (vs ws : List (Level d.Val))
      → Near R (v ∷ vs) (w ∷ ws)
      → Near R (take_best f v t (v ∷ vs)) (take_best g w t (w ∷ ws))
  Near-take_best R f g v w t vs ws h =
      take_best-All f (λ q. Equiv d.lt p q ⊎ All (λ u. R q u.price) (take_best g w t (w ∷ ws))) v t
        (v ∷ vs) less.0 less
    where
      fewer :
          (u : Level d.Val)
          → Equiv d.lt p u.price ⊎ All (λ x. R u.price x.price) (w ∷ ws)
          → Equiv d.lt p u.price ⊎ All (λ x. R u.price x.price) (take_best g w t (w ∷ ws))
      fewer u (inl e) = inl e
      fewer u (inr k) = inr (take_best-All g (R u.price) w t (w ∷ ws) k.0 k)

      less : Near R (v ∷ vs) (take_best g w t (w ∷ ws))
      less = All-mono _ _ fewer (v ∷ vs) h

  -- While an order is matched, a level of its side that can trade is at its limit.
  abbrev AtLimit : Side → OrderBook d → Type 0
  AtLimit buy b = Near (λ a c. d.lt a c ≡ true) b.bids b.offers
  AtLimit sell b = Near (λ a c. d.lt c a ≡ true) b.offers b.bids

  Near-bids :
      (b : OrderBook d) (bid offer : Level d.Val) (c : Crosses d b bid offer)
      → AtLimit buy b
      → Near (λ x y. d.lt x y ≡ true) (bid ∷ c.more_bids) (offer ∷ c.more_offers)
  Near-bids b bid offer c h = subst₂ (Near _) c.bids_eq c.offers_eq h

  Near-offers :
      (b : OrderBook d) (bid offer : Level d.Val) (c : Crosses d b bid offer)
      → AtLimit sell b
      → Near (λ x y. d.lt y x ≡ true) (offer ∷ c.more_offers) (bid ∷ c.more_bids)
  Near-offers b bid offer c h = subst₂ (Near _) c.offers_eq c.bids_eq h

  step_AtLimit :
      (side : Side) (b : OrderBook d) (bid offer : Level d.Val)
      → Crosses d b bid offer
      → AtLimit side b
      → AtLimit side (match_step d b bid offer)
  unfolding match_step
  step_AtLimit buy b bid offer c h =
      rw (c.bids_eq, c.offers_eq)
        (Near-take_best _ (higher d) d.lt bid offer _ c.more_bids c.more_offers
          (Near-bids b bid offer c h))
  step_AtLimit sell b bid offer c h =
      rw (c.bids_eq, c.offers_eq)
        (Near-take_best _ d.lt (higher d) offer bid _ c.more_offers c.more_bids
          (Near-offers b bid offer c h))

  trade_WithinLimit :
      (side : Side) (b : OrderBook d) (bid offer : Level d.Val)
      → Crosses d b bid offer
      → AtLimit side b
      → WithinLimit side (trade_of d side bid offer)
  trade_WithinLimit buy b bid offer c h = elim (Near-bids b bid offer c h).0 [
    | inl (same, same') ↦ elim (Bool-cases (d.lt p offer.price)) [
      | inl above ↦ ground (arith, d.lt_cotrans p bid.price offer.price above, c.reach, same)
      | inr e ↦ e
    ]
    | inr apart ↦ absurd (ground (arith, apart.0, c.reach))
  ]
  trade_WithinLimit sell b bid offer c h = elim (Near-offers b bid offer c h).0 [
    | inl same ↦ same
    | inr apart ↦ absurd (ground (arith, apart.0, c.reach))
  ]

  loop_WithinLimit :
      (fuel : ℕ) (side : Side) (b : OrderBook d)
      → AtLimit side b
      → All (WithinLimit side) (match_loop d fuel side b).1
  unfolding match_loop
  loop_WithinLimit zero side b h = tt
  loop_WithinLimit (suc fuel) side b h = elim (crossing-cases d b) [
    | inl e ↦ rw (e, match_loop) tt
    | inr (bid, offer, c) ↦
        rw (c.eq, match_loop)
          (
            trade_WithinLimit side b bid offer c h,
            loop_WithinLimit fuel side (match_step d b bid offer)
                (step_AtLimit side b bid offer c h),
          )
  ]

  match-WithinLimit :
      (side : Side) (b : OrderBook d) → AtLimit side b → All (WithinLimit side) (match d side b).1
  unfolding match
  match-WithinLimit side b h = loop_WithinLimit (length b.bids + length b.offers) side b h

module _ (d : Double) where
  abbrev pub limit : Order d → d.Val
  limit o = round_price d o.price

  -- In a valid book the order's own level is the only one of its side that can trade.
  place-AtLimit :
      (b : OrderBook d) (o : Order d) → IsValid d b → AtLimit d (limit o) o.side (place d b o)
  unfolding place
  place-AtLimit b o v = elim (Side-cases o.side) [
    | inl k ↦
        rw (k, place)
          (trim_add-All (higher d)
            (λ q. Equiv d.lt (limit o) q ⊎ All (λ w. d.lt q w.price ≡ true) b.offers)
            (new_level d o) b.bids (λ q s. inl (s.1, s.0)) (inl (d.lt_irrefl _, d.lt_irrefl _))
            (All-mono _ _ (λ u h. inr h) b.bids v.apart))
    | inr k ↦
        rw (k, place)
          (trim_add-All d.lt (λ q. Equiv d.lt (limit o) q ⊎ All (λ w. d.lt w.price q ≡ true) b.bids)
            (new_level d o) b.offers (λ q s. inl s) (inl (d.lt_irrefl _, d.lt_irrefl _))
            (All-mono _ _ (λ u h. inr h) b.offers
              (All-transpose (λ x y. d.lt x.price y.price ≡ true) b.bids b.offers v.apart)))
  ]

  -- In a valid book every trade of a buy is at the limit of the order or below, and every trade of a
  -- sell is exactly at its limit, however much higher the bids stand.
  pub order-WithinLimit :
      (b : OrderBook d) (o : Order d) (r : OrderBook d × List (Trade d))
      → IsValid d b
      → order d b o ≡ ok r
      → All (WithinLimit d (limit o) o.side) r.1
  order-WithinLimit b o r v e =
      rw (order-ok d b o r e)
        (match-WithinLimit d (limit o) o.side (place d b o) (place-AtLimit b o v))

  -- The sweep that stops at the first refused level adds up all levels that are not refused.
  abbrev pub reached : (d.Val → Bool) → List (Level d.Val) → ℕ
  reached f = sum_by λ v. if f v.price then v.qty else 0

  aggregate-none :
      (f : d.Val → Bool) (xs : List (Level d.Val))
      → All (λ w. f w.price ≡ false) xs
      → reached f xs ≡ 0
  aggregate-none f [] h = refl
  aggregate-none f (x ∷ xs) h = ground (arith, aggregate-none f xs h.1)

  aggregate-reached :
      (before : d.Val → d.Val → Bool) (f : d.Val → Bool)
      → ((a c : d.Val) → before a c ≡ true → f a ≡ false → f c ≡ false)
      → (xs : List (Level d.Val)) → IsSorted before xs
      → aggregate f xs ≡ reached f xs
  unfolding aggregate
  aggregate-reached before f stop [] s = refl
  aggregate-reached before f stop (x ∷ xs) s = elim (Bool-cases (f x.price)) [
    | inl y ↦ rw y (ground (arith, aggregate-reached before f stop xs s.1))
    | inr n ↦
        rw n (
          omega
            (arith, aggregate-none f xs (All-mono _ _ (λ w h. stop x.price w.price h n) xs s.0)))
  ]

  -- In a valid book the two sweeps are the total quantity of the bids at `p` or higher, and of the
  -- offers at `p` or lower, though they stop at the first level beyond.
  pub aggregate_lem :
      (b : OrderBook d) (p : d.Val)
      → IsValid d b
      → (aggregate_bid_qty d b p ≡ reached (λ q. not (d.lt q p)) b.bids)
        × (aggregate_offer_qty d b p ≡ reached (λ q. not (d.lt p q)) b.offers)
  unfolding aggregate_bid_qty aggregate_offer_qty
  aggregate_lem b p v = (
    aggregate-reached (higher d) (λ q. not (d.lt q p))
        (λ a c h n. ground (arith, d.lt_trans c a p h)) b.bids v.ordered.bids_sorted,
    aggregate-reached d.lt (λ q. not (d.lt p q)) (λ a c h n. ground (arith, d.lt_trans p a c))
        b.offers v.ordered.offers_sorted,
  )
