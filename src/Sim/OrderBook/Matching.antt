-- ===== src/Sim/OrderBook/Matching.antt =====
-- The matching loop: an invariant rule, the order of the levels, and the end of the loop.
use kungfu_cpp.Base.{
  ℕ, zero, suc, ◌+◌, ◌-◌, ◌≤◌, ◌<◌, ◌≡◌, refl, ◌⊎◌, inl, inr, Bool, false, List, [], ◌∷◌, none,
  some, arith, length, All, sum_by, Bool-cases, min, ◌==◌, if◌then◌else◌, subst,
}
use kungfu_cpp.Base.Double.{Double}
use kungfu_cpp.Sim.OrderBook.Levels.{Level}
use kungfu_cpp.Sim.OrderBook.Sorted.{StrictWeak, IsSorted, insert-front}
use kungfu_cpp.Sim.OrderBook.{
  Side, OrderBook, Trade, higher, crossing_of, crossing, take_best, match_step, match_loop,
}

-- The quantity of a list of levels.
abbrev pub depth_qty : {P : Type 0} → List (Level P) → ℕ
depth_qty = sum_by λ v. v.qty

abbrev pub IsPositive : {P : Type 0} → List (Level P) → Type 0
IsPositive = All λ v. 0 < v.qty

module _ {P : Type 0} (before : P → P → Bool) (v : Level P) (t : ℕ) (rest : List (Level P)) where
  -- With the levels in order, what is left of the best level is the best level again.
  take_best-front :
      IsSorted before (v ∷ rest)
      → take_best before v t (v ∷ rest)
        ≡ (if v.qty == t then rest else record v { qty = v.qty - t } ∷ rest)
  unfolding take_best
  take_best-front s = rw (insert-front before v (record v { qty = v.qty - t }) rest refl s)

  take_best-IsSorted :
      IsSorted before (v ∷ rest) → IsSorted before (take_best before v t (v ∷ rest))
  take_best-IsSorted s = rw (take_best-front s) (ground arith)

  take_best-qty :
      IsSorted before (v ∷ rest)
      → t ≤ v.qty
      → depth_qty (take_best before v t (v ∷ rest)) + t ≡ depth_qty (v ∷ rest)
  take_best-qty s h = rw (take_best-front s) (ground arith)

  take_best-IsPositive :
      IsSorted before (v ∷ rest)
      → t ≤ v.qty
      → IsPositive (v ∷ rest)
      → IsPositive (take_best before v t (v ∷ rest))
  take_best-IsPositive s h p = rw (take_best-front s) (ground arith)

  length-take_best :
      IsSorted before (v ∷ rest)
      → length (take_best before v t (v ∷ rest))
        ≡ (if v.qty == t then length rest else suc (length rest))
  length-take_best s = rw (take_best-front s) (ground arith)

-- `operator<` of the prices is an order for either side.
pub lt_order : (d : Double) → StrictWeak d.lt
lt_order d = record { irrefl = d.lt_irrefl; trans = d.lt_trans; cotrans = d.lt_cotrans }

pub higher_order : (d : Double) → StrictWeak (higher d)
higher_order d = record {
  irrefl = d.lt_irrefl;
  trans = λ a b c p q. d.lt_trans c b a q p;
  cotrans = λ a b c p. flip (d.lt_cotrans c b a p);
}
  where
    flip : {A B : Type 0} → A ⊎ B → B ⊎ A
    flip (inl a) = inr a
    flip (inr b) = inl b

module _ (d : Double) where
  -- The levels of either side are in strict order, and none is empty.
  pub record IsOrdered (b : OrderBook d) : Type 0 where
    pub bids_sorted : IsSorted (higher d) b.bids
    pub offers_sorted : IsSorted d.lt b.offers
    pub bids_positive : IsPositive b.bids
    pub offers_positive : IsPositive b.offers

  -- Two best levels that cross.
  pub record Crosses (b : OrderBook d) (bid offer : Level d.Val) : Type 0 where
    pub more_bids : List (Level d.Val)
    pub more_offers : List (Level d.Val)
    pub bids_eq : b.bids ≡ bid ∷ more_bids
    pub offers_eq : b.offers ≡ offer ∷ more_offers
    pub reach : d.lt bid.price offer.price ≡ false
    pub eq : crossing d b ≡ some (bid, offer)

  crossing_of-cases :
      (bids offers : List (Level d.Val))
      → (crossing_of d bids offers ≡ none)
        ⊎ ((bid : Level d.Val) × (offer : Level d.Val) × (bs : List (Level d.Val)) × (os : List
              (Level d.Val))
            × (bids ≡ bid ∷ bs)
            × (offers ≡ offer ∷ os)
            × (d.lt bid.price offer.price ≡ false)
            × (crossing_of d bids offers ≡ some (bid, offer)))
  crossing_of-cases [] offers = inl refl
  crossing_of-cases (bid ∷ bs) [] = inl refl
  crossing_of-cases (bid ∷ bs) (offer ∷ os) = elim (Bool-cases (d.lt bid.price offer.price)) [
    | inl apart ↦ inl (rw apart)
    | inr reach ↦ inr (bid, offer, bs, os, refl, refl, reach, rw reach)
  ]

  pub crossing-cases :
      (b : OrderBook d)
      → (crossing d b ≡ none) ⊎ ((bid : Level d.Val) × (offer : Level d.Val) × Crosses b bid offer)
  crossing-cases b = elim (crossing_of-cases b.bids b.offers) [
    | inl e ↦ inl e
    | inr (bid, offer, bs, os, p, q, r, e) ↦ inr (
      bid,
      offer,
      record { more_bids = bs; more_offers = os; bids_eq = p; offers_eq = q; reach = r; eq = e },
    )
  ]

  -- An invariant of the rounds is one of the loop.
  pub match_loop_inv :
      (P : OrderBook d → Type 0)
      → ((b : OrderBook d) (bid offer : Level d.Val)
          → Crosses b bid offer
          → P b
          → P (match_step d b bid offer))
      → (fuel : ℕ) (side : Side) (b : OrderBook d) → P b
      → P (match_loop d fuel side b).0
  unfolding match_loop
  match_loop_inv P keep zero side b h = h
  match_loop_inv P keep (suc fuel) side b h = elim (crossing-cases b) [
    | inl e ↦ rw (e, match_loop) h
    | inr (bid, offer, c) ↦
        rw (c.eq, match_loop)
          (match_loop_inv P keep fuel side (match_step d b bid offer) (keep b bid offer c h))
  ]

  pub match_step-IsOrdered :
      (b : OrderBook d) (bid offer : Level d.Val)
      → Crosses b bid offer
      → IsOrdered b
      → IsOrdered (match_step d b bid offer)
  unfolding match_step
  match_step-IsOrdered b bid offer c v = record {
    bids_sorted = rw c.bids_eq (take_best-IsSorted _ _ _ _ bids);
    offers_sorted = rw c.offers_eq (take_best-IsSorted _ _ _ _ offers);
    bids_positive = rw c.bids_eq (
        take_best-IsPositive _ _ _ _ bids (omega arith)
          (subst IsPositive c.bids_eq v.bids_positive));
    offers_positive = rw c.offers_eq (
        take_best-IsPositive _ _ _ _ offers (omega arith)
          (subst IsPositive c.offers_eq v.offers_positive));
  }
    where
      bids : IsSorted (higher d) (bid ∷ c.more_bids)
      bids = subst (IsSorted (higher d)) c.bids_eq v.bids_sorted

      offers : IsSorted d.lt (offer ∷ c.more_offers)
      offers = subst (IsSorted d.lt) c.offers_eq v.offers_sorted

  -- Each round trades the same quantity on both sides.
  pub match_step-qty :
      (b : OrderBook d) (bid offer : Level d.Val)
      → Crosses b bid offer
      → IsOrdered b
      → (depth_qty (match_step d b bid offer).bids + min bid.qty offer.qty ≡ depth_qty b.bids)
        × (depth_qty (match_step d b bid offer).offers + min bid.qty offer.qty ≡ depth_qty b.offers)
  unfolding match_step
  match_step-qty b bid offer c v = (
    rw c.bids_eq (
        take_best-qty (higher d) bid _ c.more_bids
          (subst (IsSorted (higher d)) c.bids_eq v.bids_sorted) (omega arith)),
    rw c.offers_eq (
        take_best-qty d.lt offer _ c.more_offers (subst (IsSorted d.lt) c.offers_eq v.offers_sorted)
          (omega arith)),
  )

  -- Each round empties a level, and makes none.
  pub match_step-length :
      (b : OrderBook d) (bid offer : Level d.Val)
      → Crosses b bid offer
      → IsOrdered b
      → let c = match_step d b bid offer in
        (length c.bids ≤ length b.bids)
        × (length c.offers ≤ length b.offers)
        × (length c.bids + length c.offers < length b.bids + length b.offers)
  unfolding match_step
  match_step-length b bid offer c v = ground (
    arith,
    length-take_best (higher d) bid (min bid.qty offer.qty) c.more_bids
        (subst (IsSorted (higher d)) c.bids_eq v.bids_sorted),
    length-take_best d.lt offer (min bid.qty offer.qty) c.more_offers
        (subst (IsSorted d.lt) c.offers_eq v.offers_sorted),
  )

  abbrev pub traded : List (Trade d) → ℕ
  traded = sum_by λ t. t.qty

  -- What the loop has done when it stops.
  pub record Matched (b : OrderBook d) (r : OrderBook d × List (Trade d)) : Type 0 where
    pub ordered : IsOrdered r.0
    pub bought : depth_qty r.0.bids + traded r.1 ≡ depth_qty b.bids
    pub sold : depth_qty r.0.offers + traded r.1 ≡ depth_qty b.offers
    pub bids_le : length r.0.bids ≤ length b.bids
    pub offers_le : length r.0.offers ≤ length b.offers
    pub ended : crossing d r.0 ≡ none

  pub match_loop-Matched :
      (fuel : ℕ) (side : Side) (b : OrderBook d)
      → length b.bids + length b.offers ≤ fuel
      → IsOrdered b
      → Matched b (match_loop d fuel side b)
  unfolding match_loop
  match_loop-Matched zero side b h v = elim (crossing-cases b) [
    | inl e ↦ record {
      ordered = v;
      bought = omega arith;
      sold = omega arith;
      bids_le = omega arith;
      offers_le = omega arith;
      ended = e;
    }
    | inr (bid, offer, c) ↦ absurd (omega (arith, match_step-length b bid offer c v))
  ]
  match_loop-Matched (suc fuel) side b h v = elim (crossing-cases b) [
    | inl e ↦
        rw (e, match_loop)
          (record {
            ordered = v;
            bought = omega arith;
            sold = omega arith;
            bids_le = omega arith;
            offers_le = omega arith;
            ended = e;
          })
    | inr (bid, offer, c) ↦
        let len = match_step-length b bid offer c v in
        let qty = match_step-qty b bid offer c v in
        let m : Matched (match_step d b bid offer)
            (match_loop d fuel side (match_step d b bid offer)) =
          match_loop-Matched fuel side (match_step d b bid offer) (omega (arith, len))
            (match_step-IsOrdered b bid offer c v) in
        rw (c.eq, match_loop)
          (record {
            ordered = m.ordered;
            bought = omega (arith, m.bought, qty);
            sold = omega (arith, m.sold, qty);
            bids_le = omega (arith, m.bids_le, len);
            offers_le = omega (arith, m.offers_le, len);
            ended = m.ended;
          })
  ]
