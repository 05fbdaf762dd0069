-- ===== src/Sim/OrderBook/Invariant.antt =====
-- What holds of the book between two calls of `order`, and what a call does to the quantities.
use text.Mathlib.Text.{◌==◌ as str_eq}
use kungfu_cpp.Base.{
  ℕ, ◌+◌, ◌≤◌, ◌<◌, ◌≡◌, refl, ◌⊎◌, inl, inr, Bool, true, false, List, [], ◌∷◌, none, arith, length,
  All, All-mono, if◌then◌else◌,
}
use kungfu_cpp.Base.Double.{Double}
use kungfu_cpp.Sim.OrderBook.Levels.{Level}
use kungfu_cpp.Sim.OrderBook.Sorted.{IsSorted, After}
use kungfu_cpp.Sim.OrderBook.{
  Side, buy, sell, Order, OrderBook, Trade, max_depth, ok, err, wrong_security, higher, round_price,
  crossing_of, place, match, order,
}
use kungfu_cpp.Sim.OrderBook.Matching.{
  depth_qty, lt_order, higher_order, IsOrdered, Matched, match_loop-Matched, traded,
}
use kungfu_cpp.Sim.OrderBook.Placing.{trim-Joined}

pub Side-cases : (s : Side) → (s ≡ buy) ⊎ (s ≡ sell)
Side-cases buy = inl refl
Side-cases sell = inr refl

accepted :
    {A : Type 0} (c : Bool) {x r : A} → (if c then ok x else err wrong_security) ≡ ok r → r ≡ x
accepted true e = cc
accepted false e = cc

module _ (d : Double) where
  -- Every bid is below every offer.
  abbrev pub IsApart : List (Level d.Val) → List (Level d.Val) → Type 0
  IsApart bids offers = All (λ v. All (λ w. d.lt v.price w.price ≡ true) offers) bids

  pub record IsValid (b : OrderBook d) : Type 0 where
    pub ordered : IsOrdered d b
    pub bids_depth : length b.bids ≤ max_depth
    pub offers_depth : length b.offers ≤ max_depth
    pub apart : IsApart b.bids b.offers

  -- Where the best levels do not cross, no levels do.
  IsApart-of_crossing :
      (bids offers : List (Level d.Val))
      → IsSorted (higher d) bids
      → IsSorted d.lt offers
      → crossing_of d bids offers ≡ none
      → IsApart bids offers
  IsApart-of_crossing [] offers s t e = tt
  IsApart-of_crossing (v ∷ vs) [] s t e = All-nil (v ∷ vs)
    where
      All-nil : (xs : List (Level d.Val)) → IsApart xs []
      All-nil [] = tt
      All-nil (x ∷ xs) = (tt, All-nil xs)
  IsApart-of_crossing (v ∷ vs) (w ∷ ws) s t e =
      let first : d.lt v.price w.price ≡ true = ground arith in
      let best : All (λ x. d.lt v.price x.price ≡ true) (w ∷ ws) = (
        first,
        All-mono (After d.lt w.price) (After d.lt v.price) (λ x. d.lt_trans _ _ _ first) ws t.0,
      ) in
      (
        best,
        All-mono (After (higher d) v.price) _
            (λ y p.
              All-mono (After d.lt v.price) (After d.lt y.price) (λ x. d.lt_trans _ _ _ p) (w ∷ ws)
                best)
            vs s.0,
      )

  -- The sides that `place` leaves, whichever it joins.
  pub record Placed (b : OrderBook d) (o : Order d) (c : OrderBook d) : Type 0 where
    pub ordered : IsOrdered d c
    pub bids_depth : length c.bids ≤ max_depth
    pub offers_depth : length c.offers ≤ max_depth
    pub joins :
        ((o.side ≡ buy) × (c.offers ≡ b.offers) × (depth_qty c.bids ≤ depth_qty b.bids + o.qty))
        ⊎ ((o.side ≡ sell) × (c.bids ≡ b.bids) × (depth_qty c.offers ≤ depth_qty b.offers + o.qty))

  abbrev pub new_level : Order d → Level d.Val
  new_level o = record { price = round_price d o.price; qty = o.qty; order_count = 1 }

  place-Placed : (b : OrderBook d) (o : Order d) → 0 < o.qty → IsValid b → Placed b o (place d b o)
  unfolding place
  place-Placed b o h v = elim (Side-cases o.side) [
    | inl e ↦
        let j =
          trim-Joined (higher d) (higher_order d) (new_level o) b.bids v.ordered.bids_sorted
            v.ordered.bids_positive h v.bids_depth in
        rw (e, place)
          (record {
            ordered = record {
              bids_sorted = j.0.sorted;
              offers_sorted = v.ordered.offers_sorted;
              bids_positive = j.0.positive;
              offers_positive = v.ordered.offers_positive;
            };
            bids_depth = j.1;
            offers_depth = v.offers_depth;
            joins = inl (refl, refl, j.0.qty_le);
          })
    | inr e ↦
        let j =
          trim-Joined d.lt (lt_order d) (new_level o) b.offers v.ordered.offers_sorted
            v.ordered.offers_positive h v.offers_depth in
        rw (e, place)
          (record {
            ordered = record {
              bids_sorted = v.ordered.bids_sorted;
              offers_sorted = j.0.sorted;
              bids_positive = v.ordered.bids_positive;
              offers_positive = j.0.positive;
            };
            bids_depth = v.bids_depth;
            offers_depth = j.1;
            joins = inr (refl, refl, j.0.qty_le);
          })
  ]

  match-Matched : (side : Side) (b : OrderBook d) → IsOrdered d b → Matched d b (match d side b)
  unfolding match
  match-Matched side b v =
      match_loop-Matched d (length b.bids + length b.offers) side b (omega arith) v

  -- What an accepted call has placed and matched.
  pub order-ok :
      (b : OrderBook d) (o : Order d) (r : OrderBook d × List (Trade d))
      → order d b o ≡ ok r
      → r ≡ match d o.side (place d b o)
  unfolding order
  order-ok b o r e = accepted (str_eq b.security o.secid) e

  -- An order for the security of the book is accepted, and leaves the book valid: both sides strictly
  -- ordered by price with no empty level, no deeper than max_depth, and every bid below every offer.
  pub order-IsValid :
      (b : OrderBook d) (o : Order d)
      → 0 < o.qty
      → IsValid b
      → str_eq b.security o.secid ≡ true
      → (r : OrderBook d × List (Trade d)) × (order d b o ≡ ok r) × IsValid r.0
  unfolding order
  order-IsValid b o h v same =
      let p = place-Placed b o h v in
      let m = match-Matched o.side (place d b o) p.ordered in
      (
        match d o.side (place d b o),
        rw same,
        record {
          ordered = m.ordered;
          bids_depth = omega (arith, m.bids_le, p.bids_depth);
          offers_depth = omega (arith, m.offers_le, p.offers_depth);
          apart = IsApart-of_crossing _ _ m.ordered.bids_sorted m.ordered.offers_sorted m.ended;
        },
      )

  -- What a call does to the quantities: the other side loses exactly what is traded, and the side of
  -- the order never holds more than before with the order's quantity, less what is traded.
  pub Conserves : Side → OrderBook d → ℕ → OrderBook d × List (Trade d) → Type 0
  Conserves buy b q r =
      (depth_qty r.0.offers + traded d r.1 ≡ depth_qty b.offers)
      × (depth_qty r.0.bids + traded d r.1 ≤ depth_qty b.bids + q)
  Conserves sell b q r =
      (depth_qty r.0.bids + traded d r.1 ≡ depth_qty b.bids)
      × (depth_qty r.0.offers + traded d r.1 ≤ depth_qty b.offers + q)

  -- A call accepted by a valid book trades exactly what leaves the other side, and its own side then
  -- holds at most what it held, plus the order's quantity, less what was traded.
  pub order-Conserves :
      (b : OrderBook d) (o : Order d) (r : OrderBook d × List (Trade d))
      → 0 < o.qty
      → IsValid b
      → order d b o ≡ ok r
      → Conserves o.side b o.qty r
  unfolding Conserves
  order-Conserves b o r h v e =
      let p = place-Placed b o h v in
      let m = match-Matched o.side (place d b o) p.ordered in
      ground (arith, order-ok b o r e, p.joins, m.bought, m.sold)
