-- ===== src/Basket/Settling.antt =====
-- The state that updates leave a dynamic basket order in.
use Prim.Native.String.{String}
use mathlib.Core.Option.{some-injective, none-ne-some}
use kungfu_cpp.Base.{
  ℕ, ◌≤◌, ◌≡◌, ◌↔◌, refl, sym, ap, ◌∙◌, subst, inl, inr, Bool, true, false, Option, none, some,
  List, [], ◌∷◌, if◌then◌else◌, ◌==◌, ltb, arith, Bool-cases, All, All-mono,
}
use kungfu_cpp.Base.Chains.{◌>>=◌}
use kungfu_cpp.Base.Dict.{lookup, assign, Values, Values-erase, lookup-assign}
use kungfu_cpp.Base.Int.{ℤ, pos, ◌-ℤ◌}
use kungfu_cpp.Wingchun.Enums.{filled, dynamic}
use kungfu_cpp.Wingchun.Orders.{Order}
use kungfu_cpp.Basket.{
  BasketOrderState, get_total_traded_volume, is_all_order_end, basket_status, newer, hash_order,
  update_last_order, settled, update,
}
use kungfu_cpp.Basket.Volumes.{Keyed, left_over, total-left_over}

module _ (Val : Type 0) (hash : String → String → ℕ) where
  -- The last order of the instrument was inserted no earlier.
  abbrev pub Newest : List (ℕ × Order Val) → Order Val → Type 0
  Newest last_orders o =
      (k : ℕ) × (l : Order Val) × (hash_order Val hash o ≡ some k)
      × (lookup k last_orders ≡ some l)
      × (o.insert_time ≤ l.insert_time)

  abbrev pub updates : List (Order Val) → BasketOrderState Val → Option (BasketOrderState Val)
  updates [] s = some s
  updates (o ∷ os) s = update Val hash o s >>= updates os

  -- What is left is what is left of the live orders and of the last one of each instrument, and the
  -- status says so.
  pub record Balanced (s : BasketOrderState Val) : Type 0 where
    pub left : s.basket_order.volume_left ≡ pos (left_over Val hash s.last_orders s.orders)
    pub is_filled :
        (s.basket_order.status ≡ filled)
        ↔ ((is_all_order_end Val s.orders ≡ true) × (left_over Val hash s.last_orders s.orders ≡ 0))
    pub newest : Values (Newest s.last_orders) s.orders

  newer_self :
      (old : Option (Order Val)) (k : ℕ) (o : Order Val) (m : List (ℕ × Order Val))
      → lookup k m ≡ old
      → (l : Order Val) × (lookup k (newer Val old k o m) ≡ some l)
        × (o.insert_time ≤ l.insert_time)
        × ((u : Order Val) → lookup k m ≡ some u → u.insert_time ≤ l.insert_time)
  unfolding lookup
  newer_self none k o m e =
      (o, ground arith, omega arith, λ u h. absurd (none-ne-some u (sym e ∙ h)))
  newer_self (some old) k o m e = elim (Bool-cases (ltb o.insert_time old.insert_time)) [
    | inl t ↦ (
      old,
      rw t e,
      ground (arith, t),
      λ u h.
          let q = some-injective old u (sym e ∙ h) in
          subst (λ x. x.insert_time ≤ old.insert_time) q (omega arith),
    )
    | inr f ↦ (
      o,
      rw f (ground arith),
      omega arith,
      λ u h.
          let q = some-injective old u (sym e ∙ h) in
          subst (λ x. x.insert_time ≤ o.insert_time) q (ground (arith, f)),
    )
  ]

  newer_other :
      (old : Option (Order Val)) (j k : ℕ) (o : Order Val) (m : List (ℕ × Order Val))
      → k == j ≡ false
      → lookup j (newer Val old k o m) ≡ lookup j m
  unfolding lookup
  newer_other none j k o m f = ground (arith, f)
  newer_other (some old) j k o m f = elim (Bool-cases (ltb o.insert_time old.insert_time)) [
    | inl t ↦ rw t refl
    | inr g ↦ rw g (lookup-assign k j o m ∙ ap (λ b. if b then some o else lookup j m) f)
  ]

  newer-Newest :
      (k : ℕ) (o p : Order Val) (m : List (ℕ × Order Val))
      → Newest m p
      → Newest (newer Val (lookup k m) k o m) p
  newer-Newest k o p m (j, l, e, q, n) = elim (Bool-cases (k == j)) [
    | inr f ↦ (j, l, e, newer_other (lookup k m) j k o m f ∙ q, n)
    | inl t ↦
        let g : k ≡ j = ground (arith, t) in
        let (l', q', _, h) = newer_self (lookup k m) k o m refl in
        let le = h l (ap (λ x. lookup x m) g ∙ q) in
        (k, l', subst (λ x. hash_order Val hash p ≡ some x) (sym g) e, q', omega (arith, n, le))
  ]

  Newest-Keyed : (m : List (ℕ × Order Val)) (o : Order Val) → Newest m o → Keyed Val hash o
  Newest-Keyed m o (k, l, e, q, n) = (k, e)

  basket_status-filled :
      (ended : Bool) (n : ℕ) (left v : ℤ)
      → left ≡ pos n
      → (basket_status Val ended left v ≡ filled) ↔ ((ended ≡ true) × (n ≡ 0))
  basket_status-filled ended n left v e = ground (arith, e)

  -- A state with its orders, each one no newer than the last of its instrument.
  abbrev Ordered : BasketOrderState Val → Type 0
  Ordered s = Values (Newest s.last_orders) s.orders

  update_last_order-Ordered :
      (o : Order Val) (s : BasketOrderState Val)
      → Keyed Val hash o
      → Ordered s
      → (s' : BasketOrderState Val) × (update_last_order Val hash o s ≡ some s')
        × Ordered s'
        × (s'.basket_order ≡ s.basket_order)
  unfolding update_last_order
  update_last_order-Ordered o s (k, e) h =
      let last = newer Val (lookup k s.last_orders) k o s.last_orders in
      let s' = record s { orders = assign o.order_id o s.orders; last_orders = last } in
      let (l, q, n, _) = newer_self (lookup k s.last_orders) k o s.last_orders refl in
      let old =
        All-mono (λ kv. Newest s.last_orders kv.1) (λ kv. Newest last kv.1)
          (λ kv. newer-Newest k o kv.1 s.last_orders) s.orders h in
      (s', rw e refl, ((k, l, e, q, n), Values-erase (Newest last) o.order_id s.orders old), refl)

  update-Balanced :
      (o : Order Val) (s : BasketOrderState Val)
      → s.basket_order.calculation_mode ≡ dynamic
      → Keyed Val hash o
      → Ordered s
      → (s' : BasketOrderState Val) × (update Val hash o s ≡ some s')
        × Balanced s'
        × (s'.basket_order.calculation_mode ≡ dynamic)
  unfolding update settled
  update-Balanced o s d k h =
      let (t, e, n, b) = update_last_order-Ordered o s k h in
      let keyed =
        All-mono (λ kv. Newest t.last_orders kv.1) (λ kv. Keyed Val hash kv.1)
          (λ kv. Newest-Keyed t.last_orders kv.1) t.orders n in
      let (v, q, r) = total-left_over Val hash t.last_orders t.orders keyed in
      let m = ap (λ x. x.calculation_mode) b ∙ d in
      (
        settled Val v t,
        rw (e, m) (rw q refl),
        record {
          left = r;
          is_filled =
              basket_status-filled (is_all_order_end Val t.orders)
                (left_over Val hash t.last_orders t.orders)
                (v -ℤ get_total_traded_volume Val t.orders) v r;
          newest = n;
        },
        m,
      )

  updates-Balanced_from :
      (os : List (Order Val)) (s : BasketOrderState Val)
      → s.basket_order.calculation_mode ≡ dynamic
      → All (Keyed Val hash) os
      → Balanced s
      → (s' : BasketOrderState Val) × (updates os s ≡ some s') × Balanced s'
  updates-Balanced_from [] s d k b = (s, refl, b)
  updates-Balanced_from (o ∷ os) s d k b =
      let (t, e, b', d') = update-Balanced o s d k.0 b.newest in
      let (s', e', b'') = updates-Balanced_from os t d' k.1 b' in (s', rw e e', b'')

  -- A dynamic basket order that has no orders yet, and one or more updates by orders that each have a
  -- direction: the updates go through. What is left of the basket order is then what is left of its live
  -- orders and of the last order of each instrument and direction; its status is Filled exactly if all
  -- orders are over and that is nothing; and each order has a last one of its instrument and direction,
  -- inserted no earlier.
  pub updates-Balanced :
      (o : Order Val) (os : List (Order Val)) (s : BasketOrderState Val)
      → s.basket_order.calculation_mode ≡ dynamic
      → s.orders ≡ []
      → Keyed Val hash o
      → All (Keyed Val hash) os
      → (s' : BasketOrderState Val) × (updates (o ∷ os) s ≡ some s') × Balanced s'
  updates-Balanced o os s d n k ks =
      let (t, e, b, d') =
        update-Balanced o s d k (subst (Values (Newest s.last_orders)) (sym n) tt) in
      let (s', e', b') = updates-Balanced_from os t d' ks b in (s', rw e e', b')
