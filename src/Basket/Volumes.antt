-- ===== src/Basket/Volumes.antt =====
-- What is left of a dynamic basket order, by what is left of its orders.
use Prim.Native.String.{String}
use kungfu_cpp.Base.{
  ℕ, ◌+◌, ◌≡◌, refl, ap, Bool, false, not, ◌||◌, Option, none, some, List, [], ◌∷◌, if◌then◌else◌,
  arith, sum_by, All,
}
use kungfu_cpp.Base.Dict.{lookup}
use kungfu_cpp.Base.Int.{ℤ, pos, pos_part, neg_part, ◌+ℤ◌, ◌-ℤ◌, +ℤ_parts, -ℤ_parts, eq_of_parts}
use kungfu_cpp.Wingchun.Directions.{is_final_status}
use kungfu_cpp.Wingchun.Orders.{Order}
use kungfu_cpp.Basket.{
  traded, get_total_traded_volume, is_last_of, counted, hash_order, get_total_volume,
}

module _ (Val : Type 0) (hash : String → String → ℕ) where
  -- An order with a direction.
  abbrev pub Keyed : Order Val → Type 0
  Keyed o = (k : ℕ) × (hash_order Val hash o ≡ some k)

  abbrev pub is_last_at : Option ℕ → List (ℕ × Order Val) → Order Val → Bool
  is_last_at none last_orders o = false
  is_last_at (some k) last_orders o = is_last_of Val (lookup k last_orders) o

  -- What is left of an order that is live or the last one of its instrument.
  abbrev pub open_left : List (ℕ × Order Val) → Order Val → ℕ
  open_left last_orders o =
      if is_last_at (hash_order Val hash o) last_orders o || not (is_final_status o.status)
      then o.volume_left
      else 0

  abbrev pub left_over : List (ℕ × Order Val) → List (ℕ × Order Val) → ℕ
  left_over last_orders orders = sum_by (λ kv. open_left last_orders kv.1) orders

  counted-traded :
      (b : Bool) (o : Order Val)
      → pos_part (counted Val b o) + neg_part (traded Val o)
        ≡ neg_part (counted Val b o)
          + pos_part (traded Val o)
          + (if b || not (is_final_status o.status) then o.volume_left else 0)
  counted-traded b o = ground arith

  difference :
      (c t v w : ℤ) (x y : ℕ)
      → pos_part c + neg_part t ≡ neg_part c + pos_part t + x
      → v -ℤ w ≡ pos y
      → c +ℤ v -ℤ (t +ℤ w) ≡ pos (x + y)
  difference c t v w x y h e =
      let p = ap pos_part e in
      let n = ap neg_part e in
      eq_of_parts (c +ℤ v -ℤ (t +ℤ w)) (pos (x + y)) (
        omega
          (arith, p, n, h, -ℤ_parts v w, +ℤ_parts c v, +ℤ_parts t w, -ℤ_parts (c +ℤ v) (t +ℤ w)))

  -- In orders that all have a direction, the total volume is there, and is the traded volume and what
  -- is left of the orders that are live or last.
  pub total-left_over :
      (last_orders orders : List (ℕ × Order Val))
      → All (λ kv. Keyed kv.1) orders
      → (v : ℤ) × (get_total_volume Val hash last_orders orders ≡ some v)
        × (v -ℤ get_total_traded_volume Val orders ≡ pos (left_over last_orders orders))
  unfolding get_total_volume get_total_traded_volume ◌-ℤ◌
  total-left_over last_orders [] h = (pos 0, refl, refl)
  total-left_over last_orders ((id, o) ∷ m) h =
      let (k, e) = h.0 in
      let (v, q, n) = total-left_over last_orders m h.1 in
      let b = is_last_of Val (lookup k last_orders) o in
      let d =
        difference (counted Val b o) (traded Val o) v (get_total_traded_volume Val m)
          (if b || not (is_final_status o.status) then o.volume_left else 0)
          (left_over last_orders m) (counted-traded b o) n in
      (counted Val b o +ℤ v, rw (e, q) refl, rw e d)
