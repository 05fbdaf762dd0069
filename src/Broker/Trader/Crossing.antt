-- ===== src/Broker/Trader/Crossing.antt =====
-- What the detection of trades with oneself finds among the known orders.
use mathlib.Core.Bool.{true≢false}
use kungfu_cpp.Base.{
  ℕ, ◌≡◌, refl, sym, ◌∙◌, ap, ◌⊎◌, inl, inr, true, false, some, List, [], ◌∷◌, ◌==◌, arith,
  Bool-cases,
}
use kungfu_cpp.Base.Dict.{lookup}
use kungfu_cpp.Base.Sets.{member, member-add_id}
use kungfu_cpp.Base.Double.{Double}
use kungfu_cpp.Wingchun.Enums.{buy, sell}
use kungfu_cpp.Wingchun.Directions.{is_final_status}
use kungfu_cpp.Wingchun.Orders.{OrderInput, Order}
use kungfu_cpp.Wingchun.Products.{same}
use kungfu_cpp.Broker.Trader.{
  side_value, is_side, is_limit, InstrumentIds, ids_of, register, OrderState, crosses,
  crosses_known, any_crosses,
}

pub same_refl : (xs : List ℕ) → same xs xs ≡ true
same_refl [] = refl
same_refl (x ∷ xs) = ground (arith, same_refl xs)

-- An id is registered under a key.
abbrev pub Known : List ℕ → ℕ → InstrumentIds → Type 0
Known k i m = member i (ids_of k m) ≡ true

pub register_self : (k : List ℕ) (n : ℕ) (m : InstrumentIds) → Known k n (register k n m)
unfolding register ids_of
register_self k n [] = ground (arith, same_refl k)
register_self k n ((j, ids) ∷ m) = elim (Bool-cases (same j k)) [
  | inl t ↦ ground (arith, t, member-add_id n n ids)
  | inr f ↦ ground (arith, f, register_self k n m)
]

pub register-Known :
    (k j : List ℕ) (i n : ℕ) (m : InstrumentIds) → Known k i m → Known k i (register j n m)
unfolding register ids_of
register-Known k j i n [] h = absurd (true≢false (sym h))
register-Known k j i n ((x, ids) ∷ m) h = elim (Bool-cases (same x j)) [
  | inl t ↦ ground (arith, t, h, member-add_id i n ids)
  | inr f ↦ ground (arith, f, h, register-Known k j i n m)
]

module _ (d : Double) where
  -- An order with which the input cannot trade: it is over, is on the same side, or the input is a
  -- limit order that buys for less or sells for more than the order's price.
  abbrev pub Safe : OrderInput d.Val → Order d.Val → Type 0
  Safe input o =
      (is_final_status o.status ≡ true)
      ⊎ (side_value o.side ≡ side_value input.side)
      ⊎ ((is_limit input.price_type ≡ true)
          × (((is_side input.side buy ≡ true) × (d.lt input.limit_price o.limit_price ≡ true))
              ⊎ ((is_side input.side sell ≡ true) × (d.lt o.limit_price input.limit_price ≡ true))))

  pub crosses-Safe :
      (input : OrderInput d.Val) (o : Order d.Val) → crosses d input o ≡ false → Safe input o
  unfolding crosses
  crosses-Safe input o h = ground (arith, h)

  pub any_crosses-lookup :
      (input : OrderInput d.Val) (orders : List (ℕ × OrderState d)) (ids : List ℕ) (id : ℕ)
      (s : OrderState d)
      → any_crosses d input orders ids ≡ false
      → member id ids ≡ true
      → lookup id orders ≡ some s
      → crosses d input s.order ≡ false
  unfolding any_crosses
  any_crosses-lookup input orders [] id s h m l = absurd (true≢false (sym m))
  any_crosses-lookup input orders (x ∷ ids) id s h m l = elim (Bool-cases (x == id)) [
    | inl t ↦
        let e : x ≡ id = ground (arith, t) in
        let k : crosses_known d input (lookup x orders) ≡ false = ground (arith, h) in
        sym (ap (crosses_known d input) (ap (λ y. lookup y orders) e ∙ l)) ∙ k
    | inr f ↦ any_crosses-lookup input orders ids id s (ground (arith, h)) (ground (arith, m, f)) l
  ]
