-- ===== src/Basket/Tracking.antt =====
-- The engine of basket orders treats each basket order by itself.
use Prim.Native.String.{String}
use kungfu_cpp.Base.{
  ℕ, ◌≡◌, refl, ap, inl, inr, true, not, ◌&&◌, Option, none, some, List, [], ◌∷◌, ◌++◌,
  if◌then◌else◌, ◌==◌, Bool-cases, All,
}
use kungfu_cpp.Base.Chains.{◌>>=◌}
use kungfu_cpp.Base.Dict.{lookup, assign, Values, Values-erase}
use kungfu_cpp.Wingchun.Orders.{Order}
use kungfu_cpp.Basket.{is_static, BasketOrderState, newer, update_last_order, settled, update}
use kungfu_cpp.Basket.Volumes.{Keyed, total-left_over}
use kungfu_cpp.Basket.Engine.{
  Home, BasketOrderEngine, Report, started, first_report, Result, next_report, Event, arrives,
  inserts, order,
}

module _ (Val : Type 0) (hash : String → String → ℕ) where
  -- One basket order under an order of its own.
  abbrev pub followed :
      Home
      → Order Val
      → Option (BasketOrderState Val)
      → Option (List (Report Val) × Option (BasketOrderState Val))
  followed home o none = some ([], none)
  followed home o (some s) = do s' ← update Val hash o s; some (next_report Val home s', some s')

  -- What becomes of the basket order with an id, and what is reported of it, at an event.
  abbrev pub follow :
      ℕ
      → Home
      → Event Val
      → Option (BasketOrderState Val)
      → Option (List (Report Val) × Option (BasketOrderState Val))
  follow id home (arrives trigger_time b) ms =
      some ([], if b.order_id == id then some (started Val trigger_time b ms) else ms)
  follow id home (inserts trigger_time b) ms =
      if b.order_id == id
      then (first_report Val home b (started Val trigger_time b ms) >>= λ rs.
          some (rs, some (started Val trigger_time b ms)))
      else some ([], ms)
  follow id home (order o) ms =
      if not (o.parent_id == 0) && o.parent_id == id then followed home o ms else some ([], ms)
  follow id home _ ms = some ([], ms)

  abbrev pub follow_all :
      ℕ
      → List (Home × Event Val)
      → Option (BasketOrderState Val)
      → Option (List (Report Val) × Option (BasketOrderState Val))
  follow_all id [] ms = some ([], ms)
  follow_all id ((home, event) ∷ events) ms = do
    r ← follow id home event ms
    s ← follow_all id events r.1
    some (r.0 ++ s.0, s.1)

  -- The reports of one basket order.
  abbrev pub reports_for : ℕ → List (Report Val) → List (Report Val)
  reports_for id [] = []
  reports_for id (r ∷ rs) =
      if r.basket_order.order_id == id then r ∷ reports_for id rs else reports_for id rs

  -- An entry: a basket order under its id, with orders that have a direction.
  abbrev pub IsEntry : ℕ × BasketOrderState Val → Type 0
  IsEntry kv = (kv.1.basket_order.order_id ≡ kv.0) × Values (Keyed Val hash) kv.1.orders

  abbrev pub AreEntries : BasketOrderEngine Val → Type 0
  AreEntries e = All IsEntry e.basket_order_states

  -- A basket order that is inserted has a writer to its account, an order has a direction.
  abbrev pub Answerable : Home → Event Val → Type 0
  Answerable home (inserts trigger_time b) = home.has_writer b.dest_id ≡ true
  Answerable home (order o) = Keyed Val hash o
  Answerable home _ = Unit

  -- A step or a run goes through, and each basket order is followed.
  abbrev pub Tracked :
      (ℕ
        → Option (BasketOrderState Val)
        → Option (List (Report Val) × Option (BasketOrderState Val)))
      → BasketOrderEngine Val
      → Result Val
      → Type 0
  Tracked f e r =
      (rs : List (Report Val)) × (e' : BasketOrderEngine Val) × (r ≡ some (rs, e'))
      × AreEntries e'
      × ((id : ℕ)
          → f id (lookup id e.basket_order_states)
            ≡ some (reports_for id rs, lookup id e'.basket_order_states))

  pub reports_for-append :
      (id : ℕ) (xs ys : List (Report Val))
      → reports_for id (xs ++ ys) ≡ reports_for id xs ++ reports_for id ys
  reports_for-append id [] ys = refl
  reports_for-append id (x ∷ xs) ys = elim (Bool-cases (x.basket_order.order_id == id)) [
    | inl t ↦ rw t (ap (λ zs. x ∷ zs) (reports_for-append id xs ys))
    | inr f ↦ rw f (reports_for-append id xs ys)
  ]

  -- An update by an order with a direction goes through and keeps the id.
  pub update-IsEntry :
      (k : ℕ) (o : Order Val) (s : BasketOrderState Val)
      → Keyed Val hash o
      → IsEntry (k, s)
      → (s' : BasketOrderState Val) × (update Val hash o s ≡ some s') × IsEntry (k, s')
  unfolding update update_last_order settled
  update-IsEntry k o s (j, e) (n, h) =
      let last = newer Val (lookup j s.last_orders) j o s.last_orders in
      let orders = assign o.order_id o s.orders in
      let t = record s { orders = orders; last_orders = last } in
      let keyed : Values (Keyed Val hash) orders =
        ((j, e), Values-erase (Keyed Val hash) o.order_id s.orders h) in
      let (v, q, _) = total-left_over Val hash last orders keyed in
      elim (Bool-cases (is_static s.basket_order.calculation_mode)) [
        | inl b ↦ (settled Val s.basket_order.volume t, rw (e, b) refl, (n, keyed))
        | inr b ↦ (settled Val v t, rw (e, b) (rw q refl), (n, keyed))
      ]
