-- ===== src/Basket/Running.antt =====
-- Runs of the engine of basket orders.
use Prim.Native.String.{String}
use kungfu_cpp.Base.{
  ℕ, ◌≡◌, refl, sym, ap, ◌∙◌, inl, inr, Bool, true, false, not, Option, none, some, List, [], ◌∷◌,
  ◌++◌, if◌then◌else◌, ◌==◌, arith, Bool-cases, All,
}
use kungfu_cpp.Base.Dict.{lookup, assign, lookup-assign, lookup-assign_self, All-lookup, All-erase}
use kungfu_cpp.Wingchun.Orders.{Order}
use kungfu_cpp.Basket.{BasketOrder, BasketOrderState}
use kungfu_cpp.Basket.Volumes.{Keyed}
use kungfu_cpp.Basket.Engine.{
  Home, BasketOrderEngine, Report, started, make_basket_order_state, report, first_report,
  insert_basket_order, next_report, try_update_basket_order, update_basket_order, Event, arrives,
  inserts, order, basket, basket_instrument, step, run,
}
use kungfu_cpp.Basket.Tracking.{
  follow, follow_all, reports_for, IsEntry, AreEntries, Answerable, Tracked, reports_for-append,
  update-IsEntry,
}

module _ (Val : Type 0) (hash : String → String → ℕ) where
  same_id : (a b : ℕ) → a == b ≡ true → a ≡ b
  same_id a b t = ground (arith, t)

  -- The reports of one basket order are all its own or none.
  own :
      (b : Bool) (id : ℕ) (r : Report Val)
      → reports_for Val hash id (if b then r ∷ [] else [])
        ≡ (if r.basket_order.order_id == id then (if b then r ∷ [] else []) else [])
  own true id r = refl
  own false id r = elim (Bool-cases (r.basket_order.order_id == id)) [
    | inl t ↦ rw t refl
    | inr f ↦ rw f refl
  ]

  next_report-for :
      (home : Home) (s : BasketOrderState Val) (id : ℕ)
      → reports_for Val hash id (next_report Val home s)
        ≡ (if s.basket_order.order_id == id then next_report Val home s else [])
  next_report-for home s id = elim (Bool-cases (not (home.has_writer s.basket_order.dest_id))) [
    | inl t ↦ rw t (elim (Bool-cases (s.basket_order.order_id == id)) [
      | inl _ ↦ ground arith
      | inr _ ↦ ground arith
    ])
    | inr f ↦ rw f (
        own (home.home_uid == s.basket_order.source_id) id
          (report Val home s.basket_order.dest_id s))
  ]

  lookup-known :
      (k : ℕ) (t : ℕ) (b : BasketOrder Val) (e : BasketOrderEngine Val)
      → b.order_id ≡ k
      → AreEntries Val hash e
      → IsEntry Val hash (k, started Val t b (lookup k e.basket_order_states))
  lookup-known k t b e q h = go (lookup k e.basket_order_states) refl
    where
      go :
          (ms : Option (BasketOrderState Val))
          → lookup k e.basket_order_states ≡ ms
          → IsEntry Val hash (k, started Val t b ms)
      go none n = (q, tt)
      go (some s) n = All-lookup (IsEntry Val hash) k e.basket_order_states s h n

  make-AreEntries :
      (t : ℕ) (b : BasketOrder Val) (e : BasketOrderEngine Val)
      → AreEntries Val hash e
      → AreEntries Val hash (make_basket_order_state Val t b e)
  unfolding make_basket_order_state
  make-AreEntries t b e h = (
    lookup-known b.order_id t b e refl h,
    All-erase (IsEntry Val hash) b.order_id e.basket_order_states h,
  )

  make-lookup :
      (t : ℕ) (b : BasketOrder Val) (e : BasketOrderEngine Val) (id : ℕ)
      → lookup id (make_basket_order_state Val t b e).basket_order_states ≡ (
          if b.order_id == id
          then some (started Val t b (lookup id e.basket_order_states))
          else lookup id e.basket_order_states)
  unfolding make_basket_order_state
  make-lookup t b e id =
      let m = e.basket_order_states in
      lookup-assign b.order_id id (started Val t b (lookup b.order_id m)) m
      ∙ elim (Bool-cases (b.order_id == id)) [
        | inl q ↦ rw (q, same_id b.order_id id q) refl
        | inr q ↦ rw q refl
      ]

  inserts-Tracked :
      (home : Home) (t : ℕ) (b : BasketOrder Val) (e : BasketOrderEngine Val)
      → AreEntries Val hash e
      → home.has_writer b.dest_id ≡ true
      → Tracked Val hash
          (λ id ms. follow Val hash id home (inserts t b) ms)
          e
          (insert_basket_order Val home t b e)
  unfolding insert_basket_order
  inserts-Tracked home t b e h w =
      let s = started Val t b (lookup b.order_id e.basket_order_states) in
      let mine = home.home_uid == b.source_id in
      let rs = if mine then report Val home b.dest_id s ∷ [] else [] in
      let n = (lookup-known b.order_id t b e refl h).0 in
      let go : first_report Val home b s ≡ some rs = elim (Bool-cases mine) [
        | inl q ↦ rw (q, w) refl
        | inr q ↦ rw q refl
      ] in
      (
        rs,
        make_basket_order_state Val t b e,
        rw go refl,
        make-AreEntries t b e h,
        λ id.
            let r =
              own mine id (report Val home b.dest_id s) ∙ ap (λ k. if k == id then rs else []) n in
            elim (Bool-cases (b.order_id == id)) [
              | inl q ↦
                  let p = same_id b.order_id id q in
                  rw (q, r, q, make-lookup t b e id, q) (rw⁻¹ p (rw go refl))
              | inr q ↦ rw (q, r, q, make-lookup t b e id, q) refl
            ],
      )

  known-Tracked :
      (home : Home) (o : Order Val) (e : BasketOrderEngine Val) (s : BasketOrderState Val)
      → AreEntries Val hash e
      → Keyed Val hash o
      → o.parent_id == 0 ≡ false
      → lookup o.parent_id e.basket_order_states ≡ some s
      → Tracked Val hash
          (λ id ms. follow Val hash id home (order o) ms)
          e
          (update_basket_order Val hash home o e)
  unfolding update_basket_order try_update_basket_order
  known-Tracked home o e s h k z l =
      let m = e.basket_order_states in
      let (s', u, n) =
        update-IsEntry Val hash o.parent_id o s k
          (All-lookup (IsEntry Val hash) o.parent_id m s h l) in
      let e' = record e { basket_order_states = assign o.parent_id s' m } in
      let found = lookup-assign_self o.parent_id s' m in
      (
        next_report Val home s',
        e',
        rw (z, l, u, found) refl,
        (n, All-erase (IsEntry Val hash) o.parent_id m h),
        λ id.
            let r =
              next_report-for home s' id
              ∙ ap (λ j. if j == id then next_report Val home s' else []) n.0 in
            let a = lookup-assign o.parent_id id s' m in
            elim (Bool-cases (o.parent_id == id)) [
              | inl q ↦
                  let p = same_id o.parent_id id q in
                  let found_id = sym (ap (λ j. lookup j m) p) ∙ l in
                  rw (z, q, found_id, u, r, q, a, q) refl
              | inr q ↦ rw (z, q, r, q, a, q) refl
            ],
      )

  order-Tracked :
      (home : Home) (o : Order Val) (e : BasketOrderEngine Val)
      → AreEntries Val hash e
      → Keyed Val hash o
      → Tracked Val hash
          (λ id ms. follow Val hash id home (order o) ms)
          e
          (update_basket_order Val hash home o e)
  unfolding update_basket_order try_update_basket_order
  order-Tracked home o e h k = elim (Bool-cases (o.parent_id == 0)) [
    | inl z ↦ ([], e, rw z refl, h, λ id. rw z refl)
    | inr z ↦ go z (lookup o.parent_id e.basket_order_states) refl
  ]
    where
      go :
          o.parent_id == 0 ≡ false
          → (ms : Option (BasketOrderState Val)) → lookup o.parent_id e.basket_order_states ≡ ms
          → Tracked Val hash
              (λ id ms. follow Val hash id home (order o) ms)
              e
              (update_basket_order Val hash home o e)
      go z (some s) l = known-Tracked home o e s h k z l
      go z none l = (
        [],
        e,
        rw (z, l) refl,
        h,
        λ id. elim (Bool-cases (o.parent_id == id)) [
          | inl q ↦
              let found_id =
                sym (ap (λ j. lookup j e.basket_order_states) (same_id o.parent_id id q)) ∙ l in
              rw (z, q, found_id) refl
          | inr q ↦ rw (z, q) refl
        ],
      )

  step-Tracked :
      (home : Home) (event : Event Val) (e : BasketOrderEngine Val)
      → AreEntries Val hash e
      → Answerable Val hash home event
      → Tracked Val hash (λ id ms. follow Val hash id home event ms) e (step Val hash home event e)
  unfolding step
  step-Tracked home (arrives t b) e h a = (
    [],
    make_basket_order_state Val t b e,
    refl,
    make-AreEntries t b e h,
    λ id. rw (make-lookup t b e id) refl,
  )
  step-Tracked home (inserts t b) e h a = inserts-Tracked home t b e h a
  step-Tracked home (order o) e h a = order-Tracked home o e h a
  step-Tracked home (basket b) e h a = ([], _, refl, h, λ id. refl)
  step-Tracked home (basket_instrument i) e h a = ([], _, refl, h, λ id. refl)

  -- An engine that holds basket orders under their ids, with orders that have a direction, and events of
  -- which each order has a direction and each basket order that is inserted has a writer to its account:
  -- the run goes through, and the engine is again such a one. For every id the state that the engine
  -- holds in the end, and the reports of the basket order with that id in their order, are what comes of
  -- that basket order alone: from its own arrivals and insertions and the orders with it as their parent.
  pub run-Tracked :
      (events : List (Home × Event Val)) (e : BasketOrderEngine Val)
      → AreEntries Val hash e
      → All (λ he. Answerable Val hash he.0 he.1) events
      → Tracked Val hash (λ id ms. follow_all Val hash id events ms) e (run Val hash events e)
  unfolding run
  run-Tracked [] e h a = ([], e, refl, h, λ id. refl)
  run-Tracked ((home, event) ∷ events) e h a =
      let (rs, e', q, h', f) = step-Tracked home event e h a.0 in
      let (rs', e'', q', h'', f') = run-Tracked events e' h' a.1 in
      (
        rs ++ rs',
        e'',
        rw (q, q') refl,
        h'',
        λ id. rw (f id, f' id, reports_for-append Val hash id rs rs') refl,
      )
