-- ===== src/Broker/Trader/Handing.antt =====
-- No input is lost, doubled or put out of order on its way through a trader.
use mathlib.Core.Bool.{true≢false}
use kungfu_cpp.Base.{
  ℕ, ◌≡◌, refl, sym, ◌∙◌, ap, ap₂, subst, inl, inr, true, false, Bool, none, some, List, [], ◌∷◌,
  ◌++◌, if◌then◌else◌, ◌==◌, Bool-cases, Option-cases, append_assoc, append-nil,
}
use kungfu_cpp.Base.Dict.{lookup, assign, lookup-assign, lookup-erase}
use kungfu_cpp.Base.Double.{Double}
use kungfu_cpp.Wingchun.Orders.{OrderInput, Order}
use kungfu_cpp.Broker.Trader.{
  Trader, Output, write_order, refusal, has_self_deal_risk, accept, inputs_of, or_false, or_empty,
  clear_order_inputs, handle_order_input, handle_batch_order_tag, insert_block_message,
  BlockMessage,
}
use kungfu_cpp.Broker.Trader.Events.{
  Event, order_input, batch_order_begin, batch_order_end, block_message, handle, run,
  all_delivered_for, delivered_for,
}
use kungfu_cpp.Broker.Trader.Batches.{
  Inputs, admitted_one, admitted, IsQuiet, Step, has_self_deal_risk-same, clear_one, at_source,
  accept-Step, accept-IsQuiet,
}

module _ (d : Double) where
  open d use {Val}

  handle_order_input-accept :
      (blank : Order Val) (s gen_time : ℕ) (i : OrderInput Val) (t : Trader d)
      → (has_self_deal_risk d i t).0 ≡ false
      → handle_order_input d blank s gen_time i t ≡ accept d s i (has_self_deal_risk d i t).1
  unfolding handle_order_input
  handle_order_input-accept blank s gen_time i t e = rw (e, handle_order_input) refl

  handle_order_input-refuse :
      (blank : Order Val) (s gen_time : ℕ) (i : OrderInput Val) (t : Trader d)
      → (has_self_deal_risk d i t).0 ≡ true
      → handle_order_input d blank s gen_time i t
        ≡ (write_order s (refusal d gen_time i blank) ∷ [], (has_self_deal_risk d i t).1)
  unfolding handle_order_input
  handle_order_input-refuse blank s gen_time i t e = rw (e, handle_order_input) refl

  -- A trader with the inputs and the statuses of another is as quiet.
  Same-IsQuiet :
      (t u : Trader d)
      → u.order_inputs ≡ t.order_inputs
      → u.batch_status ≡ t.batch_status
      → IsQuiet d t
      → IsQuiet d u
  Same-IsQuiet t u ei eb q source h =
      ap (λ m. or_empty d (lookup source m)) ei
      ∙ q source (sym (ap (λ m. or_false d (lookup source m)) eb) ∙ h)

  -- A step that keeps the invariant.
  abbrev Handled : ℕ → Inputs d → List (Output d) × Trader d → Trader d → Type 0
  Handled source admits r t = Step d source admits r t × IsQuiet d r.1

  refused_none : (b : Bool) → ◌≡◌ {A = Inputs d} (if b then [] else []) []
  refused_none true = refl
  refused_none false = refl

  handle_order_input-Handled :
      (blank : Order Val) (source s gen_time : ℕ) (i : OrderInput Val) (t : Trader d)
      → IsQuiet d t
      → Handled source
          (admitted_one d source (order_input s gen_time i) t)
          (handle_order_input d blank s gen_time i t)
          t
  handle_order_input-Handled blank source s gen_time i t q =
      let u = (has_self_deal_risk d i t).1 in
      let (ei, eb) = has_self_deal_risk-same d i t in
      let q' = Same-IsQuiet t u ei eb q in
      let same_inputs = ap (λ m. or_empty d (lookup source m)) ei in
      let admits = λ (b : Bool). if s == source then (if b then [] else i ∷ []) else [] in
      let goal = λ (r : List (Output d) × Trader d).
        Handled source (admitted_one d source (order_input s gen_time i) t) r t in
      elim (Bool-cases (has_self_deal_risk d i t).0) [
        | inl e ↦ subst goal (sym (handle_order_input-refuse blank s gen_time i t e)) (
          same_inputs
              ∙ sym (append-nil (inputs_of d source t))
              ∙ ap (λ x. inputs_of d source t ++ x)
                  (sym (ap admits e ∙ refused_none (s == source))),
          q',
        )
        | inr e ↦ subst goal (sym (handle_order_input-accept blank s gen_time i t e)) (
          accept-Step d source s i u q' ∙ ap₂ (λ x y. x ++ y) same_inputs (sym (ap admits e)),
          accept-IsQuiet d s i u q',
        )
      ]

  cleared-IsQuiet :
      (s : ℕ) (t : Trader d)
      → IsQuiet d t
      → IsQuiet d
          (clear_order_inputs d s (record t { batch_status = assign s false t.batch_status }))
  cleared-IsQuiet s t q source h = elim (Bool-cases (s == source)) [
    | inl e ↦
        ap (or_empty d) (lookup-erase s source t.order_inputs)
        ∙ ap (λ c. or_empty d (if c then none else lookup source t.order_inputs)) e
    | inr e ↦
        ap (or_empty d) (lookup-erase s source t.order_inputs)
        ∙ ap (λ c. or_empty d (if c then none else lookup source t.order_inputs)) e
        ∙ q source (
            sym (
              ap (or_false d) (lookup-assign s source false t.batch_status)
              ∙ ap (λ c. or_false d (if c then some false else lookup source t.batch_status)) e)
            ∙ h)
  ]

  begun-IsQuiet :
      (s : ℕ) (t : Trader d)
      → IsQuiet d t
      → IsQuiet d (record t { batch_status = assign s true t.batch_status })
  begun-IsQuiet s t q source h = elim (Bool-cases (s == source)) [
    | inl e ↦ absurd (
        true≢false (
          sym (
            ap (or_false d) (lookup-assign s source true t.batch_status)
            ∙ ap (λ c. or_false d (if c then some true else lookup source t.batch_status)) e)
          ∙ h))
    | inr e ↦ q source (
        sym (
          ap (or_false d) (lookup-assign s source true t.batch_status)
          ∙ ap (λ c. or_false d (if c then some true else lookup source t.batch_status)) e)
        ∙ h)
  ]

  block_message-Handled :
      (source : ℕ) (m : BlockMessage d) (t : Trader d)
      → IsQuiet d t
      → Handled source [] ([], (insert_block_message d m t).1) t
  unfolding insert_block_message
  block_message-Handled source m t q = elim (Option-cases (lookup m.block_id t.block_messages)) [
    | inl n ↦ rw (n, insert_block_message) (sym (append-nil (inputs_of d source t)), q)
    | inr (k, n) ↦ rw (n, insert_block_message) (sym (append-nil (inputs_of d source t)), q)
  ]

  handle-Handled :
      (blank : Order Val) (source : ℕ) (e : Event d) (t : Trader d)
      → IsQuiet d t
      → Handled source (admitted_one d source e t) (handle d blank e t) t
  unfolding handle handle_batch_order_tag
  handle-Handled blank source (order_input s gen_time i) t q =
      handle_order_input-Handled blank source s gen_time i t q
  handle-Handled blank source (batch_order_begin s) t q =
      (sym (append-nil (inputs_of d source t)), begun-IsQuiet s t q)
  handle-Handled blank source (batch_order_end s) t q = (
    ap (λ x. ((if s == source then inputs_of d s t else []) ++ []) ++ or_empty d x)
          (lookup-erase s source t.order_inputs)
        ∙ clear_one d (s == source) (inputs_of d s t) (lookup source t.order_inputs)
            (at_source d (λ x. inputs_of d x t) s source),
    cleared-IsQuiet s t q,
  )
  handle-Handled blank source (block_message m) t q = block_message-Handled source m t q

  all_delivered_for-append :
      (source : ℕ) (os ps : List (Output d))
      → all_delivered_for d source (os ++ ps)
        ≡ all_delivered_for d source os ++ all_delivered_for d source ps
  all_delivered_for-append source [] ps = refl
  all_delivered_for-append source (o ∷ os) ps =
      ap (λ x. delivered_for d source o ++ x) (all_delivered_for-append source os ps)
      ∙ sym (append_assoc (delivered_for d source o) _ _)

  -- From a trader where only sources within a batch have inputs that wait, whatever the events, with the
  -- detection of trades with oneself on or off: what is given to the broker for a source, one by one and
  -- in batches, with what still waits after that, is what waited before and every input of the source
  -- that the detection lets through, in their order, each once; and only sources within a batch have
  -- inputs that wait again.
  pub run-Handled :
      (blank : Order Val) (source : ℕ) (es : List (Event d)) (t : Trader d)
      → IsQuiet d t
      → (all_delivered_for d source (run d blank es t).0 ++ inputs_of d source (run d blank es t).1
          ≡ inputs_of d source t ++ admitted d source blank es t)
        × IsQuiet d (run d blank es t).1
  unfolding run
  run-Handled blank source [] t q = (sym (append-nil (inputs_of d source t)), q)
  run-Handled blank source (e ∷ es) t q =
      let (step, q') = handle-Handled blank source e t q in
      let (os, u) = handle d blank e t in
      let (rest, q'') = run-Handled blank source es u q' in
      (
        ap (λ x. x ++ inputs_of d source (run d blank es u).1)
              (all_delivered_for-append source os (run d blank es u).0)
            ∙ append_assoc (all_delivered_for d source os) _ _
            ∙ ap (λ x. all_delivered_for d source os ++ x) rest
            ∙ sym (append_assoc (all_delivered_for d source os) _ _)
            ∙ ap (λ x. x ++ admitted d source blank es u) step
            ∙ append_assoc (inputs_of d source t) _ _,
        q'',
      )
