-- ===== src/Broker/Trader/Batches.antt =====
-- An input that is let through waits for the end of a batch, or goes on at once.
use mathlib.Core.Bool.{true≢false}
use kungfu_cpp.Base.{
  ℕ, ◌≡◌, refl, sym, ◌∙◌, ap, subst, inl, inr, true, false, Bool, Option, none, some, List, [], ◌∷◌,
  ◌++◌, if◌then◌else◌, ◌==◌, arith, Bool-cases, append-nil,
}
use kungfu_cpp.Base.Dict.{lookup, assign, lookup-assign}
use kungfu_cpp.Base.Double.{Double}
use kungfu_cpp.Wingchun.Orders.{OrderInput, Order}
use kungfu_cpp.Broker.Trader.{
  Trader, Output, insert_order, has_self_deal_risk, accept, is_batch, inputs_of, or_false, or_empty,
  with_status,
}
use kungfu_cpp.Broker.Trader.Events.{
  Event, order_input, batch_order_begin, batch_order_end, block_message, handle, all_delivered_for,
}

module _ (d : Double) where
  open d use {Val}

  abbrev pub Inputs : Type 0
  Inputs = List (OrderInput Val)

  -- The inputs of a source that the detection of trades with oneself lets through.
  abbrev pub admitted_one : ℕ → Event d → Trader d → Inputs
  admitted_one source (order_input s gen_time i) t =
      if s == source then (if (has_self_deal_risk d i t).0 then [] else i ∷ []) else []
  admitted_one source (batch_order_begin s) t = []
  admitted_one source (batch_order_end s) t = []
  admitted_one source (block_message m) t = []

  abbrev pub admitted : ℕ → Order Val → List (Event d) → Trader d → Inputs
  admitted source blank [] t = []
  admitted source blank (e ∷ es) t =
      admitted_one source e t ++ admitted source blank es (handle d blank e t).1

  -- No source outside of a batch has inputs that wait.
  abbrev pub IsQuiet : Trader d → Type 0
  IsQuiet t = (source : ℕ) → is_batch d source t ≡ false → inputs_of d source t ≡ []

  -- What a step hands on for a source, and what waits after it, is what waited and what it admitted.
  abbrev pub Step : ℕ → Inputs → List (Output d) × Trader d → Trader d → Type 0
  Step source admits r t =
      all_delivered_for d source r.0 ++ inputs_of d source r.1 ≡ inputs_of d source t ++ admits

  pub has_self_deal_risk-same :
      (i : OrderInput Val) (t : Trader d)
      → ((has_self_deal_risk d i t).1.order_inputs ≡ t.order_inputs)
        × ((has_self_deal_risk d i t).1.batch_status ≡ t.batch_status)
  unfolding has_self_deal_risk
  has_self_deal_risk-same i t = ground arith

  -- `b` says whether an input belongs to the source; `l` is what waits for that.
  append_one :
      (b : Bool) (x : Inputs) (i : OrderInput Val) (l : Option Inputs)
      → (b ≡ true → x ≡ or_empty d l)
      → or_empty d (if b then some (x ++ i ∷ []) else l)
        ≡ or_empty d l ++ (if b then i ∷ [] else [])
  append_one true x i l h = ap (λ y. y ++ i ∷ []) (h refl)
  append_one false x i l h = sym (append-nil (or_empty d l))

  hand_on :
      (b : Bool) (x y : Inputs)
      → (b ≡ true → y ≡ [])
      → ((if b then x else []) ++ []) ++ y ≡ y ++ (if b then x else [])
  hand_on true x y h =
      ap (λ z. (x ++ []) ++ z) (h refl)
      ∙ append-nil (x ++ [])
      ∙ append-nil x
      ∙ ap (λ z. z ++ x) (sym (h refl))
  hand_on false x y h = sym (append-nil y)

  pub clear_one :
      (b : Bool) (x : Inputs) (l : Option Inputs)
      → (b ≡ true → x ≡ or_empty d l)
      → ((if b then x else []) ++ []) ++ or_empty d (if b then none else l) ≡ or_empty d l ++ []
  clear_one true x l h = append-nil (x ++ []) ∙ ap (λ y. y ++ []) (h refl)
  clear_one false x l h = sym (append-nil (or_empty d l))

  pub at_source : {A : Type 0} (f : ℕ → A) (s source : ℕ) → s == source ≡ true → f s ≡ f source
  at_source f s source t = ap f (ground (arith, t))

  pub accept-Step :
      (source s : ℕ) (i : OrderInput Val) (t : Trader d)
      → IsQuiet t
      → Step source (if s == source then i ∷ [] else []) (accept d s i t) t
  unfolding accept
  accept-Step source s i t q = elim (Bool-cases (is_batch d s t)) [
    | inl b ↦
        rw (b, accept)
          (ap (or_empty d) (lookup-assign s source (inputs_of d s t ++ i ∷ []) t.order_inputs)
            ∙ append_one (s == source) (inputs_of d s t) i (lookup source t.order_inputs)
                (at_source (λ x. inputs_of d x t) s source))
    | inr b ↦
        rw (b, accept)
          (hand_on (s == source) (i ∷ []) (inputs_of d source t)
            (λ e. q source (sym (at_source (λ x. is_batch d x t) s source e) ∙ b)))
  ]

  keep_status :
      (b x : Bool) (l : Option Bool)
      → (b ≡ true → x ≡ or_false d l)
      → or_false d (if b then some x else l) ≡ or_false d l
  keep_status true x l h = h refl
  keep_status false x l h = refl

  with_status-is_batch :
      (s source : ℕ) (t : Trader d) → is_batch d source (with_status d s t) ≡ is_batch d source t
  with_status-is_batch s source t =
      ap (or_false d) (lookup-assign s source (is_batch d s t) t.batch_status)
      ∙ keep_status (s == source) (is_batch d s t) (lookup source t.batch_status)
          (at_source (λ x. is_batch d x t) s source)

  other_inputs :
      (b : Bool) (x : Inputs) (l : Option Inputs)
      → b ≡ false
      → or_empty d (if b then some x else l) ≡ or_empty d l
  other_inputs b x l e = ap (λ c. or_empty d (if c then some x else l)) e

  -- The two ends of `accept`.
  abbrev queued : ℕ → OrderInput Val → Trader d → Trader d
  queued s i t = record (with_status d s t) {
    order_inputs = assign s (inputs_of d s t ++ i ∷ []) t.order_inputs;
  }

  accept-queued :
      (s : ℕ) (i : OrderInput Val) (t : Trader d)
      → is_batch d s t ≡ true
      → accept d s i t ≡ ([], queued s i t)
  unfolding accept
  accept-queued s i t e =
      ap (λ b. if b then ([], queued s i t) else (insert_order s i ∷ [], with_status d s t)) e

  accept-passed :
      (s : ℕ) (i : OrderInput Val) (t : Trader d)
      → is_batch d s t ≡ false
      → accept d s i t ≡ (insert_order s i ∷ [], with_status d s t)
  unfolding accept
  accept-passed s i t e =
      ap (λ b. if b then ([], queued s i t) else (insert_order s i ∷ [], with_status d s t)) e

  queued-IsQuiet :
      (s : ℕ) (i : OrderInput Val) (t : Trader d)
      → is_batch d s t ≡ true
      → IsQuiet t
      → IsQuiet (queued s i t)
  queued-IsQuiet s i t b q source h =
      let k = sym (with_status-is_batch s source t) ∙ h in
      elim (Bool-cases (s == source)) [
        | inl e ↦ absurd (true≢false (sym b ∙ at_source (λ x. is_batch d x t) s source e ∙ k))
        | inr e ↦
            ap (or_empty d) (lookup-assign s source (inputs_of d s t ++ i ∷ []) t.order_inputs)
            ∙ other_inputs (s == source) _ (lookup source t.order_inputs) e
            ∙ q source k
      ]

  pub accept-IsQuiet :
      (s : ℕ) (i : OrderInput Val) (t : Trader d) → IsQuiet t → IsQuiet (accept d s i t).1
  accept-IsQuiet s i t q = elim (Bool-cases (is_batch d s t)) [
    | inr b ↦
        subst (λ r. IsQuiet r.1) (sym (accept-passed s i t b))
          (λ source h. q source (sym (with_status-is_batch s source t) ∙ h))
    | inl b ↦ subst (λ r. IsQuiet r.1) (sym (accept-queued s i t b)) (queued-IsQuiet s i t b q)
  ]
