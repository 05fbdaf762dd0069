-- ===== src/Broker/Trader/Safety.antt =====
-- With the detection on, no input that is let through can trade with an order that the trader knows.
use mathlib.Core.Bool.{true≢false}
use kungfu_cpp.Base.{
  ap₂, ℕ, ◌≡◌, sym, ◌∙◌, ap, subst, ◌⊎◌, inl, inr, true, false, some, List, [], ◌∷◌, ◌++◌,
  Bool-cases, All,
}
use kungfu_cpp.Base.Dict.{All-lookup, All-erase, lookup, assign, Values}
use kungfu_cpp.Base.Double.{Double}
use kungfu_cpp.Wingchun.Orders.{OrderInput, Order}
use kungfu_cpp.Broker.Trader.{
  ids_of, instrument_key, key_of, OrderState, Trader, risk_check, has_self_deal_risk,
}
use kungfu_cpp.Broker.Trader.Crossing.{Known, Safe, crosses-Safe, any_crosses-lookup}
use kungfu_cpp.Broker.Trader.Events.{Event, handle, all_delivered}
use kungfu_cpp.Broker.Trader.Detection.{
  IsKnown, AreKnown, IsStored, Indexed, handle-Indexed, has_self_deal_risk-true,
}

module _ (d : Double) where
  open d use {Val}

  -- The broker's answers: an order that it stores for an input that it was given, or stores again.
  abbrev SameInstrument : OrderInput Val → Order Val → Type 0
  SameInstrument i o = (o.exchange_id ≡ i.exchange_id) × (o.instrument_id ≡ i.instrument_id)

  abbrev Among : OrderInput Val → List (OrderInput Val) → Type 0
  Among i [] = ⊥
  Among i (j ∷ is) = (j ≡ i) ⊎ Among i is

  -- A trader before its first event.
  pub record IsFresh (t : Trader d) : Type 0 where
    pub detects : t.self_deal_detect ≡ true
    pub no_inputs : t.order_inputs ≡ []
    pub no_orders : t.orders ≡ []

  -- What a trader that starts with the detection on and with nothing known can come to, with the inputs
  -- that its broker has been given: it handles events, and the broker stores orders for those inputs.
  pub data Reach (blank : Order Val) : List (OrderInput Val) → Trader d → Type 0 where
    start : (t : Trader d) → IsFresh t → Reach blank [] t
    event :
        {given : List (OrderInput Val)} {t : Trader d} (e : Event d)
        → Reach blank given t
        → Reach blank (all_delivered d (handle d blank e t).0 ++ given) (handle d blank e t).1
    store :
        {given : List (OrderInput Val)} {t : Trader d} (i : OrderInput Val) (s : OrderState d)
        → Among i given
        → SameInstrument i s.order
        → Reach blank given t
        → Reach blank given (record t { orders = assign i.order_id s t.orders })

  Among-All :
      (P : OrderInput Val → Type 0) (i : OrderInput Val) (is : List (OrderInput Val))
      → All P is
      → Among i is
      → P i
  Among-All P i [] h a = absurd a
  Among-All P i (j ∷ is) h (inl e) = subst P e h.0
  Among-All P i (j ∷ is) h (inr a) = Among-All P i is h.1 a

  Reach-Indexed :
      {blank : Order Val} {given : List (OrderInput Val)} {t : Trader d}
      → Reach blank given t
      → Indexed d given t
  Reach-Indexed (start t f) = record {
    detects = f.detects;
    known = tt;
    waiting = subst (Values (AreKnown d t.ids_by_instrument)) (sym f.no_inputs) tt;
    stored = subst (All (IsStored d t.ids_by_instrument)) (sym f.no_orders) tt;
  }
  Reach-Indexed {blank} (event {given} {t} e r) = handle-Indexed d blank given e t (Reach-Indexed r)
  Reach-Indexed (store {given} {t} i s a (ee, ei) r) =
      let h = Reach-Indexed r in
      let m = t.ids_by_instrument in
      record {
        detects = h.detects;
        known = h.known;
        waiting = h.waiting;
        stored = (
          subst (λ k. Known k i.order_id m) (sym (ap₂ instrument_key ee ei))
              (Among-All (IsKnown d m) i given h.known a),
          All-erase (IsStored d m) i.order_id t.orders h.stored,
        );
      }

  let_through :
      (i : OrderInput Val) (t : Trader d)
      → t.self_deal_detect ≡ true
      → (has_self_deal_risk d i t).0 ≡ false
      → risk_check d i t ≡ false
  let_through i t h e = elim (Bool-cases (risk_check d i t)) [
    | inr k ↦ k
    | inl k ↦ absurd (true≢false (sym (ap (λ x. x.0) (has_self_deal_risk-true d i t h k)) ∙ e))
  ]

  risk_check-Safe :
      (i : OrderInput Val) (t : Trader d) (id : ℕ) (s : OrderState d)
      → risk_check d i t ≡ false
      → Known (key_of d i) id t.ids_by_instrument
      → lookup id t.orders ≡ some s
      → Safe d i s.order
  unfolding risk_check
  risk_check-Safe i t id s h k l =
      crosses-Safe d i s.order
        (any_crosses-lookup d i t.orders (ids_of (key_of d i) t.ids_by_instrument) id s h k l)

  -- In whatever state a trader has come to that starts with the detection on, through events and through
  -- orders that its broker stores for inputs it was given: an input that is let through is safe with
  -- each stored order of its instrument. The order is over, or is on the same side, or the input is a
  -- limit order that buys for less, or sells for more, than the order's price.
  pub Reach-Safe :
      {blank : Order Val} {given : List (OrderInput Val)} {t : Trader d} (i : OrderInput Val)
      (id : ℕ) (s : OrderState d)
      → Reach blank given t
      → (has_self_deal_risk d i t).0 ≡ false
      → lookup id t.orders ≡ some s
      → SameInstrument i s.order
      → Safe d i s.order
  Reach-Safe {t = t} i id s r e l (ee, ei) =
      let h = Reach-Indexed r in
      let m = t.ids_by_instrument in
      risk_check-Safe i t id s (let_through i t h.detects e)
        (subst (λ k. Known k id m) (ap₂ instrument_key ee ei)
          (All-lookup (IsStored d m) id t.orders s h.stored l))
        l
