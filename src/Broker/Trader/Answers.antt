-- ===== src/Broker/Trader/Answers.antt =====
-- After a recovery no order input of the day is left without an order.
use mathlib.Core.Option.{none-ne-some}
use text.Mathlib.Text.{◌==◌ as str_eq}
use kungfu_cpp.Base.{
  ℕ, Bool, ◌≡◌, ◌≢◌, refl, sym, ◌∙◌, ap, subst, ◌⊎◌, inl, inr, true, false, none, List, [], ◌∷◌,
  ◌++◌, if◌then◌else◌, arith, Bool-cases, Option-cases, All, All-mono,
}
use kungfu_cpp.Base.Dict.{lookup, Values}
use kungfu_cpp.Base.Double.{Double}
use kungfu_cpp.Wingchun.Orders.{Order}
use kungfu_cpp.Wingchun.Directions.{is_final_status}
use kungfu_cpp.Broker.Trader.{OrderState, Trader, Output, write_order}
use kungfu_cpp.Broker.Trader.Recovery.{
  Sent, Received, order_input, other, is_lost, mark_lost, mark_state, mark_orders, take_frames,
  take_frame, deal_write_frame, lost_input, answer_missing, answer_frame, deal_read_frame, recover,
  order, trade,
}

module _ (d : Double) where
  open d use {Val}

  -- An order that is open is known to the broker.
  abbrev pub IsPlaced : OrderState d → Type 0
  IsPlaced s =
      (is_final_status s.order.status ≡ true) ⊎ (str_eq s.order.external_order_id "" ≡ false)

  kept : (s : OrderState d) → is_lost d false s.order ≡ false → IsPlaced s
  unfolding is_lost
  kept s f = ground (arith, f)

  mark_state-IsPlaced : (now : ℕ) (s : OrderState d) → IsPlaced (mark_state d now false s)
  unfolding mark_state is_lost is_final_status
  mark_state-IsPlaced now s =
      let marked = record s { order = mark_lost d now s.order } in
      elim (Bool-cases (is_lost d false s.order)) [
        | inl t ↦ subst IsPlaced (sym (ap (λ b. if b then marked else s) t)) (inl refl)
        | inr f ↦ subst IsPlaced (sym (ap (λ b. if b then marked else s) f)) (kept s f)
      ]

  mark_orders-Values :
      (now : ℕ) (m : List (ℕ × OrderState d)) → Values IsPlaced (mark_orders d now false m)
  unfolding mark_orders
  mark_orders-Values now [] = tt
  mark_orders-Values now ((id, s) ∷ m) = (mark_state-IsPlaced now s, mark_orders-Values now m)

  abbrev Emits : Output d → List (Output d) → Type 0
  Emits o [] = ⊥
  Emits o (p ∷ os) = (p ≡ o) ⊎ Emits o os

  Emits-left : (o : Output d) (os ps : List (Output d)) → Emits o os → Emits o (os ++ ps)
  Emits-left o [] ps h = absurd h
  Emits-left o (p ∷ os) ps (inl e) = inl e
  Emits-left o (p ∷ os) ps (inr h) = inr (Emits-left o os ps h)

  Emits-right : (o : Output d) (os ps : List (Output d)) → Emits o ps → Emits o (os ++ ps)
  Emits-right o [] ps h = h
  Emits-right o (p ∷ os) ps h = inr (Emits-right o os ps h)

  module _ (has_writer : ℕ → Bool) (blank : Order Val) (now : ℕ) where
    -- An input has an order, cannot be answered, or is answered with an order that is lost.
    abbrev pub Answered : Trader d → List (Output d) → Received d → Type 0
    Answered t os (order_input source i) =
        (lookup i.order_id t.orders ≢ none)
        ⊎ (has_writer source ≡ false)
        ⊎ Emits (write_order source (lost_input d blank now i)) os
    Answered t os other = Unit {0}

    answer_frame-Answered :
        (t : Trader d) (f : Received d) → Answered t (answer_frame d has_writer blank now t f) f
    unfolding answer_frame
    answer_frame-Answered t other = tt
    answer_frame-Answered t (order_input source i) =
        elim (Option-cases (lookup i.order_id t.orders)) [
          | inr (s, e) ↦ inl (λ n. none-ne-some s (sym n ∙ e))
          | inl n ↦ elim (Bool-cases (has_writer source)) [
            | inr f ↦ inr (inl f)
            | inl w ↦ inr (inr (rw (n, answer_missing, w) (inl refl)))
          ]
        ]

    Answered-mono :
        (t : Trader d) (os ps : List (Output d)) (f : Received d)
        → ((o : Output d) → Emits o os → Emits o ps)
        → Answered t os f
        → Answered t ps f
    Answered-mono t os ps other m h = tt
    Answered-mono t os ps (order_input source i) m (inl k) = inl k
    Answered-mono t os ps (order_input source i) m (inr (inl w)) = inr (inl w)
    Answered-mono t os ps (order_input source i) m (inr (inr e)) = inr (inr (m _ e))

    deal_read_frame-Answered :
        (t : Trader d) (fs : List (Received d))
        → All (Answered t (deal_read_frame d has_writer blank now fs t)) fs
    unfolding deal_read_frame
    deal_read_frame-Answered t [] = tt
    deal_read_frame-Answered t (f ∷ fs) =
        let os = answer_frame d has_writer blank now t f in
        let ps = deal_read_frame d has_writer blank now fs t in
        (
          Answered-mono t os (os ++ ps) f (λ o. Emits-left o os ps) (answer_frame-Answered t f),
          All-mono _ _ (λ g. Answered-mono t ps (os ++ ps) g (λ o. Emits-right o os ps)) fs
              (deal_read_frame-Answered t fs),
        )

    take_frames-disable_recover :
        (fs : List (Sent d)) (t : Trader d)
        → (take_frames d fs t).disable_recover ≡ t.disable_recover
    unfolding take_frames take_frame
    take_frames-disable_recover [] t = refl
    take_frames-disable_recover (order s ∷ fs) t = take_frames-disable_recover fs _
    take_frames-disable_recover (trade s ∷ fs) t = take_frames-disable_recover fs _
    take_frames-disable_recover (Sent.other ∷ fs) t = take_frames-disable_recover fs _

    recover-eq :
        (sent : List (Sent d)) (received : List (Received d)) (t : Trader d)
        → t.disable_recover ≡ false
        → let (os, t') = deal_write_frame d has_writer now sent t in
          recover d has_writer blank now sent received t
          ≡ (os ++ deal_read_frame d has_writer blank now received t', t')
    unfolding recover
    recover-eq sent received t h = rw (h, recover) refl

    -- Unless recovery is disabled, after it every order is over or has an id of the broker's; and every
    -- order input that the trader was sent has an order, or comes from a process to which the trader
    -- cannot write, or is answered with an order in the state Lost that is made from it.
    pub recover-Answered :
        (sent : List (Sent d)) (received : List (Received d)) (t : Trader d)
        → t.disable_recover ≡ false
        → let (os, t') = recover d has_writer blank now sent received t in
          Values IsPlaced t'.orders × All (Answered t' os) received
    unfolding deal_write_frame
    recover-Answered sent received t h =
        let u = take_frames d sent t in
        let (os, t') = deal_write_frame d has_writer now sent t in
        let ps = deal_read_frame d has_writer blank now received t' in
        let e = take_frames-disable_recover sent t ∙ h in
        subst (λ r. Values IsPlaced r.1.orders × All (Answered r.1 r.0) received)
          (sym (recover-eq sent received t h))
          (
            subst (λ b. Values IsPlaced (mark_orders d now b u.orders)) (sym e)
                (mark_orders-Values now u.orders),
            All-mono _ _ (λ f. Answered-mono t' ps (os ++ ps) f (λ o. Emits-right o os ps)) received
                (deal_read_frame-Answered t' received),
          )
