-- ===== src/Broker/Trader/Detection.antt =====
-- With the detection on, every input that the broker was given is found by its instrument.
use kungfu_cpp.Base.{
  ℕ, ◌≡◌, refl, inl, inr, true, false, List, [], ◌∷◌, ◌++◌, Bool-cases, Option-cases, All, All-mono,
  All-append,
}
use kungfu_cpp.Base.Dict.{lookup, Values, Values-lookup, Values-erase}
use kungfu_cpp.Base.Double.{Double}
use kungfu_cpp.Wingchun.Orders.{OrderInput, Order}
use kungfu_cpp.Broker.Trader.{
  InstrumentIds, register, instrument_key, key_of, OrderState, Trader, registered, risk_check,
  has_self_deal_risk, accept, is_batch, inputs_of, handle_order_input, handle_batch_order_tag,
  insert_block_message, BlockMessage,
}
use kungfu_cpp.Broker.Trader.Crossing.{Known, register_self, register-Known}
use kungfu_cpp.Broker.Trader.Events.{
  Event, order_input, batch_order_begin, batch_order_end, block_message, handle, all_delivered,
}

module _ (d : Double) where
  open d use {Val}

  abbrev pub IsKnown : InstrumentIds → OrderInput Val → Type 0
  IsKnown m i = Known (key_of d i) i.order_id m

  abbrev pub AreKnown : InstrumentIds → List (OrderInput Val) → Type 0
  AreKnown m is = All (IsKnown m) is

  abbrev pub IsStored : InstrumentIds → ℕ × OrderState d → Type 0
  IsStored m (id, s) = Known (instrument_key s.order.exchange_id s.order.instrument_id) id m

  -- Whatever the broker was given or will be given, and every order, is found by its instrument.
  pub record Indexed (given : List (OrderInput Val)) (t : Trader d) : Type 0 where
    pub detects : t.self_deal_detect ≡ true
    pub known : AreKnown t.ids_by_instrument given
    pub waiting : Values (AreKnown t.ids_by_instrument) t.order_inputs
    pub stored : All (IsStored t.ids_by_instrument) t.orders

  AreKnown-register :
      (k : List ℕ) (n : ℕ) (m : InstrumentIds) (is : List (OrderInput Val))
      → AreKnown m is
      → AreKnown (register k n m) is
  AreKnown-register k n m is h =
      All-mono (IsKnown m) (IsKnown (register k n m))
        (λ i h'. register-Known (key_of d i) k i.order_id n m h') is h

  registered-Indexed :
      (given : List (OrderInput Val)) (i : OrderInput Val) (t : Trader d)
      → Indexed given t
      → Indexed given (registered d i t) × IsKnown (registered d i t).ids_by_instrument i
  registered-Indexed given i t h =
      let k = key_of d i in
      let n = i.order_id in
      let m = t.ids_by_instrument in
      (
        record {
          detects = h.detects;
          known = AreKnown-register k n m given h.known;
          waiting =
              All-mono _ _ (λ kv h'. AreKnown-register k n m kv.1 h') t.order_inputs h.waiting;
          stored = All-mono _ _ (λ ks h'. register-Known _ k ks.0 n m h') t.orders h.stored;
        },
        register_self k n m,
      )

  inputs_of-AreKnown :
      (source : ℕ) (t : Trader d) (m : InstrumentIds)
      → Values (AreKnown m) t.order_inputs
      → AreKnown m (inputs_of d source t)
  inputs_of-AreKnown source t m h = elim (Option-cases (lookup source t.order_inputs)) [
    | inl n ↦ rw (n, inputs_of) tt
    | inr (is, n) ↦ rw (n, inputs_of) (Values-lookup (AreKnown m) source t.order_inputs is h n)
  ]

  accept-Indexed :
      (given : List (OrderInput Val)) (source : ℕ) (i : OrderInput Val) (t : Trader d)
      → Indexed given t
      → IsKnown t.ids_by_instrument i
      → let (os, t') = accept d source i t in Indexed (all_delivered d os ++ given) t'
  unfolding accept
  accept-Indexed given source i t h k = elim (Bool-cases (is_batch d source t)) [
    | inl b ↦
        rw (b, accept)
          (record {
            detects = h.detects;
            known = h.known;
            waiting = (
              All-append (IsKnown t.ids_by_instrument) (inputs_of d source t) (i ∷ [])
                  (inputs_of-AreKnown source t t.ids_by_instrument h.waiting) (k, tt),
              Values-erase (AreKnown t.ids_by_instrument) source t.order_inputs h.waiting,
            );
            stored = h.stored;
          })
    | inr b ↦
        rw (b, accept)
          (record {
            detects = h.detects;
            known = (k, h.known);
            waiting = h.waiting;
            stored = h.stored;
          })
  ]

  pub has_self_deal_risk-true :
      (i : OrderInput Val) (t : Trader d)
      → t.self_deal_detect ≡ true
      → risk_check d i t ≡ true
      → has_self_deal_risk d i t ≡ (true, t)
  unfolding has_self_deal_risk
  has_self_deal_risk-true i t h k = rw (h, k, has_self_deal_risk) refl

  has_self_deal_risk-false :
      (i : OrderInput Val) (t : Trader d)
      → t.self_deal_detect ≡ true
      → risk_check d i t ≡ false
      → has_self_deal_risk d i t ≡ (false, registered d i t)
  unfolding has_self_deal_risk
  has_self_deal_risk-false i t h k = rw (h, k, has_self_deal_risk) refl

  handle_order_input-Indexed :
      (blank : Order Val) (given : List (OrderInput Val)) (source gen_time : ℕ) (i : OrderInput Val)
      (t : Trader d)
      → Indexed given t
      → let (os, t') = handle_order_input d blank source gen_time i t in
        Indexed (all_delivered d os ++ given) t'
  unfolding handle_order_input
  handle_order_input-Indexed blank given source gen_time i t h =
      elim (Bool-cases (risk_check d i t)) [
        | inl k ↦ rw (has_self_deal_risk-true i t h.detects k, handle_order_input) h
        | inr k ↦
            let (h', k') = registered-Indexed given i t h in
            rw (has_self_deal_risk-false i t h.detects k, handle_order_input)
              (accept-Indexed given source i (registered d i t) h' k')
      ]

  insert_block_message-Indexed :
      (given : List (OrderInput Val)) (m : BlockMessage d) (t : Trader d)
      → Indexed given t
      → Indexed given (insert_block_message d m t).1
  unfolding insert_block_message
  insert_block_message-Indexed given m t h =
      elim (Option-cases (lookup m.block_id t.block_messages)) [
        | inl n ↦
            rw (n, insert_block_message)
              (record {
                detects = h.detects;
                known = h.known;
                waiting = h.waiting;
                stored = h.stored;
              })
        | inr (k, n) ↦ rw (n, insert_block_message) h
      ]

  pub handle-Indexed :
      (blank : Order Val) (given : List (OrderInput Val)) (e : Event d) (t : Trader d)
      → Indexed given t
      → let (os, t') = handle d blank e t in Indexed (all_delivered d os ++ given) t'
  unfolding handle handle_batch_order_tag insert_block_message
  handle-Indexed blank given (order_input source gen_time i) t h =
      handle_order_input-Indexed blank given source gen_time i t h
  handle-Indexed blank given (batch_order_begin source) t h = record {
    detects = h.detects;
    known = h.known;
    waiting = h.waiting;
    stored = h.stored;
  }
  handle-Indexed blank given (batch_order_end source) t h =
      let k = inputs_of-AreKnown source t t.ids_by_instrument h.waiting in
      record {
        detects = h.detects;
        known =
            All-append (IsKnown t.ids_by_instrument) (inputs_of d source t ++ []) given
              (All-append (IsKnown t.ids_by_instrument) (inputs_of d source t) [] k tt) h.known;
        waiting = Values-erase (AreKnown t.ids_by_instrument) source t.order_inputs h.waiting;
        stored = h.stored;
      }
  handle-Indexed blank given (block_message m) t h = insert_block_message-Indexed given m t h
