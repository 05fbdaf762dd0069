-- ===== src/Broker/Client/Telling.antt =====
-- Each call of a passive client leaves what it was told.
use Prim.Native.String.{String}
use kungfu_cpp.Base.{
  ℕ, ◌≡◌, refl, ◌∙◌, subst, inl, inr, Bool, true, ◌||◌, Option, none, some, List, [], if◌then◌else◌,
  ◌==◌, arith, Bool-cases,
}
use kungfu_cpp.Base.Chains.{◌>>=◌}
use kungfu_cpp.Base.Dict.{lookup}
use kungfu_cpp.Base.Int.{ℤ}
use kungfu_cpp.Wingchun.Enums.{BrokerState, Category, md, td, strategy, system}
use kungfu_cpp.Broker.Client.{
  Location, App, Register, get_connect_time, CustomSubscribe, Client, Output,
}
use kungfu_cpp.Broker.Client.Queries.{is_some, get_resume_policy}
use kungfu_cpp.Broker.Client.Calls.{renew, sync, channels, connected_by, connect_register}
use kungfu_cpp.Wingchun.Instruments.{get_instrument_type}
use kungfu_cpp.Wingchun.Enums.{InstrumentType}
use kungfu_cpp.Broker.Client.Calls.{subscribe_key}
use kungfu_cpp.Broker.Client.Events.{
  silently, with_source, becomes_ready, switch_md, switch_td, switch_state, with_state,
  update_broker_state, deregister, enroll_md, subscribe, key_of, base_subscribe_at,
}
use kungfu_cpp.Base.Sets.{member}
use kungfu_cpp.Broker.Client.Told.{
  After, After-bind, After-then, After-if, Told, enrolled-emplace, kept, key_added,
}

module _ (source key : ℕ) (ss : List CustomSubscribe) (b : Bool) where
  connected_by-Told :
      (o : Option (List Output)) (uid : ℕ) (c : Client)
      → Told source key ss b c
      → Told source key ss b (connected_by o uid c).1
  connected_by-Told none uid c h = h
  connected_by-Told (some os) uid c h = kept source key ss b c _ h refl refl refl refl

  pub connect_register-Told :
      (app : App) (r : Register) (c : Client)
      → Told source key ss b c
      → After (Told source key ss b) (connect_register app r c)
  unfolding connect_register
  connect_register-Told app r c h =
      let from = get_connect_time (get_resume_policy c.kind) app r in
      After-if (Told source key ss b) (member r.location_uid c.connected) _ _ h (
        After-bind (Told source key ss b) (app.location r.location_uid) _ (λ l.
          connected_by-Told (channels app l r.location_uid from l.category c) r.location_uid c h))

  switch_state-Told :
      (app : App) (time : ℤ) (l : Location) (state : BrokerState) (k : Category) (c : Client)
      → Told source key ss b c
      → After (Told source key ss b) (switch_state app time l state k c)
  unfolding switch_state
  switch_state-Told app time l state md c h =
      After-bind (Told source key ss b)
        (if becomes_ready app l.uid state c.ready_md
          then renew c.kind app time l (switch_md app l state c)
          else some [])
        (λ os. some (os, switch_md app l state c))
        (λ os. kept source key ss b c (switch_md app l state c) h refl refl refl refl)
  switch_state-Told app time l state td c h =
      After-bind (Told source key ss b)
        (if becomes_ready app l.uid state c.ready_td then sync c.kind app time l else some [])
        (λ os. some (os, switch_td app l state c))
        (λ os. kept source key ss b c (switch_td app l state c) h refl refl refl refl)
  switch_state-Told app time l state strategy c h = h
  switch_state-Told app time l state system c h = h

  pub update_broker_state-Told :
      (app : App) (time : ℤ) (uid : ℕ) (state : BrokerState) (c : Client)
      → Told source key ss b c
      → After (Told source key ss b) (update_broker_state app time uid state c)
  unfolding update_broker_state
  update_broker_state-Told app time uid state c h =
      After-bind (Told source key ss b) (app.location uid) _ (λ l.
        After-then (Told source key ss b) (Told source key ss b)
          (switch_state app time l state l.category c) (λ r. some (r.0, with_state l.uid state r.1))
          (switch_state-Told app time l state l.category c h)
          (λ r h'. kept source key ss b r.1 (with_state l.uid state r.1) h' refl refl refl refl))

  pub deregister-Told :
      (app : App) (u : ℕ) (c : Client)
      → Told source key ss b c
      → After (Told source key ss b) (deregister app u c)
  unfolding deregister
  deregister-Told app u c h =
      After-bind (Told source key ss b) (app.location u) _
        (λ l. kept source key ss b c _ h refl refl refl refl)

  pub enroll_md-Told :
      (u : ℕ) (c : Client) → Told source key ss b c → Told source key ss b (enroll_md u c)
  enroll_md-Told u c h = record {
    is_passive = h.is_passive;
    customs = h.customs;
    enrolls = enrolled-emplace u source c.enrolled_md ∙ h.enrolls;
    has_key = h.has_key;
  }

  pub output-Told :
      (o : Option (List Output)) (c : Client)
      → Told source key ss b c
      → After (Told source key ss b) (o >>= λ os. some (os, c))
  output-Told o c h = After-bind (Told source key ss b) o (λ os. some (os, c)) (λ os. h)

  module _ (hash : String → String → ℕ) (number : String → Option ℕ) where
    added :
        (e i : String) (c : Client) (o : Option InstrumentType)
        → Told source key ss b c
        → After
            (Told source key ss (hash e i == key || b))
            ((o >>= λ t. some (subscribe_key (key_of hash number e i t) c)) >>= silently)
    added e i c none h = tt
    added e i c (some t) h = key_added source key ss b (key_of hash number e i t) c h

    pub subscribe-Told :
        (e i : String) (c : Client)
        → Told source key ss b c
        → After
            (Told source key ss (hash e i == key || b))
            (subscribe hash number e i c >>= silently)
    unfolding subscribe
    subscribe-Told e i c h = elim (Bool-cases (is_some (lookup (hash e i) c.instrument_keys))) [
      | inr f ↦ rw f (added e i c (get_instrument_type number e i) h)
      | inl t ↦ rw t (record {
        is_passive = h.is_passive;
        customs = h.customs;
        enrolls = h.enrolls;
        has_key = elim (Bool-cases (hash e i == key)) [
          | inr g ↦ rw g h.has_key
          | inl g ↦
              let q : hash e i ≡ key = ground (arith, g) in
              rw g (subst (λ k. is_some (lookup k c.instrument_keys) ≡ true) q t)
        ];
      })
    ]

    with_source-Told :
        (l : Location) (e i : String) (x : Bool) (o : Option Client)
        → After (Told source key ss x) (o >>= silently)
        → After
            (Told source key ss x)
            ((o >>= λ c'. some (with_source hash number l e i c')) >>= silently)
    with_source-Told l e i x none h = tt
    with_source-Told l e i x (some c) h = kept source key ss x c _ h refl refl refl refl

    pub base_subscribe_at-Told :
        (l : Location) (e i : String) (c : Client)
        → Told source key ss b c
        → After
            (Told source key ss (hash e i == key || b))
            (base_subscribe_at hash number l e i c >>= silently)
    unfolding base_subscribe_at
    base_subscribe_at-Told l e i c h =
        with_source-Told l e i (hash e i == key || b) (subscribe hash number e i c)
          (subscribe-Told e i c h)
