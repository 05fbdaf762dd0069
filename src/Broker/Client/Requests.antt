-- ===== src/Broker/Client/Requests.antt =====
-- The calls of a client return, and what they ask for: broker states, departures, subscriptions.
use kungfu_cpp.Base.{
  ℕ, ◌≡◌, refl, sym, ap, ◌∙◌, subst, inl, inr, Bool, true, false, ◌&&◌, Option, some, List, [], ◌∷◌,
  ◌++◌, if◌then◌else◌, ◌==◌, arith, Bool-cases,
}
use kungfu_cpp.Base.Dict.{lookup, lookup-assign}
use kungfu_cpp.Base.Sets.{remove, member-remove}
use kungfu_cpp.Base.Int.{ℤ}
use kungfu_cpp.Wingchun.Enums.{BrokerState, disconnected, Category, md, td, strategy, system}
use kungfu_cpp.Broker.Client.{Location, App, CustomSubscribe, Client, Output}
use kungfu_cpp.Broker.Client.Queries.{is_md, should_connect_md}
use kungfu_cpp.Broker.Client.Calls.{emplace, renew, sync}
use kungfu_cpp.Broker.Client.Events.{
  connect_band, becomes_ready, switch_md, switch_td, switch_state, with_state, update_broker_state,
  deregister, enroll_md, subs_or_new, subscribe_all,
}
use kungfu_cpp.Broker.Client.Renewing.{IsWell, Located, Quiet, renew-Quiet, sync-Quiet}
use kungfu_cpp.Broker.Client.Connecting.{Counted, none_depart, still, quietly}

pub connect_band-Counted :
    (app : App) (time : ℤ) (source_id dest_id : ℕ) (c : Client)
    → IsWell c
    → Located app source_id
    → Counted none_depart c (connect_band app time source_id dest_id c)
unfolding connect_band
connect_band-Counted app time source_id dest_id c w (l, e, q) =
    elim (Bool-cases (is_md l.category && should_connect_md c.kind l.uid c)) [
      | inl t ↦ rw (e, t) (_, c, refl, w, λ u. omega arith)
      | inr f ↦ rw (e, f) (still c c _ refl w refl)
    ]

becomes_ready-writer :
    (app : App) (uid : ℕ) (state : BrokerState) (readies : List ℕ)
    → becomes_ready app uid state readies ≡ true
    → app.has_writer uid ≡ true
becomes_ready-writer app uid state readies h = ground (arith, h)

pub Quiet-if :
    (b : Bool) (o : Option (List Output)) → (b ≡ true → Quiet o) → Quiet (if b then o else some [])
Quiet-if true o h = h refl
Quiet-if false o h = ([], refl, λ u. refl)

switch_state-Counted :
    (app : App) (time : ℤ) (l : Location) (state : BrokerState) (k : Category) (c : Client)
    → IsWell c
    → Located app l.uid
    → Counted none_depart c (switch_state app time l state k c)
unfolding switch_state
switch_state-Counted app time l state md c w k =
    let b = becomes_ready app l.uid state c.ready_md in
    let c' = switch_md app l state c in
    let q = Quiet-if b (renew c.kind app time l c') (λ h.
      renew-Quiet c.kind app time l c' w k (becomes_ready-writer app l.uid state c.ready_md h)) in
    quietly c c' (if b then renew c.kind app time l c' else some []) q w refl
switch_state-Counted app time l state td c w k =
    let b = becomes_ready app l.uid state c.ready_td in
    let c' = switch_td app l state c in
    let q =
      Quiet-if b (sync c.kind app time l)
        (λ h. sync-Quiet c.kind app time l (becomes_ready-writer app l.uid state c.ready_td h)) in
    quietly c c' (if b then sync c.kind app time l else some []) q w refl
switch_state-Counted app time l state strategy c w k = still c c _ refl w refl
switch_state-Counted app time l state system c w k = still c c _ refl w refl

pub update_broker_state-Counted :
    (app : App) (time : ℤ) (uid : ℕ) (state : BrokerState) (c : Client)
    → IsWell c
    → Located app uid
    → Counted none_depart c (update_broker_state app time uid state c)
unfolding update_broker_state
update_broker_state-Counted app time uid state c w (l, e, q) =
    let k : Located app l.uid = (l, subst (λ u. app.location u ≡ some l) (sym q) e, refl) in
    let (os, c', r, w', n) = switch_state-Counted app time l state l.category c w k in
    (os, with_state l.uid state c', rw (e, r) refl, w', n)

abbrev pub departs_once : ℕ → ℕ → ℕ
departs_once u uid = if u == uid then 1 else 0

pub deregister-Counted :
    (app : App) (u : ℕ) (c : Client)
    → IsWell c
    → Located app u
    → Counted (departs_once u) c (deregister app u c)
unfolding deregister
deregister-Counted app u c w (l, e, q) =
    let c' = record (with_state u disconnected c) {
      ready_md = remove u c.ready_md;
      ready_td = remove u c.ready_td;
      connected = remove u c.connected;
    } in
    (
      [],
      c',
      rw e refl,
      w,
      λ uid. rw (member-remove uid u c.connected) (elim (Bool-cases (u == uid)) [
        | inl t ↦ rw t (ground arith)
        | inr f ↦ rw f (omega arith)
      ]),
    )

lookup-emplace :
    (u k : ℕ) (m : List (ℕ × Bool))
    → lookup u (emplace k false m) ≡ some true
    → lookup u m ≡ some true
unfolding emplace lookup
lookup-emplace u k m h = ground (arith, h)

pub enroll_md-IsWell : (uid : ℕ) (c : Client) → IsWell c → IsWell (enroll_md uid c)
enroll_md-IsWell uid c w u h = w u (lookup-emplace u uid c.enrolled_md h)

pub subscribe_all-IsWell :
    (uid : ℕ) (s : CustomSubscribe) (c : Client) → IsWell c → IsWell (subscribe_all uid s c)
unfolding subscribe_all
subscribe_all-IsWell uid s c w u h =
    let q = lookup-assign uid u true c.enrolled_md in
    let subs = subs_or_new (lookup uid c.custom_subs) ++ s ∷ [] in
    rw (lookup-assign uid u subs c.custom_subs) (elim (Bool-cases (uid == u)) [
      | inl t ↦ rw t refl
      | inr f ↦
          rw f
            (w u (sym (ap (λ b. if b then some true else lookup u c.enrolled_md) f) ∙ (sym q ∙ h)))
    ])
