-- ===== src/Broker/Client/Runs.antt =====
-- Every call of a client returns, and a location is connected once between two departures.
use Prim.Native.String.{String}
use kungfu_cpp.Base.{
  Option, ℕ, ◌+◌, ◌≡◌, refl, sym, ap, ◌∙◌, inl, inr, true, some, List, [], ◌∷◌, ◌++◌, if◌then◌else◌,
  arith, Bool-cases, sum_by-append, All,
}
use kungfu_cpp.Base.Chains.{◌>>=◌}
use kungfu_cpp.Base.Dict.{lookup}
use kungfu_cpp.Base.Sets.{member}
use kungfu_cpp.Wingchun.Instruments.{HasType}
use kungfu_cpp.Broker.Client.{Location, App, Kind, auto, silent, passive, Client}
use kungfu_cpp.Broker.Client.Queries.{is_some, is_custom_subscribed}
use kungfu_cpp.Broker.Client.Calls.{renew, sync, try_renew, try_sync}
use kungfu_cpp.Broker.Client.Calls.{subscribe_key}
use kungfu_cpp.Broker.Client.Events.{
  key_of, with_source, enroll_md, subscribe, base_subscribe_at, subscribe_at, unsubscribe,
  unsubscribe_at, subscribe_all, silently, Call, registers, band, state_update, deregisters,
  subscribes_key, subscribes, unsubscribes, subscribes_at, unsubscribes_at, subscribes_all,
  enrolls_account, enrolls_system, tries_renew, tries_sync, step, run,
}
use kungfu_cpp.Broker.Client.Renewing.{
  opens, IsWell, Located, enrolled, is_custom_enrolled-Located, renew-Quiet, sync-Quiet,
}
use kungfu_cpp.Broker.Client.Requests.{
  connect_band-Counted, Quiet-if, update_broker_state-Counted, departs_once, deregister-Counted,
  enroll_md-IsWell, subscribe_all-IsWell,
}
use kungfu_cpp.Broker.Client.Connecting.{
  Counted, none_depart, still, quietly, connect_register-Counted,
}

-- What a call needs: the locations that it names, a writer to one whose subscriptions are written again,
-- and a type of the instrument that it subscribes, for which `get_instrument_type` does not throw.
abbrev pub Answerable : (String → Option ℕ) → App → Call → Type 0
Answerable number app (registers r) = Located app r.location_uid
Answerable number app (band time source_id dest_id) = Located app source_id
Answerable number app (state_update time uid state) = Located app uid
Answerable number app (deregisters uid) = Located app uid
Answerable number app (subscribes e i) = HasType number e i
Answerable number app (subscribes_at l e i) = Located app l.uid × HasType number e i
Answerable number app (tries_renew time l) = Located app l.uid × (app.has_writer l.uid ≡ true)
Answerable number app (tries_sync time l) = app.has_writer l.uid ≡ true
Answerable number app _ = Unit

abbrev pub departures : Call → ℕ → ℕ
departures (deregisters u) uid = departs_once u uid
departures _ uid = 0

-- Departures of a location among calls.
abbrev pub departed : ℕ → List (App × Call) → ℕ
departed uid [] = 0
departed uid ((app, call) ∷ calls) = departures call uid + departed uid calls

-- The keys that are subscribed and their sources matter to neither.
abbrev Similar : Client → Client → Type 0
Similar c c' =
    (c'.connected ≡ c.connected)
    × (c'.enrolled_md ≡ c.enrolled_md)
    × (c'.custom_subs ≡ c.custom_subs)

Similar-IsWell : (c c' : Client) → Similar c c' → IsWell c → IsWell c'
Similar-IsWell c c' (e, f, g) w u h =
    ap (λ m. is_some (lookup u m)) g ∙ w u (sym (ap (lookup u) f) ∙ h)

module _ (hash : String → String → ℕ) (number : String → Option ℕ) where
  -- A call that may throw, but does not, and leaves what matters here.
  abbrev Leaves : Client → Option Client → Type 0
  Leaves c o = (c' : Client) × (o ≡ some c') × Similar c c'

  subscribe-Leaves :
      (e i : String) (c : Client) → HasType number e i → Leaves c (subscribe hash number e i c)
  unfolding subscribe
  subscribe-Leaves e i c (t, h) =
      elim (Bool-cases (is_some (lookup (hash e i) c.instrument_keys))) [
        | inl k ↦ (c, rw k refl, (refl, refl, refl))
        | inr k ↦ (subscribe_key (key_of hash number e i t) c, rw (k, h) refl, (refl, refl, refl))
      ]

  Leaves-Counted :
      (c : Client) (o : Option Client)
      → IsWell c
      → Leaves c o
      → Counted none_depart c (o >>= silently)
  Leaves-Counted c o w (c', e, s) =
      still c c' (o >>= silently) (rw e refl) (Similar-IsWell c c' s w) s.0

  base_subscribe_at-Counted :
      (l : Location) (e i : String) (c : Client)
      → IsWell c
      → HasType number e i
      → Counted none_depart c (base_subscribe_at hash number l e i c >>= silently)
  unfolding base_subscribe_at
  base_subscribe_at-Counted l e i c w t =
      let (c', q, s) = subscribe-Leaves e i c t in
      Leaves-Counted c (base_subscribe_at hash number l e i c) w
        (with_source hash number l e i c', rw q refl, s)

  subscribe_at-Counted :
      (k : Kind) (app : App) (l : Location) (e i : String) (c : Client)
      → IsWell c
      → Located app l.uid
      → HasType number e i
      → Counted none_depart c (subscribe_at hash number k app l e i c >>= silently)
  unfolding subscribe_at is_custom_subscribed
  subscribe_at-Counted auto app l e i c w h t = base_subscribe_at-Counted l e i c w t
  subscribe_at-Counted silent app l e i c w h t = base_subscribe_at-Counted l e i c w t
  subscribe_at-Counted passive app l e i c w h t =
      let q = is_custom_enrolled-Located app l.uid c h in
      elim (Bool-cases (enrolled (lookup l.uid c.enrolled_md))) [
        | inl k ↦ rw (q, k) (base_subscribe_at-Counted l e i c w t)
        | inr k ↦
            rw (q, k)
              (base_subscribe_at-Counted l e i (enroll_md l.uid c) (enroll_md-IsWell l.uid c w) t)
      ]

  step-Counted :
      (app : App) (call : Call) (c : Client)
      → IsWell c
      → Answerable number app call
      → Counted (departures call) c (step hash number app call c)
  unfolding step unsubscribe unsubscribe_at subscribe_all try_renew try_sync
  step-Counted app (registers r) c w h = connect_register-Counted app r c w h
  step-Counted app (band time s d) c w h = connect_band-Counted app time s d c w h
  step-Counted app (state_update time u s) c w h = update_broker_state-Counted app time u s c w h
  step-Counted app (deregisters u) c w h = deregister-Counted app u c w h
  step-Counted app (subscribes_key k) c w h = still c _ _ refl w refl
  step-Counted app (subscribes e i) c w h =
      Leaves-Counted c (subscribe hash number e i c) w (subscribe-Leaves e i c h)
  step-Counted app (unsubscribes e i) c w h = still c _ _ refl w refl
  step-Counted app (subscribes_at l e i) c w h = subscribe_at-Counted c.kind app l e i c w h.0 h.1
  step-Counted app (unsubscribes_at l e i) c w h = still c _ _ refl w refl
  step-Counted app (subscribes_all l s) c w h =
      still c _ _ refl (subscribe_all-IsWell l.uid s c w) refl
  step-Counted app (enrolls_account l) c w h = still c _ _ refl w refl
  step-Counted app (enrolls_system l) c w h = still c _ _ refl w refl
  step-Counted app (tries_renew time l) c w h =
      let b = member l.uid c.ready_md in
      let o = renew c.kind app time l c in
      quietly c c (if b then o else some [])
        (Quiet-if b o (λ _. renew-Quiet c.kind app time l c w h.0 h.1)) w refl
  step-Counted app (tries_sync time l) c w h =
      let b = member l.uid c.ready_td in
      let o = sync c.kind app time l in
      quietly c c (if b then o else some []) (Quiet-if b o (λ _. sync-Quiet c.kind app time l h)) w
        refl

  -- For a client in which what is enrolled for custom subscriptions has some, and calls that each name
  -- only locations that the apprentice knows under their uid, with a writer where a client is to try to
  -- write its subscriptions or requests again, and subscribe only instruments for which
  -- `get_instrument_type` does not throw: the whole run returns, and the client is again of that
  -- kind. For every location the requests to write to it, and one if it was connected, are at most its
  -- departures and one if it is connected in the end; so it is asked for once between two departures.
  pub run-Counted :
      (calls : List (App × Call)) (c : Client)
      → IsWell c
      → All (λ ac. Answerable number ac.0 ac.1) calls
      → Counted (λ uid. departed uid calls) c (run hash number calls c)
  unfolding run
  run-Counted [] c w h = still c c (some ([], c)) refl w refl
  run-Counted ((app, call) ∷ calls) c w h =
      let (os, c', e, w', n) = step-Counted app call c w h.0 in
      let (os', c'', e', w'', n') = run-Counted calls c' w' h.1 in
      (
        os ++ os',
        c'',
        rw (e, e') refl,
        w'',
        λ uid. rw (sum_by-append (opens uid) os os') (omega (arith, n uid, n' uid)),
      )
