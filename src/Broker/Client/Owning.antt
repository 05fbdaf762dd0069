-- ===== src/Broker/Client/Owning.antt =====
-- Which market data a passive client takes for its own, by the history of its subscriptions.
use Prim.Native.String.{String}
use mathlib.Core.Bool.{true≢false}
use mathlib.Core.Option.{none-ne-some}
use kungfu_cpp.Base.{
  ℕ, ◌≡◌, refl, sym, ap, ◌∙◌, subst, inl, inr, Bool, true, false, not, ◌&&◌, ◌||◌, Option, none,
  some, List, [], ◌∷◌, ◌++◌, if◌then◌else◌, ◌==◌, Bool-cases,
}
use kungfu_cpp.Base.Chains.{◌>>=◌}
use kungfu_cpp.Base.Dict.{lookup}
use kungfu_cpp.Broker.Client.{
  Location, App, CustomSubscribe, Kind, auto, silent, passive, Client, Output,
}
use kungfu_cpp.Broker.Client.Queries.{is_some, is_custom_subscribed}
use kungfu_cpp.Broker.Client.Calls.{try_renew, try_sync}
use kungfu_cpp.Broker.Client.Events.{
  connect_band, enroll_md, subs_or_new, Call, registers, band, state_update, deregisters,
  subscribes_key, subscribes, unsubscribes, subscribes_at, unsubscribes_at, subscribes_all,
  enrolls_account, enrolls_system, tries_renew, tries_sync, silently, base_subscribe_at,
  subscribe_at, unsubscribe, unsubscribe_at, step,
}
use kungfu_cpp.Broker.Client.Renewing.{enrolled}
use kungfu_cpp.Broker.Client.Queries.{any_covers, is_custom_subscribed_all, is_subscribed, is_own}
use kungfu_cpp.Broker.Client.Events.{run}
use kungfu_cpp.Broker.Client.Renewing.{IsWell, Located, is_custom_enrolled-Located}
use kungfu_cpp.Broker.Client.Runs.{Answerable, run-Counted}
use kungfu_cpp.Base.{All}
use kungfu_cpp.Wingchun.Enums.{InstrumentType}
use kungfu_cpp.Broker.Client.Told.{
  After, After-bind, After-then, customs_by, wanted_by, nonempty, Told, kept, key_added,
  key_dropped, with_custom,
}
use kungfu_cpp.Broker.Client.Telling.{
  connect_register-Told, update_broker_state-Told, deregister-Told, enroll_md-Told, output-Told,
  subscribe-Told, base_subscribe_at-Told,
}
use kungfu_cpp.Broker.Client.Renewing.{enrolled-IsWell}

-- The custom subscriptions of a source that the calls ask for, the oldest first.
abbrev pub customs_after : ℕ → List (App × Call) → List CustomSubscribe → List CustomSubscribe
customs_after source [] ss = ss
customs_after source ((app, call) ∷ calls) ss =
    customs_after source calls (customs_by source call ss)

abbrev pub wanted_after : (String → String → ℕ) → ℕ → List (App × Call) → Bool → Bool
wanted_after hash key [] b = b
wanted_after hash key ((app, call) ∷ calls) b =
    wanted_after hash key calls (wanted_by hash key call b)

-- A passive client without subscriptions.
pub record IsUntold (c : Client) : Type 0 where
  pub is_passive : c.kind ≡ passive
  pub no_customs : c.custom_subs ≡ []
  pub no_enrolled : c.enrolled_md ≡ []
  pub no_keys : c.instrument_keys ≡ []

module _ (hash : String → String → ℕ) (number : String → Option ℕ) (source : ℕ) (key : ℕ) where
  subscribe_at-Told :
      (ss : List CustomSubscribe) (b : Bool) (k : Kind) (app : App) (l : Location) (e i : String)
      (c : Client)
      → Told source key ss b c
      → After
          (Told source key ss (hash e i == key || b))
          (subscribe_at hash number k app l e i c >>= silently)
  unfolding subscribe_at
  subscribe_at-Told ss b auto app l e i c h =
      base_subscribe_at-Told source key ss b hash number l e i c h
  subscribe_at-Told ss b silent app l e i c h =
      base_subscribe_at-Told source key ss b hash number l e i c h
  subscribe_at-Told ss b passive app l e i c h = go (is_custom_subscribed passive app l.uid c)
    where
      go :
          (o : Option Bool)
          → After (Told source key ss (hash e i == key || b)) (
              (o >>= λ custom.
              base_subscribe_at hash number l e i (if custom then c else enroll_md l.uid c))
              >>= silently)
      go none = tt
      go (some true) = base_subscribe_at-Told source key ss b hash number l e i c h
      go (some false) =
          base_subscribe_at-Told source key ss b hash number l e i (enroll_md l.uid c)
            (enroll_md-Told source key ss b l.uid c h)

  step-Told :
      (ss : List CustomSubscribe) (b : Bool) (app : App) (call : Call) (c : Client)
      → Told source key ss b c
      → After
          (Told source key (customs_by source call ss) (wanted_by hash key call b))
          (step hash number app call c)
  unfolding step connect_band unsubscribe unsubscribe_at try_renew try_sync
  step-Told ss b app (registers r) c h = connect_register-Told source key ss b app r c h
  step-Told ss b app (band time s d) c h =
      After-bind (Told source key ss b) (app.location s) _ (λ l. h)
  step-Told ss b app (state_update time u s) c h =
      update_broker_state-Told source key ss b app time u s c h
  step-Told ss b app (deregisters u) c h = deregister-Told source key ss b app u c h
  step-Told ss b app (subscribes_key k) c h = key_added source key ss b k c h
  step-Told ss b app (subscribes e i) c h = subscribe-Told source key ss b hash number e i c h
  step-Told ss b app (unsubscribes e i) c h = key_dropped source key ss b (hash e i) c h
  step-Told ss b app (subscribes_at l e i) c h = subscribe_at-Told ss b c.kind app l e i c h
  step-Told ss b app (unsubscribes_at l e i) c h =
      kept source key ss (not (hash e i == key) && b) (unsubscribe hash number e i c) _
        (key_dropped source key ss b (hash e i) c h) refl refl refl refl
  step-Told ss b app (subscribes_all l s) c h = with_custom source key ss b l.uid s c h
  step-Told ss b app (enrolls_account l) c h = kept source key ss b c _ h refl refl refl refl
  step-Told ss b app (enrolls_system l) c h = kept source key ss b c _ h refl refl refl refl
  step-Told ss b app (tries_renew time l) c h =
      output-Told source key ss b (try_renew app time l c) c h
  step-Told ss b app (tries_sync time l) c h =
      output-Told source key ss b (try_sync app time l c) c h

  run-Told :
      (calls : List (App × Call)) (ss : List CustomSubscribe) (b : Bool) (c : Client)
      → Told source key ss b c
      → After
          (Told source key (customs_after source calls ss) (wanted_after hash key calls b))
          (run hash number calls c)
  unfolding run
  run-Told [] ss b c h = h
  run-Told ((app, call) ∷ calls) ss b c h =
      let P = Told source key (customs_by source call ss) (wanted_by hash key call b) in
      let Q =
        Told source key (customs_after source ((app, call) ∷ calls) ss)
          (wanted_after hash key ((app, call) ∷ calls) b) in
      After-then P Q (step hash number app call c) _ (step-Told ss b app call c h) (λ r h'.
        After-then Q Q (run hash number calls r.1) (λ s. some (r.0 ++ s.0, s.1))
          (run-Told calls (customs_by source call ss) (wanted_by hash key call b) r.1 h')
          (λ s h''. h''))

Untold-IsWell : (c : Client) → IsUntold c → IsWell c
unfolding lookup
Untold-IsWell c u uid h = absurd (none-ne-some true (sym (ap (lookup uid) u.no_enrolled) ∙ h))

Untold-Told : (source key : ℕ) (c : Client) → IsUntold c → Told source key [] false c
unfolding lookup
Untold-Told source key c u = record {
  is_passive = u.is_passive;
  customs = ap (λ m. subs_or_new (lookup source m)) u.no_customs;
  enrolls = ap (λ m. enrolled (lookup source m)) u.no_enrolled;
  has_key = ap (λ m. is_some (lookup key m)) u.no_keys;
}

subs_of : (o : Option (List CustomSubscribe)) → is_some o ≡ true → o ≡ some (subs_or_new o)
subs_of none h = absurd (true≢false (sym h))
subs_of (some ss) h = refl

uncovered :
    (ss : List CustomSubscribe) (data_type : ℕ) (e : String) (t : InstrumentType)
    → nonempty ss ≡ false
    → any_covers ss data_type e t ≡ false
unfolding any_covers
uncovered [] data_type e t h = refl
uncovered (s ∷ ss) data_type e t h = absurd (true≢false h)

Told-is_own :
    (hash : String → String → ℕ) (app : App) (source data_type : ℕ) (e i : String)
    (t : InstrumentType) (ss : List CustomSubscribe) (b : Bool) (c : Client)
    → Located app source
    → IsWell c
    → Told source (hash e i) ss b c
    → is_own hash app source data_type e i t c ≡ some (any_covers ss data_type e t || b)
unfolding is_own is_custom_subscribed is_custom_subscribed_all is_subscribed
Told-is_own hash app source data_type e i t ss b c k w h =
    let q = is_custom_enrolled-Located app source c k in
    elim (Bool-cases (nonempty ss)) [
      | inl n ↦
          let p =
            subs_of (lookup source c.custom_subs) (enrolled-IsWell source c w (h.enrolls ∙ n))
            ∙ ap some h.customs in
          rw (h.is_passive, q, h.enrolls, n, p, is_subscribed, h.has_key) refl
      | inr n ↦
          rw (h.is_passive, q, h.enrolls, n, is_subscribed, h.has_key, uncovered ss data_type e t n)
            refl
    ]

-- A passive client without subscriptions, and calls that each name only locations that the apprentice
-- knows under their uid, with a writer where the client is to try to write its subscriptions or requests
-- again, and which subscribe only instruments for which `get_instrument_type` does not throw: the run
-- returns, and after it market data from a source that the apprentice knows under its uid
-- is the client's own exactly if one of the custom subscriptions of the source, in all that the calls
-- asked for, covers the kind, the exchange and the type of instrument, or if the last call that
-- subscribes or unsubscribes an instrument with the same hash subscribes it. In particular the filter
-- never fails.
pub run-is_own :
    (hash : String → String → ℕ) (number : String → Option ℕ) (calls : List (App × Call))
    (c : Client) (app : App) (source data_type : ℕ) (e i : String) (t : InstrumentType)
    → IsUntold c
    → All (λ ac. Answerable number ac.0 ac.1) calls
    → Located app source
    → (os : List Output) × (c' : Client) × (run hash number calls c ≡ some (os, c'))
      × (is_own hash app source data_type e i t c'
          ≡ some (
              any_covers (customs_after source calls []) data_type e t
              || wanted_after hash (hash e i) calls false))
run-is_own hash number calls c app source data_type e i t u a k =
    let (os, c', r, w, n) = run-Counted hash number calls c (Untold-IsWell c u) a in
    let h =
      run-Told hash number source (hash e i) calls [] false c (Untold-Told source (hash e i) c u) in
    let ss = customs_after source calls [] in
    let b = wanted_after hash (hash e i) calls false in
    (
      os,
      c',
      r,
      Told-is_own hash app source data_type e i t ss b c' k w
          (subst (After (Told source (hash e i) ss b)) r h),
    )
