-- ===== src/Broker/Client/Renewing.antt =====
-- What a client writes to a broker that has just become ready: it is written, and asks for no channel.
use mathlib.Core.Bool.{true≢false}
use kungfu_cpp.Base.{
  ℕ, ◌≡◌, refl, sym, ap, ◌∙◌, inl, inr, Bool, true, false, Option, none, some, List, [], ◌∷◌,
  if◌then◌else◌, ◌==◌, arith, Bool-cases, sum_by,
}
use kungfu_cpp.Base.Dict.{lookup}
use kungfu_cpp.Base.Int.{ℤ}
use kungfu_cpp.Broker.Client.{
  Location, App, InstrumentKey, CustomSubscribe, Kind, auto, silent, passive, Client, Output,
  request_write_to, write_custom, mark_asset_request, mark_position_request,
  mark_order_trade_request,
}
use kungfu_cpp.Broker.Client.Queries.{
  is_some, should_connect_md, is_custom_enrolled, is_custom_subscribed,
}
use kungfu_cpp.Broker.Client.Calls.{
  is_source, renew_keys, base_renew, write_customs, passive_renew, renew, sync,
}

-- The channels to a location that an output asks for.
abbrev pub opens : ℕ → Output → ℕ
opens uid (request_write_to time u) = if u == uid then 1 else 0
opens uid _ = 0

-- What is enrolled for custom subscriptions has some.
abbrev pub IsWell : Client → Type 0
IsWell c =
    (uid : ℕ) → lookup uid c.enrolled_md ≡ some true → is_some (lookup uid c.custom_subs) ≡ true

-- The apprentice knows a location, under its own uid.
abbrev pub Located : App → ℕ → Type 0
Located app uid = (l : Location) × (app.location uid ≡ some l) × (l.uid ≡ uid)

-- Something is answered, and no channel asked for.
abbrev pub Quiet : Option (List Output) → Type 0
Quiet o = (os : List Output) × (o ≡ some os) × ((uid : ℕ) → sum_by (opens uid) os ≡ 0)

pub some_of {ℓ} : {A : Type ℓ} (o : Option A) → is_some o ≡ true → (a : A) × (o ≡ some a)
some_of none h = absurd (true≢false (sym h))
some_of (some a) h = (a, refl)

renew_keys-quiet :
    (time : ℤ) (u uid : ℕ) (ks : List (ℕ × InstrumentKey)) (c : Client)
    → sum_by (opens uid) (renew_keys time u ks c) ≡ 0
unfolding renew_keys
renew_keys-quiet time u uid [] c = refl
renew_keys-quiet time u uid ((j, k) ∷ ks) c = elim (Bool-cases (is_source u k c)) [
  | inl e ↦ rw e (omega (arith, renew_keys-quiet time u uid ks c))
  | inr e ↦ rw e (renew_keys-quiet time u uid ks c)
]

base_renew-Quiet :
    (app : App) (time : ℤ) (l : Location) (c : Client)
    → app.has_writer l.uid ≡ true
    → Quiet (base_renew app time l c)
unfolding base_renew
base_renew-Quiet app time l c h = (
  renew_keys time l.uid c.instrument_keys c,
  ap (λ b. if b then some (renew_keys time l.uid c.instrument_keys c) else none) h,
  λ uid. renew_keys-quiet time l.uid uid c.instrument_keys c,
)

write_customs-Quiet :
    (app : App) (time : ℤ) (uid : ℕ) (ss : List CustomSubscribe)
    → app.has_writer uid ≡ true
    → Quiet (write_customs app time uid ss)
unfolding write_customs
write_customs-Quiet app time uid [] h = ([], refl, λ u. refl)
write_customs-Quiet app time uid (s ∷ ss) h =
    let (rest, e, q) = write_customs-Quiet app time uid ss h in
    (write_custom uid time s ∷ rest, rw (e, h) refl, λ u. omega (arith, q u))

pub is_custom_enrolled-lookup :
    (app : App) (uid : ℕ) (c : Client)
    → Located app uid
    → is_custom_enrolled app uid c
      ≡ (if is_some (lookup uid c.enrolled_md) then lookup uid c.enrolled_md else some false)
unfolding is_custom_enrolled should_connect_md
is_custom_enrolled-lookup app uid c (l, e, q) = rw (e, q) refl

-- Whether a location is enrolled for custom subscriptions.
abbrev pub enrolled : Option Bool → Bool
enrolled none = false
enrolled (some b) = b

enrolled_lem : (o : Option Bool) → (if is_some o then o else some false) ≡ some (enrolled o)
enrolled_lem none = refl
enrolled_lem (some b) = refl

pub is_custom_enrolled-Located :
    (app : App) (uid : ℕ) (c : Client)
    → Located app uid
    → is_custom_enrolled app uid c ≡ some (enrolled (lookup uid c.enrolled_md))
is_custom_enrolled-Located app uid c h =
    is_custom_enrolled-lookup app uid c h ∙ enrolled_lem (lookup uid c.enrolled_md)

enrolled-true : (o : Option Bool) → enrolled o ≡ true → o ≡ some true
enrolled-true none h = absurd (true≢false (sym h))
enrolled-true (some b) h = ap some h

pub enrolled-IsWell :
    (uid : ℕ) (c : Client)
    → IsWell c
    → enrolled (lookup uid c.enrolled_md) ≡ true
    → is_some (lookup uid c.custom_subs) ≡ true
enrolled-IsWell uid c w h = w uid (enrolled-true (lookup uid c.enrolled_md) h)

passive_renew-Quiet :
    (app : App) (time : ℤ) (l : Location) (c : Client)
    → IsWell c
    → Located app l.uid
    → app.has_writer l.uid ≡ true
    → Quiet (passive_renew app time l c)
unfolding passive_renew is_custom_subscribed
passive_renew-Quiet app time l c w k h =
    let e = is_custom_enrolled-Located app l.uid c k in
    elim (Bool-cases (enrolled (lookup l.uid c.enrolled_md))) [
      | inl t ↦
          let (ss, q) = some_of (lookup l.uid c.custom_subs) (enrolled-IsWell l.uid c w t) in
          rw (e, t, q) (write_customs-Quiet app time l.uid ss h)
      | inr f ↦ rw (e, f) (base_renew-Quiet app time l c h)
    ]

pub renew-Quiet :
    (k : Kind) (app : App) (time : ℤ) (l : Location) (c : Client)
    → IsWell c
    → Located app l.uid
    → app.has_writer l.uid ≡ true
    → Quiet (renew k app time l c)
unfolding renew
renew-Quiet auto app time l c w k h = base_renew-Quiet app time l c h
renew-Quiet silent app time l c w k h = ([], refl, λ uid. refl)
renew-Quiet passive app time l c w k h = passive_renew-Quiet app time l c w k h

pub sync-Quiet :
    (k : Kind) (app : App) (time : ℤ) (l : Location)
    → app.has_writer l.uid ≡ true
    → Quiet (sync k app time l)
unfolding sync
sync-Quiet auto app time l h = (
  mark_asset_request l.uid time
      ∷ mark_position_request l.uid time
      ∷ mark_order_trade_request l.uid time
      ∷ [],
  rw h refl,
  λ uid. refl,
)
sync-Quiet silent app time l h = ([], refl, λ uid. refl)
sync-Quiet passive app time l h = ([], refl, λ uid. refl)
