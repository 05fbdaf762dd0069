-- ===== src/Broker/Client/Connecting.antt =====
-- How often a client asks for the channels to a location.
use kungfu_cpp.Base.{
  ℕ, ◌+◌, ◌≤◌, ◌≡◌, refl, subst, inl, inr, Bool, false, Option, none, some, List, [], if◌then◌else◌,
  ◌==◌, arith, Bool-cases, sum_by,
}
use kungfu_cpp.Base.Chains.{◌>>=◌}
use kungfu_cpp.Base.Sets.{member, add_id, member-add_id}
use kungfu_cpp.Base.Int.{ℤ}
use kungfu_cpp.Wingchun.Enums.{Category, md, td, strategy, system}
use kungfu_cpp.Broker.Client.{Location, App, Register, get_connect_time, Client, Output}
use kungfu_cpp.Broker.Client.Queries.{get_resume_policy}
use kungfu_cpp.Broker.Client.Calls.{channels, connected_by, Result, connect_register}
use kungfu_cpp.Broker.Client.Renewing.{opens, IsWell, Located, Quiet}

abbrev pub flag : Bool → ℕ
flag b = if b then 1 else 0

-- From a client, a call with so many departures of each location returns: with each location the
-- channels are asked for at most once from one departure to the next, and the client stays well.
abbrev pub Counted : (ℕ → ℕ) → Client → Result → Type 0
Counted departs c r =
    (os : List Output) × (c' : Client) × (r ≡ some (os, c'))
    × IsWell c'
    × ((uid : ℕ)
        → sum_by (opens uid) os + flag (member uid c.connected)
          ≤ departs uid + flag (member uid c'.connected))

abbrev pub none_depart : ℕ → ℕ
none_depart uid = 0

-- A step that asks for nothing and keeps the connections.
pub still :
    (c c' : Client) (r : Result)
    → r ≡ some ([], c')
    → IsWell c'
    → c'.connected ≡ c.connected
    → Counted none_depart c r
still c c' r e w q = ([], c', e, w, λ uid. rw q (omega arith))

-- One that writes something.
pub quietly :
    (c c' : Client) (o : Option (List Output))
    → Quiet o
    → IsWell c'
    → c'.connected ≡ c.connected
    → Counted none_depart c (o >>= λ os. some (os, c'))
quietly c c' o (os, e, q) w h = (os, c', rw e refl, w, λ uid. rw h (omega (arith, q uid)))

channels-opens :
    (app : App) (l : Location) (uid : ℕ) (from : ℤ) (k : Category) (c : Client) (os : List Output)
    → l.uid ≡ uid
    → channels app l uid from k c ≡ some os
    → (u : ℕ) → sum_by (opens u) os ≡ flag (uid == u)
unfolding channels
channels-opens app l uid from md c os q e u = ground (arith, q, e)
channels-opens app l uid from td c os q e u = ground (arith, q, e)
channels-opens app l uid from strategy c os q e u = ground (arith, q, e)
channels-opens app l uid from system c os q e u = ground (arith, q, e)

connected_by-Counted :
    (o : Option (List Output)) (uid : ℕ) (c : Client)
    → IsWell c
    → member uid c.connected ≡ false
    → ((os : List Output) → o ≡ some os → (u : ℕ) → sum_by (opens u) os ≡ flag (uid == u))
    → Counted none_depart c (some (connected_by o uid c))
connected_by-Counted none uid c w h q = ([], c, refl, w, λ u. omega arith)
connected_by-Counted (some os) uid c w h q = (
  os,
  record c { connected = add_id uid c.connected },
  refl,
  w,
  λ u.
      rw (q os refl u, member-add_id u uid c.connected)
        (elim (Bool-cases (uid == u)) [
          | inl t ↦
              let g : member u c.connected ≡ false =
                let s : uid ≡ u = ground (arith, t) in
                subst (λ x. member x c.connected ≡ false) s h in
              rw (t, g) (omega arith)
          | inr f ↦ rw f (omega arith)
        ]),
)

pub connect_register-Counted :
    (app : App) (r : Register) (c : Client)
    → IsWell c
    → Located app r.location_uid
    → Counted none_depart c (connect_register app r c)
unfolding connect_register
connect_register-Counted app r c w (l, e, q) =
    elim (Bool-cases (member r.location_uid c.connected)) [
      | inl t ↦ still c c _ (rw t refl) w refl
      | inr f ↦
          let from = get_connect_time (get_resume_policy c.kind) app r in
          rw (f, e)
            (connected_by-Counted (channels app l r.location_uid from l.category c) r.location_uid c
              w f (λ os o u. channels-opens app l r.location_uid from l.category c os q o u))
    ]
