-- ===== src/Journal/Reader/Available.antt =====
-- When a reader in live mode says that data is available.
use mathlib.Core.Option.{some-injective, none-ne-some}
use kungfu_cpp.Base.{
  ℕ, zero, suc, ◌≤◌, ◌≡◌, ◌≢◌, refl, sym, ◌∙◌, ap, subst, inl, inr, Bool, true, false, ◌||◌, Option,
  none, some, List, [], ◌∷◌, ◌==◌, if◌then◌else◌, All, arith, Bool-cases, get_elem?,
}
use kungfu_cpp.Journal.Frame.{has_data}
use kungfu_cpp.Journal.Reader.{
  Channel, Reader, frame_of, sort, limit_time, max_time, channel, current_has_data, data_available,
  looked_up, current_of,
}
use kungfu_cpp.Journal.Reader.Sorting.{Hidden, sort-Choice}

-- The keys of a map are distinct.
abbrev pub IsKeyed : List Channel → Type 0
IsKeyed [] = Unit {0}
IsKeyed (c ∷ cs) = All (λ d. d.key ≢ c.key) cs × IsKeyed cs

-- Some journal has data.
abbrev pub any_data : List Channel → Bool
any_data [] = false
any_data (c ∷ cs) = has_data (frame_of c) || any_data cs

pub All-get_elem? :
    (P : Channel → Type 0) (cs : List Channel) (i : ℕ) (c : Channel)
    → All P cs
    → get_elem? cs i ≡ some c
    → P c
All-get_elem? P [] i c h e = absurd (none-ne-some c e)
All-get_elem? P (d ∷ cs) zero c h e = subst P (some-injective d c e) h.0
All-get_elem? P (d ∷ cs) (suc i) c h e = All-get_elem? P cs i c h.1 e

channel-get_elem? :
    (cs : List Channel) (i : ℕ) (c : Channel)
    → IsKeyed cs
    → get_elem? cs i ≡ some c
    → channel c.key cs ≡ some c
unfolding channel
channel-get_elem? [] i c k e = absurd (none-ne-some c e)
channel-get_elem? (d ∷ cs) zero c k e =
    let t : (d.key == c.key) ≡ true = ground (arith, ap (λ x. x.key) (some-injective d c e)) in
    ap (λ b. if b then some d else channel c.key cs) t ∙ e
channel-get_elem? (d ∷ cs) (suc i) c k e =
    let n : c.key ≢ d.key = All-get_elem? (λ x. x.key ≢ d.key) cs i c k.0 e in
    let f : (d.key == c.key) ≡ false = ground (arith, n) in
    ap (λ b. if b then some d else channel c.key cs) f ∙ channel-get_elem? cs i c k.1 e

any_data-get_elem? :
    (cs : List Channel) (i : ℕ) (c : Channel)
    → get_elem? cs i ≡ some c
    → has_data (frame_of c) ≡ true
    → any_data cs ≡ true
any_data-get_elem? [] i c e t = absurd (none-ne-some c e)
any_data-get_elem? (d ∷ cs) zero c e t =
    ap (λ b. b || any_data cs) (ap (λ x. has_data (frame_of x)) (some-injective d c e) ∙ t)
any_data-get_elem? (d ∷ cs) (suc i) c e t = ground (arith, any_data-get_elem? cs i c e t)

any_data-none :
    (cs : List Channel) → All (λ c. has_data (frame_of c) ≡ false) cs → any_data cs ≡ false
any_data-none [] h = refl
any_data-none (c ∷ cs) h = ground (arith, h.0, any_data-none cs h.1)

looked_up-none :
    (cs : List Channel) (key : ℕ)
    → All (λ c. has_data (frame_of c) ≡ false) cs
    → looked_up (channel key cs) ≡ false
unfolding channel
looked_up-none [] key h = refl
looked_up-none (c ∷ cs) key h = elim (Bool-cases (c.key == key)) [
  | inl t ↦ ap (λ b. looked_up (if b then some c else channel key cs)) t ∙ h.0
  | inr f ↦ ap (λ b. looked_up (if b then some c else channel key cs)) f ∙ looked_up-none cs key h.1
]

current_of-none :
    (cs : List Channel) (key : Option ℕ)
    → All (λ c. has_data (frame_of c) ≡ false) cs
    → current_of cs key ≡ false
current_of-none cs none h = refl
current_of-none cs (some k) h = looked_up-none cs k h

Hidden-below :
    (time : ℕ) (cs : List Channel)
    → All (Hidden time) cs
    → All (λ c. (frame_of c).gen_time ≤ time) cs
    → All (λ c. has_data (frame_of c) ≡ false) cs
Hidden-below time [] h b = tt
Hidden-below time (c ∷ cs) h b = (ground (arith, h.0, b.0), Hidden-below time cs h.1 b.1)

-- In live mode a reader says that data is available exactly if some joined journal has data,
-- whatever its clock says, if the times of frames are at most INT64_MAX and the keys of the
-- journals are distinct.
pub data_available_lem :
    (now : ℕ) (r : Reader)
    → r.live_mode ≡ true
    → IsKeyed r.journals
    → All (λ c. (frame_of c).gen_time ≤ max_time) r.journals
    → (data_available now r).0 ≡ any_data r.journals
unfolding data_available current_has_data sort
data_available_lem now r live keyed bounded = elim (sort-Choice now r) [
  | inl (e, h) ↦
      let h' = subst (λ b. All (Hidden (limit_time b now)) r.journals) live h in
      let none = Hidden-below max_time r.journals h' bounded in
      current_of-none r.journals (sort now r).current none ∙ sym (any_data-none r.journals none)
  | inr c ↦
      let t : has_data (frame_of c.first) ≡ true = ground (arith, c.shown) in
      ap (current_of r.journals) c.current
      ∙ ap looked_up (channel-get_elem? r.journals c.position c.first keyed c.joined)
      ∙ t
      ∙ sym (any_data-get_elem? r.journals c.position c.first c.joined t)
]
