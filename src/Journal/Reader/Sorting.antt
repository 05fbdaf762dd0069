-- ===== src/Journal/Reader/Sorting.antt =====
-- What `sort` chooses, and when a reader says that data is available.
use mathlib.Core.Bool.{true≢false}
use kungfu_cpp.Base.{
  ℕ, suc, ◌≤◌, ◌≡◌, refl, sym, ◌∙◌, ap, subst, ◌⊎◌, inl, inr, true, false, Option, some, List, [],
  ◌∷◌, leb, if◌then◌else◌, All, All-mono, arith, Bool-cases, get_elem?,
}
use kungfu_cpp.Journal.Reader.{Channel, Reader, frame_of, visible, choose, sort, limit_time}

abbrev pub time_of : Channel → ℕ
time_of c = (frame_of c).gen_time

abbrev pub Hidden : ℕ → Channel → Type 0
Hidden time c = visible time c ≡ false

-- The channel `c` is the one that is read next: of those that have data within the limit, none has an
-- older frame.
pub record Chosen (time : ℕ) (key : Option ℕ) (cs : List Channel) : Type 0 where
  pub first : Channel
  pub position : ℕ
  pub joined : get_elem? cs position ≡ some first
  pub current : key ≡ some first.key
  pub shown : visible time first ≡ true
  pub oldest : All (λ d. visible time d ≡ true → time_of first ≤ time_of d) cs

abbrev pub Choice : ℕ → Option ℕ → List Channel → Option ℕ → Type 0
Choice time current cs key = ((key ≡ current) × All (Hidden time) cs) ⊎ Chosen time key cs

choose-hidden :
    (time : ℕ) (current : Option ℕ) (c : Channel) (cs : List Channel)
    → visible time c ≡ false
    → choose time current (c ∷ cs) ≡ choose time current cs
unfolding choose
choose-hidden time current c cs f =
    ap (λ b. if b then choose (time_of c) (some c.key) cs else choose time current cs) f

choose-shown :
    (time : ℕ) (current : Option ℕ) (c : Channel) (cs : List Channel)
    → visible time c ≡ true
    → choose time current (c ∷ cs) ≡ choose (time_of c) (some c.key) cs
unfolding choose
choose-shown time current c cs t =
    ap (λ b. if b then choose (time_of c) (some c.key) cs else choose time current cs) t

-- A frame that is hidden behind `c` is no older than `c`.
shown_or_younger :
    (time : ℕ) (c d : Channel)
    → visible time d ≡ true
    → (visible (time_of c) d ≡ true) ⊎ (time_of c ≤ time_of d)
shown_or_younger time c d u = elim (Bool-cases (leb (time_of d) (time_of c))) [
  | inl t ↦ inl (ground (arith, u, t))
  | inr f ↦ inr (ground (arith, f))
]

behind :
    (time : ℕ) (c d : Channel) (n : ℕ)
    → n ≤ time_of c
    → (visible (time_of c) d ≡ true → n ≤ time_of d)
    → visible time d ≡ true
    → n ≤ time_of d
behind time c d n l g u = elim (shown_or_younger time c d u) [
  | inl v ↦ g v
  | inr h ↦ omega (arith, l, h)
]

Choice-hidden :
    (time : ℕ) (current key : Option ℕ) (c : Channel) (cs : List Channel)
    → visible time c ≡ false
    → Choice time current cs key
    → Choice time current (c ∷ cs) key
Choice-hidden time current key c cs f (inl (e, h)) = inl (e, (f, h))
Choice-hidden time current key c cs f (inr r) = inr (record {
  first = r.first;
  position = suc r.position;
  joined = r.joined;
  current = r.current;
  shown = r.shown;
  oldest = ((λ t. absurd (true≢false (sym t ∙ f))), r.oldest);
})

Choice-shown :
    (time : ℕ) (key : Option ℕ) (c : Channel) (cs : List Channel)
    → visible time c ≡ true
    → Choice (time_of c) (some c.key) cs key
    → Chosen time key (c ∷ cs)
Choice-shown time key c cs t (inl (e, h)) = record {
  first = c;
  position = 0;
  joined = refl;
  current = e;
  shown = t;
  oldest = (
    (λ u. omega arith),
    All-mono _ _
        (λ d g u.
          behind time c d (time_of c) (omega arith) (λ v. absurd (true≢false (sym v ∙ g))) u)
        cs h,
  );
}
Choice-shown time key c cs t (inr r) =
    let l : time_of r.first ≤ time_of c = ground (arith, r.shown) in
    record {
      first = r.first;
      position = suc r.position;
      joined = r.joined;
      current = r.current;
      shown = ground (arith, t, r.shown);
      oldest =
          ((λ u. l), All-mono _ _ (λ d g u. behind time c d (time_of r.first) l g u) cs r.oldest);
    }

choose_lem :
    (time : ℕ) (current : Option ℕ) (cs : List Channel)
    → Choice time current cs (choose time current cs)
unfolding choose
choose_lem time current [] = inl (refl, tt)
choose_lem time current (c ∷ cs) = elim (Bool-cases (visible time c)) [
  | inr f ↦
      subst (Choice time current (c ∷ cs)) (sym (choose-hidden time current c cs f))
        (Choice-hidden time current _ c cs f (choose_lem time current cs))
  | inl t ↦
      subst (Choice time current (c ∷ cs)) (sym (choose-shown time current c cs t))
        (inr (Choice-shown time _ c cs t (choose_lem (time_of c) (some c.key) cs)))
]

-- `sort` turns to a journal whose frame has data within the limit, the clock or in live mode the end
-- of time, and no such frame of another journal is older; where no journal has one, it stays where
-- it was.
pub sort-Choice :
    (now : ℕ) (r : Reader)
    → Choice (limit_time r.live_mode now) r.current r.journals (sort now r).current
unfolding sort
sort-Choice now r = choose_lem (limit_time r.live_mode now) r.current r.journals
