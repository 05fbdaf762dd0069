-- ===== src/Base/Extremes.antt =====
-- The order of the program's floating-point numbers under std::max and std::min. `x ≤ y` is that y < x
-- is false.
use mathlib.Core.Bool.{true≢false}
use kungfu_cpp.Base.{◌≡◌, sym, ◌∙◌, true, false, inl, inr, Bool-cases}
use kungfu_cpp.Base.Double.{Double, max, min}

module _ (d : Double) where
  abbrev pub AtMost : d.Val → d.Val → Type 0
  AtMost x y = d.lt y x ≡ false

  refute : (a b : d.Val) → (d.lt a b ≡ true → d.lt a a ≡ true) → AtMost b a
  refute a b h = elim (Bool-cases (d.lt a b)) [
    | inl t ↦ absurd (true≢false (sym (h t) ∙ d.lt_irrefl a))
    | inr f ↦ f
  ]

  pub lt-AtMost : (a b : d.Val) → d.lt a b ≡ true → AtMost a b
  lt-AtMost a b t = refute b a (λ u. d.lt_trans b a b u t)

  pub AtMost-refl : (a : d.Val) → AtMost a a
  AtMost-refl a = d.lt_irrefl a

  pub max-left : (a b : d.Val) → AtMost a (max d a b)
  max-left a b = elim (Bool-cases (d.lt a b)) [
    | inl t ↦ rw t (lt-AtMost a b t)
    | inr f ↦ rw f (d.lt_irrefl a)
  ]

  pub max-right : (a b : d.Val) → AtMost b (max d a b)
  max-right a b = elim (Bool-cases (d.lt a b)) [ inl t ↦ rw t (d.lt_irrefl b) | inr f ↦ rw f f ]

  pub min-left : (a b : d.Val) → AtMost (min d a b) a
  min-left a b = elim (Bool-cases (d.lt b a)) [
    | inl t ↦ rw t (lt-AtMost b a t)
    | inr f ↦ rw f (d.lt_irrefl a)
  ]

  pub min-right : (a b : d.Val) → AtMost (min d a b) b
  min-right a b = elim (Bool-cases (d.lt b a)) [ inl t ↦ rw t (d.lt_irrefl b) | inr f ↦ rw f f ]

  -- A contradiction from x ≤ a and a < b where b < x is asked.
  pub max_mono : (x a b : d.Val) → AtMost x a → AtMost x (max d a b)
  max_mono x a b h = elim (Bool-cases (d.lt a b)) [
    | inr f ↦ rw f h
    | inl t ↦ rw t (refute b x (λ u. absurd (true≢false (sym (d.lt_trans a b x t u) ∙ h))))
  ]

  pub min_mono : (x a b : d.Val) → AtMost a x → AtMost (min d a b) x
  min_mono x a b h = elim (Bool-cases (d.lt b a)) [
    | inr f ↦ rw f h
    | inl t ↦ rw t (refute x b (λ u. absurd (true≢false (sym (d.lt_trans x b a u t) ∙ h))))
  ]
