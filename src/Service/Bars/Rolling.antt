-- ===== src/Service/Bars/Rolling.antt =====
-- The loop that finds the bar of a quote.
use native.Mathlib.Nat.{add-mod_right}
use kungfu_cpp.Base.{
  ℕ, zero, suc, ◌+◌, ◌-◌, ◌%◌, ◌<◌, ◌≤◌, ◌≡◌, refl, ◌∙◌, ap, ◌⊎◌, inl, inr, true, false, some, ltb,
  if◌then◌else◌, arith, Bool-cases,
}
use kungfu_cpp.Service.Bars.{advance}

module _ (interval time : ℕ) where
  -- `s` is a start that the loop may end with from `start`.
  pub record Landed (start s : ℕ) : Type 0 where
    pub later : start ≤ s
    pub reaches : time ≤ s + interval
    pub needed : (s ≡ start) ⊎ (s < time)
    pub aligned : s % interval ≡ start % interval

  advance-stop :
      (fuel start : ℕ)
      → ltb (start + interval) time ≡ false
      → advance (suc fuel) interval time start ≡ some start
  unfolding advance
  advance-stop fuel start f =
      ap (λ b. if b then advance fuel interval time (start + interval) else some start) f

  advance-step :
      (fuel start : ℕ)
      → ltb (start + interval) time ≡ true
      → advance (suc fuel) interval time start ≡ advance fuel interval time (start + interval)
  unfolding advance
  advance-step fuel start t =
      ap (λ b. if b then advance fuel interval time (start + interval) else some start) t

  Landed-step :
      (start s : ℕ) → start + interval < time → Landed (start + interval) s → Landed start s
  Landed-step start s h l = record {
    later = omega (arith, l.later);
    reaches = l.reaches;
    needed = elim l.needed [ inl e ↦ inr (omega (arith, e, h)) | inr k ↦ inr k ];
    aligned = l.aligned ∙ add-mod_right start interval;
  }

  -- From whatever start, with an interval of 1 or more, the loop ends within as many rounds as the time
  -- is ahead and one, at the first start on its grid whose bar reaches the time.
  pub advance-Landed :
      (fuel start : ℕ)
      → 0 < interval
      → time - start < fuel
      → (s : ℕ) × (advance fuel interval time start ≡ some s) × Landed start s
  advance-Landed zero start p h = absurd (omega arith)
  advance-Landed (suc fuel) start p h = elim (Bool-cases (ltb (start + interval) time)) [
    | inr f ↦ (
      start,
      advance-stop fuel start f,
      record {
        later = omega arith;
        reaches = ground (arith, f);
        needed = inl refl;
        aligned = refl;
      },
    )
    | inl t ↦
        let lt : start + interval < time = ground (arith, t) in
        let (s, e, l) = advance-Landed fuel (start + interval) p (omega (arith, lt)) in
        (s, advance-step fuel start t ∙ e, Landed-step start s lt l)
  ]
