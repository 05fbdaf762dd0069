-- ===== src/Base/Dict.antt =====
-- A map with numbers for keys, as an association list.
use Prim.Native.Nat.{ℕ}
use mathlib.Core.Path.{◌≡◌}
use mathlib.Core.List.{List, [], ◌∷◌}
use mathlib.Core.Option.{Option, none, some}
use native.Mathlib.Omega.{arith}
use mathlib.Core.Path.{sym, ap, ◌∙◌, subst, subst₂}
use mathlib.Core.Logic.{inl, inr}
use mathlib.Core.Option.{some-injective, none-ne-some}
use kungfu_cpp.Base.Tests.{◌==◌, if◌then◌else◌, Bool-cases}
use kungfu_cpp.Base.Lists.{All}

module _ {ℓ} {V : Type ℓ} where
  unfoldable pub lookup : ℕ → List (ℕ × V) → Option V
  lookup k [] = none
  lookup k ((j, v) ∷ m) = let rest = lookup k m in if j == k then some v else rest

  unfoldable pub erase : ℕ → List (ℕ × V) → List (ℕ × V)
  erase k [] = []
  erase k ((j, v) ∷ m) = let rest = erase k m in if j == k then rest else (j, v) ∷ rest

  abbrev pub assign : ℕ → V → List (ℕ × V) → List (ℕ × V)
  assign k v m = (k, v) ∷ erase k m

  pub lookup-erase :
      (k j : ℕ) (m : List (ℕ × V)) → lookup j (erase k m) ≡ (if k == j then none else lookup j m)
  unfolding lookup erase
  lookup-erase k j [] = ground arith
  lookup-erase k j ((i, v) ∷ m) = ground (arith, lookup-erase k j m)

  pub lookup-assign :
      (k j : ℕ) (v : V) (m : List (ℕ × V))
      → lookup j (assign k v m) ≡ (if k == j then some v else lookup j m)
  unfolding lookup
  lookup-assign k j v m = ground (arith, lookup-erase k j m)

  pub lookup-assign_self : (k : ℕ) (v : V) (m : List (ℕ × V)) → lookup k (assign k v m) ≡ some v
  unfolding lookup
  lookup-assign_self k v m = ground arith

module _ {ℓ κ} {V : Type ℓ} (P : V → Type κ) where
  -- What holds of every value of a map.
  abbrev pub Values : List (ℕ × V) → Type κ
  Values m = All (λ kv. P kv.1) m

  pub Values-lookup : (k : ℕ) (m : List (ℕ × V)) (v : V) → Values m → lookup k m ≡ some v → P v
  unfolding lookup
  Values-lookup k [] v h e = absurd (none-ne-some v e)
  Values-lookup k ((j, u) ∷ m) v h e = elim (Bool-cases (j == k)) [
    | inl t ↦
        subst P (some-injective u v (sym (ap (λ b. if b then some u else lookup k m) t) ∙ e)) h.0
    | inr f ↦ Values-lookup k m v h.1 (sym (ap (λ b. if b then some u else lookup k m) f) ∙ e)
  ]

  pub Values-erase : (k : ℕ) (m : List (ℕ × V)) → Values m → Values (erase k m)
  unfolding erase
  Values-erase k [] h = tt
  Values-erase k ((j, u) ∷ m) h = elim (Bool-cases (j == k)) [
    | inl t ↦ rw t (Values-erase k m h.1)
    | inr f ↦ rw f (h.0, Values-erase k m h.1)
  ]

module _ {ℓ κ} {V : Type ℓ} (P : ℕ × V → Type κ) where
  pub All-lookup : (k : ℕ) (m : List (ℕ × V)) (v : V) → All P m → lookup k m ≡ some v → P (k, v)
  unfolding lookup
  All-lookup k [] v h e = absurd (none-ne-some v e)
  All-lookup k ((j, u) ∷ m) v h e = elim (Bool-cases (j == k)) [
    | inl t ↦
        let q : j ≡ k = ground (arith, t) in
        subst₂ (λ x y. P (x, y)) q
          (some-injective u v (sym (ap (λ b. if b then some u else lookup k m) t) ∙ e)) h.0
    | inr f ↦ All-lookup k m v h.1 (sym (ap (λ b. if b then some u else lookup k m) f) ∙ e)
  ]

  pub All-erase : (k : ℕ) (m : List (ℕ × V)) → All P m → All P (erase k m)
  unfolding erase
  All-erase k [] h = tt
  All-erase k ((j, u) ∷ m) h = elim (Bool-cases (j == k)) [
    | inl t ↦ rw t (All-erase k m h.1)
    | inr f ↦ rw f (h.0, All-erase k m h.1)
  ]
