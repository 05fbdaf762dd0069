-- ===== src/Sim/OrderBook/Sorted.antt =====
-- A list of levels that is strictly ordered by `before` stays so under the operations of the set.
use kungfu_cpp.Base.{
  suc, ◌-◌, ◌≤◌, ◌≡◌, refl, ◌⊎◌, Bool, true, false, List, [], ◌∷◌, some, arith, length, All,
  All-mono, Bool-cases, inl, inr,
}
use kungfu_cpp.Sim.OrderBook.Levels.{Level, find, insert, erase, drop_last}

-- What `LevelCompare` has to be: a strict weak order.
pub record StrictWeak {P : Type 0} (before : P → P → Bool) : Type 0 where
  pub irrefl : (a : P) → before a a ≡ false
  pub trans : (a b c : P) → before a b ≡ true → before b c ≡ true → before a c ≡ true
  pub cotrans : (a b c : P) → before a c ≡ true → (before a b ≡ true) ⊎ (before b c ≡ true)

module _ {P : Type 0} (before : P → P → Bool) where
  abbrev pub After : P → Level P → Type 0
  After p y = before p y.price ≡ true

  abbrev pub IsSorted : List (Level P) → Type 0
  IsSorted [] = Unit {0}
  IsSorted (x ∷ xs) = All (After x.price) xs × IsSorted xs

  pub insert-All :
      (Q : Level P → Type 0) (v : Level P) (xs : List (Level P))
      → Q v
      → All Q xs
      → All Q (insert before v xs)
  unfolding insert
  insert-All Q v [] q h = (q, tt)
  insert-All Q v (x ∷ xs) q h = ground (arith, insert-All Q v xs q h.1)

  pub erase-All :
      (Q : Level P → Type 0) (p : P) (xs : List (Level P)) → All Q xs → All Q (erase before p xs)
  unfolding erase
  erase-All Q p [] h = tt
  erase-All Q p (x ∷ xs) h = ground (arith, erase-All Q p xs h.1)

  pub find-All :
      (Q : Level P → Type 0) (p : P) (xs : List (Level P)) (v : Level P)
      → All Q xs
      → find before p xs ≡ some v
      → Q v
  unfolding find
  find-All Q p [] v h e = absurd (cc)
  find-All Q p (x ∷ xs) v h e = elim (Bool-cases (before p x.price)) [
    | inl a ↦ absurd (ground (arith, a))
    | inr a ↦ elim (Bool-cases (before x.price p)) [
      | inl b ↦ find-All Q p xs v h.1 (rw (a, b) at e)
      | inr b ↦ let same : x ≡ v = ground (arith, a, b) in rw same at h.0
    ]
  ]

  -- The found element is equivalent to the key.
  pub find-equiv :
      (p : P) (xs : List (Level P)) (v : Level P)
      → find before p xs ≡ some v
      → (before p v.price ≡ false) × (before v.price p ≡ false)
  unfolding find
  find-equiv p [] v e = absurd (cc)
  find-equiv p (x ∷ xs) v e = ground (arith, find-equiv p xs v)

  pub length-insert-le :
      (v : Level P) (xs : List (Level P)) → length (insert before v xs) ≤ suc (length xs)
  unfolding insert
  length-insert-le v [] = omega arith
  length-insert-le v (x ∷ xs) = ground (arith, length-insert-le v xs)

  pub length-erase-le : (p : P) (xs : List (Level P)) → length (erase before p xs) ≤ length xs
  unfolding erase
  length-erase-le p [] = omega arith
  length-erase-le p (x ∷ xs) = ground (arith, length-erase-le p xs)

  -- Erasing an element that is there makes room for one.
  pub length-erase_found :
      (p q : P) (xs : List (Level P)) (v : Level P)
      → find before p xs ≡ some v
      → suc (length (erase before p xs)) ≡ length xs
  unfolding find erase
  length-erase_found p q [] v e = absurd (cc)
  length-erase_found p q (x ∷ xs) v e = ground (arith, length-erase_found p q xs v)

  module _ (order : StrictWeak before) where
    pub insert-IsSorted :
        (v : Level P) (xs : List (Level P)) → IsSorted xs → IsSorted (insert before v xs)
    unfolding insert
    insert-IsSorted v [] s = (tt, tt)
    insert-IsSorted v (x ∷ xs) s = elim (Bool-cases (before v.price x.price)) [
      | inl a ↦
          rw a (
            (a, All-mono (After x.price) (After v.price) (λ y. order.trans _ _ y.price a) xs s.0),
            s,
          )
      | inr a ↦ ground (arith, insert-IsSorted v xs s.1, insert-All (After x.price) v xs)
    ]

    pub erase-IsSorted : (p : P) (xs : List (Level P)) → IsSorted xs → IsSorted (erase before p xs)
    unfolding erase
    erase-IsSorted p [] s = tt
    erase-IsSorted p (x ∷ xs) s =
        ground (arith, erase-IsSorted p xs s.1, erase-All (After x.price) p xs s.0)

pub drop_last-All {ℓ} :
    {A : Type ℓ} (Q : A → Type 0) (xs : List A) → All Q xs → All Q (drop_last xs)
unfolding drop_last
drop_last-All Q [] h = tt
drop_last-All Q (x ∷ []) h = tt
drop_last-All Q (x ∷ y ∷ ys) h = (h.0, drop_last-All Q (y ∷ ys) h.1)

pub drop_last-IsSorted :
    {P : Type 0} (before : P → P → Bool) (xs : List (Level P))
    → IsSorted before xs
    → IsSorted before (drop_last xs)
unfolding drop_last
drop_last-IsSorted before [] s = tt
drop_last-IsSorted before (x ∷ []) s = tt
drop_last-IsSorted before (x ∷ y ∷ ys) s =
    (drop_last-All (After before x.price) (y ∷ ys) s.0, drop_last-IsSorted before (y ∷ ys) s.1)

pub length-drop_last {ℓ} : {A : Type ℓ} (xs : List A) → length (drop_last xs) ≡ length xs - 1
unfolding drop_last
length-drop_last [] = omega arith
length-drop_last (x ∷ []) = omega arith
length-drop_last (x ∷ y ∷ ys) = omega (arith, length-drop_last (y ∷ ys))

-- What is left of the first element goes back to the front.
pub insert-front :
    {P : Type 0} (before : P → P → Bool) (v w : Level P) (xs : List (Level P))
    → w.price ≡ v.price
    → IsSorted before (v ∷ xs)
    → insert before w xs ≡ w ∷ xs
unfolding insert
insert-front before v w [] e s = refl
insert-front before v w (y ∷ ys) e s =
    let first : before w.price y.price ≡ true = rw e s.0.0 in rw first
