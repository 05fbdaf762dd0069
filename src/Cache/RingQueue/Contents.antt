-- ===== src/Cache/RingQueue/Contents.antt =====
-- A ring queue is a bounded queue: a list of at most one value less than its capacity.
use Prim.Native.Nat.{bit_and}
use kungfu_cpp.Base.{
  ℕ, ◌+◌, ◌-◌, ◌%◌, ◌^◌, ◌≤◌, ◌<◌, ◌≡◌, refl, sym, ◌∙◌, ap, ap₂, subst, inl, inr, true, false,
  Option, none, some, List, [], ◌∷◌, ◌++◌, length, length-append, ltb, leb, if◌then◌else◌, arith,
  Bool-cases,
}
use kungfu_cpp.Cache.RingQueue.{RingQueue, u64, size, set_cell, push, pop}
use kungfu_cpp.Cache.RingQueue.Masks.{ones, bit_and-ones}
use kungfu_cpp.Cache.RingQueue.Slots.{mod-ne}

module _ (A : Type 0) (k : ℕ) where
  -- The values lie in the cells from a counter on.
  abbrev pub Stored : (ℕ → Option A) → ℕ → List A → Type 0
  Stored cells h [] = Unit {0}
  Stored cells h (x ∷ xs) = (cells (h % 2 ^ k) ≡ some x) × Stored cells (h + 1) xs

  Stored-mono :
      (c d : ℕ → Option A) (h : ℕ) (xs : List A)
      → ((j : ℕ) → h ≤ j → j < h + length xs → d (j % 2 ^ k) ≡ c (j % 2 ^ k))
      → Stored c h xs
      → Stored d h xs
  Stored-mono c d h [] same s = tt
  Stored-mono c d h (x ∷ xs) same s = (
    same h (omega arith) (omega arith) ∙ s.0,
    Stored-mono c d (h + 1) xs (λ j l u. same j (omega (arith, l)) (omega (arith, u))) s.1,
  )

  Stored-append :
      (c : ℕ → Option A) (h : ℕ) (xs : List A) (x : A)
      → Stored c h xs
      → c ((h + length xs) % 2 ^ k) ≡ some x
      → Stored c h (xs ++ x ∷ [])
  Stored-append c h [] x s e = (subst (λ i. c (i % 2 ^ k) ≡ some x) (omega arith) e, tt)
  Stored-append c h (y ∷ xs) x s e =
      (s.0, Stored-append c (h + 1) xs x s.1 (subst (λ i. c (i % 2 ^ k) ≡ some x) (omega arith) e))

  -- The queue holds the values `xs`, the oldest first; its counters have not run over.
  pub record Holds (q : RingQueue A) (xs : List A) : Type 0 where
    pub mask_eq : q.mask ≡ ones k
    pub capacity_eq : q.capacity ≡ 2 ^ k
    pub span : q.head + length xs ≡ q.tail
    pub fits : length xs < 2 ^ k
    pub counted : q.tail < 2 ^ 64
    pub stored : Stored q.cells q.head xs

  -- What a bounded queue does with one more value.
  abbrev pub enqueue : A → List A → List A
  enqueue x xs = if ltb (length xs) (2 ^ k - 1) then xs ++ x ∷ [] else xs

  size-Holds : (q : RingQueue A) (xs : List A) → Holds q xs → size A q ≡ length xs
  size-Holds q xs v = omega (arith, v.span, v.counted)

  slot-eq : (q : RingQueue A) (xs : List A) (n : ℕ) → Holds q xs → bit_and n q.mask ≡ n % 2 ^ k
  slot-eq q xs n v = ap (bit_and n) v.mask_eq ∙ bit_and-ones k n

  -- The node behind the last value can be written.
  set_tail :
      (q : RingQueue A) (xs : List A) (x : A)
      → Holds q xs
      → Holds (set_cell A (bit_and q.tail q.mask) (some x) q) xs
  set_tail q xs x v = record {
    mask_eq = v.mask_eq;
    capacity_eq = v.capacity_eq;
    span = v.span;
    fits = v.fits;
    counted = v.counted;
    stored =
        Stored-mono q.cells (set_cell A (bit_and q.tail q.mask) (some x) q).cells q.head xs
          (λ j l u.
            let n =
              mod-ne (2 ^ k) j q.tail (omega (arith, u, v.span))
                (omega (arith, l, v.span, v.fits)) in
            ground (arith, n, slot-eq q xs q.tail v))
          v.stored;
  }

  push_room :
      (q : RingQueue A) (xs : List A) (x : A)
      → Holds q xs
      → q.tail + 1 < 2 ^ 64
      → length xs < 2 ^ k - 1
      → Holds
          (record (set_cell A (bit_and q.tail q.mask) (some x) q) { tail = u64 (q.tail + 1) })
          (xs ++ x ∷ [])
  push_room q xs x v c room =
      let w = set_tail q xs x v in
      let l = length-append xs (x ∷ []) in
      record {
        mask_eq = v.mask_eq;
        capacity_eq = v.capacity_eq;
        span = omega (arith, v.span, l, c);
        fits = omega (arith, l, room);
        counted = omega (arith, c);
        stored =
            Stored-append (set_cell A (bit_and q.tail q.mask) (some x) q).cells q.head xs x w.stored
              (ground (arith, slot-eq q xs q.tail v, v.span, ap (λ n. n % 2 ^ k) v.span));
      }

  -- On a queue with a capacity of a power of two, while its counter of pushes does not run over, a
  -- push always returns true. It adds the value at the end if the queue has less than its capacity
  -- less one, and else leaves the values as they were: the new one is lost.
  pub push-Holds :
      (q : RingQueue A) (xs : List A) (x : A)
      → Holds q xs
      → q.tail + 1 < 2 ^ 64
      → ((push A x q).0 ≡ true) × Holds (push A x q).1 (enqueue x xs)
  unfolding push
  push-Holds q xs x v c =
      let e : ltb (size A q) (q.capacity - 1) ≡ ltb (length xs) (2 ^ k - 1) =
        ap₂ (λ n m. ltb n (m - 1)) (size-Holds q xs v) v.capacity_eq in
      (
        refl,
        elim (Bool-cases (ltb (length xs) (2 ^ k - 1))) [
          | inl t ↦ rw (e, t) (push_room q xs x v c (ground (arith, t)))
          | inr f ↦ rw (e, f) (set_tail q xs x v)
        ],
      )

  -- The values that a pop leaves.
  abbrev pub Popped : RingQueue A → List A → Type 0
  Popped q [] = pop A q ≡ (none, q)
  Popped q (x ∷ xs) = ((pop A q).0 ≡ some x) × Holds (pop A q).1 xs

  -- On a queue with a capacity of a power of two, a pop of no values fails and changes nothing; any
  -- other gives the oldest value and leaves the others.
  pub pop-Popped : (q : RingQueue A) (xs : List A) → Holds q xs → Popped q xs
  unfolding pop
  pop-Popped q [] v = let t : leb q.tail q.head ≡ true = ground (arith, v.span) in rw t refl
  pop-Popped q (x ∷ xs) v =
      let f : leb q.tail q.head ≡ false = ground (arith, v.span) in
      let z = slot-eq q (x ∷ xs) q.head v in
      let h : u64 (q.head + 1) ≡ q.head + 1 = omega (arith, v.span, v.counted) in
      let s =
        Stored-mono q.cells (set_cell A (bit_and q.head q.mask) none q).cells (q.head + 1) xs
          (λ j l u.
            let n = mod-ne (2 ^ k) q.head j (omega (arith, l)) (omega (arith, u, v.fits)) in
            ground (arith, n, z))
          v.stored.1 in
      rw f (
        ap q.cells z ∙ v.stored.0,
        record {
          mask_eq = v.mask_eq;
          capacity_eq = v.capacity_eq;
          span = omega (arith, v.span, v.counted);
          fits = omega (arith, v.fits);
          counted = v.counted;
          stored =
              subst (λ n. Stored (set_cell A (bit_and q.head q.mask) none q).cells n xs) (sym h) s;
        },
      )
