-- ===== src/Cache/RingQueue/Tests.antt =====
-- Runs of a ring queue, and the theorems at a queue of eight cells.
use kungfu_cpp.Base.{ℕ, ◌≡◌, refl, arith, true, none, some, [], ◌∷◌}
use kungfu_cpp.Cache.RingQueue.{RingQueue, new_queue, capacity_mask, push, pop}
use kungfu_cpp.Cache.RingQueue.Contents.{Holds, push-Holds, pop-Popped}

-- Capacities are rounded up to a power of two.
capacity_of_five : (new_queue ℕ 5).capacity ≡ 8
unfolding new_queue capacity_mask
capacity_of_five = refl

abbrev empty : RingQueue ℕ
empty = record { mask = 7; capacity = 8; head = 0; tail = 0; cells = λ i. none }

five-empty : new_queue ℕ 5 ≡ empty
unfolding new_queue capacity_mask
five-empty = refl

-- A queue of two cells holds one value: the second push says true and is lost.
lost : (pop ℕ (pop ℕ (push ℕ 4 (push ℕ 3 (new_queue ℕ 2)).1).1).1).0 ≡ none
unfolding new_queue capacity_mask push pop
lost = refl

empty-Holds : Holds ℕ 3 empty []
empty-Holds = record {
  mask_eq = refl;
  capacity_eq = refl;
  span = refl;
  fits = omega arith;
  counted = omega arith;
  stored = tt;
}

push-Holds_example : ((push ℕ 4 empty).0 ≡ true) × Holds ℕ 3 (push ℕ 4 empty).1 (4 ∷ [])
push-Holds_example = push-Holds ℕ 3 empty [] 4 empty-Holds (omega arith)

abbrev one : RingQueue ℕ
one = record empty { tail = 1; cells = λ i. some 4 }

one-Holds : Holds ℕ 3 one (4 ∷ [])
one-Holds = record {
  mask_eq = refl;
  capacity_eq = refl;
  span = refl;
  fits = omega arith;
  counted = omega arith;
  stored = (refl, tt);
}

pop-Popped_example : ((pop ℕ one).0 ≡ some 4) × Holds ℕ 3 (pop ℕ one).1 []
pop-Popped_example = pop-Popped ℕ 3 one (4 ∷ []) one-Holds
