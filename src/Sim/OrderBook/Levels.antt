-- ===== src/Sim/OrderBook/Levels.antt =====
-- `std::set<OrderBookLevel, LevelCompare>` as a list in the order of `before`: find, insert and
-- erase by key, and the erasure of the last element.
use kungfu_cpp.Base.{ℕ, Bool, List, [], ◌∷◌, Option, none, some, if◌then◌else◌}

pub record Level (P : Type 0) : Type 0 where
  pub price : P
  pub qty : ℕ
  pub order_count : ℕ

module _ {P : Type 0} (before : P → P → Bool) where
  -- The element whose price is equivalent to `p`: neither is before the other.
  unfoldable pub find : P → List (Level P) → Option (Level P)
  find p [] = none
  find p (x ∷ xs) =
      if before p x.price then none else if before x.price p then find p xs else some x

  -- A set keeps its element where an equivalent one is inserted.
  unfoldable pub insert : Level P → List (Level P) → List (Level P)
  insert v [] = v ∷ []
  insert v (x ∷ xs) =
      if before v.price x.price
      then v ∷ x ∷ xs
      else if before x.price v.price
      then x ∷ insert v xs
      else x ∷ xs

  unfoldable pub erase : P → List (Level P) → List (Level P)
  erase p [] = []
  erase p (x ∷ xs) =
      if before p x.price then x ∷ xs else if before x.price p then x ∷ erase p xs else xs

unfoldable pub drop_last {ℓ} : {A : Type ℓ} → List A → List A
drop_last [] = []
drop_last (x ∷ []) = []
drop_last (x ∷ y ∷ ys) = x ∷ drop_last (y ∷ ys)
