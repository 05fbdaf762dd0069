-- ===== src/Base/Sets.antt =====
-- A set of numbers, as a list without repetitions.
use Prim.Native.Nat.{ℕ}
use mathlib.Core.Path.{◌≡◌}
use mathlib.Core.Bool.{Bool, false, not, ◌&&◌, ◌||◌}
use mathlib.Core.List.{List, [], ◌∷◌}
use native.Mathlib.Omega.{arith}
use kungfu_cpp.Base.Tests.{◌==◌, if◌then◌else◌}

abbrev pub member : ℕ → List ℕ → Bool
member id [] = false
member id (x ∷ xs) = x == id || member id xs

abbrev pub add_id : ℕ → List ℕ → List ℕ
add_id id ids = if member id ids then ids else id ∷ ids

unfoldable pub remove : ℕ → List ℕ → List ℕ
remove id [] = []
remove id (x ∷ xs) = let rest = remove id xs in if x == id then rest else x ∷ rest

pub member-remove :
    (i n : ℕ) (ids : List ℕ) → member i (remove n ids) ≡ (not (n == i) && member i ids)
unfolding remove
member-remove i n [] = ground arith
member-remove i n (x ∷ xs) = ground (arith, member-remove i n xs)

pub member-add_id : (i n : ℕ) (ids : List ℕ) → member i (add_id n ids) ≡ (n == i || member i ids)
member-add_id i n [] = ground arith
member-add_id i n (x ∷ xs) = ground (arith, member-add_id i n xs)
