-- ===== src/Base/Double.antt =====
-- The program's `double` as a parameter: its values other than NaN, with the operations of the
-- language and of <cmath> that the modelled code calls. The operations have no laws; the order is
-- the IEEE order, which is a strict weak order on numbers (the two zeros are equivalent).
use Prim.Native.Nat.{ℕ}
use mathlib.Core.Path.{◌≡◌}
use mathlib.Core.Logic.{◌⊎◌}
use mathlib.Core.Bool.{Bool, true, false}
use kungfu_cpp.Base.Tests.{if◌then◌else◌}

pub record Double : Type 1 where
  pub Val : Type 0
  pub lt : Val → Val → Bool
  pub add : Val → Val → Val
  pub sub : Val → Val → Val
  pub mul : Val → Val → Val
  pub div : Val → Val → Val
  pub neg : Val → Val
  pub abs : Val → Val
  pub round : Val → Val
  pub pow : Val → Val → Val
  -- a numeral with the given number of decimals: `lit 1 2` is 0.01
  pub lit : ℕ → ℕ → Val
  pub lt_irrefl : (a : Val) → lt a a ≡ false
  pub lt_trans : (a b c : Val) → lt a b ≡ true → lt b c ≡ true → lt a c ≡ true
  pub lt_cotrans : (a b c : Val) → lt a c ≡ true → (lt a b ≡ true) ⊎ (lt b c ≡ true)

-- std::max and std::min
module _ (d : Double) where
  abbrev pub max : d.Val → d.Val → d.Val
  max a b = if d.lt a b then b else a

  abbrev pub min : d.Val → d.Val → d.Val
  min a b = if d.lt b a then b else a
