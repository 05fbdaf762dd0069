-- ===== src/Base/Cents.antt =====
-- Numbers with two decimals: the values at which the tests and examples run.
use kungfu_cpp.Base.{ℕ, suc, zero, ◌+◌, ◌*◌, ◌/◌, ◌^◌, ◌≡◌, ◌⊎◌, true, false, arith}
use kungfu_cpp.Base.Double.{Double}
use kungfu_cpp.Base.Int.{ℤ, pos, negsuc, ◌+ℤ◌, ◌-ℤ◌, ◌*ℤ◌, ltb_ℤ, pos_part, neg_part}

-- n / k, rounded towards zero
abbrev pub over : ℤ → ℕ → ℤ
over (pos n) k = pos (n / k)
over (negsuc n) k = pos 0 -ℤ pos (suc n / k)

abbrev pub sign : ℤ → ℤ
sign (pos zero) = pos 0
sign (pos (suc n)) = pos 1
sign (negsuc n) = negsuc 0

abbrev pub size : ℤ → ℕ
size a = pos_part a + neg_part a

pub lt_irrefl : (a : ℤ) → ltb_ℤ a a ≡ false
lt_irrefl a = ground arith

pub lt_trans : (a b c : ℤ) → ltb_ℤ a b ≡ true → ltb_ℤ b c ≡ true → ltb_ℤ a c ≡ true
lt_trans a b c p q = ground arith

pub lt_cotrans : (a b c : ℤ) → ltb_ℤ a c ≡ true → (ltb_ℤ a b ≡ true) ⊎ (ltb_ℤ b c ≡ true)
lt_cotrans a b c p = ground arith

abbrev pub cents : Double
cents = record {
  Val = ℤ;
  lt = ltb_ℤ;
  add = ◌+ℤ◌;
  sub = ◌-ℤ◌;
  mul = λ a b. over (a *ℤ b) 100;
  div = λ a b. over (sign b *ℤ a *ℤ pos 100) (size b);
  neg = λ a. pos 0 -ℤ a;
  abs = λ a. pos (size a);
  round = λ a. over a 100 *ℤ pos 100;
  pow = λ a b. pos (size a ^ (size b / 100) * 100 / 100 ^ (size b / 100));
  lit = λ n k. pos (n * 100 / 10 ^ k);
  lt_irrefl = lt_irrefl;
  lt_trans = lt_trans;
  lt_cotrans = lt_cotrans;
}
