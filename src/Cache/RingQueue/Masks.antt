-- ===== src/Cache/RingQueue/Masks.antt =====
-- A mask of ones keeps the remainder by a power of two.
use Prim.Native.Nat.{bit_and, digits, bit_and-bitwise}
use native.Mathlib.Nat.{
  pow-succ', mul_assoc, zero-mod, mod-lt, mod-eq_of_lt, add-mul-mod_self_left, div-add-mod,
}
use kungfu_cpp.Base.{
  ℕ, zero, suc, ◌+◌, ◌*◌, ◌/◌, ◌%◌, ◌^◌, ◌≤◌, ◌<◌, ◌≡◌, sym, ◌∙◌, ap, ap₂, arith, min,
}

abbrev pub ones : ℕ → ℕ
ones zero = 0
ones (suc k) = ones k * 2 + 1

mod_double : (c a : ℕ) → 0 < c → a % (2 * c) ≡ (a / 2) % c * 2 + a % 2
mod_double c a p =
    let q = a / 2 / c in
    let r = (a / 2) % c in
    let h : r < c = mod-lt (a / 2) p in
    let e : c * q + r ≡ a / 2 = div-add-mod (a / 2) c in
    let x = r * 2 + a % 2 in
    let s : a ≡ x + 2 * c * q = omega (arith, e, mul_assoc 2 c q) in
    ap (λ n. n % (2 * c)) s ∙ add-mul-mod_self_left x (2 * c) q ∙ mod-eq_of_lt (omega (arith, h))

pub pow-pos : (k : ℕ) → 0 < 2 ^ k
pow-pos zero = omega arith
pow-pos (suc k) = omega (arith, pow-pos k)

-- The digits that `bit_and` keeps, by its definition, at any fuel that is enough.
kept : (n k a : ℕ) → a ≤ n → digits (λ b. zero) min n a (ones k) ≡ a % 2 ^ k
kept zero k zero h = sym (zero-mod (2 ^ k))
kept zero k (suc a) h = absurd (omega (arith, h))
kept (suc n) k zero h = sym (zero-mod (2 ^ k))
kept (suc n) zero (suc a) h = omega (arith, kept n zero (suc a / 2) (omega (arith, h)))
kept (suc n) (suc k) (suc a) h =
    let half : (ones k * 2 + 1) / 2 ≡ ones k = omega arith in
    let low : (ones k * 2 + 1) % 2 ≡ 1 = omega arith in
    let ih = kept n k (suc a / 2) (omega (arith, h)) in
    let both : (suc a / 2) % 2 ^ k * 2 + min (suc a % 2) 1 ≡ (suc a / 2) % 2 ^ k * 2 + suc a % 2 =
      omega arith in
    ap₂ (λ b m. digits (λ b. zero) min n (suc a / 2) b * 2 + min (suc a % 2) m) half low
    ∙ ap (λ d. d * 2 + min (suc a % 2) 1) ih
    ∙ both
    ∙ sym (mod_double (2 ^ k) (suc a) (pow-pos k))
    ∙ ap (λ c. suc a % c) (sym (pow-succ' 2 k))

-- The index of a cell in a queue whose capacity is a power of two.
pub bit_and-ones : (k a : ℕ) → bit_and a (ones k) ≡ a % 2 ^ k
bit_and-ones k a = bit_and-bitwise a (ones k) ∙ kept a k a (omega arith)
