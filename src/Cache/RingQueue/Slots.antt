-- ===== src/Cache/RingQueue/Slots.antt =====
-- Counters less than a capacity apart have different cells.
use native.Mathlib.Nat.{div-add-mod, lt_of_mul-lt-mul_left, mul-le-mul_left, mul-suc}
use kungfu_cpp.Base.{ℕ, suc, ◌+◌, ◌*◌, ◌/◌, ◌%◌, ◌≤◌, ◌<◌, ◌≢◌, arith}

pub mod-ne : (c a b : ℕ) → a < b → b < a + c → a % c ≢ b % c
mod-ne c a b l u e =
    let p = div-add-mod a c in
    let q = div-add-mod b c in
    let lt : a / c < b / c = lt_of_mul-lt-mul_left c (omega (arith, l, p, q, e)) in
    let le : c * suc (a / c) ≤ c * (b / c) = mul-le-mul_left c (omega (arith, lt)) in
    absurd (omega (arith, le, mul-suc c (a / c), p, q, e, u))
