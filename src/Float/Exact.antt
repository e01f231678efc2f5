-- ===== src/Float/Exact.antt =====
-- Integers with at most 53 bits are float64 numbers.
use native.Mathlib.Nat.{pow-suc}
use asserts_otel_processor.Base.{ℕ, zero, suc, ◌-◌, ◌*◌, ◌/◌, ◌^◌, ◌<◌, ◌≤◌, ◌≡◌, arith, min}
use asserts_otel_processor.Base.Int.{pos}
use asserts_otel_processor.Float.{bit_length, round_even, to_float, min_five}

bit_length-le : (fuel k n : ℕ) → n < 2 ^ k → bit_length fuel n ≤ k
unfolding bit_length
bit_length-le zero k n h = omega arith
bit_length-le (suc fuel) zero n h = ground arith
bit_length-le (suc fuel) (suc k) n h =
    let twice : 2 ^ suc k ≡ 2 ^ k * 2 = pow-suc 2 k in
    ground (arith, bit_length-le fuel k (n / 2), twice)

pub to_float-exact : (n : ℕ) → n < 2 ^ 53 → to_float n ≡ n
unfolding to_float round_even
to_float-exact n h =
    let e : bit_length 64 n - 53 ≡ 0 = omega (arith, bit_length-le 64 53 n h) in
    rw (e, round_even) (omega arith)

pub min_five-exact : (n : ℕ) → n < 2 ^ 53 → min_five (pos n) ≡ pos (min 5 n)
unfolding min_five
min_five-exact n h = rw (to_float-exact n h)
