-- ===== src/Float.antt =====
-- Go's float64 as the code compares and produces it, and `float64(n) / 1e9` on uint64 nanoseconds.
pub mod Exact
use asserts_otel_processor.Base.{
  ℕ, zero, suc, ◌+◌, ◌-◌, ◌*◌, ◌/◌, ◌%◌, ◌^◌, ◌≡◌, refl, Bool, true, false, ◌&&◌, ◌||◌, ltb, ◌==◌,
  if◌then◌else◌, arith, min,
}
use asserts_otel_processor.Base.Int.{ℤ, pos, negsuc}

-- A number stands for its place in the order of all the values of float64. The two zeros, which the
-- code cannot tell apart, have place 2 ^ 63; a positive value has its bit pattern above that.
pub data Float64 : Type 0 where
  nan : Float64
  num : ℕ → Float64

abbrev pub zero_place : ℕ
zero_place = 0x8000_0000_0000_0000

-- `x < y` and `x == y`: false as soon as one side is not a number.
abbrev pub flt : Float64 → Float64 → Bool
flt nan y = false
flt (num a) nan = false
flt (num a) (num b) = ltb a b

abbrev pub feq : Float64 → Float64 → Bool
feq nan y = false
feq (num a) nan = false
feq (num a) (num b) = a == b

abbrev pub is_num : Float64 → Bool
is_num nan = false
is_num (num a) = true

-- The place of a number, for comparisons of numbers.
abbrev pub place : Float64 → ℕ
place nan = 0
place (num a) = a

-- The bits that a number needs, for numbers below 2 ^ fuel.
unfoldable pub bit_length : ℕ → ℕ → ℕ
bit_length zero n = 0
bit_length (suc fuel) n = let rest = bit_length fuel (n / 2) in if n == 0 then 0 else suc rest

-- n / 2 ^ drop to the nearest integer, ties to even; `more` says that n stands for a bit more.
unfoldable pub round_even : ℕ → ℕ → Bool → ℕ
round_even n drop more =
    let q = n / 2 ^ drop in
    let rest = n % 2 ^ drop in
    let half = 2 ^ (drop - 1) in
    if drop == 0
    then q
    else if ltb half rest || (half == rest && (more || q % 2 == 1))
    then q + 1
    else q

-- `float64(n)` for a uint64: the nearest integer with 53 significant bits.
unfoldable pub to_float : ℕ → ℕ
to_float n = let drop = bit_length 64 n - 53 in round_even n drop false * 2 ^ drop

-- `float64(n) / 1e9`: the quotient is taken in units of 2 ^ -128 and rounded to 53 bits.
unfoldable pub seconds : ℕ → Float64
seconds n =
    let top = to_float n * 2 ^ 128 in
    let q = top / 1_000_000_000 in
    let drop = bit_length 200 q - 53 in
    let mantissa = round_even q drop (ltb 0 (top % 1_000_000_000)) in
    if n == 0
    then num zero_place
    else num (zero_place + (drop + 947) * 2 ^ 52 + (mantissa - 2 ^ 52))

-- `int(math.Min(5, float64(n)))` for an int.
unfoldable pub min_five : ℤ → ℤ
min_five (pos n) = pos (min 5 (to_float n))
min_five (negsuc n) = negsuc (to_float (suc n) - 1)

-- A latency is always a number.
pub seconds-is_num : (n : ℕ) → is_num (seconds n) ≡ true
unfolding seconds
seconds-is_num n = ground arith

-- 1.5 seconds, 1 nanosecond and 0.1 seconds have the bit patterns that Go computes.
seconds_samples :
    (seconds 1_500_000_000 ≡ num (zero_place + 0x3FF8_0000_0000_0000))
    × (seconds 1 ≡ num (zero_place + 0x3E11_2E0B_E826_D695))
    × (seconds 100_000_000 ≡ num (zero_place + 0x3FB9_9999_9999_999A))
unfolding seconds to_float bit_length round_even
seconds_samples = (refl, refl, refl)
