-- ===== src/Base/Int.antt =====
-- Go's signed `int` as an integer: `negsuc n` is -(n + 1).
use asserts_otel_processor.Base.Tests.{ltb, if◌then◌else◌, leb, ◌==◌}
use Prim.Native.Nat.{ℕ, suc, ◌+◌, ◌-◌, ◌*◌, ◌%◌, ◌^◌, ◌<◌}
use mathlib.Core.Path.{◌≡◌}
use native.Mathlib.Omega.{arith}
use mathlib.Core.Bool.{Bool, false}

pub data ℤ : Type 0 where
  pos : ℕ → ℤ
  negsuc : ℕ → ℤ

abbrev pub pos_part : ℤ → ℕ
pos_part (pos n) = n
pos_part (negsuc n) = 0

abbrev pub neg_part : ℤ → ℕ
neg_part (pos n) = 0
neg_part (negsuc n) = suc n

-- a - b, as an integer.
abbrev pub sub_ℕ : ℕ → ℕ → ℤ
sub_ℕ a b = if leb b a then pos (a - b) else negsuc (b - a - 1)

infixl 65 ◌-ℤ◌
unfoldable pub ◌-ℤ◌ : ℤ → ℤ → ℤ
a -ℤ b = sub_ℕ (pos_part a + neg_part b) (neg_part a + pos_part b)

abbrev pub ltb_ℤ : ℤ → ℤ → Bool
ltb_ℤ a b = ltb (pos_part a + neg_part b) (pos_part b + neg_part a)

-- `n == z` for a length n.
abbrev pub eqb_ℕℤ : ℕ → ℤ → Bool
eqb_ℕℤ n (pos m) = n == m
eqb_ℕℤ n (negsuc m) = false

-- A result as int64 keeps it: modulo 2 ^ 64, between -2 ^ 63 and 2 ^ 63 - 1.
unfoldable pub wrap64 : ℤ → ℤ
wrap64 (pos n) = let m = n % 2 ^ 64 in if ltb m (2 ^ 63) then pos m else negsuc (2 ^ 64 - 1 - m)
wrap64 (negsuc n) = let m = n % 2 ^ 64 in if ltb m (2 ^ 63) then negsuc m else pos (2 ^ 64 - 1 - m)

-- n * k for a constant k.
unfoldable pub times_ℤ : ℕ → ℤ → ℤ
times_ℤ k n = sub_ℕ (k * pos_part n) (k * neg_part n)

-- What fits is kept.
pub wrap64_pos : (n : ℕ) → n < 2 ^ 63 → wrap64 (pos n) ≡ pos n
unfolding wrap64
wrap64_pos n h = ground arith

pub wrap64_negsuc : (n : ℕ) → n < 2 ^ 63 → wrap64 (negsuc n) ≡ negsuc n
unfolding wrap64
wrap64_negsuc n h = ground arith

pub wrap64_sub : (a b : ℕ) → a < 2 ^ 62 → b < 2 ^ 62 → wrap64 (pos a -ℤ pos b) ≡ sub_ℕ a b
unfolding ◌-ℤ◌
wrap64_sub a b p q = ground (arith, wrap64_pos (a - b), wrap64_negsuc (b - a - 1))
