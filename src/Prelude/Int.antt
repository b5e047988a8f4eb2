-- ===== src/Prelude/Int.antt =====
-- Go's int and int64: integers, with the wrap-around of 64 bits written out.
use Prim.Native.Nat.{ℕ, zero, suc, ◌+◌, ◌-◌, ◌*◌, ◌%◌, ◌^◌}
use mathlib.Core.Bool.{Bool, true, false}
use relaymesh.Prelude.Tests.{ltb, if◌then◌else◌}

-- `negsuc n` is -(n + 1).
pub data ℤ : Type 0 where
  pos : ℕ → ℤ
  negsuc : ℕ → ℤ

-- `n == 0`
abbrev pub is_zero : ℤ → Bool
is_zero (pos zero) = true
is_zero (pos (suc n)) = false
is_zero (negsuc n) = false

-- `n > 0`
abbrev pub is_positive : ℤ → Bool
is_positive (pos zero) = false
is_positive (pos (suc n)) = true
is_positive (negsuc n) = false

-- `n == 1`
abbrev pub is_one : ℤ → Bool
is_one (pos (suc zero)) = true
is_one _ = false

-- `n < 0`
abbrev pub is_negative : ℤ → Bool
is_negative (pos n) = false
is_negative (negsuc n) = true

-- The rounds of a loop `for i := 0; i < n; i++`.
abbrev pub rounds : ℤ → ℕ
rounds (pos n) = n
rounds (negsuc n) = 0

-- The int64 with these 64 bits.
abbrev pub of_bits : ℕ → ℤ
of_bits b = if ltb b (2 ^ 63) then pos b else negsuc (2 ^ 64 - 1 - b)

-- `n * k` on int64, for a factor k ≥ 0.
unfoldable pub times64 : ℤ → ℕ → ℤ
times64 (pos n) k = of_bits ((n * k) % 2 ^ 64)
times64 (negsuc n) k = of_bits ((2 ^ 64 - ((suc n * k) % 2 ^ 64)) % 2 ^ 64)

-- `a < b`
unfoldable pub less : ℤ → ℤ → Bool
less (pos m) (pos n) = ltb m n
less (pos m) (negsuc n) = false
less (negsuc m) (pos n) = true
less (negsuc m) (negsuc n) = ltb n m

-- `a + b` on int, for two that are not negative and fit.
unfoldable pub plus64 : ℕ → ℕ → ℤ
plus64 a b = of_bits ((a + b) % 2 ^ 64)
