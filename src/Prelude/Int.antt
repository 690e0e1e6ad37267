-- ===== src/Prelude/Int.antt =====
-- Signed integers, as far as `off_t` needs them: `negsuc n` is -(n + 1).
use Prim.Native.Nat.{ℕ, ◌+◌, ◌-◌, ◌^◌}
use mathlib.Core.Bool.{Bool}
use libasdf.Prelude.Tests.{ltb, leb, if◌then◌else◌}

pub data ℤ : Type 0 where
  pos : ℕ → ℤ
  negsuc : ℕ → ℤ

-- The conversion of an `off_t` to `size_t`, which wraps.
abbrev pub to_size : ℤ → ℕ
to_size (pos n) = n
to_size (negsuc n) = 2 ^ 64 - (n + 1)

-- The conversion of a `size_t` to `off_t`: the numbers from 2 ^ 63 on become negative.
abbrev pub to_off : ℕ → ℤ
to_off n = if ltb n (2 ^ 63) then pos n else negsuc (2 ^ 64 - n - 1)

abbrev pub pos_part : ℤ → ℕ
pos_part (pos n) = n
pos_part (negsuc n) = 0

abbrev pub neg_part : ℤ → ℕ
neg_part (pos n) = 0
neg_part (negsuc n) = n + 1

-- a ≤ b, and a - b < n, for signed numbers.
abbrev pub leb_ℤ : ℤ → ℤ → Bool
leb_ℤ a b = leb (pos_part a + neg_part b) (pos_part b + neg_part a)

abbrev pub closer_than : ℤ → ℤ → ℕ → Bool
closer_than a b n = ltb (pos_part a + neg_part b) (pos_part b + neg_part a + n)
