-- ===== src/Base/Int.antt =====
-- Signed integers over the native numbers, under the library's names, and the C types `int` and
-- `long` of an LP64 target as ranges of them.
use Prim.Native.Nat.{ℕ, suc, ◌+◌, ◌-◌, ◌%◌, ◌≤◌, ◌<◌}
use mathlib.Core.Path.{◌≡◌}
use mathlib.Core.Bool.{Bool}
use native.Mathlib.Omega.{arith}
use cellmgr.Base.Tests.{ltb, leb, ◌==◌, if◌then◌else◌}

-- `negsuc n` is -(n + 1).
pub data ℤ : Type 0 where
  pos : ℕ → ℤ
  negsuc : ℕ → ℤ

abbrev pub pos_part : ℤ → ℕ
pos_part (pos n) = n
pos_part (negsuc n) = 0

abbrev pub neg_part : ℤ → ℕ
neg_part (pos n) = 0
neg_part (negsuc n) = suc n

-- a - b, as an integer.
abbrev pub sub_ℕ : ℕ → ℕ → ℤ
sub_ℕ a b = if leb b a then pos (a - b) else negsuc (b - a - 1)

infixl 65 ◌+ℤ◌ ◌-ℤ◌
infix 50 ◌≤ℤ◌
abbrev pub ◌+ℤ◌ : ℤ → ℤ → ℤ
a +ℤ b = sub_ℕ (pos_part a + pos_part b) (neg_part a + neg_part b)

abbrev pub ◌-ℤ◌ : ℤ → ℤ → ℤ
a -ℤ b = sub_ℕ (pos_part a + neg_part b) (neg_part a + pos_part b)

abbrev pub ◌≤ℤ◌ : ℤ → ℤ → Type 0
a ≤ℤ b = pos_part a + neg_part b ≤ pos_part b + neg_part a

abbrev pub leb_ℤ : ℤ → ℤ → Bool
leb_ℤ a b = leb (pos_part a + neg_part b) (pos_part b + neg_part a)

abbrev pub ltb_ℤ : ℤ → ℤ → Bool
ltb_ℤ a b = ltb (pos_part a + neg_part b) (pos_part b + neg_part a)

abbrev pub eqb_ℤ : ℤ → ℤ → Bool
eqb_ℤ a b = pos_part a + neg_part b == pos_part b + neg_part a

-- The `int` with the bit pattern `n` of 32 bits.
abbrev pub of_bits32 : ℕ → ℤ
of_bits32 n = if ltb n 2_147_483_648 then pos n else negsuc (4_294_967_295 - n)

-- `(int)` of a `long`: the low 32 bits.
unfoldable pub to_int : ℤ → ℤ
to_int (pos n) = of_bits32 (n % 4_294_967_296)
to_int (negsuc n) = of_bits32 (4_294_967_295 - n % 4_294_967_296)

-- The values of an `int`.
abbrev pub IsInt : ℤ → Type 0
IsInt z = (pos_part z < 2_147_483_648) × (neg_part z ≤ 2_147_483_648)

pub to_int-IsInt : (z : ℤ) → IsInt (to_int z)
unfolding to_int
to_int-IsInt (pos n) = ground arith
to_int-IsInt (negsuc n) = ground arith

-- A value that an `int` holds is kept.
pub to_int-eq : (z : ℤ) → IsInt z → to_int z ≡ z
unfolding to_int
to_int-eq (pos n) h = ground arith
to_int-eq (negsuc n) h = ground arith
