-- ===== src/Common/Int.antt =====
-- Go's `int` and `int64`: signed integers over the native numbers, and the wrap-around of 64 bits.
use Prim.Native.Nat.{ℕ, suc, ◌+◌, ◌-◌, ◌*◌, ◌%◌, ◌^◌, ◌≤◌, ◌<◌}
use mathlib.Core.Path.{◌≡◌}
use mathlib.Core.Bool.{Bool}
use native.Mathlib.Omega.{arith}
use jetstream_router.Common.Tests.{ltb, leb, if◌then◌else◌}

-- `negsuc n` is -(n + 1).
pub data ℤ : Type 0 where
  pos : ℕ → ℤ
  negsuc : ℕ → ℤ

abbrev pub pos_part : ℤ → ℕ
pos_part (pos n) = n
pos_part (negsuc n) = 0

abbrev pub neg_part : ℤ → ℕ
neg_part (pos n) = 0
neg_part (negsuc n) = suc n

-- a - b, as an integer.
abbrev pub sub_ℕ : ℕ → ℕ → ℤ
sub_ℕ a b = if leb b a then pos (a - b) else negsuc (b - a - 1)

infixl 65 ◌-ℤ◌
infixl 70 ◌*ℤ◌
infix 50 ◌≤ℤ◌ ◌<ℤ◌
unfoldable pub ◌-ℤ◌ : ℤ → ℤ → ℤ
a -ℤ b = sub_ℕ (pos_part a + neg_part b) (neg_part a + pos_part b)

unfoldable pub ◌*ℤ◌ : ℤ → ℤ → ℤ
a *ℤ b =
    sub_ℕ (pos_part a * pos_part b + neg_part a * neg_part b)
      (pos_part a * neg_part b + neg_part a * pos_part b)

abbrev pub ◌≤ℤ◌ : ℤ → ℤ → Type 0
a ≤ℤ b = pos_part a + neg_part b ≤ pos_part b + neg_part a

abbrev pub ◌<ℤ◌ : ℤ → ℤ → Type 0
a <ℤ b = pos_part a + neg_part b < pos_part b + neg_part a

abbrev pub ltb_ℤ : ℤ → ℤ → Bool
ltb_ℤ a b = ltb (pos_part a + neg_part b) (pos_part b + neg_part a)

abbrev pub leb_ℤ : ℤ → ℤ → Bool
leb_ℤ a b = leb (pos_part a + neg_part b) (pos_part b + neg_part a)

pub -ℤ_parts :
    (a b : ℤ)
    → pos_part (a -ℤ b) + neg_part a + pos_part b ≡ neg_part (a -ℤ b) + pos_part a + neg_part b
unfolding ◌-ℤ◌
-ℤ_parts a b = ground arith

-- The range of `int64`.
abbrev pub InRange : ℤ → Type 0
InRange a = (pos_part a < 2 ^ 63) × (neg_part a ≤ 2 ^ 63)

-- The 64 low bits of an integer in two's complement, and the integer that they stand for.
abbrev pub to_bits : ℤ → ℕ
to_bits (pos n) = n % 2 ^ 64
to_bits (negsuc n) = 2 ^ 64 - 1 - n % 2 ^ 64

abbrev pub of_bits : ℕ → ℤ
of_bits b = if ltb b (2 ^ 63) then pos b else negsuc (2 ^ 64 - 1 - b)

unfoldable pub wrap : ℤ → ℤ
wrap a = of_bits (to_bits a)

-- `a - b` and `a * b` on `int64`.
unfoldable pub sub64 : ℤ → ℤ → ℤ
sub64 a b = wrap (a -ℤ b)

unfoldable pub mul64 : ℤ → ℤ → ℤ
mul64 a b = wrap (a *ℤ b)

pub wrap_lem : (a : ℤ) → InRange a → wrap a ≡ a
unfolding wrap
wrap_lem (pos n) h = ground arith
wrap_lem (negsuc n) h = ground arith

pub wrap-InRange : (a : ℤ) → InRange (wrap a)
unfolding wrap
wrap-InRange (pos n) = ground arith
wrap-InRange (negsuc n) = ground arith

-- The difference of two times of the same sign cannot wrap.
pub sub64_lem : (a b : ℤ) → InRange (a -ℤ b) → sub64 a b ≡ a -ℤ b
unfolding sub64
sub64_lem a b h = wrap_lem (a -ℤ b) h

pub sub64_refl : (a : ℤ) → sub64 a a ≡ pos 0
unfolding sub64 wrap ◌-ℤ◌
sub64_refl (pos n) = ground arith
sub64_refl (negsuc n) = ground arith
