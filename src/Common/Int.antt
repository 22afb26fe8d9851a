-- ===== src/Common/Int.antt =====
-- Signed integers over the native numbers, under the library's names, and Go's 64-bit `int`.
use Prim.Native.Nat.{ℕ, suc, ◌+◌, ◌-◌, ◌*◌, ◌/◌, ◌%◌, ◌^◌, ◌≤◌}
use mathlib.Core.Path.{◌≡◌, refl}
use mathlib.Core.Bool.{Bool}
use mathlib.Core.Option.{Option, none, some}
use native.Mathlib.Omega.{arith}
use gwf.Common.Tests.{ltb, leb, if◌then◌else◌}

-- `negsuc n` is -(n + 1).
pub data ℤ : Type 0 where
  pos : ℕ → ℤ
  negsuc : ℕ → ℤ

abbrev pub pos_part : ℤ → ℕ
pos_part (pos n) = n
pos_part (negsuc n) = 0

abbrev pub neg_part : ℤ → ℕ
neg_part (pos n) = 0
neg_part (negsuc n) = suc n

-- a - b, as an integer.
abbrev pub sub_ℕ : ℕ → ℕ → ℤ
sub_ℕ a b = if leb b a then pos (a - b) else negsuc (b - a - 1)

infixl 65 ◌+ℤ◌
infixl 70 ◌*ℤ◌
infix 50 ◌≤ℤ◌
unfoldable pub ◌+ℤ◌ : ℤ → ℤ → ℤ
a +ℤ b = sub_ℕ (pos_part a + pos_part b) (neg_part a + neg_part b)

unfoldable pub ◌*ℤ◌ : ℤ → ℤ → ℤ
a *ℤ b =
    sub_ℕ (pos_part a * pos_part b + neg_part a * neg_part b)
      (pos_part a * neg_part b + neg_part a * pos_part b)

abbrev pub ◌≤ℤ◌ : ℤ → ℤ → Type 0
a ≤ℤ b = pos_part a + neg_part b ≤ pos_part b + neg_part a

abbrev pub ltb_ℤ : ℤ → ℤ → Bool
ltb_ℤ a b = ltb (pos_part a + neg_part b) (pos_part b + neg_part a)

abbrev pub leb_ℤ : ℤ → ℤ → Bool
leb_ℤ a b = leb (pos_part a + neg_part b) (pos_part b + neg_part a)

pub +ℤ-pos : (a b : ℕ) → pos a +ℤ pos b ≡ pos (a + b)
unfolding ◌+ℤ◌
+ℤ-pos a b = ground arith

pub *ℤ-pos : (a b : ℕ) → pos a *ℤ pos b ≡ pos (a * b)
unfolding ◌*ℤ◌
*ℤ-pos a b = ground arith

-- Go's `/` rounds towards zero, and panics at a divisor of zero.
unfoldable pub quot : ℤ → ℤ → Option ℤ
quot (pos a) (pos b) = if ltb 0 b then some (pos (a / b)) else none
quot (pos a) (negsuc b) = some (sub_ℕ 0 (a / suc b))
quot (negsuc a) (pos b) = if ltb 0 b then some (sub_ℕ 0 (suc a / b)) else none
quot (negsuc a) (negsuc b) = some (pos (suc a / suc b))

-- The largest `int`, and the largest `time.Duration`.
abbrev pub max_int : ℕ
max_int = 2 ^ 63 - 1

-- The bits of an integer, modulo 2 ^ 64, and the `int` that they stand for.
unfoldable pub to_bits : ℤ → ℕ
to_bits (pos n) = n % 2 ^ 64
to_bits (negsuc n) = 2 ^ 64 - 1 - n % 2 ^ 64

unfoldable pub of_bits : ℕ → ℤ
of_bits u = if leb u max_int then pos u else negsuc (2 ^ 64 - 1 - u)

unfoldable pub wrap : ℤ → ℤ
unfolding to_bits of_bits
wrap a = of_bits (to_bits a)

-- Nothing wraps in range.
pub wrap_pos : (n : ℕ) → n ≤ max_int → wrap (pos n) ≡ pos n
unfolding wrap
wrap_pos n h = ground arith

pub wrap_range : (a : ℤ) → (negsuc max_int ≤ℤ wrap a) × (wrap a ≤ℤ pos max_int)
unfolding wrap
wrap_range a = ground arith

wraps_around : wrap (pos (2 ^ 63)) ≡ negsuc max_int
unfolding wrap
wraps_around = refl
