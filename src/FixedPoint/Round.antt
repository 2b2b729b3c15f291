-- ===== src/FixedPoint/Round.antt =====
-- Conversions between integers and fixed-point numbers, and rounding.
use sustech_cs.Prelude.{ℕ, suc, ◌+◌, ◌-◌, ◌*◌, ◌/◌, ◌^◌, ◌<◌, ◌≡◌, ap, arith}
use sustech_cs.Prelude.Int.{ℤ, pos, negsuc, ◌≤ℤ◌, ◌<ℤ◌, ◌*ℤ◌, ◌+ℤ◌, ◌-ℤ◌, sub_ℕ}
use sustech_cs.FixedPoint.{
  int32, shl16, shr16, quot, fp_const, fp_int_part, fp_round, fp_mult_mix, fp_div_mix, fp_add,
  fp_sub, fp_sub_mix,
}

-- A value in the range of `int` is kept.
pub int32_fits : (a : ℤ) → negsuc (2 ^ 31 - 1) ≤ℤ a → a <ℤ pos (2 ^ 31) → int32 a ≡ a
unfolding int32
int32_fits (pos n) lo hi = ground arith
int32_fits (negsuc n) lo hi = ground arith

-- The integer part of an integer n, converted to fixed point, is n again, for every n of 16 bits.
int_part-const : (n : ℤ) → negsuc 32767 ≤ℤ n → n <ℤ pos 32768 → fp_int_part (fp_const n) ≡ n
unfolding fp_const fp_int_part shl16 shr16 int32 ◌*ℤ◌
int_part-const (pos n) lo hi = ground arith
int_part-const (negsuc n) lo hi = ground arith

pub const-pos : (n : ℕ) → n < 32768 → fp_const (pos n) ≡ pos (n * 65536)
unfolding fp_const shl16 int32 ◌*ℤ◌
const-pos n h = ground arith

pub const-negsuc : (n : ℕ) → n < 32768 → fp_const (negsuc n) ≡ negsuc (n * 65536 + 65535)
unfolding fp_const shl16 int32 ◌*ℤ◌
const-negsuc n h = ground arith

pub round-pos : (m : ℕ) → m < 2 ^ 31 - 32768 → fp_round (pos m) ≡ pos ((m + 32768) / 65536)
unfolding fp_round shr16 int32 ◌+ℤ◌ ◌-ℤ◌
round-pos m h = ground arith

pub round-negsuc : (m : ℕ) → m < 2 ^ 31 - 32768 → fp_round (negsuc m) ≡ negsuc ((m + 32768) / 65536)
unfolding fp_round shr16 int32 ◌+ℤ◌ ◌-ℤ◌
round-negsuc m h = ground arith

-- FP_ROUND of an integer n converted to fixed point is n if n is not negative, and n - 1 if it is
-- negative, for every n from -32767 on for which the conversion fits.
round-const :
    (n : ℕ)
    → n < 32768
    → (fp_round (fp_const (pos n)) ≡ pos n)
      × (suc n < 32768 → fp_round (fp_const (negsuc n)) ≡ negsuc (suc n))
round-const n h = (
  rw (const-pos n h, round-pos (n * 65536) (omega arith)) (ap pos (omega arith)),
  λ k.
      rw (const-negsuc n h, round-negsuc (n * 65536 + 65535) (omega arith))
        (ap negsuc (omega arith)),
)

-- Operations on numbers that are not negative, where the result fits.
pub mult_mix-pos : (a b : ℕ) → a * b < 2 ^ 31 → fp_mult_mix (pos a) (pos b) ≡ pos (a * b)
unfolding fp_mult_mix int32 ◌*ℤ◌
mult_mix-pos a b h = ground arith

pub add-pos : (a b : ℕ) → a + b < 2 ^ 31 → fp_add (pos a) (pos b) ≡ pos (a + b)
unfolding fp_add int32 ◌+ℤ◌
add-pos a b h = ground arith

pub div_mix-pos : (a b : ℕ) → a / b < 2 ^ 31 → fp_div_mix (pos a) (pos b) ≡ pos (a / b)
unfolding fp_div_mix int32 quot
div_mix-pos a b h = ground arith

pub shr16_mono : (a b : ℤ) → a ≤ℤ b → shr16 a ≤ℤ shr16 b
unfolding shr16
shr16_mono (pos a) (pos b) h = omega arith
shr16_mono (pos a) (negsuc b) h = absurd (omega arith)
shr16_mono (negsuc a) (pos b) h = omega arith
shr16_mono (negsuc a) (negsuc b) h = omega arith

pub sub-pos : (a b : ℕ) → a < 2 ^ 31 → b < 2 ^ 31 → fp_sub (pos a) (pos b) ≡ sub_ℕ a b
unfolding fp_sub int32 ◌-ℤ◌
sub-pos a b ha hb = ground arith

-- Subtracting a whole number from a difference.
pub sub_mix-pos :
    (a b m : ℕ)
    → a < 2 ^ 30
    → b + m * 65536 < 2 ^ 31
    → fp_sub_mix (sub_ℕ a b) (pos m) ≡ sub_ℕ a (b + m * 65536)
unfolding fp_sub_mix int32 shl16 ◌-ℤ◌ ◌*ℤ◌
sub_mix-pos a b m ha hb = ground arith

pub sub_mix-negsuc :
    (a b m : ℕ)
    → a + suc m * 65536 < 2 ^ 30
    → b < 2 ^ 31
    → fp_sub_mix (sub_ℕ a b) (negsuc m) ≡ sub_ℕ (a + suc m * 65536) b
unfolding fp_sub_mix int32 shl16 ◌-ℤ◌ ◌*ℤ◌
sub_mix-negsuc a b m ha hb = ground arith

pub twice-pos : (i : ℕ) → i < 32768 → int32 (pos 2 *ℤ pos i) ≡ pos (2 * i)
unfolding int32 ◌*ℤ◌
twice-pos i h = ground arith

pub twice-negsuc : (i : ℕ) → i < 32768 → int32 (pos 2 *ℤ negsuc i) ≡ negsuc (2 * i + 1)
unfolding int32 ◌*ℤ◌
twice-negsuc i h = ground arith
