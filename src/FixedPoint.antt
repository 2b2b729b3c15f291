-- ===== src/FixedPoint.antt =====
-- threads/fixed_point.h of pintos_pro3: 16.16 fixed-point numbers in an `int`.
-- An `int` is an integer, and what the C compiler keeps of a result in 32 bits is `int32` of it.
-- `/` on an `int` rounds towards zero, `>>` rounds down.
pub mod Round
use sustech_cs.Prelude.{ℕ, ◌+◌, ◌-◌, ◌*◌, ◌/◌, ◌%◌, ◌^◌, Bool, ltb, if◌then◌else◌, ◌==◌}
use sustech_cs.Prelude.Int.{ℤ, pos, negsuc, ◌+ℤ◌, ◌-ℤ◌, ◌*ℤ◌, sub_ℕ, ltb_ℤ, pos_part, neg_part}

-- The 32 bits of an integer, and the integer that 32 bits stand for.
abbrev pub word : ℤ → ℕ
word (pos n) = n % 2 ^ 32
word (negsuc n) = 2 ^ 32 - 1 - n % 2 ^ 32

abbrev pub signed : ℕ → ℤ
signed w = if ltb w (2 ^ 31) then pos w else negsuc (2 ^ 32 - 1 - w)

unfoldable pub int32 : ℤ → ℤ
int32 a = signed (word a)

-- `a / b`, and `a >> 16`.
unfoldable pub quot : ℤ → ℤ → ℤ
quot (pos a) (pos b) = pos (a / b)
quot (pos a) (negsuc b) = sub_ℕ 0 (a / (b + 1))
quot (negsuc a) (pos b) = sub_ℕ 0 ((a + 1) / b)
quot (negsuc a) (negsuc b) = pos ((a + 1) / (b + 1))

unfoldable pub shr16 : ℤ → ℤ
shr16 (pos a) = pos (a / 65536)
shr16 (negsuc a) = negsuc (a / 65536)

-- `a << 16` in 32 bits.
unfoldable pub shl16 : ℤ → ℤ
shl16 a = int32 (a *ℤ pos 65536)

unfoldable pub fp_const : ℤ → ℤ
fp_const a = shl16 a

unfoldable pub fp_add : ℤ → ℤ → ℤ
fp_add a b = int32 (a +ℤ b)

unfoldable pub fp_add_mix : ℤ → ℤ → ℤ
fp_add_mix a b = int32 (a +ℤ shl16 b)

unfoldable pub fp_sub : ℤ → ℤ → ℤ
fp_sub a b = int32 (a -ℤ b)

unfoldable pub fp_sub_mix : ℤ → ℤ → ℤ
fp_sub_mix a b = int32 (a -ℤ shl16 b)

unfoldable pub fp_mult_mix : ℤ → ℤ → ℤ
fp_mult_mix a b = int32 (a *ℤ b)

unfoldable pub fp_div_mix : ℤ → ℤ → ℤ
fp_div_mix a b = int32 (quot a b)

-- The product and the shifted dividend are an `int64_t`, in which two `int` always fit.
unfoldable pub fp_mult : ℤ → ℤ → ℤ
fp_mult a b = int32 (shr16 (a *ℤ b))

unfoldable pub fp_div : ℤ → ℤ → ℤ
fp_div a b = int32 (quot (a *ℤ pos 65536) b)

unfoldable pub fp_int_part : ℤ → ℤ
fp_int_part a = shr16 a

unfoldable pub fp_round : ℤ → ℤ
fp_round a =
    if ltb_ℤ a (pos 0) then shr16 (int32 (a -ℤ pos 32768)) else shr16 (int32 (a +ℤ pos 32768))
