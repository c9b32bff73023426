-- ===== src/Common.antt =====
-- lib/include/fgen_common.h: powers of two, bit positions, alignment and sizes as text. Values are
-- of the width that the name of the function says; the alignment macros are at 64 bits, the width
-- of their callers.
pub mod Smear
pub mod Pow2
pub mod Align
pub mod Size
use fgen.Prelude.{
  ℕ, zero, suc, ◌+◌, ◌-◌, ◌*◌, ◌/◌, ◌%◌, ◌^◌, Bool, true, false, ◌&&◌, not, Option, none, some,
  bit_or, ltb, leb, ◌==◌, if◌then◌else◌, u32, u64, ◌>>>◌,
}
use Prim.Native.Nat.{bit_and}

-- `x |= x >> s`.
abbrev pub or_shifted : ℕ → ℕ → ℕ
or_shifted s x = bit_or x (x >>> s)

-- `fgen_combine32ms1b`.
unfoldable pub combine32ms1b : ℕ → ℕ
combine32ms1b x = or_shifted 16 (or_shifted 8 (or_shifted 4 (or_shifted 2 (or_shifted 1 x))))

-- `fgen_combine64ms1b`.
unfoldable pub combine64ms1b : ℕ → ℕ
combine64ms1b v =
    or_shifted 32 (or_shifted 16 (or_shifted 8 (or_shifted 4 (or_shifted 2 (or_shifted 1 v)))))

-- `fgen_is_power_of_2`.
unfoldable pub is_power_of_2 : ℕ → Bool
is_power_of_2 n = not (n == 0) && bit_and n (n - 1) == 0

-- `fgen_align32pow2`.
unfoldable pub align32pow2 : ℕ → ℕ
unfolding combine32ms1b
align32pow2 x = u32 (combine32ms1b (u32 (x + 2 ^ 32 - 1)) + 1)

-- `fgen_align32prevpow2`.
unfoldable pub align32prevpow2 : ℕ → ℕ
unfolding combine32ms1b
align32prevpow2 x = let y = combine32ms1b x in y - (y >>> 1)

-- `fgen_align64pow2`.
unfoldable pub align64pow2 : ℕ → ℕ
unfolding combine64ms1b
align64pow2 v = u64 (combine64ms1b (u64 (v + 2 ^ 64 - 1)) + 1)

-- `fgen_align64prevpow2`.
unfoldable pub align64prevpow2 : ℕ → ℕ
unfolding combine64ms1b
align64prevpow2 v = let y = combine64ms1b v in y - (y >>> 1)

abbrev pub count_one : Option ℕ → Option ℕ
count_one none = none
count_one (some n) = some (n + 1)

-- `__builtin_ctz` at `width` bits: the zeros below the lowest set bit; none for 0, where it is
-- undefined.
unfoldable pub ctz : ℕ → ℕ → Option ℕ
ctz zero v = none
ctz (suc width) v = let above = ctz width (v / 2) in if v % 2 == 1 then some 0 else count_one above

-- `fgen_bsf32` and `fgen_bsf64`.
unfoldable pub bsf32 : ℕ → Option ℕ
unfolding ctz
bsf32 v = ctz 32 v

unfoldable pub bsf64 : ℕ → Option ℕ
unfolding ctz
bsf64 v = ctz 64 v

-- What a `_safe` variant returns, and the position that it stores; none is undefined.
abbrev pub found_at : Option ℕ → Option (Bool × Option ℕ)
found_at none = none
found_at (some pos) = some (true, some pos)

-- `fgen_bsf32_safe`: its argument is a uint64_t, of which the search sees the low half.
unfoldable pub bsf32_safe : ℕ → Option (Bool × Option ℕ)
unfolding bsf32
bsf32_safe v = if v == 0 then some (false, none) else found_at (bsf32 (u32 v))

-- `fgen_bsf64_safe`.
unfoldable pub bsf64_safe : ℕ → Option (Bool × Option ℕ)
unfolding bsf64
bsf64_safe v = if v == 0 then some (false, none) else found_at (bsf64 v)

-- `fgen_log2_u32`; none is undefined.
unfoldable pub log2_u32 : ℕ → Option ℕ
unfolding align32pow2 bsf32
log2_u32 v = if v == 0 then some 0 else bsf32 (align32pow2 v)

-- `fgen_log2_u64`.
unfoldable pub log2_u64 : ℕ → Option ℕ
unfolding align64pow2 bsf64
log2_u64 v = if v == 0 then some 0 else bsf64 (align64pow2 v)

-- The position of the highest set bit from 1 on, `width - __builtin_clz(x)`.
unfoldable pub top_position : ℕ → ℕ → ℕ
top_position zero x = 0
top_position (suc width) x =
    let above = top_position width (x / 2) in if x == 0 then 0 else above + 1

-- `fgen_fls_u32` and `fgen_fls_u64`.
unfoldable pub fls_u32 : ℕ → ℕ
unfolding top_position
fls_u32 x = if x == 0 then 0 else top_position 32 x

unfoldable pub fls_u64 : ℕ → ℕ
unfolding top_position
fls_u64 x = if x == 0 then 0 else top_position 64 x

-- FGEN_ALIGN_FLOOR and FGEN_ALIGN_CEIL at uint64_t; `~(align - 1)` is 2 ^ 64 - align.
unfoldable pub align_floor : ℕ → ℕ → ℕ
align_floor val align = bit_and val (2 ^ 64 - 1 - u64 (align + 2 ^ 64 - 1))

unfoldable pub align_ceil : ℕ → ℕ → ℕ
unfolding align_floor
align_ceil val align = align_floor (u64 (val + u64 (align + 2 ^ 64 - 1))) align

-- FGEN_ALIGN_MUL_CEIL, FGEN_ALIGN_MUL_FLOOR and FGEN_ALIGN_MUL_NEAR, for values whose sum fits.
unfoldable pub align_mul_ceil : ℕ → ℕ → ℕ
align_mul_ceil v mul = (v + mul - 1) / mul * mul

unfoldable pub align_mul_floor : ℕ → ℕ → ℕ
align_mul_floor v mul = v / mul * mul

unfoldable pub align_mul_near : ℕ → ℕ → ℕ
unfolding align_mul_ceil align_mul_floor
align_mul_near v mul =
    let ceil = align_mul_ceil v mul in
    let floor = align_mul_floor v mul in if ltb (v - floor) (ceil - v) then floor else ceil

-- `fgen_is_aligned` of an address.
unfoldable pub is_aligned : ℕ → ℕ → Bool
unfolding align_ceil
is_aligned ptr align = align_ceil ptr align == ptr
