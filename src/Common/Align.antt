-- ===== src/Common/Align.antt =====
-- lib/include/fgen_common.h: alignment of 64-bit values to a power of two.
use fgen.Prelude.{
  ℕ, ◌+◌, ◌-◌, ◌*◌, ◌/◌, ◌%◌, ◌^◌, ◌≤◌, ◌<◌, Bool-cases, true, false, ◌⊎◌, inl, inr, ltb, u64, ◌≡◌,
  sym, ap, ◌∙◌, arith,
}
use Prim.Native.Nat.{bit_and}
use native.Mathlib.Nat.{div-add-mod', mod-lt, add-mul, mul-le-mul_right, div-lt_iff_lt-mul}
use fgen.Prelude.BitLaws.{bit_and_high, bit_and_low}
use fgen.Prelude.Powers.{mul_pred, pow-add, pow-pos, pow_mono}
use fgen.Common.{align_floor, align_ceil, align_mul_ceil, align_mul_floor, align_mul_near}

-- `q & (2 ^ m - 1)` for q of m bits.
and-mask : (m q : ℕ) → q < 2 ^ m → bit_and q (2 ^ m - 1) ≡ q
and-mask m q small =
    let e : 0 * 2 ^ m + q ≡ q = omega arith in
    ap (λ (t : ℕ). bit_and t (2 ^ m - 1)) (sym e)
    ∙ bit_and_low m 0 q (2 ^ m - 1) small (omega (arith, pow-pos m))

-- The mask of the macro is 2 ^ 64 - 2 ^ k.
floor-mask : (k : ℕ) → k < 64 → 2 ^ 64 - 1 - u64 (2 ^ k + 2 ^ 64 - 1) ≡ (2 ^ (64 - k) - 1) * 2 ^ k
floor-mask k lt =
    let e : 64 ≡ 64 - k + k = omega arith in
    let whole = ap (λ (t : ℕ). 2 ^ t) e ∙ pow-add (64 - k) k in
    omega (
      arith,
      whole,
      mul_pred (2 ^ (64 - k)) (2 ^ k) (pow-pos (64 - k)),
      pow-pos k,
      pow_mono k 63 (omega arith),
    )

-- FGEN_ALIGN_FLOOR to 2 ^ k is the multiple of 2 ^ k at or below the value.
pub align_floor-mul : (k v : ℕ) → k < 64 → v < 2 ^ 64 → align_floor v (2 ^ k) ≡ v / 2 ^ k * 2 ^ k
unfolding align_floor
align_floor-mul k v lt small =
    let e : 64 ≡ 64 - k + k = omega arith in
    let whole = ap (λ (t : ℕ). 2 ^ t) e ∙ pow-add (64 - k) k in
    let fits =
      (div-lt_iff_lt-mul {k = 2 ^ k} {x = v} {y = 2 ^ (64 - k)} (pow-pos k)).1
        (omega (arith, whole)) in
    ap (λ (t : ℕ). bit_and v t) (floor-mask k lt)
    ∙ ap (λ (t : ℕ). bit_and t ((2 ^ (64 - k) - 1) * 2 ^ k)) (sym (div-add-mod' v (2 ^ k)))
    ∙ bit_and_high k (v / 2 ^ k) (v % 2 ^ k) (2 ^ (64 - k) - 1) (mod-lt v (pow-pos k))
    ∙ ap (λ (t : ℕ). t * 2 ^ k) (and-mask (64 - k) (v / 2 ^ k) fits)

-- FGEN_ALIGN_CEIL is FGEN_ALIGN_MUL_CEIL at a power of two, where the sum does not overflow.
pub align_ceil-mul :
    (k v : ℕ) → k < 64 → v + 2 ^ k - 1 < 2 ^ 64 → align_ceil v (2 ^ k) ≡ align_mul_ceil v (2 ^ k)
unfolding align_ceil align_mul_ceil
align_ceil-mul k v lt small =
    let e : u64 (v + u64 (2 ^ k + 2 ^ 64 - 1)) ≡ v + 2 ^ k - 1 =
      omega (arith, pow-pos k, pow_mono k 63 (omega arith)) in
    ap (λ (t : ℕ). align_floor t (2 ^ k)) e ∙ align_floor-mul k (v + 2 ^ k - 1) lt small

mul_ceil-Bounds : (v m : ℕ) → 0 < m → (v ≤ align_mul_ceil v m) × (align_mul_ceil v m < v + m)
unfolding align_mul_ceil
mul_ceil-Bounds v m pos = omega (arith, div-add-mod' (v + m - 1) m, mod-lt (v + m - 1) pos)

mul_floor-Bounds : (v m : ℕ) → 0 < m → (align_mul_floor v m ≤ v) × (v < align_mul_floor v m + m)
unfolding align_mul_floor
mul_floor-Bounds v m pos = omega (arith, div-add-mod' v m, mod-lt v pos)

-- For an alignment 2 ^ k below 2 ^ 64 and a value whose sum with it fits 64 bits, FGEN_ALIGN_CEIL
-- returns the least multiple of 2 ^ k from the value on, and FGEN_ALIGN_FLOOR the greatest up to it.
pub align-Bounds :
    (k v : ℕ)
    → k < 64
    → v + 2 ^ k - 1 < 2 ^ 64
    → ((q : ℕ) × (align_ceil v (2 ^ k) ≡ q * 2 ^ k) × (v ≤ q * 2 ^ k) × (q * 2 ^ k < v + 2 ^ k))
      × ((q : ℕ) × (align_floor v (2 ^ k) ≡ q * 2 ^ k) × (q * 2 ^ k ≤ v) × (v < q * 2 ^ k + 2 ^ k))
unfolding align_mul_ceil align_mul_floor
align-Bounds k v lt small =
    let (above, near) = mul_ceil-Bounds v (2 ^ k) (pow-pos k) in
    let (below, close) = mul_floor-Bounds v (2 ^ k) (pow-pos k) in
    (
      ((v + 2 ^ k - 1) / 2 ^ k, align_ceil-mul k v lt small, above, near),
      (v / 2 ^ k, align_floor-mul k v lt (omega (arith, pow-pos k)), below, close),
    )

mul_ceil-floor : (v m : ℕ) → 0 < m → align_mul_ceil v m ≤ align_mul_floor v m + m
unfolding align_mul_ceil align_mul_floor
mul_ceil-floor v m pos =
    let q = v / m in
    let two = add-mul q 2 m in
    let less : (v + m - 1) / m < q + 2 =
      (div-lt_iff_lt-mul {k = m} {x = v + m - 1} {y = q + 2} pos).1
        (omega (arith, two, div-add-mod' v m, mod-lt v pos)) in
    let le : (v + m - 1) / m ≤ q + 1 = omega arith in
    omega (arith, mul-le-mul_right m le, add-mul q 1 m)

near_mul :
    (v m : ℕ)
    → let near = ltb (v - align_mul_floor v m) (align_mul_ceil v m - v) in
      (near ≡ true) ⊎ (near ≡ false) → (q : ℕ) × (align_mul_near v m ≡ q * m)
unfolding align_mul_near align_mul_ceil align_mul_floor
near_mul v m (inl t) = (v / m, ground arith)
near_mul v m (inr f) = ((v + m - 1) / m, ground arith)

-- FGEN_ALIGN_MUL_NEAR of a positive multiple is a multiple of it, at most half of it away.
pub align_mul_near-Bounds :
    (v m : ℕ)
    → 0 < m
    → ((q : ℕ) × (align_mul_near v m ≡ q * m))
      × ((2 * align_mul_near v m ≤ 2 * v + m) × (2 * v ≤ 2 * align_mul_near v m + m))
unfolding align_mul_near
align_mul_near-Bounds v m pos =
    let above = mul_ceil-Bounds v m pos in
    let below = mul_floor-Bounds v m pos in
    let close = mul_ceil-floor v m pos in
    (
      near_mul v m (Bool-cases (ltb (v - align_mul_floor v m) (align_mul_ceil v m - v))),
      ground arith,
    )
