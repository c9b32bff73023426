-- ===== src/Common/Smear.antt =====
-- lib/include/fgen_common.h: the highest set bit spread over all the bits below it.
use fgen.Prelude.{ℕ, suc, ◌+◌, ◌-◌, ◌*◌, ◌/◌, ◌^◌, ◌≤◌, ◌<◌, ◌>>>◌, bit_or, ◌≡◌, ap, ◌∙◌, arith}
use native.Mathlib.Nat.{
  pow-suc, le-div_iff_mul-le, div-lt_iff_lt-mul, mul-sub, mul_comm, div-eq_of_lt,
}
use native.Mathlib.Decide.{dec_le}
use fgen.Prelude.Bits.{bit_or-zero}
use fgen.Prelude.BitLaws.{le-bit_or, bit_or-lt, bit_or_below}
use fgen.Prelude.Powers.{mul_pred, pow-add, pow-pos, pow_mono, top_bit, exponent-lt}
use fgen.Common.{or_shifted, combine32ms1b, combine64ms1b}

-- x has n bits, of which the highest m (or all) are set.
abbrev pub IsSmeared : ℕ → ℕ → ℕ → Type 0
IsSmeared n m x = (2 ^ n ≤ x + 2 ^ (n - m)) × (x < 2 ^ n)

-- The arithmetic of one step: x has the bits of P * M, the highest of them down to M set.
or-Grows :
    (k q c x y : ℕ)
    → q * 2 ^ k ≤ x
    → x < q * 2 ^ k + 2 ^ k
    → y < 2 ^ k
    → 2 ^ k ≤ y + c
    → (q * 2 ^ k + 2 ^ k ≤ bit_or x y + c) × (bit_or x y < q * 2 ^ k + 2 ^ k)
or-Grows k q c x y low high small large =
    let rest = x - q * 2 ^ k in
    let split : x ≡ q * 2 ^ k + rest = omega arith in
    let joined = ap (λ (t : ℕ). bit_or t y) split ∙ bit_or_below k q rest y (omega arith) small in
    omega (arith, joined, le-bit_or rest y, bit_or-lt k rest y (omega arith) small)

shifted-Bounds :
    (p m d x : ℕ)
    → 0 < p
    → m ≤ p * d
    → d ≤ m
    → p * m ≤ x + m
    → x < p * m
    → (x / p < m) × (m ≤ x / p + d)
shifted-Bounds p m d x pos wide narrow low high =
    let spread = mul-sub p m d in
    (
      (div-lt_iff_lt-mul {k = p} {x = x} {y = m} pos).1 (omega (arith, mul_comm p m)),
      omega (
        arith,
        (le-div_iff_mul-le {k = p} {x = m - d} {y = x} pos).1
            (omega (arith, spread, mul_comm (m - d) p)),
      ),
    )

IsSmeared-step : (s n x : ℕ) → IsSmeared n s x → IsSmeared n (s + s) (or_shifted s x)
IsSmeared-step s n x (low, high) = elim (dec_le s n) [
  | yes p ↦
      let width = n - s in
      let rest = n - (s + s) in
      let e : n ≡ s + width = omega arith in
      let whole = ap (λ (t : ℕ). 2 ^ t) e ∙ pow-add s width in
      let scaled = mul_pred (2 ^ s) (2 ^ width) (pow-pos s) in
      let wide = pow_mono width (s + rest) (omega arith) in
      let (small, large) =
        shifted-Bounds (2 ^ s) (2 ^ width) (2 ^ rest) x (pow-pos s)
          (omega (arith, wide, pow-add s rest)) (pow_mono rest width (omega arith))
          (omega (arith, whole)) (omega (arith, whole)) in
      let (grown, kept) =
        or-Grows width (2 ^ s - 1) (2 ^ rest) x (x >>> s) (omega (arith, whole, scaled))
          (omega (arith, whole, scaled)) small large in
      (omega (arith, whole, scaled, grown), omega (arith, whole, scaled, kept))
  | no p ↦
      let below = pow_mono n s (omega arith) in
      let gone : x >>> s ≡ 0 = div-eq_of_lt (omega arith) in
      let same = ap (λ (t : ℕ). bit_or x t) gone ∙ bit_or-zero x in
      let e : n - (s + s) ≡ n - s = omega arith in
      let stay = ap (λ (t : ℕ). 2 ^ t) e in (omega (arith, same, stay), omega (arith, same))
]

-- The steps of the two loops, from the highest bit alone.
combine32_smeared : (n x : ℕ) → n ≤ 32 → IsSmeared n 1 x → combine32ms1b x + 1 ≡ 2 ^ n
unfolding combine32ms1b
combine32_smeared n x le high =
    let all = IsSmeared-step 16 n _ (
      IsSmeared-step 8 n _
        (IsSmeared-step 4 n _ (IsSmeared-step 2 n _ (IsSmeared-step 1 n x high)))) in
    let e : n - 32 ≡ 0 = omega arith in omega (arith, all, ap (λ (t : ℕ). 2 ^ t) e)

combine64_smeared : (n x : ℕ) → n ≤ 64 → IsSmeared n 1 x → combine64ms1b x + 1 ≡ 2 ^ n
unfolding combine64ms1b
combine64_smeared n x le high =
    let all = IsSmeared-step 32 n _ (
      IsSmeared-step 16 n _ (
        IsSmeared-step 8 n _
          (IsSmeared-step 4 n _ (IsSmeared-step 2 n _ (IsSmeared-step 1 n x high))))) in
    let e : n - 64 ≡ 0 = omega arith in omega (arith, all, ap (λ (t : ℕ). 2 ^ t) e)

-- A number is either 0 or between a power of two and the next.
pub highest : (w x : ℕ) → 0 < x → x < 2 ^ w → (n : ℕ) × (n < w) × (2 ^ n ≤ x) × (x < 2 ^ suc n)
highest w x pos small =
    let (n, low, high) = top_bit x pos in (n, exponent-lt n w (omega arith), low, high)

IsSmeared-highest : (n x : ℕ) → 2 ^ n ≤ x → x < 2 ^ suc n → IsSmeared (suc n) 1 x
IsSmeared-highest n x low high =
    let e : suc n - 1 ≡ n = omega arith in
    (omega (arith, pow-suc 2 n, ap (λ (t : ℕ). 2 ^ t) e), high)

-- For 2 ^ n <= x < 2 ^ (n + 1) at 32 bits, `fgen_combine32ms1b` returns the n + 1 low bits all set.
pub combine32ms1b_lem :
    (n x : ℕ) → n < 32 → 2 ^ n ≤ x → x < 2 ^ suc n → combine32ms1b x + 1 ≡ 2 ^ suc n
combine32ms1b_lem n x le low high =
    combine32_smeared (suc n) x (omega arith) (IsSmeared-highest n x low high)

-- The same of `fgen_combine64ms1b` at 64 bits.
pub combine64ms1b_lem :
    (n x : ℕ) → n < 64 → 2 ^ n ≤ x → x < 2 ^ suc n → combine64ms1b x + 1 ≡ 2 ^ suc n
combine64ms1b_lem n x le low high =
    combine64_smeared (suc n) x (omega arith) (IsSmeared-highest n x low high)
