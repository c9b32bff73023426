-- ===== src/Common/Pow2.antt =====
-- lib/include/fgen_common.h: the functions on powers of two against the exponent of the power.
use fgen.Prelude.{
  ℕ, zero, suc, ◌+◌, ◌-◌, ◌*◌, ◌/◌, ◌%◌, ◌^◌, ◌≤◌, ◌<◌, Bool, true, false, ◌&&◌, not, some, ◌==◌,
  if◌then◌else◌, u32, u64, ◌≡◌, refl, sym, ap, ◌∙◌, subst, ◌↔◌, arith,
}
use Prim.Native.Nat.{bit_and}
use native.Mathlib.Nat.{pow-suc}
use native.Mathlib.Decide.{dec_lt}
use fgen.Prelude.BitLaws.{bit_and_step, bit_and_self, bit_and_low}
use fgen.Prelude.Powers.{pow-pos, pow_mono}
use fgen.Common.{
  combine32ms1b, combine64ms1b, is_power_of_2, align32pow2, align32prevpow2, align64pow2,
  align64prevpow2, ctz, bsf32, bsf64, log2_u32, log2_u64, top_position, fls_u32, fls_u64,
}
use fgen.Common.Smear.{combine32ms1b_lem, combine64ms1b_lem, highest}

half-pow : (n : ℕ) → 2 ^ suc n / 2 ≡ 2 ^ n
half-pow n = omega (arith, pow-suc 2 n)

ctz-pow : (w n : ℕ) → n < w → ctz w (2 ^ n) ≡ some n
unfolding ctz
ctz-pow zero n lt = absurd (omega arith)
ctz-pow (suc w) zero lt = refl
ctz-pow (suc w) (suc n) lt =
    let even : 2 ^ suc n % 2 ≡ 0 = omega (arith, pow-suc 2 n) in
    ground (arith, even, half-pow n, ctz-pow w n (omega arith))

log2_u32-pow : (v n : ℕ) → 0 < v → n < 32 → align32pow2 v ≡ 2 ^ n → log2_u32 v ≡ some n
unfolding log2_u32 bsf32
log2_u32-pow v n pos lt e =
    let test : (v == 0) ≡ false = ground arith in
    ap (λ (b : Bool). if b then some 0 else ctz 32 (align32pow2 v)) test
    ∙ ap (λ (t : ℕ). ctz 32 t) e
    ∙ ctz-pow 32 n lt

log2_u64-pow : (v n : ℕ) → 0 < v → n < 64 → align64pow2 v ≡ 2 ^ n → log2_u64 v ≡ some n
unfolding log2_u64 bsf64
log2_u64-pow v n pos lt e =
    let test : (v == 0) ≡ false = ground arith in
    ap (λ (b : Bool). if b then some 0 else ctz 64 (align64pow2 v)) test
    ∙ ap (λ (t : ℕ). ctz 64 t) e
    ∙ ctz-pow 64 n lt

-- 2 ^ n is the least power of two from v on.
abbrev pub IsCeilPow : ℕ → ℕ → Type 0
IsCeilPow v n = (v ≤ 2 ^ n) × (2 ^ n < 2 * v)

-- For 0 < v <= 2 ^ 31 `fgen_align32pow2` returns the least power of two from v on, and
-- `fgen_log2_u32` its exponent.
pub align32pow2-IsCeilPow :
    (v : ℕ)
    → 0 < v
    → v ≤ 2 ^ 31
    → (n : ℕ) × (align32pow2 v ≡ 2 ^ n) × (log2_u32 v ≡ some n) × IsCeilPow v n
unfolding align32pow2
align32pow2-IsCeilPow zero pos small = absurd (omega arith)
align32pow2-IsCeilPow (suc zero) pos small =
    (0, refl, log2_u32-pow 1 0 (omega arith) (omega arith) refl, (omega arith, omega arith))
align32pow2-IsCeilPow (suc (suc v)) pos small =
    let (n, lt, low, high) = highest 31 (suc v) (omega arith) (omega arith) in
    let full = combine32ms1b_lem n (suc v) (omega arith) low high in
    let wraps : u32 (suc (suc v) + 2 ^ 32 - 1) ≡ suc v = omega arith in
    let same = ap (λ (t : ℕ). u32 (combine32ms1b t + 1)) wraps in
    let bound = pow_mono (suc n) 31 (omega arith) in
    let pow : u32 (combine32ms1b (u32 (suc (suc v) + 2 ^ 32 - 1)) + 1) ≡ 2 ^ suc n =
      omega (arith, same, full) in
    (
      suc n,
      pow,
      log2_u32-pow (suc (suc v)) (suc n) (omega arith) (omega arith) pow,
      (omega (arith, high), omega (arith, low, pow-suc 2 n)),
    )

-- For 0 < v <= 2 ^ 63 `fgen_align64pow2` returns the least power of two from v on, and
-- `fgen_log2_u64` its exponent.
pub align64pow2-IsCeilPow :
    (v : ℕ)
    → 0 < v
    → v ≤ 2 ^ 63
    → (n : ℕ) × (align64pow2 v ≡ 2 ^ n) × (log2_u64 v ≡ some n) × IsCeilPow v n
unfolding align64pow2
align64pow2-IsCeilPow zero pos small = absurd (omega arith)
align64pow2-IsCeilPow (suc zero) pos small =
    (0, refl, log2_u64-pow 1 0 (omega arith) (omega arith) refl, (omega arith, omega arith))
align64pow2-IsCeilPow (suc (suc v)) pos small =
    let (n, lt, low, high) = highest 63 (suc v) (omega arith) (omega arith) in
    let full = combine64ms1b_lem n (suc v) (omega arith) low high in
    let wraps : u64 (suc (suc v) + 2 ^ 64 - 1) ≡ suc v = omega arith in
    let same = ap (λ (t : ℕ). u64 (combine64ms1b t + 1)) wraps in
    let bound = pow_mono (suc n) 63 (omega arith) in
    let pow : u64 (combine64ms1b (u64 (suc (suc v) + 2 ^ 64 - 1)) + 1) ≡ 2 ^ suc n =
      omega (arith, same, full) in
    (
      suc n,
      pow,
      log2_u64-pow (suc (suc v)) (suc n) (omega arith) (omega arith) pow,
      (omega (arith, high), omega (arith, low, pow-suc 2 n)),
    )

-- One binary digit of `n & (n - 1)`.
and_pred-even : (x : ℕ) → 0 < x → x % 2 ≡ 0 → bit_and x (x - 1) ≡ 2 * bit_and (x / 2) (x / 2 - 1)
and_pred-even x pos even =
    let e : (x - 1) / 2 ≡ x / 2 - 1 = omega arith in
    omega (arith, bit_and_step x (x - 1), ap (λ (t : ℕ). bit_and (x / 2) t) e)

and_pred-odd : (x : ℕ) → x % 2 ≡ 1 → bit_and x (x - 1) ≡ 2 * (x / 2)
and_pred-odd x odd =
    let e : (x - 1) / 2 ≡ x / 2 = omega arith in
    omega (arith, bit_and_step x (x - 1), ap (λ (t : ℕ). bit_and (x / 2) t) e, bit_and_self (x / 2))

power_below : (b x : ℕ) → x ≤ b → 0 < x → bit_and x (x - 1) ≡ 0 → (k : ℕ) × (x ≡ 2 ^ k)
power_below zero x le pos t = absurd (omega arith)
power_below (suc b) x le pos t = elim (dec_lt (x % 2) 1) [
  | yes p ↦
      let (k, e) =
        power_below b (x / 2) (omega arith) (omega arith)
          (omega (arith, and_pred-even x pos (omega arith))) in
      (suc k, omega (arith, pow-suc 2 k))
  | no p ↦ (0, omega (arith, and_pred-odd x (omega arith)))
]

and_pred-pow : (k : ℕ) → bit_and (2 ^ k) (2 ^ k - 1) ≡ 0
and_pred-pow k =
    let pos = pow-pos k in
    let e : 1 * 2 ^ k + 0 ≡ 2 ^ k = omega arith in
    ap (λ (t : ℕ). bit_and t (2 ^ k - 1)) (sym e) ∙ bit_and_low k 1 0 (2 ^ k - 1) pos (omega arith)

-- `fgen_is_power_of_2` tells the powers of two apart, from 2 ^ 0 on.
pub is_power_of_2-IsPower : (x : ℕ) → (is_power_of_2 x ≡ true) ↔ ((k : ℕ) × (x ≡ 2 ^ k))
unfolding is_power_of_2
is_power_of_2-IsPower x = (
  λ t. power_below x x (omega arith) (ground arith) (ground arith),
  λ (k, e).
      subst (λ t. (not (t == 0) && bit_and t (t - 1) == 0) ≡ true) (sym e)
        (ground (arith, and_pred-pow k, pow-pos k)),
)

top_position-zero : (w : ℕ) → top_position w 0 ≡ 0
unfolding top_position
top_position-zero zero = refl
top_position-zero (suc w) = refl

top_position-pow : (w n x : ℕ) → n < w → 2 ^ n ≤ x → x < 2 ^ suc n → top_position w x ≡ suc n
unfolding top_position
top_position-pow zero n x lt low high = absurd (omega arith)
top_position-pow (suc w) zero x lt low high =
    let e : x ≡ 1 = omega arith in ground (arith, e, top_position-zero w)
top_position-pow (suc w) (suc n) x lt low high =
    let pos = pow-pos (suc n) in
    ground (
      arith,
      top_position-pow w n (x / 2) (omega arith) (omega (arith, pow-suc 2 n))
          (omega (arith, pow-suc 2 (suc n))),
    )

-- For 0 < x < 2 ^ 32 `fgen_align32prevpow2` returns the greatest power of two up to x, and
-- `fgen_fls_u32` its exponent plus 1.
pub align32prevpow2-fls :
    (x : ℕ)
    → 0 < x
    → x < 2 ^ 32
    → (n : ℕ) × (align32prevpow2 x ≡ 2 ^ n) × (fls_u32 x ≡ n + 1) × (2 ^ n ≤ x) × (x < 2 ^ suc n)
unfolding align32prevpow2 fls_u32
align32prevpow2-fls x pos small =
    let (n, lt, low, high) = highest 32 x pos small in
    let full = combine32ms1b_lem n x lt low high in
    (
      n,
      omega (arith, full, pow-suc 2 n, pow-pos n),
      ground (arith, top_position-pow 32 n x lt low high),
      low,
      high,
    )

-- The same of `fgen_align64prevpow2` and `fgen_fls_u64` for 0 < v < 2 ^ 64.
pub align64prevpow2-fls :
    (v : ℕ)
    → 0 < v
    → v < 2 ^ 64
    → (n : ℕ) × (align64prevpow2 v ≡ 2 ^ n) × (fls_u64 v ≡ n + 1) × (2 ^ n ≤ v) × (v < 2 ^ suc n)
unfolding align64prevpow2 fls_u64
align64prevpow2-fls v pos small =
    let (n, lt, low, high) = highest 64 v pos small in
    let full = combine64ms1b_lem n v lt low high in
    (
      n,
      omega (arith, full, pow-suc 2 n, pow-pos n),
      ground (arith, top_position-pow 64 n v lt low high),
      low,
      high,
    )
