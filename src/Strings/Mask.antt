-- ===== src/Strings/Mask.antt =====
-- lib/include/fgen_strings.h: `mask_size`, the length of a network mask.
use fgen.Prelude.{
  ℕ, zero, suc, ◌+◌, ◌-◌, ◌*◌, ◌/◌, ◌%◌, ◌^◌, ◌≤◌, ◌<◌, true, false, ◌==◌, if◌then◌else◌, if_cases,
  ◌≡◌, refl, sym, ap, ◌∙◌, arith,
}
use Prim.Native.Nat.{bit_and}
use native.Mathlib.Nat.{div-add-mod', mod-lt, div-lt_iff_lt-mul, add-mul, mul-le-mul_right, pow-suc}
use native.Mathlib.Decide.{dec_le}
use fgen.Prelude.BitLaws.{bit_and_high, bit_and_low}
use fgen.Prelude.Powers.{pow-add, pow-pos}

-- The loop over the bits from the highest on, with `left` of its 32 rounds to go.
unfoldable pub mask_loop : ℕ → ℕ → ℕ → ℕ
mask_loop zero i mask = i
mask_loop (suc left) i mask =
    let rest = mask_loop left (i + 1) mask in if bit_and mask (2 ^ left) == 0 then i else rest

-- `mask_size`.
unfoldable pub mask_size : ℕ → ℕ
unfolding mask_loop
mask_size mask =
    if mask == 0
    then 0
    else if mask == 0xff000000
    then 8
    else if mask == 0xffff0000
    then 16
    else if mask == 0xffffff00
    then 24
    else if mask == 0xffffffff
    then 32
    else mask_loop 32 0 mask

-- The highest n bits of 32 are set, and the next one is not.
abbrev pub LeadingOnes : ℕ → ℕ → Type 0
LeadingOnes mask n =
    (n ≤ 32) × (2 ^ 32 ≤ mask + 2 ^ (32 - n)) × (n < 32 → mask + 2 ^ (31 - n) < 2 ^ 32)

bit-test : (k mask : ℕ) → bit_and mask (2 ^ k) ≡ mask / 2 ^ k % 2 * 2 ^ k
bit-test k mask =
    let q = mask / 2 ^ k in
    let e : 1 * 2 ^ k ≡ 2 ^ k = omega arith in
    let low : q / 2 * 2 ^ 1 + q % 2 ≡ q = omega arith in
    ap (λ (t : ℕ). bit_and mask t) (sym e)
    ∙ ap (λ (t : ℕ). bit_and t (1 * 2 ^ k)) (sym (div-add-mod' mask (2 ^ k)))
    ∙ bit_and_high k q (mask % 2 ^ k) 1 (mod-lt mask (pow-pos k))
    ∙ ap (λ (t : ℕ). bit_and t 1 * 2 ^ k) (sym low)
    ∙ ap (λ (t : ℕ). t * 2 ^ k) (bit_and_low 1 (q / 2) (q % 2) 1 (omega arith) refl)

-- p * b < (q + 1) * b bounds p.
mul-le_cancel : (p q b : ℕ) → p * b < (q + 1) * b → p ≤ q
mul-le_cancel p q b lt = elim (dec_le p q) [
  | yes le ↦ le
  | no gt ↦ absurd (omega (arith, mul-le-mul_right {m = q + 1} {n = p} b (omega arith)))
]

-- Below i set bits, the next bit decides.
next-bit :
    (i k mask : ℕ)
    → i + suc k ≡ 32
    → mask < 2 ^ 32
    → 2 ^ 32 ≤ mask + 2 ^ suc k
    → ((mask / 2 ^ k % 2 ≡ 0) → mask + 2 ^ k < 2 ^ 32)
      × ((mask / 2 ^ k % 2 ≡ 1) → 2 ^ 32 ≤ mask + 2 ^ k)
next-bit i k mask sum small set =
    let q = mask / 2 ^ k in
    let p = 2 ^ suc i in
    let e : 32 ≡ suc i + k = omega arith in
    let whole : 2 ^ 32 ≡ p * 2 ^ k = ap (λ (t : ℕ). 2 ^ t) e ∙ pow-add (suc i) k in
    let parts = div-add-mod' mask (2 ^ k) in
    let rest = mod-lt mask (pow-pos k) in
    let below : q < p =
      (div-lt_iff_lt-mul {k = 2 ^ k} {x = mask} {y = p} (pow-pos k)).1 (omega (arith, whole)) in
    let even : p ≡ 2 * 2 ^ i = omega (arith, pow-suc 2 i) in
    let near : p ≤ q + 2 =
      mul-le_cancel p (q + 2) (2 ^ k)
        (omega (arith, whole, parts, rest, add-mul q 3 (2 ^ k), pow-suc 2 k)) in
    (
      λ z. omega (
        arith,
        whole,
        parts,
        rest,
        add-mul q 2 (2 ^ k),
        mul-le-mul_right {m = q + 2} {n = p} (2 ^ k) (omega (arith, even, below)),
      ),
      λ o. omega (
        arith,
        whole,
        parts,
        add-mul q 1 (2 ^ k),
        mul-le-mul_right {m = p} {n = q + 1} (2 ^ k) (omega (arith, even, near)),
      ),
    )

digit-test :
    (d b x : ℕ) → d < 2 → 0 < b → x ≡ d * b → ((x == 0) ≡ true → d ≡ 0) × ((x == 0) ≡ false → d ≡ 1)
digit-test zero b x small pos e = (λ t. refl, λ f. absurd (ground arith))
digit-test (suc zero) b x small pos e = (λ t. absurd (ground arith), λ f. refl)
digit-test (suc (suc d)) b x small pos e = absurd (omega arith)

mask_loop-LeadingOnes :
    (left i mask : ℕ)
    → i + left ≡ 32
    → mask < 2 ^ 32
    → 2 ^ 32 ≤ mask + 2 ^ left
    → LeadingOnes mask (mask_loop left i mask)
unfolding mask_loop
mask_loop-LeadingOnes zero i mask sum small set =
    let e : 32 - i ≡ 0 = omega arith in
    (omega arith, omega (arith, ap (λ (t : ℕ). 2 ^ t) e), λ lt. absurd (omega arith))
mask_loop-LeadingOnes (suc left) i mask sum small set =
    let (clear, ones) = next-bit i left mask sum small set in
    let test = bit-test left mask in
    let digit : mask / 2 ^ left % 2 < 2 = mod-lt (mask / 2 ^ left) (omega arith) in
    let tested =
      digit-test (mask / 2 ^ left % 2) (2 ^ left) (bit_and mask (2 ^ left)) digit (pow-pos left)
        test in
    let e : 32 - i ≡ suc left = omega arith in
    let e' : 31 - i ≡ left = omega arith in
    if_cases (LeadingOnes mask) (bit_and mask (2 ^ left) == 0)
      (λ t. (
        omega arith,
        omega (arith, ap (λ (t : ℕ). 2 ^ t) e),
        λ _. omega (arith, ap (λ (t : ℕ). 2 ^ t) e', clear (tested.0 t)),
      ))
      (λ f. mask_loop-LeadingOnes left (i + 1) mask (omega arith) small (ones (tested.1 f)))

-- `mask_size` of any 32-bit mask, contiguous or not, is the number of ones before its first zero
-- from the highest bit on.
pub mask_size-LeadingOnes : (mask : ℕ) → mask < 2 ^ 32 → LeadingOnes mask (mask_size mask)
unfolding mask_size
mask_size-LeadingOnes mask small =
    let holds = LeadingOnes mask in
    if_cases holds (mask == 0) (λ t. ground arith)
      (λ _.
        if_cases holds (mask == 0xff000000) (λ t. ground arith)
          (λ _.
            if_cases holds (mask == 0xffff0000) (λ t. ground arith)
              (λ _.
                if_cases holds (mask == 0xffffff00) (λ t. ground arith)
                  (λ _.
                    if_cases holds (mask == 0xffffffff) (λ t. ground arith)
                      (λ _. mask_loop-LeadingOnes 32 0 mask (omega arith) small (omega arith))))))
