-- ===== src/Prelude/Powers.antt =====
-- Powers of two that are not numerals.
use Prim.Native.Nat.{ℕ, zero, suc, ◌+◌, ◌-◌, ◌*◌, ◌/◌, ◌^◌, ◌≤◌, ◌<◌}
use mathlib.Core.Path.{◌≡◌, ap, ◌∙◌}
use native.Mathlib.Nat.{pow-suc, suc-mul, one-le-pow, pow-le-pow_right}
use native.Mathlib.Decide.{dec_lt}
use native.Mathlib.Omega.{arith}

pub pow-add : (m n : ℕ) → 2 ^ (m + n) ≡ 2 ^ m * 2 ^ n
pow-add m zero = let e : m + 0 ≡ m = omega arith in omega (arith, ap (λ (t : ℕ). 2 ^ t) e)
pow-add m (suc n) =
    let e : m + suc n ≡ suc (m + n) = omega arith in
    ap (λ (t : ℕ). 2 ^ t) e
    ∙ pow-suc 2 (m + n)
    ∙ ap (λ t. t * 2) (pow-add m n)
    ∙ omega (arith, ap (λ (t : ℕ). 2 ^ m * t) (pow-suc 2 n))

pub pow-pos : (n : ℕ) → 0 < 2 ^ n
pow-pos n = one-le-pow n 2 (omega arith)

pub pow_mono : (m n : ℕ) → m ≤ n → 2 ^ m ≤ 2 ^ n
pow_mono m n h = pow-le-pow_right (omega arith) h

-- Every positive number has its highest bit.
pub top_bit_below : (b x : ℕ) → x ≤ b → 0 < x → (n : ℕ) × (2 ^ n ≤ x) × (x < 2 ^ suc n)
top_bit_below zero x le pos = absurd (omega arith)
top_bit_below (suc b) zero le pos = absurd (omega arith)
top_bit_below (suc b) (suc zero) le pos = (0, omega arith, omega arith)
top_bit_below (suc b) (suc (suc x)) le pos =
    let (n, low, high) = top_bit_below b (suc (suc x) / 2) (omega arith) (omega arith) in
    (suc n, omega (arith, pow-suc 2 n), omega (arith, pow-suc 2 n, pow-suc 2 (suc n)))

pub top_bit : (x : ℕ) → 0 < x → (n : ℕ) × (2 ^ n ≤ x) × (x < 2 ^ suc n)
top_bit x pos = top_bit_below x x (omega arith) pos

-- A power below a power has the smaller exponent.
pub exponent-lt : (m n : ℕ) → 2 ^ m < 2 ^ n → m < n
exponent-lt m n h = elim (dec_lt m n) [
  | yes p ↦ p
  | no p ↦ absurd (omega (arith, pow_mono n m (omega arith)))
]

pub mul_pred : (p m : ℕ) → 0 < p → (p - 1) * m + m ≡ p * m
mul_pred zero m pos = absurd (omega arith)
mul_pred (suc p) m pos = grind (arith, suc-mul p m)
