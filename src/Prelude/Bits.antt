-- ===== src/Prelude/Bits.antt =====
-- `|` of fields that do not overlap is their sum, at every width.
use Prim.Native.Nat.{
  ℕ, zero, suc, ◌+◌, ◌-◌, ◌*◌, ◌/◌, ◌%◌, ◌^◌, ◌≤◌, ◌<◌, max, digits, bit_or, bit_or-bitwise,
}
use mathlib.Core.Path.{◌≡◌, refl, sym, ap, ◌∙◌}
use native.Mathlib.Nat.{pow-suc}
use native.Mathlib.Omega.{arith}

-- Induction on the binary digits of a number.
by_halves_upto {ℓ} :
    (P : ℕ → Type ℓ) → P 0 → ((a : ℕ) → 0 < a → P (a / 2) → P a) → (bound a : ℕ) → a ≤ bound → P a
by_halves_upto P base step zero zero le = base
by_halves_upto P base step zero (suc a) le = absurd (omega arith)
by_halves_upto P base step (suc bound) zero le = base
by_halves_upto P base step (suc bound) (suc a) le =
    step (suc a) (omega arith) (by_halves_upto P base step bound (suc a / 2) (omega arith))

pub by_halves {ℓ} : (P : ℕ → Type ℓ) → P 0 → ((a : ℕ) → 0 < a → P (a / 2) → P a) → (a : ℕ) → P a
by_halves P base step a = by_halves_upto P base step a a (omega arith)

-- An operation on binary digits, one digit at a time: every count of digits that covers the first
-- number gives the same result.
module _ (ended : ℕ → ℕ) (op : ℕ → ℕ → ℕ) where
  more_digits : (k a b : ℕ) → a ≤ k → digits ended op (suc k) a b ≡ digits ended op k a b
  more_digits zero zero b le = refl
  more_digits zero (suc a) b le = absurd (omega arith)
  more_digits (suc k) zero b le = refl
  more_digits (suc k) (suc a) b le = omega (arith, more_digits k (suc a / 2) (b / 2) (omega arith))

  extra_digits : (extra a b : ℕ) → digits ended op (a + extra) a b ≡ digits ended op a a b
  extra_digits zero a b = let e : a + 0 ≡ a = omega arith in ap (λ (k : ℕ). digits ended op k a b) e
  extra_digits (suc extra) a b =
      let e : a + suc extra ≡ suc (a + extra) = omega arith in
      ap (λ (k : ℕ). digits ended op k a b) e
      ∙ more_digits (a + extra) a b (omega arith)
      ∙ extra_digits extra a b

  pub digits_step :
      (a b : ℕ)
      → 0 < a
      → digits ended op a a b ≡ digits ended op (a / 2) (a / 2) (b / 2) * 2 + op (a % 2) (b % 2)
  digits_step zero b pos = absurd (omega arith)
  digits_step (suc a) b pos =
      let half = suc a / 2 in
      let e : a ≡ half + (a - half) = omega arith in
      omega (
        arith,
        ap (λ (k : ℕ). digits ended op k half (b / 2)) e,
        extra_digits (a - half) half (b / 2),
      )

pub zero-bit_or : (b : ℕ) → bit_or 0 b ≡ b
zero-bit_or = bit_or-bitwise 0

pub bit_or_step : (a b : ℕ) → bit_or a b ≡ bit_or (a / 2) (b / 2) * 2 + max (a % 2) (b % 2)
bit_or_step zero b = omega (arith, zero-bit_or b, zero-bit_or (b / 2))
bit_or_step (suc a) b =
    bit_or-bitwise (suc a) b
    ∙ digits_step (λ y. y) max (suc a) b (omega arith)
    ∙ ap (λ (t : ℕ). t * 2 + max (suc a % 2) (b % 2)) (sym (bit_or-bitwise (suc a / 2) (b / 2)))

pub bit_or-zero : (a : ℕ) → bit_or a 0 ≡ a
bit_or-zero =
    by_halves (λ a. bit_or a 0 ≡ a) (zero-bit_or 0) (λ a pos ih. omega (arith, bit_or_step a 0, ih))

-- `(q << k) | r` is a sum when `r` fits `k` bits.
pub bit_or_fields : (k q r : ℕ) → r < 2 ^ k → bit_or (q * 2 ^ k) r ≡ q * 2 ^ k + r
bit_or_fields zero q r fits = ground (arith, bit_or-zero q)
bit_or_fields (suc k) q r fits =
    let double : q * 2 ^ suc k ≡ 2 * (q * 2 ^ k) =
      omega (arith, ap (λ (t : ℕ). q * t) (pow-suc 2 k)) in
    ground (
      arith,
      double,
      pow-suc 2 k,
      bit_or_step (q * 2 ^ suc k) r,
      bit_or_fields k q (r / 2) (omega (arith, pow-suc 2 k)),
    )

-- The other order, `r | (q << k)`.
pub bit_or_fields_low : (k q r : ℕ) → r < 2 ^ k → bit_or r (q * 2 ^ k) ≡ r + q * 2 ^ k
bit_or_fields_low zero q r fits = let e : r ≡ 0 = omega arith in ground (arith, e, zero-bit_or q)
bit_or_fields_low (suc k) q r fits =
    let double : q * 2 ^ suc k ≡ 2 * (q * 2 ^ k) =
      omega (arith, ap (λ (t : ℕ). q * t) (pow-suc 2 k)) in
    ground (
      arith,
      double,
      pow-suc 2 k,
      bit_or_step r (q * 2 ^ suc k),
      bit_or_fields_low k q (r / 2) (omega (arith, pow-suc 2 k)),
    )

-- Below a field, the bits of the other side stay.
pub bit_or_above :
    (k q r c : ℕ) → r < 2 ^ k → bit_or (q * 2 ^ k + r) (c * 2 ^ k) ≡ bit_or q c * 2 ^ k + r
bit_or_above zero q r c fits = let e : r ≡ 0 = omega arith in ground (arith, e)
bit_or_above (suc k) q r c fits =
    let double : (t : ℕ) → t * 2 ^ suc k ≡ 2 * (t * 2 ^ k) =
      λ t. omega (arith, ap (λ (u : ℕ). t * u) (pow-suc 2 k)) in
    ground (
      arith,
      double q,
      double c,
      double (bit_or q c),
      pow-suc 2 k,
      bit_or_step (q * 2 ^ suc k + r) (c * 2 ^ suc k),
      bit_or_above k q (r / 2) c (omega (arith, pow-suc 2 k)),
    )
