-- ===== src/Prelude/BitLaws.antt =====
-- `&` with a mask, and bounds on `|`, at every width.
use Prim.Native.Nat.{
  ℕ, zero, suc, ◌+◌, ◌*◌, ◌/◌, ◌%◌, ◌^◌, ◌≤◌, ◌<◌, min, bit_or, bit_and, bit_and-bitwise,
}
use mathlib.Core.Path.{◌≡◌, ap}
use native.Mathlib.Nat.{pow-suc}
use native.Mathlib.Omega.{arith}
use fgen.Prelude.Bits.{by_halves, digits_step, bit_or_step, bit_or-zero, zero-bit_or}

pub zero-bit_and : (b : ℕ) → bit_and 0 b ≡ 0
zero-bit_and = bit_and-bitwise 0

pub bit_and_step :
    (x mask : ℕ) → bit_and x mask ≡ 2 * bit_and (x / 2) (mask / 2) + min (x % 2) (mask % 2)
bit_and_step zero mask = omega (arith, zero-bit_and (mask / 2), zero-bit_and mask)
bit_and_step (suc x) mask =
    let low = bit_and-bitwise (suc x / 2) (mask / 2) in
    omega (
      arith,
      bit_and-bitwise (suc x) mask,
      digits_step (λ y. 0) min (suc x) mask (omega arith),
      low,
    )

pub bit_and_self : (a : ℕ) → bit_and a a ≡ a
bit_and_self =
    by_halves (λ a. bit_and a a ≡ a) (zero-bit_and 0)
      (λ a pos ih. omega (arith, bit_and_step a a, ih))

pub bit_and-zero : (a : ℕ) → bit_and a 0 ≡ 0
bit_and-zero =
    by_halves (λ a. bit_and a 0 ≡ 0) (zero-bit_and 0)
      (λ a pos ih. omega (arith, bit_and_step a 0, ih))

pub le-bit_or : (a b : ℕ) → (a ≤ bit_or a b) × (b ≤ bit_or a b)
le-bit_or =
    by_halves (λ a. (b : ℕ) → (a ≤ bit_or a b) × (b ≤ bit_or a b))
      (λ b. omega (arith, zero-bit_or b)) (λ a pos ih b. omega (arith, bit_or_step a b, ih (b / 2)))

pub bit_or-lt : (k a b : ℕ) → a < 2 ^ k → b < 2 ^ k → bit_or a b < 2 ^ k
bit_or-lt zero zero b ha hb = omega (arith, zero-bit_or b)
bit_or-lt zero (suc a) b ha hb = absurd (omega arith)
bit_or-lt (suc k) a b ha hb = omega (
  arith,
  pow-suc 2 k,
  bit_or_step a b,
  bit_or-lt k (a / 2) (b / 2) (omega (arith, pow-suc 2 k)) (omega (arith, pow-suc 2 k)),
)

-- A field above the other side stays.
pub bit_or_below :
    (k q r s : ℕ) → r < 2 ^ k → s < 2 ^ k → bit_or (q * 2 ^ k + r) s ≡ q * 2 ^ k + bit_or r s
bit_or_below zero q r zero hr hs = omega (arith, bit_or-zero (q * 1 + r), bit_or-zero r)
bit_or_below zero q r (suc s) hr hs = absurd (omega arith)
bit_or_below (suc k) q r s hr hs =
    let double : q * 2 ^ suc k ≡ 2 * (q * 2 ^ k) =
      omega (arith, ap (λ (t : ℕ). q * t) (pow-suc 2 k)) in
    ground (
      arith,
      double,
      pow-suc 2 k,
      bit_or_step (q * 2 ^ suc k + r) s,
      bit_or_step r s,
      bit_or_below k q (r / 2) (s / 2) (omega (arith, pow-suc 2 k)) (omega (arith, pow-suc 2 k)),
    )

-- `a & (c << k)`.
pub bit_and_high :
    (k q r c : ℕ) → r < 2 ^ k → bit_and (q * 2 ^ k + r) (c * 2 ^ k) ≡ bit_and q c * 2 ^ k
bit_and_high zero q r c fits = let e : r ≡ 0 = omega arith in ground (arith, e)
bit_and_high (suc k) q r c fits =
    let double : (t : ℕ) → t * 2 ^ suc k ≡ 2 * (t * 2 ^ k) =
      λ t. omega (arith, ap (λ (u : ℕ). t * u) (pow-suc 2 k)) in
    ground (
      arith,
      double q,
      double c,
      double (bit_and q c),
      pow-suc 2 k,
      bit_and_step (q * 2 ^ suc k + r) (c * 2 ^ suc k),
      bit_and_high k q (r / 2) c (omega (arith, pow-suc 2 k)),
    )

-- `a & m` with a mask m of k low bits.
pub bit_and_low : (k q r m : ℕ) → r < 2 ^ k → m + 1 ≡ 2 ^ k → bit_and (q * 2 ^ k + r) m ≡ r
bit_and_low zero q r zero fits mask = omega (arith, bit_and-zero (q * 1 + r))
bit_and_low zero q r (suc m) fits mask = absurd (omega arith)
bit_and_low (suc k) q r m fits mask =
    let double : q * 2 ^ suc k ≡ 2 * (q * 2 ^ k) =
      omega (arith, ap (λ (t : ℕ). q * t) (pow-suc 2 k)) in
    ground (
      arith,
      double,
      pow-suc 2 k,
      bit_and_step (q * 2 ^ suc k + r) m,
      bit_and_low k q (r / 2) (m / 2) (omega (arith, pow-suc 2 k)) (omega (arith, pow-suc 2 k)),
    )
