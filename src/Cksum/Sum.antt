-- ===== src/Cksum/Sum.antt =====
-- The unrolled loop of `__fgen_raw_cksum` against the plain sum of the words.
use fgen.Prelude.{
  ℕ, zero, suc, ◌+◌, ◌*◌, ◌^◌, ◌≤◌, ◌<◌, ◌≡◌, refl, [], ◌∷◌, ◌++◌, arith, length, All, u32,
}
use fgen.CString.{Bytes}
use fgen.Cksum.{le16, sum_words, raw_cksum_sum}

-- The sum of the 16-bit words of a buffer, a last odd byte counting as the low byte of a word.
unfoldable pub word_sum : Bytes → ℕ
word_sum [] = 0
word_sum (a ∷ []) = a
word_sum (a ∷ b ∷ s) = le16 a b + word_sum s

abbrev pub IsBytes : Bytes → Type 0
IsBytes b = All (λ x. x < 256) b

sum_words-word_sum : (s : Bytes) (sum : ℕ) → sum < 2 ^ 32 → sum_words s sum ≡ u32 (sum + word_sum s)
unfolding sum_words word_sum
sum_words-word_sum [] sum h = omega arith
sum_words-word_sum (a ∷ []) sum h = refl
sum_words-word_sum (a ∷ b ∷ s) sum h =
    omega (arith, sum_words-word_sum s (u32 (sum + le16 a b)) (omega arith))

-- `__fgen_raw_cksum` adds the words of the buffer to the sum it is given, modulo 2 ^ 32, whatever
-- the length of the buffer is.
pub raw_cksum_sum-word_sum :
    (s : Bytes) (sum : ℕ) → sum < 2 ^ 32 → raw_cksum_sum s sum ≡ u32 (sum + word_sum s)
unfolding raw_cksum_sum word_sum
raw_cksum_sum-word_sum (a ∷ b ∷ c ∷ d ∷ e ∷ f ∷ g ∷ h ∷ s) sum lt = omega (
  arith,
  raw_cksum_sum-word_sum s (u32 (u32 (u32 (u32 (sum + le16 a b) + le16 c d) + le16 e f) + le16 g h))
      (omega arith),
)
raw_cksum_sum-word_sum s sum lt = sum_words-word_sum s sum lt

-- A sum of two buffers, the first of even length.
pub word_sum-append :
    (xs ys : Bytes) (k : ℕ) → length xs ≡ 2 * k → word_sum (xs ++ ys) ≡ word_sum xs + word_sum ys
unfolding word_sum
word_sum-append [] ys k e = omega arith
word_sum-append (a ∷ []) ys k e = absurd (omega arith)
word_sum-append (a ∷ b ∷ xs) ys zero e = absurd (omega arith)
word_sum-append (a ∷ b ∷ xs) ys (suc k) e = omega (arith, word_sum-append xs ys k (omega arith))

pub word_sum-le : (s : Bytes) → IsBytes s → 2 * word_sum s ≤ 65536 * length s + 65536
unfolding word_sum
word_sum-le [] h = omega arith
word_sum-le (a ∷ []) h = omega arith
word_sum-le (a ∷ b ∷ s) h = omega (arith, word_sum-le s h.1.1)
