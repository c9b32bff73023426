-- ===== src/Cksum/Fold.antt =====
-- Folding a sum to sixteen bits keeps it modulo 65535, and gives zero for zero alone.
use fgen.Prelude.{
  ℕ, ◌+◌, ◌-◌, ◌%◌, ◌^◌, ◌≤◌, ◌<◌, ◌≡◌, arith, ◌==◌, if◌then◌else◌, u16, u32, length, Bool, ◌&&◌,
}
use fgen.CString.{Bytes}
use fgen.Cksum.{fold16, raw_cksum_reduce, raw_cksum}
use fgen.Cksum.Sum.{word_sum, raw_cksum_sum-word_sum, IsBytes, word_sum-le}

-- The ones' complement value of a sum: the representative modulo 65535 in 1 … 65535, or 0.
unfoldable pub ones : ℕ → ℕ
ones n = if n == 0 then 0 else (n - 1) % 65535 + 1

pub raw_cksum_reduce-ones : (sum : ℕ) → sum < 2 ^ 32 → raw_cksum_reduce sum ≡ ones sum
unfolding raw_cksum_reduce ones
raw_cksum_reduce-ones sum h = ground arith

-- One fold is enough for the sum of two checksums.
pub fold16-ones : (a b : ℕ) → a < 2 ^ 16 → b < 2 ^ 16 → u16 (fold16 (u32 (a + b))) ≡ ones (a + b)
unfolding ones
fold16-ones a b ha hb = ground arith

pub ones-lt : (a : ℕ) → ones a < 2 ^ 16
unfolding ones
ones-lt a = ground arith

pub ones-add_left : (a b : ℕ) → ones (ones a + b) ≡ ones (a + b)
unfolding ones
ones-add_left a b = ground arith

pub ones-add_complement : (a : ℕ) → ones (a + (65535 - ones a)) ≡ 65535
unfolding ones
ones-add_complement a = ground arith

-- A field that holds the complement, or all ones where that is zero and `swap` is set.
pub ones-add_swapped :
    (swap : Bool) (a : ℕ)
    → ones (a + (if (65535 - ones a == 0) && swap then 65535 else 65535 - ones a)) ≡ 65535
unfolding ones
ones-add_swapped swap a = ground arith

pub raw_cksum-lt : (s : Bytes) → raw_cksum s < 2 ^ 16
unfolding raw_cksum raw_cksum_reduce
raw_cksum-lt s = omega arith

-- `fgen_raw_cksum` of a buffer of at most 65535 bytes is the ones' complement value of the sum of
-- its words: no carry is lost.
pub raw_cksum-ones : (s : Bytes) → IsBytes s → length s ≤ 65535 → raw_cksum s ≡ ones (word_sum s)
unfolding raw_cksum
raw_cksum-ones s bytes short =
    let fits : word_sum s < 2 ^ 32 = omega (arith, word_sum-le s bytes) in
    omega (arith, raw_cksum_sum-word_sum s 0 (omega arith), raw_cksum_reduce-ones (word_sum s) fits)
