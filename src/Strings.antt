-- ===== src/Strings.antt =====
-- lib/include/fgen_strings.h: trimming and tokenizing.
pub mod Trim
pub mod Tokens
pub mod Mask
pub mod Quoted
pub mod Search
use fgen.Prelude.{
  ℕ, zero, suc, ◌+◌, Bool, true, false, ◌&&◌, ◌||◌, Option, none, some, List, [], ◌∷◌, ◌==◌,
  if◌then◌else◌,
}
use fgen.CString.{Bytes, isspace, strtok_r}

-- The two loops of a trim: forward over the bytes at the front, and backward from the last byte,
-- which ends at a byte to keep or before the start of the string.
unfoldable pub trim_front : (ℕ → Bool) → Bytes → Bytes
trim_front p [] = []
trim_front p (c ∷ s) = let r = trim_front p s in if p c then r else c ∷ s

abbrev pub keep_front : (ℕ → Bool) → ℕ → Bytes → Bytes
keep_front p c [] = if p c then [] else c ∷ []
keep_front p c (d ∷ r) = c ∷ d ∷ r

unfoldable pub trim_back : (ℕ → Bool) → Bytes → Bytes
trim_back p [] = []
trim_back p (c ∷ s) = keep_front p c (trim_back p s)

-- `strtrim` of a string that is not NULL.
unfoldable pub strtrim : Bytes → Bytes
unfolding trim_front trim_back
strtrim s = trim_back isspace (trim_front isspace s)

abbrev opens : ℕ → ℕ → Bool
opens a c = c == a || isspace c

abbrev closes : ℕ → ℕ → Bool
closes b c = isspace c || c == b

-- `strtrimset` with the set of the two bytes a and b; `none` is NULL, for the empty string.
unfoldable pub strtrimset : Bytes → ℕ → ℕ → Option Bytes
unfolding trim_front trim_back
strtrimset [] a b = none
strtrimset (c ∷ s) a b = some (trim_back (closes b) (trim_front (opens a) (c ∷ s)))

-- The loop of `fgen_strtok`, with the entries that are left: each token is trimmed.
abbrev pub push_token : Bytes → List Bytes → List Bytes
push_token tok toks = strtrim tok ∷ toks

unfoldable pub strtok_loop : ℕ → Bytes → Bytes → List Bytes
unfolding strtok_r strtrim
strtok_loop zero delim s = []
strtok_loop (suc n) delim s = elim (strtok_r delim s) [
  | none ↦ []
  | some (tok, rest) ↦ push_token tok (strtok_loop n delim rest)
]

-- `fgen_strtok` on a string and an array that are not NULL: the entries; `none` is -1, for no
-- delimiter or no room.
unfoldable pub fgen_strtok : Bytes → Bytes → ℕ → Option (List Bytes)
unfolding strtok_loop
fgen_strtok s [] maxtokens = none
fgen_strtok s delim zero = none
fgen_strtok [] (d ∷ delim) (suc n) = some []
fgen_strtok (c ∷ s) (d ∷ delim) (suc n) = some (strtok_loop (suc n) (d ∷ delim) (c ∷ s))
