-- ===== src/Strings/Tokens.antt =====
-- The tokens that `fgen_strtok` fills its array with.
use fgen.Prelude.{
  ℕ, zero, suc, ◌≤◌, ◌≡◌, subst, false, Option, none, some, List, [], ◌∷◌, ◌++◌, All, All-parts,
  Bool-cases, Option-cases, inl, inr, length, arith,
}
use mathlib.Core.Option.{some-injective}
use fgen.CString.{Bytes, isspace, strchr, span_to, skip_set, strtok_r, token_at}
use fgen.Strings.{strtrim, strtok_loop, fgen_strtok}
use fgen.Strings.Trim.{StartsKept, EndsKept, strtrim-parts}

-- A token holds no delimiter, and no whitespace at its ends.
pub record Token (delim tok : Bytes) : Type 0 where
  pub undivided : All (λ c. strchr delim c ≡ false) tok
  pub starts : StartsKept isspace tok
  pub ends : EndsKept isspace tok

span_to-undivided : (set s : Bytes) → All (λ c. strchr set c ≡ false) (span_to set s).0
unfolding span_to
span_to-undivided set [] = tt
span_to-undivided set (c ∷ s) = elim (Bool-cases (strchr set c)) [
  | inl found ↦ rw (found, span_to) tt
  | inr other ↦ rw (other, span_to) (other, span_to-undivided set s)
]

strtrim-Token :
    (delim tok : Bytes) → All (λ c. strchr delim c ≡ false) tok → Token delim (strtrim tok)
strtrim-Token delim tok h =
    let (l, r, e, cut, cut', starts, ends) = strtrim-parts tok in
    let whole = subst (All (λ c. strchr delim c ≡ false)) e h in
    let middle = All-parts (λ c. strchr delim c ≡ false) l (strtrim tok ++ r) whole in
    record {
      undivided = (All-parts (λ c. strchr delim c ≡ false) (strtrim tok) r middle.1).0;
      starts = starts;
      ends = ends;
    }

abbrev Undivided : Bytes → Option (Bytes × Bytes) → Type 0
Undivided set none = Unit
Undivided set (some (tok, rest)) = All (λ c. strchr set c ≡ false) tok

strtok_r-Undivided : (set s : Bytes) → Undivided set (strtok_r set s)
unfolding strtok_r
strtok_r-Undivided set s = token_at-Undivided set (skip_set set s)
  where
    token_at-Undivided : (set s : Bytes) → Undivided set (token_at set s)
    token_at-Undivided set [] = tt
    token_at-Undivided set (c ∷ s) = span_to-undivided set (c ∷ s)

strtok_loop-Tokens :
    (n : ℕ) (delim s : Bytes)
    → (length (strtok_loop n delim s) ≤ n) × All (Token delim) (strtok_loop n delim s)
unfolding strtok_loop
strtok_loop-Tokens zero delim s = (omega arith, tt)
strtok_loop-Tokens (suc n) delim s = elim (Option-cases (strtok_r delim s)) [
  | inl e ↦ rw (e, strtok_loop) (omega arith, tt)
  | inr ((tok, rest), e) ↦
      let more = strtok_loop-Tokens n delim rest in
      let undivided : All (λ c. strchr delim c ≡ false) tok =
        subst (Undivided delim) e (strtok_r-Undivided delim s) in
      rw (e, strtok_loop) (omega (arith, more.0), (strtrim-Token delim tok undivided, more.1))
]

abbrev Filled : Bytes → ℕ → List Bytes → Type 0
Filled delim maxtokens toks = (length toks ≤ maxtokens) × All (Token delim) toks

-- `fgen_strtok` never fills more than the entries it is given, and each entry is a token without
-- delimiters, and without whitespace at its ends.
pub fgen_strtok-Tokens :
    (s delim : Bytes) (maxtokens : ℕ) (toks : List Bytes)
    → fgen_strtok s delim maxtokens ≡ some toks
    → (length toks ≤ maxtokens) × All (Token delim) toks
unfolding fgen_strtok
fgen_strtok-Tokens s [] maxtokens toks e = absurd (ground arith)
fgen_strtok-Tokens s (d ∷ delim) zero toks e = absurd (ground arith)
fgen_strtok-Tokens [] (d ∷ delim) (suc n) toks e =
    subst (Filled (d ∷ delim) (suc n)) (some-injective [] toks e) (omega arith, tt)
fgen_strtok-Tokens (c ∷ s) (d ∷ delim) (suc n) toks e =
    subst (Filled (d ∷ delim) (suc n))
      (some-injective (strtok_loop (suc n) (d ∷ delim) (c ∷ s)) toks e)
      (strtok_loop-Tokens (suc n) (d ∷ delim) (c ∷ s))
