-- ===== src/System/Places.antt =====
-- Which places of a stat line are read.
use fgen.Prelude.{
  ℕ, zero, suc, ◌<◌, ◌^◌, ◌%◌, ◌≡◌, ◌↔◌, refl, true, false, ◌||◌, none, some, List, [], ◌∷◌, ltb,
  ◌==◌, length, get_elem?, arith,
}
use native.Mathlib.Decide.{dec_lt}
use fgen.CString.{Bytes, codes}
use fgen.CString.Unsigned.{strtoul}
use fgen.Strings.{fgen_strtok}
use fgen.System.{value, failed, bad_pointer, stat_value}

get_elem?-length : (toks : List Bytes) → get_elem? toks (length toks) ≡ none
get_elem?-length [] = refl
get_elem?-length (t ∷ toks) = get_elem?-length toks

get_elem?-below :
    (toks : List Bytes) (i : ℕ) → i < length toks → (t : Bytes) × (get_elem? toks i ≡ some t)
get_elem?-below [] i h = absurd (omega arith)
get_elem?-below (t ∷ toks) zero h = (t, refl)
get_elem?-below (t ∷ toks) (suc i) h = get_elem?-below toks i (omega arith)

module _ (buf : Bytes) (toks : List Bytes) (idx : ℕ)
    (e : fgen_strtok buf (codes " ") 64 ≡ some toks) (far : 2 < idx) where
  refused : length toks < idx → stat_value (some buf) idx ≡ failed
  unfolding stat_value
  refused h = let t : ltb (length toks) idx ≡ true = ground arith in rw (e, t) refl

  read_null : length toks ≡ idx → stat_value (some buf) idx ≡ bad_pointer
  unfolding stat_value
  read_null h =
      let t : ltb (length toks) idx ≡ false = ground arith in
      let u : (idx == 1 || idx == 2) ≡ false = ground arith in
      let g : get_elem? toks idx ≡ none = rw (← h) (get_elem?-length toks) in rw (e, t, u, g) refl

  read_field : idx < length toks → (v : ℕ) × (stat_value (some buf) idx ≡ value v)
  unfolding stat_value
  read_field h =
      let t : ltb (length toks) idx ≡ false = ground arith in
      let u : (idx == 1 || idx == 2) ≡ false = ground arith in
      let (tok, g) = get_elem?-below toks idx h in
      ((strtoul 0 tok).0 % 2 ^ 32, rw (e, t, u, g) refl)

-- A place behind the first three is refused exactly if it is greater than the number of fields:
-- where the two are equal, the entry that was never filled goes to `strtoul`.
pub stat_value-places :
    (buf : Bytes) (toks : List Bytes) (idx : ℕ)
    → fgen_strtok buf (codes " ") 64 ≡ some toks
    → 2 < idx
    → ((stat_value (some buf) idx ≡ failed) ↔ (length toks < idx))
      × ((stat_value (some buf) idx ≡ bad_pointer) ↔ (length toks ≡ idx))
stat_value-places buf toks idx e far = elim (dec_lt (length toks) idx) [
  | yes less ↦
      let r = refused buf toks idx e far less in
      ((λ h. less, λ h. r), (λ h. cc, λ h. absurd (omega arith)))
  | no rest ↦ elim (dec_lt idx (length toks)) [
    | yes more ↦
        let (v, r) = read_field buf toks idx e far more in
        ((λ h. cc, λ h. absurd (omega arith)), (λ h. cc, λ h. absurd (omega arith)))
    | no other ↦
        let same : length toks ≡ idx = omega arith in
        let r = read_null buf toks idx e far same in
        ((λ h. cc, λ h. absurd (omega arith)), (λ h. same, λ h. r))
  ]
]
