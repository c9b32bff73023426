-- ===== src/Strings/Trim.antt =====
-- What `strtrim` cuts off, and what it keeps.
use fgen.Prelude.{
  ℕ, ◌≡◌, refl, ◌∙◌, ap, Bool, true, false, [], ◌∷◌, ◌++◌, All, Bool-cases, inl, inr,
}
use fgen.CString.{Bytes, isspace}
use fgen.Strings.{trim_front, trim_back, keep_front, strtrim}

module _ (p : ℕ → Bool) where
  -- The first byte is to keep.
  abbrev pub StartsKept : Bytes → Type 0
  StartsKept [] = Unit
  StartsKept (c ∷ s) = p c ≡ false

  -- The last byte is to keep.
  abbrev pub EndsKept : Bytes → Type 0
  EndsKept [] = Unit
  EndsKept (c ∷ []) = p c ≡ false
  EndsKept (c ∷ d ∷ s) = EndsKept (d ∷ s)

  abbrev pub AllCut : Bytes → Type 0
  AllCut s = All (λ c. p c ≡ true) s

  front_parts :
      (s : Bytes) → (l : Bytes) × (s ≡ l ++ trim_front p s) × AllCut l × StartsKept (trim_front p s)
  unfolding trim_front
  front_parts [] = ([], refl, tt, tt)
  front_parts (c ∷ s) = elim (Bool-cases (p c)) [
    | inl cut ↦
        let (l, e, all, kept) = front_parts s in rw cut (c ∷ l, ap (λ t. c ∷ t) e, (cut, all), kept)
    | inr keeps ↦ rw keeps ([], refl, tt, keeps)
  ]

  keep_front-parts :
      (c : ℕ) (t r : Bytes)
      → EndsKept t
      → AllCut r
      → (r' : Bytes) × (c ∷ (t ++ r) ≡ keep_front p c t ++ r')
        × AllCut r'
        × EndsKept (keep_front p c t)
  keep_front-parts c [] r kept cut = elim (Bool-cases (p c)) [
    | inl space ↦ rw space (c ∷ r, refl, (space, cut), tt)
    | inr keeps ↦ rw keeps (r, refl, cut, keeps)
  ]
  keep_front-parts c (d ∷ t) r kept cut = (r, refl, cut, kept)

  back_parts :
      (s : Bytes) → (r : Bytes) × (s ≡ trim_back p s ++ r) × AllCut r × EndsKept (trim_back p s)
  unfolding trim_back
  back_parts [] = ([], refl, tt, tt)
  back_parts (c ∷ s) =
      let (r, e, cut, kept) = back_parts s in
      let (r', e', cut', kept') = keep_front-parts c (trim_back p s) r kept cut in
      (r', ap (λ t. c ∷ t) e ∙ e', cut', kept')

  keep_front-StartsKept : (c : ℕ) (t : Bytes) → p c ≡ false → StartsKept (keep_front p c t)
  keep_front-StartsKept c [] h = rw h h
  keep_front-StartsKept c (d ∷ t) h = h

  trim_back-StartsKept : (s : Bytes) → StartsKept s → StartsKept (trim_back p s)
  unfolding trim_back
  trim_back-StartsKept [] h = tt
  trim_back-StartsKept (c ∷ s) h = keep_front-StartsKept c (trim_back p s) h

-- `strtrim` cuts whitespace off both ends, and nothing else: the string is what it keeps between
-- two runs of whitespace, and what it keeps neither starts nor ends with whitespace.
pub strtrim-parts :
    (s : Bytes)
    → (l r : Bytes) × (s ≡ l ++ (strtrim s ++ r))
      × AllCut isspace l
      × AllCut isspace r
      × StartsKept isspace (strtrim s)
      × EndsKept isspace (strtrim s)
unfolding strtrim
strtrim-parts s =
    let (l, e, cut, starts) = front_parts isspace s in
    let (r, e', cut', ends) = back_parts isspace (trim_front isspace s) in
    (
      l,
      r,
      e ∙ ap (λ t. l ++ t) e',
      cut,
      cut',
      trim_back-StartsKept isspace (trim_front isspace s) starts,
      ends,
    )
