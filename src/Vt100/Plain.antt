-- ===== src/Vt100/Plain.antt =====
-- The bytes that `vt_color_parse` copies as they are.
use fgen.Prelude.{
  ℕ, zero, suc, ◌+◌, ◌-◌, ◌*◌, ◌/◌, ◌≤◌, ◌≡◌, refl, sym, ◌∙◌, ap, Bool, true, false, Option, some,
  none, [], ◌∷◌, ◌++◌, append_assoc, leb, ltb, ◌<◌, ◌==◌, length, length-take, take, All,
  Bool-cases, inl, inr, arith,
}
use fgen.CString.{Bytes, index_after, strchr, strlcpy}
use fgen.Vt100.{parse_loop, write, returned, vt_color_parse}

take-nil : (n : ℕ) → take {A = ℕ} n [] ≡ []
take-nil zero = refl
take-nil (suc n) = refl

pub write-nil : (o : Option Bytes) → write [] o ≡ o
write-nil none = refl
write-nil (some out) = refl

pub write-write : (s t : Bytes) (o : Option Bytes) → write s (write t o) ≡ write (s ++ t) o
write-write s t none = refl
write-write s t (some out) = ap some (sym (append_assoc s t out))

-- No byte of the text is this one.
abbrev pub Lacks : ℕ → Bytes → Type 0
Lacks d s = All (λ c. (c == d) ≡ false) s

pub index_after-Lacks : (d : ℕ) (s : Bytes) → Lacks d s → index_after d s ≡ none
unfolding index_after
index_after-Lacks d [] h = refl
index_after-Lacks d (c ∷ s) (other, h) = rw (other, index_after-Lacks d s h) refl

strlcpy-Lacks : (d : ℕ) (s : Bytes) (n : ℕ) → Lacks d s → Lacks d (strlcpy s n)
unfolding strlcpy
strlcpy-Lacks d s zero h = tt
strlcpy-Lacks d s (suc zero) h = tt
strlcpy-Lacks d [] (suc (suc n)) h = tt
strlcpy-Lacks d (c ∷ s) (suc (suc n)) (other, h) = (other, strlcpy-Lacks d s (suc n) h)

module _ (color_on : Bool) (rgb_codes : ℕ → ℕ) where
  -- With no closing bracket left, a round copies one byte.
  parse_loop-copies :
      (fuel c : ℕ) (s : Bytes) (len b_index : ℕ)
      → leb len b_index ≡ false
      → Lacks b']' (c ∷ s)
      → parse_loop color_on rgb_codes (suc fuel) (c ∷ s) len b_index
        ≡ write (c ∷ []) (parse_loop color_on rgb_codes fuel s (len - 1) (b_index + 1))
  unfolding parse_loop
  parse_loop-copies fuel c s len b_index more h = elim (Bool-cases (c == b'[')) [
    | inl opening ↦ rw (more, opening, index_after-Lacks b']' (c ∷ s) h) refl
    | inr other ↦ rw (more, other) refl
  ]

  parse_loop-half :
      (fuel : ℕ) (s : Bytes) (len b_index : ℕ)
      → length s ≤ fuel
      → Lacks b']' s
      → parse_loop color_on rgb_codes fuel s len b_index ≡ some (take ((len - b_index + 1) / 2) s)
  unfolding parse_loop
  parse_loop-half fuel [] len b_index h lacks = ap some (sym (take-nil ((len - b_index + 1) / 2)))
  parse_loop-half zero (c ∷ s) len b_index h lacks = absurd (omega arith)
  parse_loop-half (suc fuel) (c ∷ s) len b_index h lacks = elim (Bool-cases (leb len b_index)) [
    | inl full ↦
        let none_left : (len - b_index + 1) / 2 ≡ 0 = ground arith in rw (full, none_left) refl
    | inr more ↦
        let rounds : (len - b_index + 1) / 2 ≡ suc ((len - 1 - (b_index + 1) + 1) / 2) =
          ground arith in
        parse_loop-copies fuel c s len b_index more lacks
        ∙ rw (rounds, parse_loop-half fuel s (len - 1) (b_index + 1) (omega arith) lacks.1) refl
  ]

  pub parse_loop_plain :
      (fuel c : ℕ) (s : Bytes) (len b_index : ℕ)
      → leb len b_index ≡ false
      → (c == b'[') ≡ false
      → parse_loop color_on rgb_codes (suc fuel) (c ∷ s) len b_index
        ≡ write (c ∷ []) (parse_loop color_on rgb_codes fuel s (len - 1) (b_index + 1))
  unfolding parse_loop
  parse_loop_plain fuel c s len b_index more other = rw (more, other) refl

  -- Bytes other than the opening bracket are copied, while the buffer has twice the room.
  pub parse_loop-run :
      (s rest : Bytes) (fuel len b_index : ℕ)
      → Lacks b'[' s
      → b_index + 2 * length s ≤ len
      → parse_loop color_on rgb_codes (length s + fuel) (s ++ rest) len b_index
        ≡ write s (parse_loop color_on rgb_codes fuel rest (len - length s) (b_index + length s))
  parse_loop-run [] rest fuel len b_index lacks room =
      let l : len - 0 ≡ len = omega arith in
      let k : b_index + 0 ≡ b_index = omega arith in
      let f : length {A = ℕ} [] + fuel ≡ fuel = omega arith in
      rw (f, l, k) (sym (write-nil (parse_loop color_on rgb_codes fuel rest len b_index)))
  parse_loop-run (c ∷ s) rest fuel len b_index (other, lacks) room =
      let more : leb len b_index ≡ false = ground arith in
      let l : len - 1 - length s ≡ len - suc (length s) = omega arith in
      let k : b_index + 1 + length s ≡ b_index + suc (length s) = omega arith in
      let after =
        parse_loop color_on rgb_codes fuel rest (len - suc (length s)) (b_index + suc (length s)) in
      let tail : parse_loop color_on rgb_codes (length s + fuel) (s ++ rest) (len - 1) (b_index + 1)
          ≡ write s after =
        rw (← l, ← k) (parse_loop-run s rest fuel (len - 1) (b_index + 1) lacks (omega arith)) in
      let fuel_suc : suc (length s) + fuel ≡ suc (length s + fuel) = omega arith in
      rw fuel_suc (
        parse_loop_plain (length s + fuel) c (s ++ rest) len b_index more other
        ∙ ap (write (c ∷ [])) tail
        ∙ write-write (c ∷ []) s after)

length-strlcpy_lt : (s : Bytes) (n : ℕ) → 0 < n → length (strlcpy s n) < n
unfolding strlcpy
length-strlcpy_lt s zero h = absurd (omega arith)
length-strlcpy_lt s (suc zero) h = omega arith
length-strlcpy_lt [] (suc (suc n)) h = omega arith
length-strlcpy_lt (c ∷ s) (suc (suc n)) h = omega (arith, length-strlcpy_lt s (suc n) (omega arith))

-- Where a text has an opening bracket and no closing bracket, and `calloc` succeeds,
-- `vt_color_parse` keeps only as many of its bytes as half of the buffer has, rounded up, also where
-- the whole text would fit; the buffer has a byte at least.
pub vt_color_parse-half :
    (color_on : Bool) (rgb_codes : ℕ → ℕ) (text : Bytes) (len : ℕ)
    → 0 < len
    → strchr text b'[' ≡ true
    → Lacks b']' text
    → let kept = take ((len + 1) / 2) (strlcpy text len) in
      vt_color_parse true color_on rgb_codes text len ≡ returned (some (length kept)) kept
unfolding vt_color_parse
vt_color_parse-half color_on rgb_codes text len pos has lacks =
    let s = strlcpy text len in
    let start : len - 0 + 1 ≡ len + 1 = omega arith in
    let inside : ltb (length (take ((len + 1) / 2) s)) len ≡ true =
      ground (arith, length-take ((len + 1) / 2) s, length-strlcpy_lt text len pos) in
    rw
      (
        has,
        parse_loop-half color_on rgb_codes (length s) s len 0 (omega arith)
            (strlcpy-Lacks b']' text len lacks),
        start,
        inside,
      )
      refl
