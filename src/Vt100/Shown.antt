-- ===== src/Vt100/Shown.antt =====
-- What `vt_color_parse` makes of a text that is written as plain bytes and colour tuples.
use fgen.Prelude.{
  ℕ, zero, suc, ◌+◌, ◌-◌, ◌*◌, ◌^◌, ◌≤◌, ◌<◌, ◌≡◌, refl, ◌∙◌, ap, Bool, true, false, Option, some,
  List, [], ◌∷◌, ◌++◌, append_assoc, leb, ltb, ◌==◌, length, length-append, All, All-append,
  Bool-cases, inl, inr, arith,
}
use fgen.CString.{Bytes, index_after, strchr, strlcpy}
use fgen.Vt100.{color_begin, write, after_color, parse_loop, returned, vt_color_parse}
use fgen.Vt100.Fits.{tuple_shown, color_bytes-tuple_shown}
use fgen.Vt100.Plain.{Lacks, parse_loop-run, parse_loop_plain}

-- A byte, or the text between the two brackets of a tuple.
pub data Piece : Type 0 where
  plain : ℕ → Piece
  tuple : Bytes → Piece

abbrev pub spelled : Piece → Bytes
spelled (plain c) = c ∷ []
spelled (tuple body) = b'[' ∷ (body ++ b']' ∷ [])

abbrev pub Proper : Piece → Type 0
Proper (plain c) = (c == b'[') ≡ false
Proper (tuple body) = Lacks b'[' body × Lacks b']' body

-- A tuple that selects nothing is text.
abbrev pub or_text : Bytes → Bytes → Bytes
or_text [] s = s
or_text (c ∷ t) s = c ∷ t

-- What is shown for a piece: with colour off, nothing for a tuple.
abbrev pub shown : Bool → (ℕ → ℕ) → Piece → Bytes
shown color_on rgb_codes (plain c) = c ∷ []
shown true rgb_codes (tuple body) =
    or_text (tuple_shown rgb_codes (spelled (tuple body))) (spelled (tuple body))
shown false rgb_codes (tuple body) = []

unfoldable pub text_of : List Piece → Bytes
text_of [] = []
text_of (p ∷ ps) = spelled p ++ text_of ps

unfoldable pub shown_of : Bool → (ℕ → ℕ) → List Piece → Bytes
shown_of color_on rgb_codes [] = []
shown_of color_on rgb_codes (p ∷ ps) = shown color_on rgb_codes p ++ shown_of color_on rgb_codes ps

index_after_found :
    (d : ℕ) (s rest : Bytes) → Lacks d s → index_after d (s ++ d ∷ rest) ≡ some (s ++ d ∷ [], rest)
unfolding index_after
index_after_found d [] rest h = let at : (d == d) ≡ true = ground arith in rw at refl
index_after_found d (c ∷ s) rest (other, h) = rw (other, index_after_found d s rest h) refl

after_shown :
    (out s more : Bytes) (copied skipped : Option Bytes)
    → copied ≡ some (s ++ more)
    → skipped ≡ some more
    → after_color (some out) copied skipped ≡ some (or_text out s ++ more)
after_shown [] s more copied skipped e e' = e
after_shown (c ∷ out) s more copied skipped e e' = ap (write (c ∷ out)) e'

module _ (rgb_codes : ℕ → ℕ) where
  -- The round that finds a tuple.
  parse_loop_tuple :
      (color_on : Bool) (fuel len b_index : ℕ) (body rest : Bytes)
      → Lacks b']' body
      → leb len b_index ≡ false
      → parse_loop color_on rgb_codes (suc fuel) (b'[' ∷ (body ++ b']' ∷ rest)) len b_index
        ≡ after_color
            (color_begin rgb_codes color_on (spelled (tuple body)) len)
            (write
              (b'[' ∷ [])
              (parse_loop color_on rgb_codes fuel (body ++ b']' ∷ rest) len (b_index + 1)))
            (parse_loop color_on rgb_codes fuel rest len b_index)
  unfolding parse_loop
  parse_loop_tuple color_on fuel len b_index body rest lacks more =
      rw (more, index_after_found b']' (b'[' ∷ body) rest (refl, lacks)) refl

  -- A tuple that selects nothing is copied, its opening bracket first.
  parse_loop_copied :
      (color_on : Bool) (fuel len b_index : ℕ) (body rest more : Bytes)
      → Lacks b'[' body
      → length body + 1 ≤ fuel
      → b_index + 2 * length body + 3 ≤ len
      → parse_loop color_on rgb_codes
          (fuel - (length body + 1))
          rest
          (len - (length body + 1))
          (b_index + 1 + (length body + 1))
        ≡ some more
      → write
          (b'[' ∷ [])
          (parse_loop color_on rgb_codes fuel (body ++ b']' ∷ rest) len (b_index + 1))
        ≡ some (spelled (tuple body) ++ more)
  parse_loop_copied color_on fuel len b_index body rest more lacks enough room e =
      let s = body ++ b']' ∷ [] in
      let n : length s ≡ length body + 1 = length-append body (b']' ∷ []) in
      let closed : Lacks b'[' s = All-append _ body (b']' ∷ []) lacks (refl, tt) in
      let f : length s + (fuel - (length body + 1)) ≡ fuel = omega arith in
      let run =
        parse_loop-run color_on rgb_codes s rest (fuel - (length body + 1)) len (b_index + 1) closed
          (omega arith) in
      let run' : parse_loop color_on rgb_codes fuel (body ++ b']' ∷ rest) len (b_index + 1)
          ≡ some (s ++ more) =
        rw (← append_assoc body (b']' ∷ []) rest, ← f) (run ∙ rw (n, e) refl) in
      rw run' refl

  after_tuple :
      (color_on : Bool) (body more : Bytes) (len : ℕ) (copied skipped : Option Bytes)
      → 48 < len
      → len < 2 ^ 31
      → copied ≡ some (spelled (tuple body) ++ more)
      → skipped ≡ some more
      → after_color (color_begin rgb_codes color_on (spelled (tuple body)) len) copied skipped
        ≡ some (shown color_on rgb_codes (tuple body) ++ more)
  unfolding color_begin
  after_tuple true body more len copied skipped room int e e' =
      rw (color_bytes-tuple_shown rgb_codes (spelled (tuple body)) len room int) (
        after_shown (tuple_shown rgb_codes (spelled (tuple body))) (spelled (tuple body)) more
          copied skipped e e')
  after_tuple false body more len copied skipped room int e e' = e'

  parse_loop-shown_of :
      (color_on : Bool) (ps : List Piece) (fuel len b_index : ℕ)
      → All Proper ps
      → length (text_of ps) ≤ fuel
      → b_index + 2 * length (text_of ps) + 64 ≤ len
      → len < 2 ^ 31
      → parse_loop color_on rgb_codes fuel (text_of ps) len b_index
        ≡ some (shown_of color_on rgb_codes ps)
  unfolding text_of shown_of
  parse_loop-shown_of color_on [] fuel len b_index h enough room int = unfold parse_loop in refl
  parse_loop-shown_of color_on (plain c ∷ ps) zero len b_index h enough room int =
      absurd (omega arith)
  parse_loop-shown_of color_on (plain c ∷ ps) (suc fuel) len b_index (other, h) enough room int =
      let more : leb len b_index ≡ false = ground arith in
      parse_loop_plain color_on rgb_codes fuel c (text_of ps) len b_index more other
      ∙ ap (write (c ∷ [])) (
          parse_loop-shown_of color_on ps fuel (len - 1) (b_index + 1) h (omega arith) (omega arith)
            (omega arith))
  parse_loop-shown_of color_on (tuple body ∷ ps) zero len b_index h enough room int =
      absurd (omega arith)
  parse_loop-shown_of color_on (tuple body ∷ ps) (suc fuel) len b_index ((plain_body, closed), h)
        enough room int =
      let rest = text_of ps in
      let n = length-append (body ++ b']' ∷ []) rest in
      let n' = length-append body (b']' ∷ []) in
      let more : leb len b_index ≡ false = ground arith in
      rw (append_assoc body (b']' ∷ []) rest) (
        parse_loop_tuple color_on fuel len b_index body rest closed more
        ∙ after_tuple color_on body (shown_of color_on rgb_codes ps) len _ _ (omega arith) int
            (parse_loop_copied color_on fuel len b_index body rest (shown_of color_on rgb_codes ps)
              plain_body (omega arith) (omega arith)
              (parse_loop-shown_of color_on ps (fuel - (length body + 1)) (len - (length body + 1))
                (b_index + 1 + (length body + 1)) h (omega arith) (omega arith) (omega arith)))
            (parse_loop-shown_of color_on ps fuel len b_index h (omega arith) (omega arith) int))

pub strlcpy_fits : (s : Bytes) (n : ℕ) → length s < n → strlcpy s n ≡ s
unfolding strlcpy
strlcpy_fits s zero h = absurd (omega arith)
strlcpy_fits [] (suc zero) h = refl
strlcpy_fits (c ∷ s) (suc zero) h = absurd (omega arith)
strlcpy_fits [] (suc (suc n)) h = refl
strlcpy_fits (c ∷ s) (suc (suc n)) h = ap (λ t. c ∷ t) (strlcpy_fits s (suc n) (omega arith))

-- A text with no opening bracket has no tuple.
text_of-shown_of :
    (color_on : Bool) (rgb_codes : ℕ → ℕ) (ps : List Piece)
    → strchr (text_of ps) b'[' ≡ false
    → text_of ps ≡ shown_of color_on rgb_codes ps
unfolding text_of shown_of strchr
text_of-shown_of color_on rgb_codes [] h = refl
text_of-shown_of color_on rgb_codes (plain c ∷ ps) h =
    ap (λ t. c ∷ t) (text_of-shown_of color_on rgb_codes ps (ground arith))
text_of-shown_of color_on rgb_codes (tuple body ∷ ps) h = absurd cc

-- `vt_color_parse` of a text written as plain bytes and colour tuples, where `calloc` succeeds, in a
-- buffer whose size fits an int and is at least 64 bytes more than twice the length of the text, with
-- room for the result and its NUL: each byte stays; with colour on, each tuple becomes the escape strings of its
-- attribute, background and foreground, or stays as it is where it selects none of them; with
-- colour off, each tuple goes, whatever it holds. The number returned is the length of the result.
pub vt_color_parse-shown_of :
    (color_on : Bool) (rgb_codes : ℕ → ℕ) (ps : List Piece) (len : ℕ)
    → All Proper ps
    → 2 * length (text_of ps) + 64 ≤ len
    → len < 2 ^ 31
    → length (shown_of color_on rgb_codes ps) < len
    → let out = shown_of color_on rgb_codes ps in
      vt_color_parse true color_on rgb_codes (text_of ps) len ≡ returned (some (length out)) out
unfolding vt_color_parse
vt_color_parse-shown_of color_on rgb_codes ps len proper room int fits =
    let text = text_of ps in
    let inside : ltb (length (shown_of color_on rgb_codes ps)) len ≡ true = ground arith in
    elim (Bool-cases (strchr text b'[')) [
      | inl has ↦
          rw
            (
              has,
              strlcpy_fits text len (omega arith),
              parse_loop-shown_of rgb_codes color_on ps (length text) len 0 proper (omega arith)
                  (omega arith) int,
              inside,
            )
            refl
      | inr lacks ↦
          rw lacks
            (ap (λ t. returned (some (length t)) t) (text_of-shown_of color_on rgb_codes ps lacks))
    ]
