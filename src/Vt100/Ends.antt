-- ===== src/Vt100/Ends.antt =====
-- The loop of `vt_color_parse` ends, and how much it writes.
use fgen.Prelude.{
  ℕ, zero, suc, ◌+◌, ◌-◌, ◌*◌, ◌≤◌, ◌≡◌, refl, ◌∙◌, ap, Bool, true, false, Option, none, some, [],
  ◌∷◌, ◌++◌, leb, ltb, ◌<◌, ◌==◌, length, length-append, All, ==_iff, if_cases, if_both, subst,
  Bool-cases, inl, inr, arith,
}
use mathlib.Core.Option.{some-injective}
use fgen.CString.{Bytes, index_after, before_index, strchr, strlcpy}
use fgen.Vt100.{
  color_begin, color_bytes, write, at_bracket, after_color, parse_loop, Parsed, returned, overrun,
  running, parsed, vt_color_parse,
}
use fgen.Vt100.Fits.{length-color_bytes}

-- Something is written, of at most m bytes.
abbrev Within : ℕ → Option Bytes → Type 0
Within m o = (out : Bytes) × (o ≡ some out) × (length out ≤ m)

Within-le : (m n : ℕ) (o : Option Bytes) → m ≤ n → Within m o → Within n o
Within-le m n o h (out, e, b) = (out, e, omega arith)

write-Within :
    (m n : ℕ) (s : Bytes) (o : Option Bytes)
    → length s ≤ n
    → Within m o
    → Within (n + m) (write s o)
write-Within m n s o h (out, e, b) = rw e (s ++ out, refl, omega (arith, length-append s out))

after_color-Within :
    (m r n : ℕ) (o copied skipped : Option Bytes)
    → n + r ≤ m
    → ((s : Bytes) → o ≡ some s → length s ≤ n)
    → Within m copied
    → Within r skipped
    → Within m (after_color o copied skipped)
after_color-Within m r n none copied skipped h short c s = Within-le r m skipped (omega arith) s
after_color-Within m r n (some []) copied skipped h short c s = c
after_color-Within m r n (some (d ∷ t)) copied skipped h short c s =
    Within-le (n + r) m _ h (write-Within r n (d ∷ t) skipped (short (d ∷ t) refl) s)

color_begin-short :
    (rgb_codes : ℕ → ℕ) (color_on : Bool) (tuple : Bytes) (len : ℕ) (s : Bytes)
    → color_begin rgb_codes color_on tuple len ≡ some s
    → length s ≤ 48
unfolding color_begin
color_begin-short rgb_codes true tuple len s e =
    rw (← some-injective (color_bytes rgb_codes tuple len) s e)
      (length-color_bytes rgb_codes tuple len)
color_begin-short rgb_codes false tuple len s e = absurd cc

-- What `index_after` finds: the text up to the first d and with it, and the rest; or no d at all.
abbrev pub Split : ℕ → Bytes → Option (Bytes × Bytes) → Type 0
Split d s none = All (λ c. (c == d) ≡ false) s
Split d s (some (t, rest)) =
    (body : Bytes) × (t ≡ body ++ d ∷ []) × (s ≡ t ++ rest) × All (λ c. (c == d) ≡ false) body

before_index-Split :
    (d c : ℕ) (s : Bytes) (o : Option (Bytes × Bytes))
    → (c == d) ≡ false
    → Split d s o
    → Split d (c ∷ s) (before_index c o)
before_index-Split d c s none other all = (other, all)
before_index-Split d c s (some (t, rest)) other (body, e, e', all) =
    (c ∷ body, ap (λ u. c ∷ u) e, ap (λ u. c ∷ u) e', (other, all))

pub index_after-Split : (d : ℕ) (s : Bytes) → Split d s (index_after d s)
unfolding index_after
index_after-Split d [] = tt
index_after-Split d (c ∷ s) =
    if_cases (Split d (c ∷ s)) (c == d)
      (λ at. let here : c ≡ d = (==_iff c d).0 at in ([], ap (λ x. x ∷ []) here, refl, tt))
      (λ other. before_index-Split d c s (index_after d s) other (index_after-Split d s))

-- A tuple has its two brackets, so it is at least two bytes long.
Split-two :
    (s t rest : Bytes)
    → Split b']' (b'[' ∷ s) (some (t, rest))
    → length rest + 2 ≤ length (b'[' ∷ s)
Split-two s t rest ([], e, e', all) =
    let head : b'[' ∷ s ≡ b']' ∷ rest = e' ∙ ap (λ u. u ++ rest) e in absurd (ground arith)
Split-two s t rest (c ∷ body, e, e', all) =
    omega (arith, ap length e, ap length e', length-append t rest, length-append body (b']' ∷ []))

at_bracket-Within :
    (m : ℕ) (s : Bytes) (o : Option (Bytes × Bytes)) (shorter : Option Bytes)
    (tagged : Bytes → Bytes → Option Bytes)
    → Split b']' (b'[' ∷ s) o
    → Within m shorter
    → ((t rest : Bytes) → length rest + 2 ≤ length (b'[' ∷ s) → Within m (tagged t rest))
    → Within m (at_bracket o shorter tagged)
at_bracket-Within m s none shorter tagged split w k = w
at_bracket-Within m s (some (t, rest)) shorter tagged split w k =
    k t rest (Split-two s t rest split)

module _ (color_on : Bool) (rgb_codes : ℕ → ℕ) where
  parse_loop-Within :
      (fuel : ℕ) (s : Bytes) (len b_index : ℕ)
      → length s ≤ fuel
      → Within (24 * length s) (parse_loop color_on rgb_codes fuel s len b_index)
  unfolding parse_loop
  parse_loop-Within fuel [] len b_index h = ([], refl, omega arith)
  parse_loop-Within zero (c ∷ s) len b_index h = absurd (omega arith)
  parse_loop-Within (suc fuel) (c ∷ s) len b_index h =
      let m = 24 * length (c ∷ s) in
      let shorter = write (c ∷ []) (parse_loop color_on rgb_codes fuel s (len - 1) (b_index + 1)) in
      let one : (l : ℕ)
          → Within m (write (c ∷ []) (parse_loop color_on rgb_codes fuel s l (b_index + 1))) =
        λ l. Within-le (1 + 24 * length s) m _ (omega arith) (
          write-Within (24 * length s) 1 (c ∷ []) _ (omega arith)
            (parse_loop-Within fuel s l (b_index + 1) (omega arith))) in
      if_both (Within m) (leb len b_index) ([], refl, omega arith)
        (if_cases (Within m) (c == b'[')
          (λ opening.
            let at : c ≡ b'[' = (==_iff c b'[').0 opening in
            at_bracket-Within m s (index_after b']' (c ∷ s)) shorter _
              (subst (λ x. Split b']' (x ∷ s) (index_after b']' (c ∷ s))) at
                (index_after-Split b']' (c ∷ s)))
              (one (len - 1))
              (λ t rest two.
                after_color-Within m (24 * length rest) 48 (color_begin rgb_codes color_on t len) _
                  _ (omega arith) (color_begin-short rgb_codes color_on t len) (one len)
                  (parse_loop-Within fuel rest len b_index (omega arith))))
          (λ _. one (len - 1)))

length-strlcpy : (s : Bytes) (n : ℕ) → length (strlcpy s n) ≤ length s
unfolding strlcpy
length-strlcpy s zero = omega arith
length-strlcpy s (suc zero) = omega arith
length-strlcpy [] (suc (suc n)) = omega arith
length-strlcpy (c ∷ s) (suc (suc n)) = omega (arith, length-strlcpy s (suc n))

-- How `vt_color_parse` of a text with an opening bracket, or with none, ends.
abbrev pub Ends : Bool → Bytes → ℕ → Parsed → Type 0
Ends opening text len (returned none out) = (opening ≡ true) × (out ≡ text)
Ends true text len (returned (some n) out) =
    (n ≡ length out) × (length out < len) × (length out ≤ 24 * length text)
Ends false text len (returned (some n) out) = (n ≡ length text) × (out ≡ text)
Ends opening text len overrun = (opening ≡ true) × (len ≤ 24 * length text)
Ends opening text len running = ⊥

parsed-Ends :
    (text : Bytes) (len : ℕ) (o : Option Bytes)
    → Within (24 * length text) o
    → Ends true text len (parsed len o)
parsed-Ends text len o (out, e, b) = rw e (
    if_cases (Ends true text len) (ltb (length out) len) (λ fits. (refl, ground arith, b))
      (λ full. (refl, ground arith)))

-- `vt_color_parse` ends, for every text and buffer, every colour table, whether colour is on or off
-- and whether `calloc` succeeds. A text without an opening bracket stays, and its length is returned.
-- With one, -1 is returned and the text stays, or what is returned is the length of the text that is
-- left in the buffer, which is less than the buffer and at most 24 times the length of the text that
-- was there, or the buffer is full or overrun, but only a buffer of at most 24 times that length.
pub vt_color_parse-Ends :
    (allocated color_on : Bool) (rgb_codes : ℕ → ℕ) (text : Bytes) (len : ℕ)
    → Ends (strchr text b'[') text len (vt_color_parse allocated color_on rgb_codes text len)
unfolding vt_color_parse
vt_color_parse-Ends allocated color_on rgb_codes text len =
    let s = strlcpy text len in
    let within = parse_loop-Within color_on rgb_codes (length s) s len 0 (omega arith) in
    elim (Bool-cases (strchr text b'[')) [
      | inl has ↦ rw has (
          if_both (Ends true text len) allocated
            (parsed-Ends text len _ (
              Within-le (24 * length s) (24 * length text) _
                (omega (arith, length-strlcpy text len)) within))
            (refl, refl))
      | inr lacks ↦ rw lacks (refl, refl)
    ]
