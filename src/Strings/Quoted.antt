-- ===== src/Strings/Quoted.antt =====
-- lib/include/fgen_strings.h: `strtrim_quotes`, and `fgen_strqtok`, which keeps quoted text together.
pub mod Entries
use fgen.Prelude.{
  ℕ, zero, suc, ◌+◌, ◌≤◌, ◌<◌, Bool, true, false, Option, none, some, List, [], ◌∷◌, ◌++◌, ◌==◌,
  if◌then◌else◌, if_both, ◌≢◌, length, ◌≡◌, refl, sym, ap, ◌∙◌, subst, arith, All, All-parts,
}
use fgen.CString.{Bytes, isspace, strchr}
use fgen.Strings.Trim.{strtrim-parts}
use fgen.Strings.{strtrim, strtrimset}

-- `strtrim_quotes`; the result none is the NULL of `strtrimset`.
unfoldable pub strtrim_quotes : Bytes → Option Bytes
unfolding strtrimset
strtrim_quotes [] = some []
strtrim_quotes (c ∷ []) = some (c ∷ [])
strtrim_quotes (c ∷ d ∷ s) =
    if c == b'"'
    then strtrimset (c ∷ d ∷ s) b'"' b'"'
    else if c == b'\''
    then strtrimset (c ∷ d ∷ s) b'\'' b'\''
    else some (c ∷ d ∷ s)

-- The states of the loop.
pub data QuoteState : Type 0 where
  init : QuoteState
  word : QuoteState
  string_quote : QuoteState
  string_tick : QuoteState
  string_bracket : QuoteState

-- What a byte does: the next state with the text from `start_of_word` on, or the end of a word.
pub data Scan : Type 0 where
  stays : QuoteState → Bytes → Scan
  ends : Scan

abbrev pub until_close : ℕ → QuoteState → Bytes → ℕ → Scan
until_close close state acc c = if c == close then ends else stays state (acc ++ (c ∷ []))

-- The switch over the state; `acc` is the text from `start_of_word` to the byte c.
unfoldable pub quote_step : Bytes → QuoteState → Bytes → ℕ → Scan
unfolding strchr
quote_step delim init acc c =
    if c == b'"'
    then stays string_quote []
    else if c == b'\''
    then stays string_tick []
    else if c == b'{'
    then stays string_bracket []
    else if strchr delim c
    then stays init (acc ++ (c ∷ []))
    else stays word (c ∷ [])
quote_step delim string_quote acc c = until_close b'"' string_quote acc c
quote_step delim string_tick acc c = until_close b'\'' string_tick acc c
quote_step delim string_bracket acc c = until_close b'}' string_bracket acc c
quote_step delim word acc c = if strchr delim c then ends else stays word (acc ++ (c ∷ []))

abbrev pub push_word : Bytes → Option (List Bytes) → Option (List Bytes)
push_word w none = none
push_word w (some ws) = some (w ∷ ws)

-- The word that is open at the end of the text.
abbrev pub last_word : QuoteState → Bytes → List Bytes
last_word init acc = []
last_word _ acc = acc ∷ []

abbrev pub resume :
    Scan
    → (QuoteState → Bytes → Option (List Bytes))
    → (Unit {0} → Option (List Bytes))
    → Option (List Bytes)
resume (stays next acc) go stop = go next acc
resume ends go stop = stop tt

-- The loop over the text, with the entries that are left; none reads behind the end of the text,
-- after a backslash in front of it.
unfoldable pub strqtok_loop : Bytes → ℕ → QuoteState → Bytes → Bytes → Option (List Bytes)
unfolding quote_step
strqtok_loop delim zero state acc s = some []
strqtok_loop delim (suc room) state acc [] = some (last_word state acc)
strqtok_loop delim (suc room) state acc (c ∷ []) = elim (c == b'\\') [
  | true ↦ none
  | false ↦
      resume (quote_step delim state acc c)
        (λ next acc'. strqtok_loop delim (suc room) next acc' [])
        (λ _. push_word acc (strqtok_loop delim room init [] []))
]
strqtok_loop delim (suc room) state acc (c ∷ d ∷ s) = elim (c == b'\\') [
  | true ↦ strqtok_loop delim (suc room) state (d ∷ []) s
  | false ↦
      resume (quote_step delim state acc c)
        (λ next acc'. strqtok_loop delim (suc room) next acc' (d ∷ s))
        (λ _. push_word acc (strqtok_loop delim room init [] (d ∷ s)))
]

-- What `fgen_strqtok` returns: the entries, -1, or a read behind the end of the text.
pub data Quoted : Type 0 where
  entries : List Bytes → Quoted
  rejected : Quoted
  overrun : Quoted

abbrev pub or_whole : Bytes → Option (List Bytes) → Quoted
or_whole str none = overrun
or_whole [] (some []) = entries []
or_whole (c ∷ s) (some []) = entries ((c ∷ s) ∷ [])
or_whole str (some (w ∷ ws)) = entries (w ∷ ws)

-- `fgen_strqtok` of arguments that are not NULL. Behind the entries it stores NULL.
unfoldable pub fgen_strqtok : Bytes → Bytes → ℕ → Quoted
unfolding strqtok_loop strtrim
fgen_strqtok str delim zero = rejected
fgen_strqtok str delim (suc room) =
    or_whole str (strqtok_loop delim (suc room) word [] (strtrim str))
