-- ===== src/Strings/Quoted/Entries.antt =====
-- lib/include/fgen_strings.h: how many entries `fgen_strqtok` makes.
use fgen.Prelude.{
  ℕ, zero, suc, ◌≤◌, ◌<◌, false, Option, some, List, [], ◌∷◌, ◌++◌, ◌==◌, if_both, length, ◌≡◌, ◌≢◌,
  refl, ap, subst, arith, All, All-parts,
}
use fgen.CString.{Bytes, strchr}
use fgen.Strings.{strtrim}
use fgen.Strings.Trim.{strtrim-parts}
use fgen.Strings.Quoted.{
  QuoteState, init, word, string_quote, string_tick, string_bracket, Scan, stays, ends, quote_step,
  push_word, last_word, resume, strqtok_loop, Quoted, entries, or_whole, fgen_strqtok,
}

-- No backslash stands in the text.
abbrev pub IsPlain : Bytes → Type 0
IsPlain s = All (λ c. (c == b'\\') ≡ false) s

-- At most so many words, and one at least unless the state is INIT.
abbrev Filled : ℕ → QuoteState → Option (List Bytes) → Type 0
Filled room state r =
    (ws : List Bytes) × (r ≡ some ws)
    × (length ws ≤ room)
    × (state ≢ init → 0 < room → 1 ≤ length ws)

push_word-Filled :
    (room : ℕ) (w : Bytes) (state : QuoteState) (r : Option (List Bytes))
    → Filled room init r
    → Filled (suc room) state (push_word w r)
push_word-Filled room w state r (ws, e, le, pos) =
    (w ∷ ws, ap (push_word w) e, omega arith, λ _ _. omega arith)

-- A step does not leave the other states for INIT but by the end of a word.
abbrev IsOpen : QuoteState → Scan → Type 0
IsOpen state (stays next acc) = state ≢ init → next ≢ init
IsOpen state ends = Unit

quote_step-IsOpen :
    (delim : Bytes) (state : QuoteState) (acc : Bytes) (c : ℕ)
    → IsOpen state (quote_step delim state acc c)
unfolding quote_step
quote_step-IsOpen delim init acc c =
    if_both (IsOpen init) (c == b'"') (λ n. absurd (n refl))
      (if_both (IsOpen init) (c == b'\'') (λ n. absurd (n refl))
        (if_both (IsOpen init) (c == b'{') (λ n. absurd (n refl))
          (if_both (IsOpen init) (strchr delim c) (λ n. absurd (n refl)) (λ n. absurd (n refl)))))
quote_step-IsOpen delim word acc c = if_both (IsOpen word) (strchr delim c) tt (λ n. n)
quote_step-IsOpen delim string_quote acc c = if_both (IsOpen string_quote) (c == b'"') tt (λ n. n)
quote_step-IsOpen delim string_tick acc c = if_both (IsOpen string_tick) (c == b'\'') tt (λ n. n)
quote_step-IsOpen delim string_bracket acc c =
    if_both (IsOpen string_bracket) (c == b'}') tt (λ n. n)

resume-Filled :
    (room : ℕ) (state : QuoteState) (acc : Bytes) (scan : Scan)
    (go : QuoteState → Bytes → Option (List Bytes)) (stop : Option (List Bytes))
    → IsOpen state scan
    → ((next : QuoteState) (acc' : Bytes) → Filled (suc room) next (go next acc'))
    → Filled room init stop
    → Filled (suc room) state (resume scan go (λ _. push_word acc stop))
resume-Filled room state acc (stays next acc') go stop opened h rest =
    let (ws, e, le, pos) = h next acc' in (ws, e, le, λ n. pos (opened n))
resume-Filled room state acc ends go stop opened h rest = push_word-Filled room acc state stop rest

last_word-Filled :
    (room : ℕ) (state : QuoteState) (acc : Bytes)
    → Filled (suc room) state (some (last_word state acc))
last_word-Filled room init acc = ([], refl, omega arith, λ n _. absurd (n refl))
last_word-Filled room word acc = (acc ∷ [], refl, omega arith, λ n _. omega arith)
last_word-Filled room string_quote acc = (acc ∷ [], refl, omega arith, λ n _. omega arith)
last_word-Filled room string_tick acc = (acc ∷ [], refl, omega arith, λ n _. omega arith)
last_word-Filled room string_bracket acc = (acc ∷ [], refl, omega arith, λ n _. omega arith)

strqtok_loop-Filled :
    (delim : Bytes) (room : ℕ) (state : QuoteState) (acc s : Bytes)
    → IsPlain s
    → Filled room state (strqtok_loop delim room state acc s)
unfolding strqtok_loop
strqtok_loop-Filled delim zero state acc s plain =
    ([], refl, omega arith, λ _ pos. absurd (omega arith))
strqtok_loop-Filled delim (suc room) state acc [] plain = last_word-Filled room state acc
strqtok_loop-Filled delim (suc room) state acc (c ∷ []) (plain, rest) =
    rw (plain, strqtok_loop)
      (resume-Filled room state acc (quote_step delim state acc c)
        (λ next acc'. strqtok_loop delim (suc room) next acc' [])
        (strqtok_loop delim room init [] []) (quote_step-IsOpen delim state acc c)
        (λ next acc'. strqtok_loop-Filled delim (suc room) next acc' [] tt)
        (strqtok_loop-Filled delim room init [] [] tt))
strqtok_loop-Filled delim (suc room) state acc (c ∷ d ∷ s) (plain, rest) =
    rw (plain, strqtok_loop)
      (resume-Filled room state acc (quote_step delim state acc c)
        (λ next acc'. strqtok_loop delim (suc room) next acc' (d ∷ s))
        (strqtok_loop delim room init [] (d ∷ s)) (quote_step-IsOpen delim state acc c)
        (λ next acc'. strqtok_loop-Filled delim (suc room) next acc' (d ∷ s) rest)
        (strqtok_loop-Filled delim room init [] (d ∷ s) rest))

abbrev IsEntries : ℕ → Quoted → Type 0
IsEntries room r = (ws : List Bytes) × (r ≡ entries ws) × (1 ≤ length ws) × (length ws ≤ room)

or_whole-IsEntries :
    (str : Bytes) (room : ℕ) (state : QuoteState) (r : Option (List Bytes))
    → state ≢ init
    → 0 < room
    → Filled room state r
    → IsEntries room (or_whole str r)
or_whole-IsEntries str room state r other pos ([], e, le, some_word) =
    absurd (omega (arith, some_word other pos))
or_whole-IsEntries [] room state r other pos (w ∷ ws, e, le, some_word) =
    (w ∷ ws, ap (or_whole []) e, some_word other pos, le)
or_whole-IsEntries (c ∷ s) room state r other pos (w ∷ ws, e, le, some_word) =
    (w ∷ ws, ap (or_whole (c ∷ s)) e, some_word other pos, le)

word_apart : word ≢ init
word_apart e = ground arith

-- Of a text without a backslash, the empty one included, `fgen_strqtok` with room for an entry
-- makes one entry at least, and never more than there is room for.
pub fgen_strqtok-entries :
    (str delim : Bytes) (maxtokens : ℕ)
    → 0 < maxtokens
    → IsPlain str
    → (ws : List Bytes) × (fgen_strqtok str delim maxtokens ≡ entries ws)
      × (1 ≤ length ws)
      × (length ws ≤ maxtokens)
unfolding fgen_strqtok
fgen_strqtok-entries str delim zero pos plain = absurd (omega arith)
fgen_strqtok-entries str delim (suc room) pos plain =
    let (l, r, e, _, _, _, _) = strtrim-parts str in
    let parts =
      All-parts (λ c. (c == b'\\') ≡ false) l (strtrim str ++ r) (subst IsPlain e plain) in
    let inner = (All-parts (λ c. (c == b'\\') ≡ false) (strtrim str) r parts.1).0 in
    or_whole-IsEntries str (suc room) word (strqtok_loop delim (suc room) word [] (strtrim str))
      word_apart pos (strqtok_loop-Filled delim (suc room) word [] (strtrim str) inner)
