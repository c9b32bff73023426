-- ===== src/Decode/Hex.antt =====
-- `fgen_decode_string` of lib/core/decode.c: pairs of hexadecimal digits to bytes.
use fgen.Prelude.{
  ℕ, zero, suc, ◌+◌, ◌*◌, ◌<◌, ◌≡◌, refl, Bool, true, false, ◌&&◌, Option, none, some, [], ◌∷◌, leb,
  if◌then◌else◌, set, arith, All, ◌⊎◌, inl, inr,
}
use fgen.CString.{Bytes, isspace}
use fgen.Ether.{get_xdigit}

-- The count or -1 with the buffer, or a loop that goes on after all of its fuel.
pub data HexResult : Type 0 where
  returned : Option ℕ → Bytes → HexResult
  running : HexResult

-- The value of the two characters at the start, if both are digits; behind the last character
-- stands the NUL, which is no digit.
abbrev pair_of : Option ℕ → Option ℕ → Option ℕ
pair_of (some hi) (some lo) = some (hi * 16 + lo)
pair_of _ _ = none

unfoldable pub hex_pair : Bytes → Option ℕ
unfolding get_xdigit
hex_pair [] = none
hex_pair (c ∷ []) = none
hex_pair (c ∷ d ∷ s) = pair_of (get_xdigit c) (get_xdigit d)

abbrev pub store : Option ℕ → ℕ → Bytes → Bytes
store none cnt buffer = buffer
store (some v) cnt buffer = set buffer cnt v

abbrev pub advance : Option ℕ → ℕ → ℕ
advance none cnt = cnt
advance (some v) cnt = cnt + 1

abbrev pub is_pair : Option ℕ → Bool
is_pair none = false
is_pair (some v) = true

-- The loop of `fgen_decode_string` on the text that is left. `stale` says that errno was ERANGE
-- before the call, which `strtol` does not clear.
unfoldable pub string_loop : ℕ → Bool → ℕ → Bytes → ℕ → Bytes → HexResult
unfolding isspace hex_pair
string_loop fuel stale len [] cnt buffer = returned (some cnt) buffer
string_loop zero stale len (c ∷ s) cnt buffer = running
string_loop (suc fuel) stale len (c ∷ s) cnt buffer =
    let v = hex_pair (c ∷ s) in
    let blank = string_loop fuel stale len s cnt buffer in
    let again = string_loop fuel stale len (c ∷ s) (advance v cnt) (store v cnt buffer) in
    if leb len cnt
    then returned none buffer
    else if isspace c
    then blank
    else if is_pair v && stale
    then returned none buffer
    else again

-- `fgen_decode_string` of a text and a buffer that are not NULL.
unfoldable pub decode_string : ℕ → Bool → Bytes → Bytes → ℕ → HexResult
unfolding string_loop
decode_string fuel stale text buffer zero = returned none buffer
decode_string fuel stale text buffer (suc n) = string_loop fuel stale (suc n) text 0 buffer

abbrev pub Blank : Bytes → Type 0
Blank s = All (λ c. isspace c ≡ true) s

-- A count can only come from the branch that skips whitespace or from the last one.
counting_branch :
    (full space stop : Bool) (buffer b : Bytes) (n : ℕ) (blank again : HexResult)
    → (if full
        then returned none buffer
        else if space
        then blank
        else if stop
        then returned none buffer
        else again)
      ≡ returned (some n) b
    → ((space ≡ true) × (blank ≡ returned (some n) b)) ⊎ (again ≡ returned (some n) b)
counting_branch true space stop buffer b n blank again e = absurd cc
counting_branch false true stop buffer b n blank again e = inl (refl, e)
counting_branch false false true buffer b n blank again e = absurd cc
counting_branch false false false buffer b n blank again e = inr e

string_loop-Blank :
    (fuel : ℕ) (stale : Bool) (len : ℕ) (s : Bytes) (cnt : ℕ) (buffer b : Bytes) (n : ℕ)
    → string_loop fuel stale len s cnt buffer ≡ returned (some n) b
    → Blank s
unfolding string_loop
string_loop-Blank fuel stale len [] cnt buffer b n e = tt
string_loop-Blank zero stale len (c ∷ s) cnt buffer b n e = absurd cc
string_loop-Blank (suc fuel) stale len (c ∷ s) cnt buffer b n e =
    elim (counting_branch (leb len cnt) (isspace c) (is_pair (hex_pair (c ∷ s)) && stale) buffer b n
      (string_loop fuel stale len s cnt buffer)
      (string_loop fuel stale len (c ∷ s) (advance (hex_pair (c ∷ s)) cnt)
        (store (hex_pair (c ∷ s)) cnt buffer))
      e) [
        | inl (space, h) ↦ (space, string_loop-Blank fuel stale len s cnt buffer b n h)
        | inr h ↦
            string_loop-Blank fuel stale len (c ∷ s) (advance (hex_pair (c ∷ s)) cnt)
              (store (hex_pair (c ∷ s)) cnt buffer) b n h
      ]

-- `fgen_decode_string` returns a count, instead of -1 or no return at all, only for a text of
-- nothing but whitespace.
pub decode_string-Blank :
    (fuel : ℕ) (stale : Bool) (text buffer b : Bytes) (len n : ℕ)
    → decode_string fuel stale text buffer len ≡ returned (some n) b
    → Blank text
unfolding decode_string
decode_string-Blank fuel stale text buffer b zero n e = absurd cc
decode_string-Blank fuel stale text buffer b (suc m) n e =
    string_loop-Blank fuel stale (suc m) text 0 buffer b n e

string_loop-running :
    (fuel : ℕ) (stale : Bool) (len c : ℕ) (s buffer : Bytes)
    → 0 < len
    → isspace c ≡ false
    → hex_pair (c ∷ s) ≡ none
    → string_loop fuel stale len (c ∷ s) 0 buffer ≡ running
unfolding string_loop
string_loop-running zero stale len c s buffer some_room solid other = refl
string_loop-running (suc fuel) stale len c s buffer some_room solid other =
    let below : leb len 0 ≡ false = ground arith in
    rw (below, string_loop)
      (rw solid (rw other (string_loop-running fuel stale len c s buffer some_room solid other)))

-- On a text that starts with neither whitespace nor a pair of hexadecimal digits, and a buffer with
-- room, `fgen_decode_string` never returns: it is still running after every number of rounds.
pub decode_string-running :
    (fuel : ℕ) (stale : Bool) (c : ℕ) (s buffer : Bytes) (len : ℕ)
    → 0 < len
    → isspace c ≡ false
    → hex_pair (c ∷ s) ≡ none
    → decode_string fuel stale (c ∷ s) buffer len ≡ running
unfolding decode_string
decode_string-running fuel stale c s buffer zero some_room solid other = absurd (omega arith)
decode_string-running fuel stale c s buffer (suc m) some_room solid other =
    string_loop-running fuel stale (suc m) c s buffer some_room solid other
