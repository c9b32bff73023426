-- ===== src/CString.antt =====
-- C strings, and what the sources use of the C library on them. A string is the list of its
-- bytes before the terminating NUL; a byte is a number below 256. The character classes are those
-- of the C locale.
pub mod Number
pub mod Unsigned
use Prim.Native.Char.{code}
use Prim.Native.String.{String}
use fgen.Prelude.{
  ℕ, zero, suc, ◌+◌, ◌-◌, Bool, true, false, ◌&&◌, ◌||◌, Option, none, some, List, [], ◌∷◌, ◌++◌,
  ltb, leb, ◌==◌, if◌then◌else◌,
}

abbrev pub Bytes : Type 0
Bytes = List ℕ

-- The bytes of an ASCII literal.
abbrev pub codes : String → Bytes
codes String.[] = []
codes (String.◌∷◌ c s) = code c ∷ codes s

unfoldable pub isspace : ℕ → Bool
isspace c = c == b' ' || leb 9 c && leb c 13

unfoldable pub tolower : ℕ → ℕ
tolower c = if leb b'A' c && leb c b'Z' then c + 32 else c

unfoldable pub toupper : ℕ → ℕ
toupper c = if leb b'a' c && leb c b'z' then c - 32 else c

-- Whether `strcmp(a, b)` is 0.
unfoldable pub strcmp_eq : Bytes → Bytes → Bool
strcmp_eq [] [] = true
strcmp_eq [] (y ∷ b) = false
strcmp_eq (x ∷ a) [] = false
strcmp_eq (x ∷ a) (y ∷ b) = x == y && strcmp_eq a b

-- `strchr(set, c)` finds c, for a byte c of a string (never NUL).
unfoldable pub strchr : Bytes → ℕ → Bool
strchr [] c = false
strchr (d ∷ ds) c = c == d || strchr ds c

-- Whether `strncmp(a, b, n)` is 0.
unfoldable pub strncmp_eq : Bytes → Bytes → ℕ → Bool
strncmp_eq a b zero = true
strncmp_eq [] [] (suc n) = true
strncmp_eq [] (y ∷ b) (suc n) = false
strncmp_eq (x ∷ a) [] (suc n) = false
strncmp_eq (x ∷ a) (y ∷ b) (suc n) = x == y && strncmp_eq a b n

-- Whether `strncasecmp(a, b, n)` is 0.
unfoldable pub strncasecmp_eq : Bytes → Bytes → ℕ → Bool
unfolding tolower
strncasecmp_eq a b zero = true
strncasecmp_eq [] [] (suc n) = true
strncasecmp_eq [] (y ∷ b) (suc n) = false
strncasecmp_eq (x ∷ a) [] (suc n) = false
strncasecmp_eq (x ∷ a) (y ∷ b) (suc n) = tolower x == tolower y && strncasecmp_eq a b n

-- Whether `strcasecmp(a, b)` is 0.
unfoldable pub strcasecmp_eq : Bytes → Bytes → Bool
unfolding tolower
strcasecmp_eq [] [] = true
strcasecmp_eq [] (y ∷ b) = false
strcasecmp_eq (x ∷ a) [] = false
strcasecmp_eq (x ∷ a) (y ∷ b) = tolower x == tolower y && strcasecmp_eq a b

abbrev pub cons_head : ℕ → Bytes × Bytes → Bytes × Bytes
cons_head c (s, t) = (c ∷ s, t)

-- The bytes before the first one that the set holds, and the rest from that byte on.
unfoldable pub span_to : Bytes → Bytes → Bytes × Bytes
unfolding strchr
span_to set [] = ([], [])
span_to set (c ∷ s) = let r = span_to set s in if strchr set c then ([], c ∷ s) else cons_head c r

unfoldable pub skip_set : Bytes → Bytes → Bytes
unfolding strchr
skip_set set [] = []
skip_set set (c ∷ s) = let r = skip_set set s in if strchr set c then r else c ∷ s

abbrev pub drop_head : Bytes → Bytes
drop_head [] = []
drop_head (c ∷ s) = s

abbrev pub token_at : Bytes → Bytes → Option (Bytes × Bytes)
token_at set [] = none
token_at set (c ∷ s) = let (tok, rest) = span_to set (c ∷ s) in some (tok, drop_head rest)

-- One call of `strtok_r`: the next token and what is left to search, or no token.
unfoldable pub strtok_r : Bytes → Bytes → Option (Bytes × Bytes)
unfolding skip_set span_to
strtok_r set s = token_at set (skip_set set s)

abbrev before_colon : ℕ → Option (Bytes × Bytes) → Option (Bytes × Bytes)
before_colon c none = none
before_colon c (some (s, t)) = some (c ∷ s, t)

-- `strstr(s, ":=")`: the text before the first ":=", and the text behind it.
unfoldable pub strstr_assign : Bytes → Option (Bytes × Bytes)
strstr_assign [] = none
strstr_assign (c ∷ []) = none
strstr_assign (c ∷ d ∷ s) =
    let r = strstr_assign (d ∷ s) in
    if c == b':' && d == b'=' then some ([], s) else before_colon c r

-- `strlcpy(dst, src, n)` with n > 0 keeps the first n - 1 bytes.
unfoldable pub strlcpy : Bytes → ℕ → Bytes
strlcpy s zero = []
strlcpy s (suc zero) = []
strlcpy [] (suc (suc n)) = []
strlcpy (c ∷ s) (suc (suc n)) = c ∷ strlcpy s (suc n)

abbrev pub before_index : ℕ → Option (Bytes × Bytes) → Option (Bytes × Bytes)
before_index c none = none
before_index c (some (s, t)) = some (c ∷ s, t)

-- `index(s, d)`: the text up to the first d, with it, and the text behind it.
unfoldable pub index_after : ℕ → Bytes → Option (Bytes × Bytes)
index_after d [] = none
index_after d (c ∷ s) =
    let r = index_after d s in if c == d then some (c ∷ [], s) else before_index c r
