-- ===== src/Strings/Search.antt =====
-- lib/include/fgen_strings.h: case, counting, and the place of a text in a list of options.
use fgen.Prelude.{
  ℕ, ◌+◌, ◌<◌, Bool, ◌&&◌, Option, none, some, List, [], ◌∷◌, ◌==◌, if◌then◌else◌, get_elem?, map,
  ◌≡◌, ◌≢◌,
}
use fgen.CString.{Bytes, tolower, toupper, strcmp_eq}
use fgen.Strings.{fgen_strtok}

-- `fgen_strtolower` and `fgen_strtoupper`; none is NULL.
unfoldable pub fgen_strtolower : Option Bytes → Option Bytes
fgen_strtolower none = none
fgen_strtolower (some s) = some (map tolower s)

unfoldable pub fgen_strtoupper : Option Bytes → Option Bytes
fgen_strtoupper none = none
fgen_strtoupper (some s) = some (map toupper s)

-- `fgen_strdupf` for the answer of strdup: what it frees is gone.
unfoldable pub fgen_strdupf : Bool → Option Bytes → Option Bytes → Option Bytes
fgen_strdupf dup_ok str none = none
fgen_strdupf dup_ok str (some newstr) = if dup_ok then some newstr else none

-- `fgen_strcnt`; none is NULL.
unfoldable pub count_in : Bytes → ℕ → ℕ
count_in [] c = 0
count_in (d ∷ s) c = count_in s c + (if d == c then 1 else 0)

unfoldable pub fgen_strcnt : Option Bytes → ℕ → ℕ
unfolding count_in
fgen_strcnt none c = 0
fgen_strcnt (some s) c = count_in s c

abbrev pub str_max_argvs : ℕ
str_max_argvs = 64

-- `if ((list[0] == '%') && (list[1] == '|')) list += 2;`
unfoldable pub skip_marker : Bytes → Bytes
skip_marker [] = []
skip_marker (c ∷ []) = c ∷ []
skip_marker (c ∷ d ∷ s) = if c == b'%' && d == b'|' then s else c ∷ d ∷ s

-- The loop over the entries, from the index i on.
unfoldable pub index_from : ℕ → List Bytes → Bytes → Option ℕ
unfolding strcmp_eq
index_from i [] str = none
index_from i (entry ∷ argv) str =
    let rest = index_from (i + 1) argv str in if strcmp_eq entry str then some i else rest

unfoldable pub index_in : Option (List Bytes) → Bytes → Option ℕ
unfolding index_from
index_in none str = none
index_in (some argv) str = index_from 0 argv str

-- `fgen_stropt` of arguments that are not NULL; none is -1.
unfoldable pub search_in : Bytes → Bytes → Bytes → Option ℕ
unfolding fgen_strtok index_in
search_in [] str delim = none
search_in (c ∷ s) str delim = index_in (fgen_strtok (c ∷ s) delim str_max_argvs) str

unfoldable pub fgen_stropt : Bytes → Bytes → Bytes → Option ℕ
unfolding skip_marker search_in
fgen_stropt list str delim = search_in (skip_marker list) str delim

-- Every entry before the place differs from the text.
abbrev pub IsFirst : List Bytes → ℕ → Bytes → Type 0
IsFirst argv i str = (get_elem? argv i ≡ some str) × ((j : ℕ) → j < i → get_elem? argv j ≢ some str)
