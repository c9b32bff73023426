-- ===== src/Vt100/Matches.antt =====
-- Which entry of its table a name selects.
use fgen.Prelude.{
  ℕ, zero, suc, ◌≡◌, refl, sym, ap, ◌∙◌, Bool, true, ◌&&◌, some, List, [], ◌∷◌, ◌==◌, ==_iff,
  length, get_elem?, Bool-cases, inl, inr, arith,
}
use mathlib.Core.List.{map}
use mathlib.Core.Option.{some-injective}
use fgen.CString.{Bytes, tolower, strncasecmp_eq}
use fgen.Vt100.{find_named, match_rgb_color}
use fgen.Vt100.Names.{rgb_names}

strncasecmp_eq-tolower :
    (name s t : Bytes) (n : ℕ)
    → map tolower s ≡ map tolower t
    → strncasecmp_eq name s n ≡ strncasecmp_eq name t n
unfolding strncasecmp_eq
strncasecmp_eq-tolower name s t zero e = refl
strncasecmp_eq-tolower [] [] [] (suc n) e = refl
strncasecmp_eq-tolower [] [] (d ∷ t) (suc n) e = absurd cc
strncasecmp_eq-tolower [] (c ∷ s) [] (suc n) e = absurd cc
strncasecmp_eq-tolower [] (c ∷ s) (d ∷ t) (suc n) e = refl
strncasecmp_eq-tolower (x ∷ name) [] [] (suc n) e = refl
strncasecmp_eq-tolower (x ∷ name) [] (d ∷ t) (suc n) e = absurd cc
strncasecmp_eq-tolower (x ∷ name) (c ∷ s) [] (suc n) e = absurd cc
strncasecmp_eq-tolower (x ∷ name) (c ∷ s) (d ∷ t) (suc n) e =
    let head : tolower c ≡ tolower d = cc in
    let tail : map tolower s ≡ map tolower t = cc in
    rw (head, strncasecmp_eq-tolower name s t n tail) refl

length-tolower : (s t : Bytes) → map tolower s ≡ map tolower t → length s ≡ length t
length-tolower [] [] e = refl
length-tolower [] (d ∷ t) e = absurd cc
length-tolower (c ∷ s) [] e = absurd cc
length-tolower (c ∷ s) (d ∷ t) e =
    let tail : map tolower s ≡ map tolower t = cc in ap suc (length-tolower s t tail)

find_named-tolower :
    (rows : List (Bytes × ℕ)) (s t : Bytes) (otherwise : ℕ)
    → map tolower s ≡ map tolower t
    → find_named rows s otherwise ≡ find_named rows t otherwise
unfolding find_named
find_named-tolower [] s t otherwise e = refl
find_named-tolower ((name, value) ∷ rows) s t otherwise e =
    rw
      (
        length-tolower s t e,
        strncasecmp_eq-tolower name s t (length t) e,
        find_named-tolower rows s t otherwise e,
      )
      refl

tolower_self : (c : ℕ) → tolower (tolower c) ≡ tolower c
unfolding tolower
tolower_self c = ground arith

map-tolower_self : (s : Bytes) → map tolower (map tolower s) ≡ map tolower s
map-tolower_self [] = refl
map-tolower_self (c ∷ s) = rw (tolower_self, map-tolower_self s) refl

-- A test on every row.
unfoldable pub every : (Bytes × ℕ → Bool) → List (Bytes × ℕ) → Bool
every p [] = true
every p (row ∷ rows) = p row && every p rows

pub every-at :
    (p : Bytes × ℕ → Bool) (rows : List (Bytes × ℕ)) (i : ℕ) (row : Bytes × ℕ)
    → every p rows ≡ true
    → get_elem? rows i ≡ some row
    → p row ≡ true
unfolding every
every-at p [] i row h e = absurd cc
every-at p (r ∷ rows) zero row h e =
    let here : p r ≡ true = ground arith in ap p (sym (some-injective r row e)) ∙ here
every-at p (r ∷ rows) (suc i) row h e = every-at p rows i row (ground arith) e

pub find_named-every :
    (p : Bytes × ℕ → Bool) (q : ℕ → Bool) (rows : List (Bytes × ℕ)) (s : Bytes) (otherwise : ℕ)
    → ((row : Bytes × ℕ) → p row ≡ true → q row.1 ≡ true)
    → every p rows ≡ true
    → q otherwise ≡ true
    → q (find_named rows s otherwise) ≡ true
unfolding every find_named
find_named-every p q [] s otherwise to_value all other = other
find_named-every p q ((name, value) ∷ rows) s otherwise to_value all other =
    elim (Bool-cases (strncasecmp_eq name s (length s))) [
      | inl found ↦ rw found (to_value (name, value) (ground arith))
      | inr missed ↦ rw missed (find_named-every p q rows s otherwise to_value (ground arith) other)
    ]

-- A row whose own name finds it.
finds_itself : Bytes × ℕ → Bool
finds_itself (name, id) = find_named rgb_names name 0 == id

rgb_names_find_themselves : every finds_itself rgb_names ≡ true
unfolding every finds_itself find_named strncasecmp_eq tolower rgb_names
rgb_names_find_themselves = refl

-- Every name of the colour table, in any mix of upper and lower case, selects the colour of its own
-- row: no row is hidden by an earlier one whose name starts with the same letters.
pub match_rgb_color-rgb_names :
    (rgb_codes : ℕ → ℕ) (s name : Bytes) (id i : ℕ)
    → get_elem? rgb_names i ≡ some (name, id)
    → map tolower s ≡ name
    → match_rgb_color rgb_codes s ≡ rgb_codes id
unfolding match_rgb_color finds_itself
match_rgb_color-rgb_names rgb_codes s name id i row spelled =
    let found : find_named rgb_names name 0 ≡ id =
      (==_iff _ _).0 (every-at finds_itself rgb_names i (name, id) rgb_names_find_themselves row) in
    let same : map tolower s ≡ map tolower name =
      sym (map-tolower_self s) ∙ ap (map tolower) spelled in
    ap rgb_codes (find_named-tolower rgb_names s name 0 same ∙ found)
