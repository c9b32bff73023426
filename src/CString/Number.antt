-- ===== src/CString/Number.antt =====
-- `strtol(s, NULL, 0)`, the decimal print of `snprintf`, and `inet_pton(AF_INET, …)` of the C
-- library.
use mathlib.Core.List.{reverse}
use fgen.Prelude.{
  ℕ, zero, suc, ◌+◌, ◌-◌, ◌*◌, ◌/◌, ◌%◌, ◌^◌, Bool, true, false, ◌&&◌, ◌||◌, Option, none, some,
  List, [], ◌∷◌, ◌++◌, ltb, leb, ◌==◌, if◌then◌else◌, length,
}
use fgen.Prelude.Int.{ℤ, pos, sub_ℕ}
use fgen.CString.{Bytes, isspace}

-- The value of a digit in the bases up to sixteen.
unfoldable pub digit_value : ℕ → Option ℕ
digit_value c =
    if leb b'0' c && leb c b'9'
    then some (c - b'0')
    else if leb b'a' c && leb c b'f'
    then some (c - b'a' + 10)
    else if leb b'A' c && leb c b'F'
    then some (c - b'A' + 10)
    else none

abbrev in_base : ℕ → Option ℕ → Option ℕ
in_base b none = none
in_base b (some d) = if ltb d b then some d else none

unfoldable pub digits_value : ℕ → Bytes → ℕ → ℕ
unfolding digit_value
digits_value base [] acc = acc
digits_value base (c ∷ s) acc = elim (in_base base (digit_value c)) [
  | none ↦ acc
  | some d ↦ digits_value base s (acc * base + d)
]

abbrev is_some_digit : Option ℕ → Bool
is_some_digit none = false
is_some_digit (some d) = true

-- Base 0: "0x" before a hexadecimal digit selects 16, another leading zero 8, and the rest is
-- decimal.
abbrev after_zero : Bytes → ℕ
after_zero (x ∷ h ∷ s) =
    if (x == b'x' || x == b'X') && is_some_digit (digit_value h)
    then digits_value 16 (h ∷ s) 0
    else digits_value 8 (x ∷ h ∷ s) 0
after_zero s = digits_value 8 s 0

abbrev magnitude : Bytes → ℕ
magnitude [] = 0
magnitude (c ∷ s) = if c == b'0' then after_zero s else digits_value 10 (c ∷ s) 0

unfoldable pub skip_space : Bytes → Bytes
unfolding isspace
skip_space [] = []
skip_space (c ∷ s) = let r = skip_space s in if isspace c then r else c ∷ s

abbrev signed : Bool → ℕ → Option ℤ
signed true m = if leb m (2 ^ 63) then some (sub_ℕ 0 m) else none
signed false m = if ltb m (2 ^ 63) then some (pos m) else none

abbrev sign_and_digits : Bytes → Option ℤ
sign_and_digits [] = some (pos 0)
sign_and_digits (c ∷ s) =
    if c == b'-'
    then signed true (magnitude s)
    else if c == b'+'
    then signed false (magnitude s)
    else signed false (magnitude (c ∷ s))

-- `errno = 0; strtol(s, NULL, 0)` on a 64-bit long; `none` means that errno was set (ERANGE).
unfoldable pub strtol : Bytes → Option ℤ
unfolding skip_space digits_value
strtol s = sign_and_digits (skip_space s)

-- `inet_pton(AF_INET, s, dst)`: four decimal numbers below 256 with no leading zero, with dots
-- between them; `none` when it returns 0 and writes nothing. The state is the octets that a dot
-- has ended and the one being read.
abbrev next_octet : Option ℕ → ℕ → Option ℕ
next_octet none d = some d
next_octet (some v) d =
    if v == 0 then none else if ltb 255 (v * 10 + d) then none else some (v * 10 + d)

abbrev last_octet : List ℕ → Option ℕ → Option (List ℕ)
last_octet done none = none
last_octet done (some v) = if length done == 3 then some (done ++ v ∷ []) else none

inet_octets : Bytes → List ℕ → Option ℕ → Option (List ℕ)
inet_octets [] done cur = last_octet done cur
inet_octets (c ∷ s) done cur =
    if leb b'0' c && leb c b'9'
    then elim (next_octet cur (c - b'0')) [ none ↦ none | some v ↦ inet_octets s done (some v) ]
    else elim cur [
      | none ↦ none
      | some v ↦
          if c == b'.' && ltb (length done) 3 then inet_octets s (done ++ v ∷ []) none else none
    ]

unfoldable pub inet_pton : Bytes → Option (List ℕ)
unfolding inet_octets
inet_pton s = inet_octets s [] none

-- `%d` of a number that is not negative, with its digits in reverse; ten digits are enough for
-- every int.
digits_down : ℕ → ℕ → Bytes
digits_down zero n = []
digits_down (suc f) n =
    let r = digits_down f (n / 10) in if ltb n 10 then (b'0' + n) ∷ [] else (b'0' + n % 10) ∷ r

unfoldable pub print_decimal : ℕ → Bytes
unfolding digits_down
print_decimal n = reverse (digits_down 10 n)
