-- ===== src/CString/Unsigned.antt =====
-- `strtoull` of the C library on 64 bits, in the bases 16 and 0.
use fgen.Prelude.{
  ℕ, zero, ◌+◌, ◌-◌, ◌*◌, ◌%◌, ◌^◌, Bool, true, false, ◌&&◌, ◌||◌, Option, none, some, [], ◌∷◌, ltb,
  ◌==◌, if◌then◌else◌,
}
use fgen.CString.{Bytes}
use fgen.CString.Number.{digit_value, skip_space}

abbrev digit_in : ℕ → Option ℕ → Option ℕ
digit_in base none = none
digit_in base (some d) = if ltb d base then some d else none

-- The value of the digits at the front, and the rest.
unfoldable pub take_digits : ℕ → Bytes → ℕ → ℕ × Bytes
unfolding digit_value
take_digits base [] acc = (acc, [])
take_digits base (c ∷ s) acc = elim (digit_in base (digit_value c)) [
  | none ↦ (acc, c ∷ s)
  | some d ↦ take_digits base s (acc * base + d)
]

abbrev is_digit : ℕ → Bytes → Bool
is_digit base [] = false
is_digit base (c ∷ s) = elim (digit_in base (digit_value c)) [ none ↦ false | some d ↦ true ]

-- "0x" before a hexadecimal digit.
abbrev is_hex : Bytes → Bool
is_hex (a ∷ x ∷ s) = a == b'0' && ((x == b'x' || x == b'X') && is_digit 16 s)
is_hex _ = false

abbrev behind_prefix : Bytes → Bytes
behind_prefix (a ∷ x ∷ s) = s
behind_prefix s = s

abbrev starts_zero : Bytes → Bool
starts_zero [] = false
starts_zero (c ∷ s) = c == b'0'

-- The number behind the sign; none without a digit.
unfoldable pub magnitude_of : ℕ → Bytes → Option (ℕ × Bytes)
unfolding take_digits digit_value
magnitude_of zero s =
    if is_hex s
    then some (take_digits 16 (behind_prefix s) 0)
    else if starts_zero s
    then some (take_digits 8 s 0)
    else if is_digit 10 s
    then some (take_digits 10 s 0)
    else none
magnitude_of base s =
    if is_hex s
    then some (take_digits base (behind_prefix s) 0)
    else if is_digit base s
    then some (take_digits base s 0)
    else none

-- A text without a number is left as it is; a minus negates modulo 2 ^ 64.
abbrev ranged : Bytes → Bool → Option (ℕ × Bytes) → Option (ℕ × Bytes)
ranged s minus none = some (0, s)
ranged s minus (some (v, rest)) =
    if ltb v (2 ^ 64) then some (if minus then (2 ^ 64 - v) % 2 ^ 64 else v, rest) else none

unfoldable pub behind_space : ℕ → Bytes → Bytes → Option (ℕ × Bytes)
unfolding magnitude_of
behind_space base s [] = some (0, s)
behind_space base s (c ∷ t) =
    if c == b'-'
    then ranged s true (magnitude_of base t)
    else if c == b'+'
    then ranged s false (magnitude_of base t)
    else ranged s false (magnitude_of base (c ∷ t))

-- `errno = 0; strtoull(s, &end, base)` for base 0 or 16: the value and the text at `end`; none
-- means that errno was set.
unfoldable pub strtoull : ℕ → Bytes → Option (ℕ × Bytes)
unfolding skip_space behind_space
strtoull base s = behind_space base s (skip_space s)

-- `strtoul` on 64 bits, which stops at the greatest number: the value and the text at `end`.
abbrev saturated : Bytes → Bool → Option (ℕ × Bytes) → ℕ × Bytes
saturated s minus none = (0, s)
saturated s minus (some (v, rest)) =
    (if ltb v (2 ^ 64) then if minus then (2 ^ 64 - v) % 2 ^ 64 else v else 2 ^ 64 - 1, rest)

unfoldable pub signed_number : ℕ → Bytes → Bytes → ℕ × Bytes
unfolding magnitude_of
signed_number base s [] = (0, s)
signed_number base s (c ∷ t) =
    if c == b'-'
    then saturated s true (magnitude_of base t)
    else if c == b'+'
    then saturated s false (magnitude_of base t)
    else saturated s false (magnitude_of base (c ∷ t))

unfoldable pub strtoul : ℕ → Bytes → ℕ × Bytes
unfolding skip_space signed_number
strtoul base s = signed_number base s (skip_space s)
