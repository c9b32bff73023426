-- ===== src/Ether.antt =====
-- lib/include/net/fgen_ether.h: Ethernet addresses as text. An ether_addr is the list of its six
-- octets; a conversion that fails has written some of them.
pub mod RoundTrip
pub mod Address
pub mod Same
use fgen.Prelude.{
  ℕ, zero, suc, ◌+◌, ◌-◌, ◌*◌, ◌/◌, ◌%◌, ◌^◌, Bool, true, false, ◌&&◌, Option, none, some, List, [],
  ◌∷◌, ◌++◌, bit_or, ltb, leb, ◌==◌, if◌then◌else◌, set, u8, u16, ◌<<<◌, ◌>>>◌,
}
use fgen.CString.{Bytes}

abbrev pub eth_alen : ℕ
eth_alen = 6

-- `__get_xdigit`; none is -1.
unfoldable pub get_xdigit : ℕ → Option ℕ
get_xdigit ch =
    if leb b'0' ch && leb ch b'9'
    then some (ch - b'0')
    else if leb b'a' ch && leb ch b'f'
    then some (ch - b'a' + 10)
    else if leb b'A' ch && leb ch b'F'
    then some (ch - b'A' + 10)
    else none

-- `__get_xdigit(*s++)` with the rest of the text; at the end it reads the NUL, which is no digit.
unfoldable pub next_xdigit : Bytes → Option (ℕ × Bytes)
unfolding get_xdigit
next_xdigit [] = none
next_xdigit (c ∷ s) = elim (get_xdigit c) [ none ↦ none | some x ↦ some (x, s) ]

-- The separator `*s++ == ':'` between the groups, when groups are left.
unfoldable pub next_colon : ℕ → Bytes → Option Bytes
next_colon zero s = some s
next_colon (suc left) [] = none
next_colon (suc left) (c ∷ s) = if c == b':' then some s else none

abbrev at_end : Bytes → Bool
at_end [] = true
at_end (c ∷ s) = false

-- The loop of `__get_ether_addr6` at octet i.
unfoldable pub addr6_loop : ℕ → ℕ → Bytes → List ℕ → Bool × List ℕ
unfolding next_xdigit next_colon
addr6_loop zero i s ea = (at_end s, ea)
addr6_loop (suc left) i s ea = elim (next_xdigit s) [
  | none ↦ (false, ea)
  | some (hi, s') ↦
      let ea' = set ea i (u8 (hi <<< 4)) in
      elim (next_xdigit s') [
        | none ↦ (false, ea')
        | some (lo, s'') ↦
            let ea'' = set ea' i (bit_or (u8 (hi <<< 4)) lo) in
            elim (next_colon left s'') [
              | none ↦ (false, ea'')
              | some rest ↦ addr6_loop left (i + 1) rest ea''
            ]
      ]
]

-- The inner loop of `__get_ether_addr3`: n digits more of the word w.
unfoldable pub hex_word : ℕ → ℕ → Bytes → Option (ℕ × Bytes)
unfolding next_xdigit
hex_word zero w s = some (w, s)
hex_word (suc n) w s = elim (next_xdigit s) [
  | none ↦ none
  | some (x, s') ↦ hex_word n (u16 (bit_or (w <<< 4) x)) s'
]

-- The loop of `__get_ether_addr3` at octet i, with `left` groups to read.
unfoldable pub addr3_loop : ℕ → ℕ → Bytes → List ℕ → Bool × List ℕ
unfolding hex_word next_colon
addr3_loop zero i s ea = (at_end s, ea)
addr3_loop (suc left) i s ea = elim (hex_word 4 0 s) [
  | none ↦ (false, ea)
  | some (w, s') ↦
      let ea' = set (set ea i (w >>> 8)) (i + 1) (w % 256) in
      elim (next_colon left s') [
        | none ↦ (false, ea')
        | some rest ↦ addr3_loop left (i + 2) rest ea'
      ]
]

abbrev pub or_addr3 : Bytes → Bool × List ℕ → Bool × List ℕ
or_addr3 s (true, ea) = (true, ea)
or_addr3 s (false, ea) = addr3_loop 3 0 s ea

-- `ether_unformat_addr`: true for 0, false for -1, and the octets that were written.
unfoldable pub ether_unformat_addr : Bytes → List ℕ → Bool × List ℕ
unfolding addr6_loop addr3_loop
ether_unformat_addr s ea = or_addr3 s (addr6_loop eth_alen 0 s ea)

-- "%02X" of one octet.
unfoldable pub hex_digit : ℕ → ℕ
hex_digit d = if ltb d 10 then b'0' + d else b'A' + d - 10

unfoldable pub hex_octet : ℕ → Bytes
unfolding hex_digit
hex_octet b = hex_digit (b / 16) ∷ hex_digit (b % 16) ∷ []

-- `ether_format_addr` into a buffer with room for the text.
unfoldable pub ether_format_addr : List ℕ → Bytes
unfolding hex_octet
ether_format_addr [] = []
ether_format_addr (o ∷ []) = hex_octet o
ether_format_addr (o ∷ p ∷ os) = hex_octet o ++ (b':' ∷ ether_format_addr (p ∷ os))
