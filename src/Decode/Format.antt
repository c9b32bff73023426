-- ===== src/Decode/Format.antt =====
-- The conversions of printf that decode.c uses, on the numbers of its headers.
use fgen.Prelude.{
  ℕ, zero, suc, ◌+◌, ◌-◌, ◌/◌, ◌%◌, Bool, [], ◌∷◌, ◌++◌, ltb, leb, ◌&&◌, ◌==◌, if◌then◌else◌,
}
use fgen.CString.{Bytes, codes}
use fgen.CString.Number.{print_decimal}
use fgen.Cksum.{byte_at}

abbrev lower_digit : ℕ → ℕ
lower_digit d = if ltb d 10 then b'0' + d else b'a' + d - 10

-- "%0nx".
unfoldable pub print_hex_fixed : ℕ → ℕ → Bytes
print_hex_fixed zero v = []
print_hex_fixed (suc n) v = print_hex_fixed n (v / 16) ++ (lower_digit (v % 16) ∷ [])

abbrev drop_zeros : Bytes → Bytes
drop_zeros [] = []
drop_zeros (c ∷ []) = c ∷ []
drop_zeros (c ∷ d ∷ s) = let r = drop_zeros (d ∷ s) in if c == b'0' then r else c ∷ d ∷ s

-- "%x" of a number below 2 ^ 32.
unfoldable pub print_hex : ℕ → Bytes
unfolding print_hex_fixed
print_hex v = drop_zeros (print_hex_fixed 8 v)

-- "%#x", which puts no prefix in front of zero.
unfoldable pub print_hex_prefixed : ℕ → Bytes
unfolding print_hex
print_hex_prefixed v = if v == 0 then codes "0" else codes "0x" ++ print_hex v

-- `inet_ntop(AF_INET, …)` of the four bytes at i.
unfoldable pub inet_ntop : Bytes → ℕ → Bytes
unfolding print_decimal
inet_ntop h i =
    print_decimal (byte_at h i)
    ++ (b'.' ∷ print_decimal (byte_at h (i + 1)))
    ++ (b'.' ∷ print_decimal (byte_at h (i + 2)))
    ++ (b'.' ∷ print_decimal (byte_at h (i + 3)))

-- `isprint` in the C locale.
abbrev pub isprint : ℕ → Bool
isprint c = leb 32 c && leb c 126
