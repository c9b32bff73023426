-- ===== src/Hexdump.antt =====
-- lib/utils/hexdump.c: data printed in hexadecimal. A buffer of data is the list of its bytes.
pub mod Rebuilt
pub mod Joined
pub mod Output
use fgen.Prelude.{
  ℕ, zero, suc, ◌+◌, ◌-◌, ◌/◌, ◌%◌, Bool, true, false, ◌||◌, Option, none, some, List, [], ◌∷◌,
  ◌++◌, ltb, leb, if◌then◌else◌, length, take, drop,
}
use mathlib.Core.List.{map}
use fgen.CString.{Bytes, codes}
use fgen.CString.Number.{print_decimal}
use fgen.Decode.Format.{print_hex_fixed}
use fgen.Stdio.{Printed, fgen_printf}

abbrev pub upper_digit : ℕ → ℕ
upper_digit d = if ltb d 10 then b'0' + d else b'A' + (d - 10)

-- "%0nX" of a number of at most n digits.
unfoldable pub print_upper_hex : ℕ → ℕ → Bytes
print_upper_hex zero v = []
print_upper_hex (suc n) v = print_upper_hex n (v / 16) ++ upper_digit (v % 16) ∷ []

unfoldable pub hex_columns : ℕ → Bytes → Bytes
hex_columns zero s = []
hex_columns (suc n) [] = b' ' ∷ b' ' ∷ b' ' ∷ hex_columns n []
hex_columns (suc n) (d ∷ s) =
    b' ' ∷ upper_digit (d / 16 % 16) ∷ upper_digit (d % 16) ∷ hex_columns n s

abbrev pub printable : ℕ → ℕ
printable c = if ltb c b' ' || ltb b'~' c then b'.' else c

-- A line of `fgen_hexdump`: the offset, 16 columns, and the characters.
unfoldable pub hex_line : ℕ → Bytes → Bytes
unfolding print_upper_hex hex_columns
hex_line ofs s =
    print_upper_hex 8 ofs
    ++ b':' ∷ (hex_columns 16 s ++ b' ' ∷ b'|' ∷ b' ' ∷ map printable (take 16 s))

-- The loop of `fgen_hexdump` on the data that is left, whose length is at most 2 ^ 32 - 16, with
-- fuel; `none` says that it ran out.
abbrev pub add_line : Bytes → Option (List Bytes) → Option (List Bytes)
add_line l none = none
add_line l (some ls) = some (l ∷ ls)

unfoldable pub hex_lines : ℕ → ℕ → Bytes → Option (List Bytes)
unfolding hex_line
hex_lines fuel ofs [] = some []
hex_lines zero ofs (d ∷ s) = none
hex_lines (suc fuel) ofs (d ∷ s) =
    add_line (hex_line ofs (d ∷ s)) (hex_lines fuel (ofs + 16) (drop 16 (d ∷ s)))

-- The first line, with the text that `%p` prints for the address; the title itself is never
-- printed.
unfoldable pub title_line : Bool → Bytes → ℕ → Bytes
unfolding print_decimal
title_line titled address len =
    (if titled then [] else codes "  Dump data")
    ++ (codes " at [" ++ (address ++ (codes "], len=" ++ (print_decimal len ++ 10 ∷ []))))

-- What the two calls of `calloc` answer for each call of `fgen_fprintf`, that for its buffer and
-- that in `vt_color_parse`.
abbrev pub Memory : Type 0
Memory = ℕ → Bool × Bool

module _ (memory : Memory) (color_on : Bool) (rgb_codes : ℕ → ℕ) where
  -- The call of `fgen_fprintf` with this number, of a text. Its result is not looked at.
  unfoldable pub print_text : ℕ → Bytes → Printed
  unfolding fgen_printf
  print_text call s = fgen_printf (memory call).0 (memory call).1 color_on rgb_codes (some s)

  unfoldable pub print_texts : ℕ → List Bytes → List Printed
  unfolding print_text
  print_texts call [] = []
  print_texts call (s ∷ ss) = print_text call s ∷ print_texts (call + 1) ss

  abbrev pub print_dump : Bytes → Option (List Bytes) → Option (List Printed)
  print_dump title none = none
  print_dump title (some ls) = some (print_texts 0 (title ∷ map (λ l. l ++ 10 ∷ []) ls))

  -- `fgen_hexdump`: what it prints, call by call.
  unfoldable pub fgen_hexdump : Bool → Bytes → Bytes → Option (List Printed)
  unfolding print_texts hex_lines title_line
  fgen_hexdump titled address buf =
      print_dump (title_line titled address (length buf)) (hex_lines (length buf) 0 buf)

-- "%02x" of a byte and the separator.
unfoldable pub dump_byte : ℕ → Bytes → Bytes
unfolding print_hex_fixed
dump_byte d [] = print_hex_fixed 2 d
dump_byte d (e ∷ s) = print_hex_fixed 2 d ++ b':' ∷ []

-- `LINE_LEN`.
abbrev pub line_len : ℕ
line_len = 128

-- The lines that the loop of `fgen_memdump` prints, with the one that it fills: it is printed when
-- it has no room for three more characters and the NUL, and at the end unless it is empty.
unfoldable pub memdump_loop : Bytes → Bytes → List Bytes
unfolding dump_byte
memdump_loop [] [] = []
memdump_loop [] (c ∷ line) = (c ∷ line) ∷ []
memdump_loop (d ∷ s) line =
    let flushed = line ∷ memdump_loop s (dump_byte d s) in
    let longer = memdump_loop s (line ++ dump_byte d s) in
    if leb (line_len - 4) (length line) then flushed else longer

-- `fgen_memdump`: what it prints, call by call; no title is NULL.
abbrev title_text : Option Bytes → List Bytes
title_text none = []
title_text (some t) = (t ++ codes ": ") ∷ []

unfoldable pub fgen_memdump : Memory → Bool → (ℕ → ℕ) → Option Bytes → Bytes → List Printed
unfolding memdump_loop print_texts
fgen_memdump memory color_on rgb_codes title buf =
    print_texts memory color_on rgb_codes 0
      (title_text title ++ (memdump_loop buf [] ++ (10 ∷ []) ∷ []))
