-- ===== src/Stdio.antt =====
-- lib/osal/fgen_stdio.c: printing with colour tuples, and what of lib/osal/vt100_out.h moves the
-- cursor for it. What `vsnprintf` makes of a format and its arguments is given, as the text that it
-- would print; `none` says that it fails.
pub mod Center
pub mod Written
use fgen.Prelude.{
  ℕ, zero, suc, ◌+◌, ◌-◌, ◌/◌, ◌%◌, ◌^◌, Bool, true, false, ◌&&◌, Option, none, some, [], ◌∷◌, ◌++◌,
  ltb, leb, ◌==◌, if◌then◌else◌, length,
}
use fgen.Prelude.Int.{ℤ, pos, negsuc, to_word}
use fgen.CString.{Bytes, codes, strlcpy}
use fgen.CString.Number.{print_decimal}
use fgen.Vt100.{Parsed, returned, overrun, running, vt_color_parse}
use fgen.Tty.{tty_write}

-- `OUTPUT_BUFF_SIZE`.
abbrev pub output_buff_size : ℕ
output_buff_size = 2048

-- `fgen_vsnprintf`, and `fgen_snprintf`; the Booleans are those of `vt_color_parse`.
unfoldable pub fgen_vsnprintf : Bool → Bool → (ℕ → ℕ) → ℕ → Option Bytes → Parsed
unfolding vt_color_parse strlcpy
fgen_vsnprintf allocated color_on rgb_codes len none = returned none []
fgen_vsnprintf allocated color_on rgb_codes len (some text) =
    vt_color_parse allocated color_on rgb_codes (strlcpy text len) len

-- What is handed to `write`, or -ENOMEM, or a buffer that is full or overrun, or no return.
pub data Printed : Type 0 where
  wrote : Bytes → Printed
  no_memory : Printed
  no_room : Printed
  looping : Printed

-- The string at the start of a buffer.
unfoldable pub c_string : Bytes → Bytes
c_string [] = []
c_string (zero ∷ s) = []
c_string (suc c ∷ s) = suc c ∷ c_string s

abbrev count_or_error : Option ℕ → ℤ
count_or_error none = negsuc 0
count_or_error (some n) = pos n

-- The cursor text, and `tty_write` or `tty_fwrite` of the buffer.
unfoldable pub write_parsed : Bytes → Parsed → Printed
unfolding tty_write c_string
write_parsed cursor running = looping
write_parsed cursor overrun = no_room
write_parsed cursor (returned n buff) =
    wrote (cursor ++ tty_write buff (c_string buff) (count_or_error n))

-- Whether the two calls of `calloc` succeed, whether colour is on, and the colour table.
module _ (buffer allocated color_on : Bool) (rgb_codes : ℕ → ℕ) where
  -- `fgen_printf` and `fgen_fprintf`.
  unfoldable pub fgen_printf : Option Bytes → Printed
  unfolding fgen_vsnprintf write_parsed
  fgen_printf text =
      if buffer
      then write_parsed [] (fgen_vsnprintf allocated color_on rgb_codes output_buff_size text)
      else no_memory

  write_positive : Parsed → Printed
  unfolding write_parsed
  write_positive running = looping
  write_positive overrun = no_room
  write_positive (returned none buff) = wrote []
  write_positive (returned (some zero) buff) = wrote []
  write_positive (returned (some (suc n)) buff) = write_parsed [] (returned (some (suc n)) buff)

  -- `fgen_vprintf`, which writes nothing where nothing or an error came back.
  unfoldable pub fgen_vprintf : Option Bytes → Printed
  unfolding fgen_vsnprintf write_positive
  fgen_vprintf text =
      if buffer
      then write_positive (fgen_vsnprintf allocated color_on rgb_codes output_buff_size text)
      else no_memory

-- `vt_pos` of two numbers that are not negative.
unfoldable pub vt_pos : ℕ → ℕ → Bytes
unfolding print_decimal
vt_pos r c = 27 ∷ b'[' ∷ (print_decimal r ++ b';' ∷ (print_decimal c ++ b'H' ∷ []))

abbrev pos_or_none : ℤ → ℤ → Bytes
pos_or_none (pos r) (pos c) = vt_pos r c
pos_or_none _ _ = []

-- The int16_t that a size_t becomes, if it is above 0, and else 1.
abbrev at_least_1 : ℕ → ℕ
at_least_1 s = if s == 0 then 1 else if ltb s (2 ^ 15) then s else 1

-- `vt_center_col` of a number of columns that is not negative, and the length of the message.
unfoldable pub vt_center_col : ℕ → ℕ → ℕ
vt_center_col ncols len = at_least_1 ((ncols / 2 + 2 ^ 64 - len / 2) % 2 ^ 64 % 2 ^ 16)

abbrev buffer_of : Parsed → Bytes
buffer_of (returned n buff) = buff
buffer_of overrun = []
buffer_of running = []

module _ (buffer allocated color_on : Bool) (rgb_codes : ℕ → ℕ) where
  -- `fgen_printf_pos`.
  unfoldable pub fgen_printf_pos : ℤ → ℤ → Option Bytes → Printed
  unfolding fgen_vsnprintf write_parsed vt_pos
  fgen_printf_pos r c text =
      if buffer
      then write_parsed (pos_or_none r c)
          (fgen_vsnprintf allocated color_on rgb_codes output_buff_size text)
      else no_memory

  -- `fgen_cprintf` at a row that is not negative.
  unfoldable pub fgen_cprintf : ℕ → ℕ → Option Bytes → Printed
  unfolding fgen_vsnprintf write_parsed vt_pos c_string vt_center_col
  fgen_cprintf r ncols text =
      let str = fgen_vsnprintf allocated color_on rgb_codes output_buff_size text in
      let col = vt_center_col ncols (length (c_string (buffer_of str))) in
      if buffer then write_parsed (vt_pos r col) str else no_memory
