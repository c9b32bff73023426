-- ===== src/Stdio/Written.antt =====
-- What `fgen_printf` writes to the terminal.
use fgen.Prelude.{
  ℕ, ◌≤◌, ◌<◌, ◌≡◌, refl, ap, Bool, true, some, List, [], ◌∷◌, take, length, All, arith,
}
use fgen.CString.{Bytes}
use fgen.Vt100.{returned}
use fgen.Vt100.Shown.{Piece, Proper, text_of, shown_of, strlcpy_fits, vt_color_parse-shown_of}
use fgen.Tty.{tty_write}
use fgen.Stdio.{wrote, c_string, write_parsed, fgen_vsnprintf, fgen_printf}

take_all : (s : Bytes) → take (length s) s ≡ s
take_all [] = refl
take_all (c ∷ s) = ap (λ t. c ∷ t) (take_all s)

pub write_parsed_all :
    (out : Bytes) → write_parsed [] (returned (some (length out)) out) ≡ wrote out
unfolding write_parsed tty_write c_string
write_parsed_all [] = refl
write_parsed_all (c ∷ out) = ap wrote (take_all (c ∷ out))

-- `fgen_printf` of a text of plain bytes and colour tuples that has at most 992 bytes, and for which
-- fewer than 2048 are shown, writes what is shown for it, to the last byte.
pub fgen_printf-shown_of :
    (color_on : Bool) (rgb_codes : ℕ → ℕ) (ps : List Piece)
    → All Proper ps
    → length (text_of ps) ≤ 992
    → length (shown_of color_on rgb_codes ps) < 2048
    → fgen_printf true true color_on rgb_codes (some (text_of ps))
      ≡ wrote (shown_of color_on rgb_codes ps)
unfolding fgen_printf fgen_vsnprintf
fgen_printf-shown_of color_on rgb_codes ps proper short room =
    rw
      (
        strlcpy_fits (text_of ps) 2048 (omega arith),
        vt_color_parse-shown_of color_on rgb_codes ps 2048 proper (omega arith) (omega arith) room,
      )
      (write_parsed_all (shown_of color_on rgb_codes ps))
