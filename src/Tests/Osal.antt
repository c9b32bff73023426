-- ===== src/Tests/Osal.antt =====
-- Colour tuples, dumps, the terminal and the system's files at concrete inputs.
use fgen.Prelude.{
  ℕ, ◌+◌, ◌/◌, ◌<◌, ◌≡◌, ◌↔◌, refl, true, false, none, some, List, [], ◌∷◌, ◌++◌, leb, ◌==◌,
  if◌then◌else◌, length, take, All, arith,
}
use mathlib.Core.List.{map}
use fgen.CString.{Bytes, codes, strchr, strlcpy, tolower, isspace}
use fgen.Strings.{fgen_strtok}
use fgen.Decode.Format.{print_hex_fixed}
use fgen.Vt100.{
  returned, overrun, vt_color_parse, match_rgb_color, match_attr, tuple_name, rgb_text, attr_text,
}
use fgen.Vt100.Fits.{tuple_shown, attr_shown, color_shown}
use fgen.Vt100.Names.{rgb_names}
use fgen.Vt100.Matches.{match_rgb_color-rgb_names}
use fgen.Vt100.Ends.{Ends, vt_color_parse-Ends}
use fgen.Vt100.Plain.{vt_color_parse-half}
use fgen.Vt100.Shown.{Piece, plain, tuple, text_of, shown_of, vt_color_parse-shown_of}
use fgen.Stdio.{wrote, fgen_printf}
use fgen.Tty.{Kernel}
use fgen.Tty.Restore.{winch}
use fgen.Hexdump.{Memory, fgen_hexdump, fgen_memdump, print_text, title_line}
use fgen.Hexdump.Rebuilt.{rebuild}
use fgen.Hexdump.Output.{written, fgen_hexdump-rebuild}
use fgen.Hexdump.Joined.{concat, joined, HasRoom, fgen_memdump-joined}
use fgen.System.{stat_value, failed, bad_pointer, fgen_core_id}
use fgen.System.Places.{stat_value-places}

-- A table with red at its id.
abbrev some_codes : ℕ → ℕ
some_codes id = if id == 10 then 0xff0000 else if id == 0 then 0xc0dedead else 0

-- `a[red]b[5]`.
abbrev pieces : List Piece
pieces = plain b'a' ∷ tuple (codes "red") ∷ plain b'b' ∷ tuple (codes "5") ∷ []

spelled_out : text_of pieces ≡ codes "a[red]b[5]"
unfolding text_of
spelled_out = refl

abbrev colored : Bytes
colored = b'a' ∷ 27 ∷ codes "[38:2::255:0:0mb[5]"

with_color : vt_color_parse true true some_codes (text_of pieces) 100 ≡ returned (some 21) colored
unfolding vt_color_parse text_of isspace
with_color = refl

without_color :
    vt_color_parse true false some_codes (text_of pieces) 100 ≡ returned (some 2) (codes "ab")
unfolding vt_color_parse text_of
without_color = refl

shown_short : length (shown_of true some_codes pieces) ≡ 21
unfolding shown_of tuple_shown attr_shown color_shown tuple_name match_attr match_rgb_color
    rgb_names rgb_text attr_text isspace
shown_short = refl

vt_color_parse-shown_of_example :
    let out = shown_of true some_codes pieces in
    vt_color_parse true true some_codes (text_of pieces) 100 ≡ returned (some (length out)) out
unfolding text_of
vt_color_parse-shown_of_example =
    vt_color_parse-shown_of true some_codes pieces 100
      (
        refl,
        (
          ((refl, (refl, (refl, tt))), (refl, (refl, (refl, tt)))),
          (refl, (((refl, tt), (refl, tt)), tt)),
        ),
      )
      (omega arith) (omega arith) (omega (arith, shown_short))

vt_color_parse-Ends_example :
    Ends true
      (codes "[red][blue]x")
      80
      (vt_color_parse true true some_codes (codes "[red][blue]x") 80)
unfolding strchr
vt_color_parse-Ends_example = vt_color_parse-Ends true true some_codes (codes "[red][blue]x") 80

vt_color_parse-half_example :
    let kept = take ((6 + 1) / 2) (strlcpy (codes "a[1 of 2") 6) in
    vt_color_parse true true some_codes (codes "a[1 of 2") 6 ≡ returned (some (length kept)) kept
unfolding strchr
vt_color_parse-half_example =
    vt_color_parse-half true some_codes (codes "a[1 of 2") 6 (omega arith) refl
      (refl, (refl, (refl, (refl, (refl, (refl, (refl, (refl, tt))))))))

-- Six tuples in 30 bytes need 96 bytes of a buffer of 32.
red_overrun :
    vt_color_parse true true some_codes (codes "[red][red][red][red][red][red]") 32 ≡ overrun
unfolding vt_color_parse isspace
red_overrun = refl

match_rgb_color-rgb_names_example : match_rgb_color some_codes (codes "Red") ≡ some_codes 10
unfolding rgb_names tolower
match_rgb_color-rgb_names_example =
    match_rgb_color-rgb_names some_codes (codes "Red") (codes "red") 10 10 refl refl

printed : fgen_printf true true false some_codes (some (codes "a[red]b")) ≡ wrote (codes "ab")
unfolding fgen_printf
printed = refl

-- Standard input and descriptor 5 are the same terminal's.
abbrev terminals : Kernel
terminals = record {
  isatty = λ fd. leb fd 5;
  settings =
      λ fd. record { icanon = true; echo = true; iexten = true; vmin = 4; vtime = 7; other = 9 };
  winch = 3;
}

-- Memory for every buffer.
abbrev plenty : Memory
plenty call = (true, true)

fgen_hexdump-rebuild_example :
    (ls : List Bytes) × (fgen_hexdump plenty true some_codes false (codes "0x10") (codes "two!")
      ≡ some (
          print_text plenty true some_codes 0
            (title_line false (codes "0x10") (length (codes "two!")))
          ∷ map written ls))
    × (rebuild 0 ls ≡ some (codes "two!"))
fgen_hexdump-rebuild_example =
    fgen_hexdump-rebuild plenty true some_codes (λ call. refl) false (codes "0x10") (codes "two!")
      (omega arith) (refl, (refl, (refl, (refl, tt)))) (omega arith)

fgen_memdump-joined_example :
    (ls : List Bytes) × (fgen_memdump plenty true some_codes none (1 ∷ 254 ∷ [])
      ≡ map wrote (ls ++ (10 ∷ []) ∷ []))
    × (concat ls ≡ joined (map (print_hex_fixed 2) (1 ∷ 254 ∷ [])))
    × All HasRoom ls
fgen_memdump-joined_example =
    fgen_memdump-joined plenty true some_codes (1 ∷ 254 ∷ []) (λ call. refl)

dumped :
    fgen_memdump plenty true some_codes none (1 ∷ 254 ∷ [])
    ≡ wrote (codes "01:fe") ∷ wrote (10 ∷ []) ∷ []
unfolding fgen_memdump
dumped = refl

stat_value-places_example :
    ((stat_value (some (codes "7 (sh) S")) 3 ≡ failed)
      ↔ (length (codes "7" ∷ codes "(sh)" ∷ codes "S" ∷ []) < 3))
    × ((stat_value (some (codes "7 (sh) S")) 3 ≡ bad_pointer)
        ↔ (length (codes "7" ∷ codes "(sh)" ∷ codes "S" ∷ []) ≡ 3))
unfolding fgen_strtok isspace
stat_value-places_example =
    stat_value-places (codes "7 (sh) S") (codes "7" ∷ codes "(sh)" ∷ codes "S" ∷ []) 3 refl
      (omega arith)

core : (fgen_core_id (some (codes "12" ++ 10 ∷ [])) ≡ 12) × (fgen_core_id (some (codes "12")) ≡ 0)
unfolding fgen_core_id
core = (refl, refl)
