-- ===== src/Vt100/Escapes.antt =====
-- The functions of lib/osal/vt100_out.h that print the basic colours, and those that put the same
-- escape strings into a buffer.
use fgen.Prelude.{
  ℕ, ◌+◌, ◌<◌, ◌≡◌, refl, sym, ◌∙◌, Bool, true, false, ◌&&◌, not, [], ◌∷◌, ◌++◌, ◌==◌,
  if◌then◌else◌, length, arith,
}
use fgen.CString.{Bytes}
use fgen.CString.Number.{print_decimal}
use fgen.Vt100.{snprintf}
use fgen.Vt100.Fits.{snprintf_fits}

-- `VT_NO_CHANGE`.
abbrev pub vt_no_change : ℕ
vt_no_change = 98

-- `vt_fgcolor`, `vt_bgcolor` and `vt_fgbgcolor`: what they print.
unfoldable pub vt_fgcolor : ℕ → ℕ → Bytes
unfolding print_decimal
vt_fgcolor color attr =
    27 ∷ b'[' ∷ (print_decimal attr ++ b';' ∷ (print_decimal (color + 30) ++ b'm' ∷ []))

unfoldable pub vt_bgcolor : ℕ → ℕ → Bytes
unfolding print_decimal
vt_bgcolor color attr =
    27 ∷ b'[' ∷ (print_decimal attr ++ b';' ∷ (print_decimal (color + 40) ++ b'm' ∷ []))

unfoldable pub vt_fgbgcolor : ℕ → ℕ → ℕ → Bytes
unfolding print_decimal
vt_fgbgcolor fg bg attr =
    27
    ∷ b'['
    ∷ (print_decimal attr
        ++ b';' ∷ (print_decimal (fg + 30) ++ b';' ∷ (print_decimal (bg + 40) ++ b'm' ∷ [])))

-- `vt_color`.
unfoldable pub vt_color : ℕ → ℕ → ℕ → Bytes
unfolding vt_fgcolor vt_bgcolor vt_fgbgcolor
vt_color fg bg attr =
    if not (fg == vt_no_change) && not (bg == vt_no_change)
    then vt_fgbgcolor fg bg attr
    else if fg == vt_no_change
    then vt_bgcolor bg attr
    else if bg == vt_no_change
    then vt_fgcolor fg attr
    else []

-- `vt_rgb`, which has one colon less behind the 2 than `vt_rgb_str`.
unfoldable pub vt_rgb : ℕ → ℕ → ℕ → ℕ → Bytes
unfolding print_decimal
vt_rgb fg_bg r g b =
    27
    ∷ b'['
    ∷ (print_decimal fg_bg
        ++ b':'
          ∷ b'2'
          ∷ b':'
          ∷ (print_decimal r ++ b':' ∷ (print_decimal g ++ b':' ∷ (print_decimal b ++ b'm' ∷ []))))

-- `vt_fgcolor_str`, `vt_bgcolor_str` and `vt_fgbgcolor_str`: the bytes of the buffer up to the
-- number that they return.
unfoldable pub vt_fgcolor_str : ℕ → ℕ → ℕ → Bytes
unfolding snprintf vt_fgcolor
vt_fgcolor_str len color attr = snprintf len (vt_fgcolor color attr)

unfoldable pub vt_bgcolor_str : ℕ → ℕ → ℕ → Bytes
unfolding snprintf vt_bgcolor
vt_bgcolor_str len color attr = snprintf len (vt_bgcolor color attr)

unfoldable pub vt_fgbgcolor_str : ℕ → ℕ → ℕ → ℕ → Bytes
unfolding snprintf vt_fgbgcolor
vt_fgbgcolor_str len fg bg attr = snprintf len (vt_fgbgcolor fg bg attr)

-- `vt_color_str`.
unfoldable pub vt_color_str : ℕ → ℕ → ℕ → ℕ → Bytes
unfolding vt_fgcolor_str vt_bgcolor_str vt_fgbgcolor_str
vt_color_str len fg bg attr =
    if not (fg == vt_no_change) && not (bg == vt_no_change)
    then vt_fgbgcolor_str len fg bg attr
    else if fg == vt_no_change
    then vt_bgcolor_str len bg attr
    else if bg == vt_no_change
    then vt_fgcolor_str len fg attr
    else []

branches :
    (len : ℕ) (both bg fg : Bool) (x y z : Bytes)
    → 0 < len
    → (if both
        then snprintf len x
        else if bg
        then snprintf len y
        else if fg
        then snprintf len z
        else [])
      ≡ snprintf len (if both then x else if bg then y else if fg then z else [])
branches len true bg fg x y z h = refl
branches len false true fg x y z h = refl
branches len false false true x y z h = refl
branches len false false false x y z h = sym (snprintf_fits len [] h)

-- In a buffer with room, `vt_color_str` leaves what `vt_color` prints, whichever of the two
-- colours are to change.
pub vt_color_str-vt_color :
    (len fg bg attr : ℕ)
    → length (vt_color fg bg attr) < len
    → vt_color_str len fg bg attr ≡ vt_color fg bg attr
unfolding vt_color_str vt_color vt_fgcolor_str vt_bgcolor_str vt_fgbgcolor_str
vt_color_str-vt_color len fg bg attr room =
    branches len (not (fg == vt_no_change) && not (bg == vt_no_change)) (fg == vt_no_change)
      (bg == vt_no_change) (vt_fgbgcolor fg bg attr) (vt_bgcolor bg attr) (vt_fgcolor fg attr)
      (omega arith)
    ∙ snprintf_fits len (vt_color fg bg attr) room

-- With neither colour to change, `vt_color` prints a background of 138, which is no colour.
pub vt_color-no_change : (attr : ℕ) → vt_color vt_no_change vt_no_change attr ≡ vt_bgcolor 98 attr
unfolding vt_color
vt_color-no_change attr = refl
