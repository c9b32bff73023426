-- ===== src/Vt100/Fits.antt =====
-- How long the escape strings are, and that they are whole in a buffer with room for them.
use fgen.Prelude.{
  ℕ, ◌-◌, ◌/◌, ◌%◌, ◌^◌, ◌≤◌, ◌<◌, ◌≡◌, refl, Bool, true, [], ◌∷◌, ◌++◌, ltb, leb, ◌==◌,
  if◌then◌else◌, length, length-append, take, replicate, length-take, length-replicate, Bool-cases,
  inl, inr, arith,
}
use fgen.Prelude.Tests.{all_below, all_below-at}
use fgen.CString.{Bytes}
use fgen.CString.Number.{print_decimal}
use fgen.Vt100.{
  snprintf, attr_text, rgb_text, vt_attr_str, vt_rgb_str, less, put_attr, put_color, match_attr,
  vt_no_attr, vt_rgb_fg, vt_rgb_bg, color_default, match_rgb_color, color_bytes, tuple_name,
}
use fgen.Vt100.Names.{vt_attrs}
use fgen.Vt100.Matches.{every, find_named-every}

leb→le : (a b : ℕ) → leb a b ≡ true → a ≤ b
leb→le a b h = ground arith

is_short : ℕ → Bool
is_short n = leb (length (print_decimal n)) 3

length-print_decimal : (n : ℕ) → n < 256 → length (print_decimal n) ≤ 3
unfolding is_short
length-print_decimal n h = leb→le _ _ (all_below-at 256 is_short n table h)
  where
    table : all_below 256 is_short ≡ true
    table = unfold all_below is_short print_decimal in refl

length-attr_text : (attr : ℕ) → attr < 256 → length (attr_text attr) ≤ 6
unfolding attr_text
length-attr_text attr h =
    omega (arith, length-print_decimal attr h, length-append (print_decimal attr) (b'm' ∷ []))

length-rgb_text :
    (fg_bg r g b : ℕ)
    → fg_bg < 256
    → r < 256
    → g < 256
    → b < 256
    → length (rgb_text fg_bg r g b) ≤ 21
unfolding rgb_text
length-rgb_text fg_bg r g b hf hr hg hb = omega (
  arith,
  length-append {0},
  length-print_decimal fg_bg hf,
  length-print_decimal r hr,
  length-print_decimal g hg,
  length-print_decimal b hb,
)

pub snprintf_fits : (size : ℕ) (s : Bytes) → length s < size → snprintf size s ≡ s
unfolding snprintf
snprintf_fits size s h = ground arith

length-snprintf : (size : ℕ) (s : Bytes) → length (snprintf size s) ≡ length s
unfolding snprintf
length-snprintf size s = elim (Bool-cases (ltb (length s) size)) [
  | inl e ↦ rw e refl
  | inr e ↦ rw e (
      omega (
        arith,
        length-append (take (size - 1) s) (replicate (length s - (size - 1)) 0),
        length-take (size - 1) s,
        length-replicate {A = ℕ} (length s - (size - 1)) 0,
      ))
]

-- The attribute of a tuple, and the two colours, with no limit of room.
unfoldable pub attr_shown : ℕ → Bytes
attr_shown attr = if attr == vt_no_attr then [] else attr_text attr

unfoldable pub color_shown : ℕ → ℕ → Bytes
color_shown fg_bg color =
    if color == color_default
    then []
    else rgb_text fg_bg (color / 2 ^ 16 % 256) (color / 2 ^ 8 % 256) (color % 256)

length-attr_shown : (attr : ℕ) → attr < 256 → length (attr_shown attr) ≤ 6
unfolding attr_shown
length-attr_shown attr h = elim (Bool-cases (attr == vt_no_attr)) [
  | inl e ↦ rw e (omega arith)
  | inr e ↦ rw e (length-attr_text attr h)
]

length-color_shown : (fg_bg color : ℕ) → fg_bg < 256 → length (color_shown fg_bg color) ≤ 21
unfolding color_shown
length-color_shown fg_bg color h = elim (Bool-cases (color == color_default)) [
  | inl e ↦ rw e (omega arith)
  | inr e ↦ rw e (
      length-rgb_text fg_bg (color / 2 ^ 16 % 256) (color / 2 ^ 8 % 256) (color % 256) h
        (omega arith) (omega arith) (omega arith))
]

put_attr-shown : (len attr : ℕ) → attr < 256 → 6 < len → put_attr len attr ≡ attr_shown attr
unfolding put_attr attr_shown vt_attr_str
put_attr-shown len attr h room = elim (Bool-cases (attr == vt_no_attr)) [
  | inl e ↦ rw e refl
  | inr e ↦ rw e (snprintf_fits len (attr_text attr) (omega (arith, length-attr_text attr h)))
]

put_color-shown :
    (len fg_bg color : ℕ)
    → fg_bg < 256
    → 21 < len
    → put_color len fg_bg color ≡ color_shown fg_bg color
unfolding put_color color_shown vt_rgb_str
put_color-shown len fg_bg color h room = elim (Bool-cases (color == color_default)) [
  | inl e ↦ rw e refl
  | inr e ↦ rw e (
      snprintf_fits len (rgb_text fg_bg (color / 2 ^ 16 % 256) (color / 2 ^ 8 % 256) (color % 256))
        (omega (
          arith,
          length-rgb_text fg_bg (color / 2 ^ 16 % 256) (color / 2 ^ 8 % 256) (color % 256) h
              (omega arith) (omega arith) (omega arith),
        )))
]

length-put_attr : (len attr : ℕ) → attr < 256 → length (put_attr len attr) ≤ 6
unfolding put_attr vt_attr_str
length-put_attr len attr h = elim (Bool-cases (attr == vt_no_attr)) [
  | inl e ↦ rw e (omega arith)
  | inr e ↦ rw (e, length-snprintf len (attr_text attr)) (length-attr_text attr h)
]

length-put_color : (len fg_bg color : ℕ) → fg_bg < 256 → length (put_color len fg_bg color) ≤ 21
unfolding put_color vt_rgb_str
length-put_color len fg_bg color h = elim (Bool-cases (color == color_default)) [
  | inl e ↦ rw e (omega arith)
  | inr e ↦
      let r = color / 2 ^ 16 % 256 in
      let g = color / 2 ^ 8 % 256 in
      let b = color % 256 in
      rw (e, length-snprintf len (rgb_text fg_bg r g b))
        (length-rgb_text fg_bg r g b h (omega arith) (omega arith) (omega arith))
]

match_attr-lt : (s : Bytes) → match_attr s < 256
unfolding match_attr
match_attr-lt s =
    ltb→lt _ _ (
      find_named-every (λ row. ltb row.1 256) (λ n. ltb n 256) vt_attrs s 0 (λ row h. h) table refl)
  where
    ltb→lt : (a b : ℕ) → ltb a b ≡ true → a < b
    ltb→lt a b h = ground arith

    table : every (λ row. ltb row.1 256) vt_attrs ≡ true
    table = unfold every vt_attrs in refl

less_lem : (len n : ℕ) → n ≤ len → len < 2 ^ 31 → less len n ≡ len - n
less_lem len n h k = omega arith

-- The escape strings of a tuple: attribute, background, foreground.
unfoldable pub tuple_shown : (ℕ → ℕ) → Bytes → Bytes
unfolding attr_shown color_shown
tuple_shown rgb_codes tuple =
    attr_shown (match_attr (tuple_name tuple 2))
    ++ (color_shown vt_rgb_bg (match_rgb_color rgb_codes (tuple_name tuple 1))
        ++ color_shown vt_rgb_fg (match_rgb_color rgb_codes (tuple_name tuple 0)))

module _ (rgb_codes : ℕ → ℕ) (tuple : Bytes) where
  pub length-tuple_shown : length (tuple_shown rgb_codes tuple) ≤ 48
  unfolding tuple_shown
  length-tuple_shown =
      let attr = match_attr (tuple_name tuple 2) in
      let bg = match_rgb_color rgb_codes (tuple_name tuple 1) in
      let fg = match_rgb_color rgb_codes (tuple_name tuple 0) in
      omega (
        arith,
        length-append {0},
        length-attr_shown attr (match_attr-lt (tuple_name tuple 2)),
        length-color_shown vt_rgb_bg bg (omega arith),
        length-color_shown vt_rgb_fg fg (omega arith),
      )

  pub length-color_bytes : (len : ℕ) → length (color_bytes rgb_codes tuple len) ≤ 48
  unfolding color_bytes
  length-color_bytes len =
      let attr = match_attr (tuple_name tuple 2) in
      let bg = match_rgb_color rgb_codes (tuple_name tuple 1) in
      let fg = match_rgb_color rgb_codes (tuple_name tuple 0) in
      let len' = less len (length (put_attr len attr)) in
      let put_bg = put_color len' vt_rgb_bg bg in
      let len'' = less len' (length put_bg) in
      omega (
        arith,
        length-append {0},
        length-put_attr len attr (match_attr-lt (tuple_name tuple 2)),
        length-put_color len' vt_rgb_bg bg (omega arith),
        length-put_color len'' vt_rgb_fg fg (omega arith),
      )

  -- With room for the longest escape strings, what `color_begin` writes is whole.
  pub color_bytes-tuple_shown :
      (len : ℕ)
      → 48 < len
      → len < 2 ^ 31
      → color_bytes rgb_codes tuple len ≡ tuple_shown rgb_codes tuple
  unfolding color_bytes tuple_shown
  color_bytes-tuple_shown len room int =
      let attr = match_attr (tuple_name tuple 2) in
      let bg = match_rgb_color rgb_codes (tuple_name tuple 1) in
      let fg = match_rgb_color rgb_codes (tuple_name tuple 0) in
      let small = match_attr-lt (tuple_name tuple 2) in
      let ha : length (attr_shown attr) ≤ 6 = length-attr_shown attr small in
      let hb : length (color_shown vt_rgb_bg bg) ≤ 21 =
        length-color_shown vt_rgb_bg bg (omega arith) in
      let rest = len - length (attr_shown attr) in
      rw
        (
          put_attr-shown len attr small (omega arith),
          less_lem len (length (attr_shown attr)) (omega arith) int,
          put_color-shown rest vt_rgb_bg bg (omega arith) (omega arith),
          less_lem rest (length (color_shown vt_rgb_bg bg)) (omega arith) (omega arith),
          put_color-shown (rest - length (color_shown vt_rgb_bg bg)) vt_rgb_fg fg (omega arith)
              (omega arith),
        )
        refl
