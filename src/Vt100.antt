-- ===== src/Vt100.antt =====
-- lib/osal/vt100_out.c and the escape strings of lib/osal/vt100_out.h: colour tuples such as
-- `[red:default:bold]` in a text become the escape strings of a VT100 terminal.
pub mod Names
pub mod Matches
pub mod Fits
pub mod Plain
pub mod Ends
pub mod Escapes
pub mod Shown
use fgen.Prelude.{
  ℕ, zero, suc, ◌+◌, ◌-◌, ◌/◌, ◌%◌, ◌^◌, Bool, true, false, Option, none, some, List, [], ◌∷◌, ◌++◌,
  ltb, leb, ◌==◌, if◌then◌else◌, length, take, replicate, get_elem?, min,
}
use fgen.CString.{Bytes, codes, strncmp_eq, strncasecmp_eq, strlcpy, strchr, index_after}
use fgen.CString.Number.{print_decimal}
use fgen.Strings.{strtrimset, fgen_strtok}
use fgen.Vt100.Names.{rgb_names, vt_attrs}

-- `VT_NO_ATTR`, `COLOR_DEFAULT`, `VT_RGB_FG` and `VT_RGB_BG`.
abbrev pub vt_no_attr : ℕ
vt_no_attr = 98

abbrev pub color_default : ℕ
color_default = 0xc0dedead

abbrev pub vt_rgb_fg : ℕ
vt_rgb_fg = 38

abbrev pub vt_rgb_bg : ℕ
vt_rgb_bg = 48

abbrev pub default_name : Bytes
default_name = codes "default"

-- The first entry that starts with the text, in either case: the loops of `match_rgb_color` and
-- `match_attr`, with what they return where nothing matches.
unfoldable pub find_named : List (Bytes × ℕ) → Bytes → ℕ → ℕ
unfolding strncasecmp_eq
find_named [] s otherwise = otherwise
find_named ((name, value) ∷ rows) s otherwise =
    let rest = find_named rows s otherwise in
    if strncasecmp_eq name s (length s) then value else rest

-- `match_attr`, whose first entry is `off`, 0.
unfoldable pub match_attr : Bytes → ℕ
unfolding find_named vt_attrs
match_attr s = find_named vt_attrs s 0

-- What `snprintf` with this size leaves in a buffer of zeros, as far as the caller moves its
-- pointer: a text that does not fit is cut, and its last byte and those behind it stay zero.
unfoldable pub snprintf : ℕ → Bytes → Bytes
snprintf size s =
    if ltb (length s) size then s else take (size - 1) s ++ replicate (length s - (size - 1)) 0

-- The texts that `vt_attr_str` and `vt_rgb_str` print.
unfoldable pub attr_text : ℕ → Bytes
unfolding print_decimal
attr_text attr = 27 ∷ b'[' ∷ (print_decimal attr ++ b'm' ∷ [])

unfoldable pub rgb_text : ℕ → ℕ → ℕ → ℕ → Bytes
unfolding print_decimal
rgb_text fg_bg r g b =
    27
    ∷ b'['
    ∷ (print_decimal fg_bg
        ++ (codes ":2::"
            ++ (print_decimal r
                ++ (b':' ∷ (print_decimal g ++ (b':' ∷ (print_decimal b ++ b'm' ∷ [])))))))

unfoldable pub vt_attr_str : ℕ → ℕ → Bytes
unfolding snprintf attr_text
vt_attr_str len attr = snprintf len (attr_text attr)

unfoldable pub vt_rgb_str : ℕ → ℕ → ℕ → ℕ → ℕ → Bytes
unfolding snprintf rgb_text
vt_rgb_str len fg_bg r g b = snprintf len (rgb_text fg_bg r g b)

-- `len -= n`, as the size_t that the next `snprintf` takes.
abbrev pub less : ℕ → ℕ → ℕ
less len n = (len + 2 ^ 64 - n) % 2 ^ 64

unfoldable pub put_attr : ℕ → ℕ → Bytes
unfolding vt_attr_str
put_attr len attr = if attr == vt_no_attr then [] else vt_attr_str len attr

unfoldable pub put_color : ℕ → ℕ → ℕ → Bytes
unfolding vt_rgb_str
put_color len fg_bg color =
    if color == color_default
    then []
    else vt_rgb_str len fg_bg (color / 2 ^ 16 % 256) (color / 2 ^ 8 % 256) (color % 256)

abbrev tuple_or_none : Option Bytes → Bytes
tuple_or_none none = []
tuple_or_none (some s) = s

-- The text of a tuple without its brackets; a long tuple is cut to 63 bytes first.
unfoldable pub tuple_text : Bytes → Bytes
unfolding strlcpy strncmp_eq strtrimset
tuple_text tuple =
    let n = min (length tuple + 1) 64 in
    let d = strlcpy tuple n in
    if strncmp_eq (codes "[]") d n
    then codes "default:default:off"
    else tuple_or_none (strtrimset d b'[' b']')

abbrev tokens_or_none : Option (List Bytes) → List Bytes
tokens_or_none none = []
tokens_or_none (some toks) = toks

abbrev name_or_default : Option Bytes → Bytes
name_or_default none = default_name
name_or_default (some name) = name

-- The name at a place of the tuple.
unfoldable pub tuple_name : Bytes → ℕ → Bytes
unfolding tuple_text fgen_strtok
tuple_name tuple i =
    name_or_default (get_elem? (tokens_or_none (fgen_strtok (tuple_text tuple) (codes ":") 4)) i)

-- `match_rgb_color` with the table `RGB_COLOR_CODES`, which comes from another project: the colour
-- at each id.
unfoldable pub match_rgb_color : (ℕ → ℕ) → Bytes → ℕ
unfolding find_named rgb_names
match_rgb_color rgb_codes s = rgb_codes (find_named rgb_names s 0)

module _ (rgb_codes : ℕ → ℕ) where
  -- What `color_begin` writes for a tuple into a buffer with this length.
  unfoldable pub color_bytes : Bytes → ℕ → Bytes
  unfolding tuple_name match_rgb_color match_attr put_attr put_color
  color_bytes tuple len =
      let a = put_attr len (match_attr (tuple_name tuple 2)) in
      let len = less len (length a) in
      let bg = put_color len vt_rgb_bg (match_rgb_color rgb_codes (tuple_name tuple 1)) in
      let len = less len (length bg) in
      let fg = put_color len vt_rgb_fg (match_rgb_color rgb_codes (tuple_name tuple 0)) in
      a ++ (bg ++ fg)

  -- `color_begin`; `none` is -1, where colour is off.
  unfoldable pub color_begin : Bool → Bytes → ℕ → Option Bytes
  unfolding color_bytes
  color_begin color_on tuple len = if color_on then some (color_bytes tuple len) else none

-- What is written from the pointer on; `none` says that the fuel ran out.
abbrev pub write : Bytes → Option Bytes → Option Bytes
write s none = none
write s (some t) = some (s ++ t)

-- The branches of the loop on the result of `index(c, ']')` and of `color_begin`.
abbrev pub at_bracket :
    Option (Bytes × Bytes) → Option Bytes → (Bytes → Bytes → Option Bytes) → Option Bytes
at_bracket none copied tagged = copied
at_bracket (some (tuple, rest)) copied tagged = tagged tuple rest

abbrev pub after_color : Option Bytes → Option Bytes → Option Bytes → Option Bytes
after_color none copied skipped = skipped
after_color (some []) copied skipped = copied
after_color (some (c ∷ s)) copied skipped = write (c ∷ s) skipped

module _ (color_on : Bool) (rgb_codes : ℕ → ℕ) where
  -- The loop of `vt_color_parse` on the text that is left, with `len` and `b_index`: what it writes,
  -- as far as it fits the buffer; where it does not fit, `parsed` makes an overrun of it.
  unfoldable pub parse_loop : ℕ → Bytes → ℕ → ℕ → Option Bytes
  unfolding index_after color_begin
  parse_loop fuel [] len b_index = some []
  parse_loop zero (c ∷ s) len b_index = none
  parse_loop (suc fuel) (c ∷ s) len b_index =
      let shorter = write (c ∷ []) (parse_loop fuel s (len - 1) (b_index + 1)) in
      let copied = write (c ∷ []) (parse_loop fuel s len (b_index + 1)) in
      let tagged = λ (tuple : Bytes) (rest : Bytes).
        after_color (color_begin rgb_codes color_on tuple len) copied
          (parse_loop fuel rest len b_index) in
      let bracket = at_bracket (index_after b']' (c ∷ s)) shorter tagged in
      if leb len b_index then some [] else if c == b'[' then bracket else shorter

-- The return value and the text of the buffer then; a text that reaches the end of the buffer, so
-- that the buffer has no room for the NUL behind it or the loop has written past the buffer; or a
-- loop that has used up its fuel.
pub data Parsed : Type 0 where
  returned : Option ℕ → Bytes → Parsed
  overrun : Parsed
  running : Parsed

abbrev pub parsed : ℕ → Option Bytes → Parsed
parsed len none = running
parsed len (some out) = if ltb (length out) len then returned (some (length out)) out else overrun

-- `vt_color_parse` of a buffer of `len` bytes that holds the text; `allocated` says that `calloc`
-- succeeds.
unfoldable pub vt_color_parse : Bool → Bool → (ℕ → ℕ) → Bytes → ℕ → Parsed
unfolding strchr parse_loop strlcpy
vt_color_parse allocated color_on rgb_codes buff len =
    if strchr buff b'['
    then if allocated
      then (let text = strlcpy buff len in
          parsed len (parse_loop color_on rgb_codes (length text) text len 0))
      else returned none buff
    else returned (some (length buff)) buff
