-- ===== src/Hexdump/Rebuilt.antt =====
-- The data can be read back from what `fgen_hexdump` prints.
use fgen.Prelude.{
  ℕ, zero, suc, ◌+◌, ◌-◌, ◌*◌, ◌/◌, ◌%◌, ◌^◌, ◌≤◌, ◌<◌, ◌≡◌, refl, ◌∙◌, ap, true, false, Option,
  some, none, List, [], ◌∷◌, ◌++◌, ltb, ◌==◌, ==_iff, if◌then◌else◌, length, length-append,
  length-drop, take, drop, take-append-drop, All, arith,
}
use mathlib.Core.List.{map}
use fgen.CString.{Bytes}
use fgen.Hexdump.{upper_digit, print_upper_hex, hex_columns, printable, hex_line, hex_lines}

-- The value of a hexadecimal digit, and of a text of such digits behind a number.
unfoldable pub digit_value : ℕ → ℕ
digit_value c = if ltb c b'A' then c - b'0' else c - b'A' + 10

unfoldable pub read_hex : ℕ → Bytes → ℕ
unfolding digit_value
read_hex v [] = v
read_hex v (c ∷ s) = read_hex (v * 16 + digit_value c) s

-- The bytes of the columns, up to an empty one.
unfoldable pub read_columns : ℕ → Bytes → Bytes
unfolding digit_value
read_columns (suc n) (space ∷ hi ∷ lo ∷ s) =
    let rest = read_columns n s in
    if hi == b' ' then [] else (digit_value hi * 16 + digit_value lo) ∷ rest
read_columns _ _ = []

abbrev pub behind : Bytes → Option Bytes → Option Bytes
behind s none = none
behind s (some t) = some (s ++ t)

-- The data of lines whose offsets follow each other, read from the offsets and the columns alone.
unfoldable pub rebuild : ℕ → List Bytes → Option Bytes
unfolding read_hex read_columns
rebuild ofs [] = some []
rebuild ofs (l ∷ ls) =
    let rest = rebuild (ofs + 16) ls in
    if read_hex 0 (take 8 l) == ofs then behind (read_columns 16 (drop 9 l)) rest else none

digit_value-upper_digit : (d : ℕ) → d < 16 → digit_value (upper_digit d) ≡ d
unfolding digit_value
digit_value-upper_digit d h = ground arith

abbrev limit : ℕ → ℕ
limit zero = 1
limit (suc n) = 16 * limit n

read_hex-append :
    (v c : ℕ) (s : Bytes) → read_hex v (s ++ c ∷ []) ≡ read_hex v s * 16 + digit_value c
unfolding read_hex
read_hex-append v c [] = refl
read_hex-append v c (d ∷ s) = read_hex-append (v * 16 + digit_value d) c s

read_hex-print_upper_hex : (n v : ℕ) → v < limit n → read_hex 0 (print_upper_hex n v) ≡ v
unfolding print_upper_hex
read_hex-print_upper_hex zero v h = unfold read_hex in omega arith
read_hex-print_upper_hex (suc n) v h =
    let ih = read_hex-print_upper_hex n (v / 16) (omega arith) in
    let last = digit_value-upper_digit (v % 16) (omega arith) in
    read_hex-append 0 (upper_digit (v % 16)) (print_upper_hex n (v / 16)) ∙ omega (arith, ih, last)

pub length-print_upper_hex : (n v : ℕ) → length (print_upper_hex n v) ≡ n
unfolding print_upper_hex
length-print_upper_hex zero v = refl
length-print_upper_hex (suc n) v = omega (
  arith,
  length-print_upper_hex n (v / 16),
  length-append (print_upper_hex n (v / 16)) (upper_digit (v % 16) ∷ []),
)

take_front : (s t : Bytes) (n : ℕ) → length s ≡ n → take n (s ++ t) ≡ s
take_front [] t zero e = refl
take_front [] t (suc n) e = absurd (omega arith)
take_front (c ∷ s) t zero e = absurd (omega arith)
take_front (c ∷ s) t (suc n) e = ap (λ u. c ∷ u) (take_front s t n (omega arith))

drop_front : (s t : Bytes) (c n : ℕ) → length s ≡ n → drop (suc n) (s ++ c ∷ t) ≡ t
drop_front [] t c zero e = refl
drop_front [] t c (suc n) e = absurd (omega arith)
drop_front (d ∷ s) t c zero e = absurd (omega arith)
drop_front (d ∷ s) t c (suc n) e = drop_front s t c n (omega arith)

-- A byte of data.
abbrev pub IsByte : ℕ → Type 0
IsByte d = d < 256

read_columns-hex_columns :
    (n : ℕ) (s rest : Bytes) → All IsByte s → read_columns n (hex_columns n s ++ rest) ≡ take n s
unfolding read_columns hex_columns
read_columns-hex_columns zero s rest h = refl
read_columns-hex_columns (suc n) [] rest h = refl
read_columns-hex_columns (suc n) (d ∷ s) rest (byte, h) =
    let hi = digit_value-upper_digit (d / 16 % 16) (omega arith) in
    let lo = digit_value-upper_digit (d % 16) (omega arith) in
    let some_digit : (upper_digit (d / 16 % 16) == b' ') ≡ false = ground arith in
    let whole : d / 16 % 16 * 16 + d % 16 ≡ d = omega arith in
    rw (some_digit, hi, lo, whole, read_columns-hex_columns n s rest h) refl

-- The part of a line behind the colon.
abbrev line_rest : Bytes → Bytes
line_rest s = hex_columns 16 s ++ b' ' ∷ b'|' ∷ b' ' ∷ map printable (take 16 s)

hex_line-offset : (ofs : ℕ) (s : Bytes) → ofs < 2 ^ 32 → read_hex 0 (take 8 (hex_line ofs s)) ≡ ofs
unfolding hex_line
hex_line-offset ofs s h =
    ap (read_hex 0)
      (take_front (print_upper_hex 8 ofs) (b':' ∷ line_rest s) 8 (length-print_upper_hex 8 ofs))
    ∙ read_hex-print_upper_hex 8 ofs h

hex_line-columns :
    (ofs : ℕ) (s : Bytes) → All IsByte s → read_columns 16 (drop 9 (hex_line ofs s)) ≡ take 16 s
unfolding hex_line
hex_line-columns ofs s h =
    ap (read_columns 16)
      (drop_front (print_upper_hex 8 ofs) (line_rest s) b':' 8 (length-print_upper_hex 8 ofs))
    ∙ read_columns-hex_columns 16 s (b' ' ∷ b'|' ∷ b' ' ∷ map printable (take 16 s)) h

All-drop : (n : ℕ) (s : Bytes) → All IsByte s → All IsByte (drop n s)
All-drop zero s h = h
All-drop (suc n) [] h = tt
All-drop (suc n) (c ∷ s) h = All-drop n s h.1

-- The lines of data are all there, and give the data back.
pub hex_lines-rebuild :
    (fuel ofs : ℕ) (s : Bytes)
    → length s ≤ fuel
    → (0 < length s → ofs + length s ≤ 2 ^ 32)
    → All IsByte s
    → (ls : List Bytes) × (hex_lines fuel ofs s ≡ some ls) × (rebuild ofs ls ≡ some s)
unfolding hex_lines rebuild
hex_lines-rebuild fuel ofs [] h fits bytes = ([], refl, refl)
hex_lines-rebuild zero ofs (d ∷ s) h fits bytes = absurd (omega arith)
hex_lines-rebuild (suc fuel) ofs (d ∷ s) h fits bytes =
    let n = length-drop 15 s in
    let (ls, e, whole) =
      hex_lines-rebuild fuel (ofs + 16) (drop 15 s) (omega arith)
        (λ more. omega (arith, fits (omega arith))) (All-drop 15 s bytes.1) in
    let here : (read_hex 0 (take 8 (hex_line ofs (d ∷ s))) == ofs) ≡ true =
      (==_iff _ _).1 (hex_line-offset ofs (d ∷ s) (omega (arith, fits (omega arith)))) in
    (
      hex_line ofs (d ∷ s) ∷ ls,
      rw e refl,
      rw (here, hex_line-columns ofs (d ∷ s) bytes, whole) (ap some (take-append-drop 16 (d ∷ s))),
    )
