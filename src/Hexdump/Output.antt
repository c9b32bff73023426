-- ===== src/Hexdump/Output.antt =====
-- What `fgen_hexdump` prints for data without an opening bracket.
use fgen.Prelude.{
  ℕ, zero, suc, ◌+◌, ◌*◌, ◌/◌, ◌%◌, ◌^◌, ◌≤◌, ◌<◌, ◌≡◌, refl, ap, subst, Bool, true, false, Option,
  some, none, List, [], ◌∷◌, ◌++◌, ◌==◌, length, length-append, length-take, take, drop, All,
  All-append, All-take, arith,
}
use mathlib.Core.List.{map}
use fgen.CString.{Bytes, strchr}
use fgen.Vt100.{vt_color_parse}
use fgen.Vt100.Plain.{Lacks}
use fgen.Vt100.Shown.{strlcpy_fits}
use fgen.Stdio.{Printed, wrote, fgen_vsnprintf, fgen_printf}
use fgen.Stdio.Written.{write_parsed_all}
use fgen.Hexdump.{
  upper_digit, print_upper_hex, hex_columns, printable, hex_line, add_line, hex_lines, title_line,
  Memory, print_text, print_texts, fgen_hexdump,
}
use fgen.Hexdump.Rebuilt.{IsByte, rebuild, length-print_upper_hex, hex_lines-rebuild}

strchr-Lacks : (d : ℕ) (s : Bytes) → Lacks d s → strchr s d ≡ false
unfolding strchr
strchr-Lacks d [] h = refl
strchr-Lacks d (c ∷ s) (other, h) = ground (arith, strchr-Lacks d s h)

-- Text without an opening bracket is printed as it is, if there is memory for the buffer.
pub print_text-Lacks :
    (memory : Memory) (color_on : Bool) (rgb_codes : ℕ → ℕ) (call : ℕ) (s : Bytes)
    → (memory call).0 ≡ true
    → Lacks b'[' s
    → length s < 2048
    → print_text memory color_on rgb_codes call s ≡ wrote s
unfolding print_text fgen_printf fgen_vsnprintf vt_color_parse
print_text-Lacks memory color_on rgb_codes call s there h short =
    rw (there, strlcpy_fits s 2048 short, strchr-Lacks b'[' s h) (write_parsed_all s)

upper_digit-Lacks : (d : ℕ) → d < 16 → (upper_digit d == b'[') ≡ false
upper_digit-Lacks d h = ground arith

print_upper_hex-Lacks : (n v : ℕ) → Lacks b'[' (print_upper_hex n v)
unfolding print_upper_hex
print_upper_hex-Lacks zero v = tt
print_upper_hex-Lacks (suc n) v =
    All-append _ (print_upper_hex n (v / 16)) (upper_digit (v % 16) ∷ [])
      (print_upper_hex-Lacks n (v / 16)) (upper_digit-Lacks (v % 16) (omega arith), tt)

hex_columns-Lacks : (n : ℕ) (s : Bytes) → Lacks b'[' (hex_columns n s)
unfolding hex_columns
hex_columns-Lacks zero s = tt
hex_columns-Lacks (suc n) [] = (refl, (refl, (refl, hex_columns-Lacks n [])))
hex_columns-Lacks (suc n) (d ∷ s) = (
  refl,
  (
    upper_digit-Lacks (d / 16 % 16) (omega arith),
    (upper_digit-Lacks (d % 16) (omega arith), hex_columns-Lacks n s),
  ),
)

length-hex_columns : (n : ℕ) (s : Bytes) → length (hex_columns n s) ≡ 3 * n
unfolding hex_columns
length-hex_columns zero s = refl
length-hex_columns (suc n) [] = omega (arith, length-hex_columns n [])
length-hex_columns (suc n) (d ∷ s) = omega (arith, length-hex_columns n s)

printable-Lacks : (s : Bytes) → Lacks b'[' s → Lacks b'[' (map printable s)
printable-Lacks [] h = tt
printable-Lacks (c ∷ s) (other, h) = (ground arith, printable-Lacks s h)

length-printable : (s : Bytes) → length (map printable s) ≡ length s
length-printable [] = refl
length-printable (c ∷ s) = ap suc (length-printable s)

line_tail : Bytes → Bytes
line_tail s = hex_columns 16 s ++ b' ' ∷ b'|' ∷ b' ' ∷ map printable (take 16 s)

line_tail-Lacks : (s : Bytes) → Lacks b'[' s → Lacks b'[' (line_tail s)
unfolding line_tail
line_tail-Lacks s h =
    let chars = printable-Lacks (take 16 s) (All-take _ 16 s h) in
    All-append _ (hex_columns 16 s) (b' ' ∷ b'|' ∷ b' ' ∷ map printable (take 16 s))
      (hex_columns-Lacks 16 s) (refl, (refl, (refl, chars)))

length-line_tail : (s : Bytes) → length (line_tail s) ≤ 67
unfolding line_tail
length-line_tail s = omega (
  arith,
  length-append (hex_columns 16 s) (b' ' ∷ b'|' ∷ b' ' ∷ map printable (take 16 s)),
  length-hex_columns 16 s,
  length-printable (take 16 s),
  length-take 16 s,
)

hex_line-Lacks : (ofs : ℕ) (s : Bytes) → Lacks b'[' s → Lacks b'[' (hex_line ofs s ++ 10 ∷ [])
unfolding hex_line line_tail
hex_line-Lacks ofs s h =
    let tail : Lacks b'[' (b':' ∷ line_tail s) = (refl, line_tail-Lacks s h) in
    let line : Lacks b'[' (hex_line ofs s) =
      All-append _ (print_upper_hex 8 ofs) (b':' ∷ line_tail s) (print_upper_hex-Lacks 8 ofs)
        tail in
    All-append _ (hex_line ofs s) (10 ∷ []) line (refl, tt)

length-hex_line : (ofs : ℕ) (s : Bytes) → length (hex_line ofs s ++ 10 ∷ []) ≤ 77
unfolding hex_line line_tail
length-hex_line ofs s = omega (
  arith,
  length-append (hex_line ofs s) (10 ∷ []),
  length-append (print_upper_hex 8 ofs) (b':' ∷ line_tail s),
  length-line_tail s,
  length-print_upper_hex 8 ofs,
)

-- A line that is printed as it is.
abbrev Untouched : Bytes → Type 0
Untouched l = Lacks b'[' (l ++ 10 ∷ []) × (length (l ++ 10 ∷ []) < 2048)

abbrev AllUntouched : Option (List Bytes) → Type 0
AllUntouched none = Unit
AllUntouched (some ls) = All Untouched ls

add_line-AllUntouched :
    (l : Bytes) (o : Option (List Bytes))
    → Untouched l
    → AllUntouched o
    → AllUntouched (add_line l o)
add_line-AllUntouched l none h hs = tt
add_line-AllUntouched l (some ls) h hs = (h, hs)

Lacks-drop : (d n : ℕ) (s : Bytes) → Lacks d s → Lacks d (drop n s)
Lacks-drop d zero s h = h
Lacks-drop d (suc n) [] h = tt
Lacks-drop d (suc n) (c ∷ s) h = Lacks-drop d n s h.1

hex_lines-AllUntouched :
    (fuel ofs : ℕ) (s : Bytes) → Lacks b'[' s → AllUntouched (hex_lines fuel ofs s)
unfolding hex_lines
hex_lines-AllUntouched fuel ofs [] h = tt
hex_lines-AllUntouched zero ofs (d ∷ s) h = tt
hex_lines-AllUntouched (suc fuel) ofs (d ∷ s) h =
    add_line-AllUntouched (hex_line ofs (d ∷ s)) (hex_lines fuel (ofs + 16) (drop 15 s))
      (hex_line-Lacks ofs (d ∷ s) h, omega (arith, length-hex_line ofs (d ∷ s)))
      (hex_lines-AllUntouched fuel (ofs + 16) (drop 15 s) (Lacks-drop b'[' 15 s h.1))

-- A line as it is handed to `write`.
abbrev pub written : Bytes → Printed
written l = wrote (l ++ 10 ∷ [])

module _ (memory : Memory) (color_on : Bool) (rgb_codes : ℕ → ℕ)
    (there : (call : ℕ) → (memory call).0 ≡ true) where
  -- Texts without an opening bracket, one call each.
  pub print_texts-Lacks :
      (call : ℕ) (ss : List Bytes)
      → All (λ s. Lacks b'[' s × (length s < 2048)) ss
      → print_texts memory color_on rgb_codes call ss ≡ map wrote ss
  unfolding print_texts
  print_texts-Lacks call [] h = refl
  print_texts-Lacks call (s ∷ ss) ((lacks, short), h) =
      rw
        (
          print_text-Lacks memory color_on rgb_codes call s (there call) lacks short,
          print_texts-Lacks (call + 1) ss h,
        )
        refl

  print_texts-written :
      (call : ℕ) (ls : List Bytes)
      → All Untouched ls
      → print_texts memory color_on rgb_codes call (map (λ l. l ++ 10 ∷ []) ls) ≡ map written ls
  unfolding print_texts
  print_texts-written call [] h = refl
  print_texts-written call (l ∷ ls) ((lacks, short), h) =
      rw
        (
          print_text-Lacks memory color_on rgb_codes call (l ++ 10 ∷ []) (there call) lacks short,
          print_texts-written (call + 1) ls h,
        )
        refl

  -- Where the buffer of each call of `fgen_fprintf` is allocated, `fgen_hexdump` of data that holds
  -- no opening bracket and has at most 2 ^ 32 - 16 bytes hands `fgen_fprintf` a first text with the
  -- address and the length, and then lines that are written as they are, in one call each, from whose
  -- offsets and columns the data can be read back.
  pub fgen_hexdump-rebuild :
      (titled : Bool) (address buf : Bytes)
      → All IsByte buf
      → Lacks b'[' buf
      → length buf + 16 ≤ 2 ^ 32
      → (ls : List Bytes) × (fgen_hexdump memory color_on rgb_codes titled address buf
          ≡ some (
              print_text memory color_on rgb_codes 0 (title_line titled address (length buf))
              ∷ map written ls))
        × (rebuild 0 ls ≡ some buf)
  unfolding fgen_hexdump print_texts
  fgen_hexdump-rebuild titled address buf bytes lacks fits =
      let (ls, e, whole) =
        hex_lines-rebuild (length buf) 0 buf (omega arith) (λ more. omega arith) bytes in
      let untouched : All Untouched ls =
        subst AllUntouched e (hex_lines-AllUntouched (length buf) 0 buf lacks) in
      (ls, rw (e, print_texts-written 1 ls untouched) refl, whole)
