-- ===== src/Hexdump/Joined.antt =====
-- What `fgen_memdump` prints, whatever the length of its line buffer cuts it into.
use fgen.Prelude.{
  ℕ, zero, suc, ◌-◌, ◌≤◌, ◌<◌, ◌≡◌, refl, ◌∙◌, ap, true, false, List, [], ◌∷◌, ◌++◌, append_assoc,
  append-nil, leb, if_cases, if_both, Bool, All-append, none, ◌/◌, ◌==◌, length, length-append, All,
  arith,
}
use mathlib.Core.List.{map}
use fgen.CString.{Bytes}
use fgen.Decode.Format.{print_hex_fixed}
use fgen.Stdio.{wrote}
use fgen.Vt100.Plain.{Lacks}
use fgen.Hexdump.{dump_byte, memdump_loop, line_len, Memory, fgen_memdump}
use fgen.Hexdump.Output.{print_texts-Lacks}

-- The texts of a list, with a colon between two of them.
unfoldable pub joined : List Bytes → Bytes
joined [] = []
joined (t ∷ []) = t
joined (t ∷ u ∷ ts) = t ++ b':' ∷ joined (u ∷ ts)

unfoldable pub concat : List Bytes → Bytes
concat [] = []
concat (t ∷ ts) = t ++ concat ts

dump_byte-joined :
    (d : ℕ) (s : Bytes)
    → dump_byte d s ++ joined (map (print_hex_fixed 2) s) ≡ joined (map (print_hex_fixed 2) (d ∷ s))
unfolding dump_byte joined
dump_byte-joined d [] = append-nil (print_hex_fixed 2 d)
dump_byte-joined d (e ∷ s) =
    append_assoc (print_hex_fixed 2 d) (b':' ∷ []) (joined (map (print_hex_fixed 2) (e ∷ s)))

length-dump_byte : (d : ℕ) (s : Bytes) → length (dump_byte d s) ≤ 3
unfolding dump_byte print_hex_fixed
length-dump_byte d [] = omega arith
length-dump_byte d (e ∷ s) = omega arith

concat-memdump_loop :
    (s line : Bytes) → concat (memdump_loop s line) ≡ line ++ joined (map (print_hex_fixed 2) s)
unfolding concat memdump_loop joined
concat-memdump_loop [] [] = refl
concat-memdump_loop [] (c ∷ line) = refl
concat-memdump_loop (d ∷ s) line =
    let whole = dump_byte-joined d s in
    if_cases (λ ls. concat ls ≡ line ++ joined (map (print_hex_fixed 2) (d ∷ s)))
      (leb (line_len - 4) (length line))
      (λ full. ap (λ t. line ++ t) (concat-memdump_loop s (dump_byte d s) ∙ whole))
      (λ room.
        concat-memdump_loop s (line ++ dump_byte d s)
        ∙ append_assoc line (dump_byte d s) (joined (map (print_hex_fixed 2) s))
        ∙ ap (λ t. line ++ t) whole)

-- A text that the line buffer holds, with its NUL.
abbrev pub HasRoom : Bytes → Type 0
HasRoom line = length line < line_len

memdump_loop-HasRoom : (s line : Bytes) → HasRoom line → All HasRoom (memdump_loop s line)
unfolding memdump_loop
memdump_loop-HasRoom [] [] h = tt
memdump_loop-HasRoom [] (c ∷ line) h = (h, tt)
memdump_loop-HasRoom (d ∷ s) line h =
    if_cases (All HasRoom) (leb (line_len - 4) (length line))
      (λ full. (h, memdump_loop-HasRoom s (dump_byte d s) (omega (arith, length-dump_byte d s))))
      (λ room.
        memdump_loop-HasRoom s (line ++ dump_byte d s)
          (ground (arith, length-append line (dump_byte d s), length-dump_byte d s)))

print_hex_fixed-Lacks : (n v : ℕ) → Lacks b'[' (print_hex_fixed n v)
unfolding print_hex_fixed
print_hex_fixed-Lacks zero v = tt
print_hex_fixed-Lacks (suc n) v =
    All-append _ (print_hex_fixed n (v / 16)) _ (print_hex_fixed-Lacks n (v / 16))
      (ground arith, tt)

dump_byte-Lacks : (d : ℕ) (s : Bytes) → Lacks b'[' (dump_byte d s)
unfolding dump_byte
dump_byte-Lacks d [] = print_hex_fixed-Lacks 2 d
dump_byte-Lacks d (e ∷ s) =
    All-append (λ c. (c == b'[') ≡ false) (print_hex_fixed 2 d) (b':' ∷ [])
      (print_hex_fixed-Lacks 2 d) (refl, tt)

memdump_loop-Lacks : (s line : Bytes) → Lacks b'[' line → All (Lacks b'[') (memdump_loop s line)
unfolding memdump_loop
memdump_loop-Lacks [] [] h = tt
memdump_loop-Lacks [] (c ∷ line) h = (h, tt)
memdump_loop-Lacks (d ∷ s) line h =
    if_both (All (Lacks b'[')) (leb (line_len - 4) (length line))
      (h, memdump_loop-Lacks s (dump_byte d s) (dump_byte-Lacks d s))
      (memdump_loop-Lacks s (line ++ dump_byte d s)
        (All-append _ line (dump_byte d s) h (dump_byte-Lacks d s)))

shown_lines :
    (ls : List Bytes)
    → All (Lacks b'[') ls
    → All HasRoom ls
    → All (λ s. Lacks b'[' s × (length s < 2048)) (ls ++ (10 ∷ []) ∷ [])
shown_lines [] h k = (((refl, tt), omega arith), tt)
shown_lines (l ∷ ls) (lacks, h) (room, k) = ((lacks, omega arith), shown_lines ls h k)

-- Where the buffer of each call of `fgen_fprintf` is allocated, `fgen_memdump` without a title writes
-- lines that fit its line buffer, and a newline; together the lines are the bytes in two hexadecimal
-- digits each, with a colon between two of them: the places where the line buffer fills up do not
-- show.
pub fgen_memdump-joined :
    (memory : Memory) (color_on : Bool) (rgb_codes : ℕ → ℕ) (buf : Bytes)
    → ((call : ℕ) → (memory call).0 ≡ true)
    → (ls : List Bytes) × (fgen_memdump memory color_on rgb_codes none buf
        ≡ map wrote (ls ++ (10 ∷ []) ∷ []))
      × (concat ls ≡ joined (map (print_hex_fixed 2) buf))
      × All HasRoom ls
unfolding fgen_memdump
fgen_memdump-joined memory color_on rgb_codes buf there =
    let fits = memdump_loop-HasRoom buf [] (omega arith) in
    let shown = shown_lines (memdump_loop buf []) (memdump_loop-Lacks buf [] tt) fits in
    (
      memdump_loop buf [],
      print_texts-Lacks memory color_on rgb_codes there 0 (memdump_loop buf [] ++ (10 ∷ []) ∷ [])
          shown,
      concat-memdump_loop buf [],
      fits,
    )
