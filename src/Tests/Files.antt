-- ===== src/Tests/Files.antt =====
-- Masks, quoted text, options, files, sizes and addresses at concrete inputs.
use mathlib.Core.Option.{some-injective}
use fgen.Prelude.{
  ℕ, zero, suc, ◌≤◌, true, false, Option, none, some, ltb, if◌then◌else◌, get_elem?, List, [], ◌∷◌,
  length, replicate, ◌≡◌, refl, arith,
}
use fgen.CString.{
  Bytes, codes, isspace, strchr, strcmp_eq, strtok_r, span_to, skip_set, strstr_assign, strlcpy,
}
use fgen.CString.Number.{digit_value, skip_space}
use fgen.CString.Unsigned.{strtoull, behind_space, magnitude_of, take_digits}
use fgen.Common.Size.{str_to_size}
use fgen.Ether.Address.{
  ether_addr_is_valid_assigned, ether_random_addr, ether_addr_is_unicast, ether_addr_is_zero,
  addr_word, ether_addr_swap, swap_words, ether_swap, fgen_ether_aton, aton_words,
}
use fgen.Strings.{strtrim, trim_front, trim_back, fgen_strtok, strtok_loop}
use fgen.Strings.Mask.{mask_size, mask_loop}
use fgen.Strings.Quoted.{quote_step, strqtok_loop, fgen_strqtok, entries, overrun}
use fgen.Strings.Quoted.Entries.{fgen_strqtok-entries}
use fgen.Strings.Search.{fgen_stropt, skip_marker, search_in, index_in, index_from}
use fgen.Frame.{Fgen, no_fopt, max_layers}
use fgen.Frames.{FrameHeap, error}
use fgen.Frames.Files.{
  fgets, cut_comment, front_space, frame_at, frame_or, frame_in, find_loop, find_next_frame, eof,
  found, append_line, gather_line, gather_in, gather_loop, get_frame_string, text, fgen_load_files,
}
use fgen.Frames.Endless.{fgen_load_files-fails}

mask_size_run : mask_size 0xfffffe00 ≡ 23
unfolding mask_size mask_loop
mask_size_run = refl

fgen_strqtok_run :
    fgen_strqtok (codes " load 'a b' {c, d}") (codes " ") 8
    ≡ entries (codes "load" ∷ codes "a b" ∷ codes "c, d" ∷ [])
unfolding fgen_strqtok strqtok_loop quote_step strtrim trim_front trim_back isspace strchr
fgen_strqtok_run = refl

-- A backslash loses what its word has before it, and one at the end is read past.
backslash_run : fgen_strqtok (codes "ab\\cd") (codes " ") 8 ≡ entries (codes "cd" ∷ [])
unfolding fgen_strqtok strqtok_loop quote_step strtrim trim_front trim_back isspace strchr
backslash_run = refl

backslash_overrun : fgen_strqtok (codes "ab\\") (codes " ") 8 ≡ overrun
unfolding fgen_strqtok strqtok_loop quote_step strtrim trim_front trim_back isspace strchr
backslash_overrun = refl

fgen_strqtok-entries_example :
    (ws : List Bytes) × (fgen_strqtok (codes "a 'b") (codes " ") 2 ≡ entries ws)
    × (1 ≤ length ws)
    × (length ws ≤ 2)
fgen_strqtok-entries_example =
    fgen_strqtok-entries (codes "a 'b") (codes " ") 2 (omega arith)
      (refl, (refl, (refl, (refl, tt))))

fgen_stropt_run : fgen_stropt (codes "%|on | off") (codes "off") (codes "|") ≡ some 1
unfolding fgen_stropt skip_marker search_in index_in index_from fgen_strtok strtok_loop strtok_r
    span_to skip_set strchr strtrim trim_front trim_back isspace strcmp_eq
fgen_stropt_run = refl

abbrev file_text : Bytes
file_text = codes "// frames\nPort0 := Ether()/ // first\n  IPv4()\nPort1:=UDP()\n"

find_next_frame_run :
    find_next_frame file_text
    ≡ found (codes "Port0 ") (codes "Ether()/ // first\n  IPv4()\nPort1:=UDP()\n")
unfolding find_next_frame find_loop fgets cut_comment frame_in frame_or frame_at front_space strtrim
    trim_front trim_back isspace strstr_assign strlcpy
find_next_frame_run = refl

get_frame_string_run :
    get_frame_string (codes "Ether()/ // first\n  IPv4()\nPort1:=UDP()\n")
    ≡ text (codes "Ether()/IPv4()") 14 (codes "Port1:=UDP()\n")
unfolding get_frame_string gather_loop gather_in gather_line append_line fgets cut_comment strtrim
    trim_front trim_back isspace strstr_assign
get_frame_string_run = refl

abbrev no_frames : Fgen
no_frames = record {
  head = [];
  flags = 0;
  nb_frames = 0;
  salloc = record { ptr = some (replicate 64 0); size = 64; used = 0 };
  nb_layers = 0;
  opts = replicate max_layers no_fopt;
}

abbrev ready : FrameHeap
ready = record { calloc_ok = true; name_ok = true; fstr_ok = true; text_ok = true; dup_ok = true }

-- A system on which 1,000 files can be open.
abbrev opened_before : List Bytes → ℕ → ℕ → Option Bytes
opened_before files round cnt = if ltb round 1000 then get_elem? files cnt else none

comment_only : find_next_frame (codes "// nothing\n") ≡ eof
unfolding find_next_frame find_loop fgets cut_comment frame_in frame_or frame_at front_space strtrim
    trim_front trim_back isspace strstr_assign strlcpy
comment_only = refl

empty_file : find_next_frame [] ≡ eof
unfolding find_next_frame find_loop fgets
empty_file = refl

abbrev two_empty : List Bytes
two_empty = codes "// nothing\n" ∷ [] ∷ []

two_empty-eof : (i : ℕ) (s : Bytes) → get_elem? two_empty i ≡ some s → find_next_frame s ≡ eof
two_empty-eof zero s e = rw (← some-injective _ _ e) comment_only
two_empty-eof (suc zero) s e = rw (← some-injective _ _ e) empty_file
two_empty-eof (suc (suc i)) s e = absurd cc

two_empty-opened :
    (round cnt : ℕ) (s : Bytes)
    → opened_before two_empty round cnt ≡ some s
    → find_next_frame s ≡ eof
two_empty-opened round cnt s =
    elim (ltb round 1000)
      as (λ b. (if b then get_elem? two_empty cnt else none) ≡ some s → find_next_frame s ≡ eof) [
        | true ↦ λ e. two_empty-eof cnt s e
        | false ↦ λ e. absurd cc
      ]

fgen_load_files-fails_example :
    fgen_load_files (λ round i. ready) (opened_before two_empty) 2 1001 no_frames ≡ error no_frames
fgen_load_files-fails_example =
    fgen_load_files-fails (λ round i. ready) (opened_before two_empty) 2 (omega arith)
      two_empty-opened 1000 no_frames (λ cnt. refl)

str_to_size_run : str_to_size (codes " 0x10 k") ≡ 16384
unfolding str_to_size strtoull skip_space behind_space magnitude_of take_digits digit_value isspace
str_to_size_run = refl

fgen_ether_aton_run :
    fgen_ether_aton (codes "0011:a2ff:0405") ≡ some (0 ∷ 17 ∷ 162 ∷ 255 ∷ 4 ∷ 5 ∷ [])
unfolding fgen_ether_aton aton_words strtoull skip_space behind_space magnitude_of take_digits
    digit_value isspace
fgen_ether_aton_run = refl

ether_addr_swap_run :
    ether_addr_swap (1 ∷ 2 ∷ 3 ∷ 4 ∷ 5 ∷ 6 ∷ []) (7 ∷ 8 ∷ 9 ∷ 10 ∷ 11 ∷ 12 ∷ [])
    ≡ (7 ∷ 8 ∷ 9 ∷ 10 ∷ 11 ∷ 12 ∷ [], 1 ∷ 2 ∷ 3 ∷ 4 ∷ 5 ∷ 6 ∷ [])
unfolding ether_addr_swap swap_words ether_swap
ether_addr_swap_run = refl

ether_random_addr_run : ether_addr_is_valid_assigned (ether_random_addr 0x123457) ≡ true
unfolding ether_addr_is_valid_assigned ether_random_addr ether_addr_is_unicast ether_addr_is_zero
    addr_word
ether_random_addr_run = refl
