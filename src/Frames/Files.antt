-- ===== src/Frames/Files.antt =====
-- lib/core/fgen.c: loading frames from files, walking the list, and destroying it. A file is the
-- list of its bytes, without NUL; a position in it is the list of the bytes from there on.
use fgen.Prelude.{
  ℕ, zero, suc, ◌+◌, ◌-◌, Bool, true, false, ◌&&◌, Option, none, some, [], ◌∷◌, ◌++◌, ◌==◌,
  if◌then◌else◌, ltb, length, get_elem?, take, drop,
}
use fgen.CString.{Bytes, codes, isspace, cons_head, strstr_assign, strlcpy}
use fgen.CString.Number.{print_decimal}
use fgen.Strings.{trim_front, strtrim}
use fgen.Frame.{Frame, Fgen}
use fgen.Frames.{
  FrameHeap, Result, done, error, undefined, unfinished, add_frame, frame_free, frame_name_length,
}

abbrev pub line_size : ℕ
line_size = 4096

abbrev pub take_line : ℕ → Bytes → Bytes × Bytes
take_line zero s = ([], s)
take_line (suc n) [] = ([], [])
take_line (suc n) (c ∷ s) =
    let r = take_line n s in if c == b'\n' then (c ∷ [], s) else cons_head c r

-- `fgets` into a buffer of FGEN_MAX_STRING_LENGTH bytes: the line and what is behind it.
unfoldable pub fgets : Bytes → Option (Bytes × Bytes)
fgets [] = none
fgets (c ∷ s) = some (take_line (line_size - 1) (c ∷ s))

-- The line up to the first "//".
unfoldable pub cut_comment : Bytes → Bytes
cut_comment [] = []
cut_comment (c ∷ []) = c ∷ []
cut_comment (c ∷ d ∷ s) =
    let r = cut_comment (d ∷ s) in if c == b'/' && d == b'/' then [] else c ∷ r

-- How far `strtrim` advances the pointer.
unfoldable pub front_space : Bytes → ℕ
unfolding trim_front
front_space s = length s - length (trim_front isspace s)

-- What `find_next_frame` returns: -1 at the end of the file, or 1 with the name and the position
-- behind ":="; or it is still searching, out of fuel.
pub data NextFrame : Type 0 where
  eof : NextFrame
  found : Bytes → Bytes → NextFrame
  searching : NextFrame

unfoldable pub frame_at : Bytes → Bytes → Bytes × Bytes → NextFrame
unfolding front_space strlcpy
frame_at s line (before, after) =
    found (strlcpy before (frame_name_length + 1))
      (drop (front_space line + length before + 2 + front_space after) s)

unfoldable pub frame_or : Bytes → Bytes → NextFrame → Option (Bytes × Bytes) → NextFrame
unfolding frame_at
frame_or s line next none = next
frame_or s line next (some parts) = frame_at s line parts

-- A line, from the position s, in which a frame may start.
unfoldable pub frame_in : Bytes → Bytes → NextFrame → NextFrame
unfolding strtrim strstr_assign frame_or
frame_in s line next =
    let p = strtrim line in
    if ltb (length p) 2 then next else frame_or s line next (strstr_assign p)

unfoldable pub find_loop : ℕ → Bytes → NextFrame
unfolding fgets cut_comment frame_in
find_loop zero s = searching
find_loop (suc fuel) s = elim (fgets s) [
  | none ↦ eof
  | some (line, rest) ↦ frame_in s (cut_comment line) (find_loop fuel rest)
]

-- `find_next_frame` from a position: a round for each byte is enough.
unfoldable pub find_next_frame : Bytes → NextFrame
unfolding find_loop
find_next_frame s = find_loop (suc (length s)) s

-- What `get_frame_string` returns: the text with its length and the position behind it; or it has
-- read behind the end of the text's buffer; or it is out of fuel.
pub data FrameText : Type 0 where
  text : Bytes → ℕ → Bytes → FrameText
  overrun : FrameText
  reading : FrameText

-- `strlcat` to a text in a buffer of FGEN_MAX_STRING_LENGTH bytes: the text, and the result.
abbrev pub strlcat_text : Bytes → Bytes → Bytes × ℕ
strlcat_text str p = (take (line_size - 1) (str ++ p), length str + length p)

abbrev pub is_slash : Option ℕ → Bool
is_slash none = false
is_slash (some c) = c == b'/'

-- The line p is appended, and a '/' behind it.
unfoldable pub append_line : Bytes → Bytes → Option (Bytes × ℕ)
append_line str p =
    let (str', slen) = strlcat_text str p in
    if ltb line_size slen
    then none
    else if is_slash (get_elem? str' (slen - 1))
    then some (str', slen)
    else some (strlcat_text str' (b'/' ∷ []))

-- `if (slen) str[--slen] = '\0';`
abbrev pub strip_slash : Bytes → ℕ → Bytes → FrameText
strip_slash str zero s = text str 0 s
strip_slash str (suc slen) s = text (take slen str) slen s

abbrev pub has_assign : Option (Bytes × Bytes) → Bool
has_assign none = false
has_assign (some parts) = true

-- The branches of the loop, where `again` is its next round.
abbrev pub gather_more : (Bytes → ℕ → FrameText) → Option (Bytes × ℕ) → FrameText
gather_more again none = overrun
gather_more again (some (str, slen)) = again str slen

unfoldable pub gather_line : Bool → (Bytes → ℕ → FrameText) → Bytes → ℕ → Bytes → Bytes → FrameText
unfolding append_line
gather_line true again str slen s p = strip_slash str slen s
gather_line false again str slen s p = gather_more again (append_line str p)

unfoldable pub gather_in : Bool → (Bytes → ℕ → FrameText) → Bytes → ℕ → Bytes → Bytes → FrameText
unfolding gather_line strstr_assign
gather_in true again str slen s p = again str slen
gather_in false again str slen s p = gather_line (has_assign (strstr_assign p)) again str slen s p

unfoldable pub gather_loop : ℕ → Bytes → ℕ → Bytes → FrameText
unfolding fgets cut_comment strtrim gather_in
gather_loop zero str slen s = reading
gather_loop (suc fuel) str slen s = elim (fgets s) [
  | none ↦ strip_slash str slen s
  | some (line, rest) ↦
      let p = strtrim (cut_comment line) in
      gather_in (length p == 0) (λ str' slen'. gather_loop fuel str' slen' rest) str slen s p
]

-- `get_frame_string` from a position, into an empty text.
unfoldable pub get_frame_string : Bytes → FrameText
unfolding gather_loop
get_frame_string s = gather_loop (suc (length s)) [] 0 s

abbrev pub or_numbered : ℕ → Bytes → Bytes
or_numbered cnt [] = codes "Frame-" ++ print_decimal cnt
or_numbered cnt (c ∷ name) = c ∷ name

-- What follows `find_next_frame`, `get_frame_string` and `_add_frame` in the inner loop.
abbrev pub with_frame : ℕ → Fgen → NextFrame → (Bytes → Bytes → Result) → Result
with_frame cnt fg searching next = unfinished
with_frame cnt fg eof next = done cnt fg
with_frame cnt fg (found name s) next = next name s

abbrev pub with_text : ℕ → Fgen → FrameText → (Bytes → Bytes → Result) → Result
with_text cnt fg reading next = unfinished
with_text cnt fg overrun next = undefined
with_text cnt fg (text str zero s) next = done cnt fg
with_text cnt fg (text str (suc slen) s) next = next str s

abbrev pub if_done : Result → (ℕ → Fgen → Result) → Result
if_done (done n fg) next = next n fg
if_done (error fg) next = error fg
if_done undefined next = undefined
if_done unfinished next = unfinished

-- The inner loop of `fgen_load_files` over the frames of a file.
unfoldable pub load_frames : ℕ → (ℕ → FrameHeap) → ℕ → Fgen → Bytes → Result
unfolding find_next_frame get_frame_string print_decimal add_frame
load_frames zero heap cnt fg s = unfinished
load_frames (suc fuel) heap cnt fg s = with_frame cnt fg (find_next_frame s) (λ name s'.
    with_text cnt fg (get_frame_string s') (λ str s''.
      if_done (add_frame (heap cnt) fg (or_numbered cnt name) str)
        (λ n fg'. load_frames fuel heap (cnt + 1) fg' s'')))

-- The rounds of the inner loop for one file, from its first byte; the number is what they leave in
-- `cnt`. A round for each byte is enough.
unfoldable pub file_frames : (ℕ → FrameHeap) → Fgen → Bytes → Result
unfolding load_frames
file_frames heap fg s = load_frames (suc (length s)) heap 0 fg s

-- The result of `fopen`, and what is done with the file.
abbrev pub opened : Fgen → Option Bytes → (Bytes → Result) → Result
opened fg none load = error fg
opened fg (some s) load = load s

module _ (heap : ℕ → ℕ → FrameHeap) (open_file : ℕ → ℕ → Option Bytes) (nb_files : ℕ) where
  -- The outer loop of `fgen_load_files`, with at most `fuel` rounds: the inner loop leaves its own
  -- count in `cnt`. `open_file` is the text of the file at a place, where `fopen` opens it in a
  -- round: no file is closed, so `fopen` may fail for a file that it opened before. `heap` is of the
  -- round and the frame. The number returned is the count of the whole list, a uint32_t, which
  -- C converts to an int.
  unfoldable pub load_files : ℕ → ℕ → ℕ → Fgen → Result
  unfolding file_frames
  load_files zero round cnt fg = unfinished
  load_files (suc fuel) round cnt fg =
      let load = opened fg (open_file round cnt) (λ s.
        if_done (file_frames (heap round) fg s)
          (λ cnt' fg'. load_files fuel (round + 1) (cnt' + 1) fg')) in
      if ltb cnt nb_files then load else done fg.nb_frames fg

  -- `fgen_load_files`.
  unfoldable pub fgen_load_files : ℕ → Fgen → Result
  unfolding load_files
  fgen_load_files fuel fg = load_files fuel 0 0 fg

-- `fgen_next_frame` from the frame at a position of the list, or none for NULL.
unfoldable pub fgen_next_frame : Fgen → Option ℕ → Option Frame
fgen_next_frame fg none = get_elem? fg.head 0
fgen_next_frame fg (some i) = get_elem? fg.head (i + 1)

-- The loop of `fgen_destroy` over so many frames.
unfoldable pub free_frames : ℕ → Fgen → Fgen
unfolding frame_free
free_frames zero fg = fg
free_frames (suc n) fg = free_frames n (frame_free fg 0)

unfoldable pub fgen_destroy : Fgen → Fgen
unfolding free_frames
fgen_destroy fg = free_frames (length fg.head) fg
