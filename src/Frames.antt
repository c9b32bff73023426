-- ===== src/Frames.antt =====
-- lib/core/fgen.c: the list of frames, and loading frame texts.
pub mod Add
pub mod Find
pub mod Load
pub mod Files
pub mod Counts
pub mod Endless
use fgen.Prelude.{
  ℕ, zero, suc, ◌+◌, ◌-◌, ◌%◌, ◌^◌, Bool, true, false, ◌&&◌, Option, none, some, List, [], ◌∷◌,
  ◌++◌, ◌==◌, ◌||◌, if◌then◌else◌, length, set, replicate,
}
use fgen.CString.{Bytes, codes, strncmp_eq, strstr_assign, strlcpy}
use fgen.CString.Number.{print_decimal}
use fgen.Salloc.{HeapAnswer, Salloc, salloc_create}
use fgen.Frame.{Frame, Fgen, Fopt, no_fopt, no_proto, max_layers}
use fgen.Encode.Machine.{Ctx, Outcome, ok, failed, fault, stuck}
use fgen.Encode.Table.{encode_frame}

-- What the heap answers to the four allocations for one frame.
pub record FrameHeap : Type 0 where
  pub calloc_ok : Bool
  pub name_ok : Bool
  pub fstr_ok : Bool
  pub text_ok : Bool
  pub dup_ok : Bool

-- The result of a call: success (0, or the count of `fgen_load_strings`) or -1 with the fgen_t,
-- undefined behaviour, or a `next_layer` out of fuel.
pub data Result : Type 0 where
  done : ℕ → Fgen → Result
  error : Fgen → Result
  undefined unfinished : Result

abbrev new_fgen : ℕ → Option Salloc → Option Fgen
new_fgen flags none = none
new_fgen flags (some s) = some (record {
  head = [];
  flags = flags;
  nb_frames = 0;
  salloc = s;
  nb_layers = 0;
  opts = replicate max_layers no_fopt;
})

-- `fgen_create`; the first argument is the answer to the calloc of the fgen_t.
unfoldable pub fgen_create : Bool → HeapAnswer → ℕ → Option Fgen
unfolding salloc_create
fgen_create calloc_ok h flags = if calloc_ok then new_fgen flags (salloc_create h 0) else none

unfoldable pub find_in : List Frame → Bytes → Option Frame
unfolding strncmp_eq
find_in [] name = none
find_in (f ∷ fs) name =
    let r = find_in fs name in if strncmp_eq f.name name (length name) then some f else r

-- `fgen_find_frame`: the first frame whose name begins with the text.
unfoldable pub fgen_find_frame : Fgen → Bytes → Option Frame
unfolding find_in
fgen_find_frame fg name = find_in fg.head name

abbrev pub new_frame : Bytes → Bytes → Frame
new_frame name fstr = record {
  name = name;
  fstr = fstr;
  data_off = 0;
  data_len = 0;
  tsc_off = 0;
  port = 0;
  l2 = no_proto;
  l3 = no_proto;
  l4 = no_proto;
}

-- `frame_alloc`: the new frame, at the tail of the list; the count is a uint32_t.
unfoldable pub frame_alloc : FrameHeap → Fgen → Bytes → Bytes → Option (Frame × Fgen)
frame_alloc h fg name fstr =
    let f = new_frame name fstr in
    if h.calloc_ok && (h.name_ok && h.fstr_ok)
    then some (f, record fg { nb_frames = (fg.nb_frames + 1) % 2 ^ 32; head = fg.head ++ f ∷ [] })
    else none

-- `frame_free` of the frame at a position of the list.
abbrev pub erase_at : List Frame → ℕ → List Frame
erase_at [] i = []
erase_at (f ∷ fs) zero = fs
erase_at (f ∷ fs) (suc i) = f ∷ erase_at fs i

unfoldable pub frame_free : Fgen → ℕ → Fgen
frame_free fg i = record fg {
  nb_frames = (fg.nb_frames + (2 ^ 32 - 1)) % 2 ^ 32;
  head = erase_at fg.head i;
}

-- The encoder works on the frame in the list, at position i.
abbrev pub put_back : ℕ → Ctx → Fgen
put_back i s = let fg = s.fg in record fg { head = set fg.head i s.frame }

abbrev pub encoded : ℕ → Outcome (Unit {0}) → Result
encoded i (ok a s) = done 0 (put_back i s)
encoded i (failed s) = error (frame_free (put_back i s) i)
encoded i fault = undefined
encoded i stuck = unfinished

abbrev pub encode_new : FrameHeap → Fgen → Option (Frame × Fgen) → Result
encode_new h fg none = error fg
encode_new h fg (some (f, fg')) =
    encoded (length fg.head) (encode_frame h.text_ok (record { frame = f; fg = fg' }))

abbrev pub unless_found : Option Frame → Fgen → Result → Result
unless_found (some f) fg r = error fg
unless_found none fg r = r

-- `_add_frame`; an empty name or text stands for NULL too.
unfoldable pub add_frame : FrameHeap → Fgen → Bytes → Bytes → Result
unfolding fgen_find_frame frame_alloc frame_free encode_frame
add_frame h fg [] fstr = error fg
add_frame h fg (n ∷ name) [] = error fg
add_frame h fg (n ∷ name) (c ∷ fstr) =
    let r = encode_new h fg (frame_alloc h fg (n ∷ name) (c ∷ fstr)) in
    unless_found (fgen_find_frame fg (n ∷ name)) fg r

-- `fgen_add_frame`: none stands for a NULL text.
unfoldable pub fgen_add_frame : FrameHeap → Fgen → Bytes → Option Bytes → Result
unfolding add_frame
fgen_add_frame h fg name none = error fg
fgen_add_frame h fg name (some fstr) = add_frame h fg name fstr

abbrev pub frame_name_length : ℕ
frame_name_length = 32

abbrev is_blank : ℕ → Bool
is_blank c = c == b' ' || (c == b'\t' || c == b'\n')

-- `while ((*s == ' ' || …) && *s != '\0') s++;`
unfoldable pub skip_blank : Bytes → Bytes
skip_blank [] = []
skip_blank (c ∷ s) = let r = skip_blank s in if is_blank c then r else c ∷ s

abbrev pub text_or_none : Bytes → Bytes → Option (Bytes × Bytes)
text_or_none name [] = none
text_or_none name (c ∷ s) = some (name, c ∷ s)

abbrev pub name_of : ℕ → Bytes → Option (Bytes × Bytes) → Option (Bytes × Bytes)
name_of cnt s none = some (codes "frame-" ++ print_decimal cnt, s)
name_of cnt s (some (name, rest)) = text_or_none (strlcpy name frame_name_length) (skip_blank rest)

-- The name and the text of a frame string of `fgen_load_strings`; none for an empty text behind
-- the name.
unfoldable pub split_name : ℕ → Bytes → Option (Bytes × Bytes)
unfolding strstr_assign print_decimal strlcpy skip_blank
split_name cnt s = name_of cnt s (strstr_assign s)

abbrev pub add_named : FrameHeap → Fgen → Option (Bytes × Bytes) → Result
add_named h fg none = error fg
add_named h fg (some (name, text)) = add_frame h fg name text

-- One round of the loop of `fgen_load_strings`.
unfoldable pub load_string : FrameHeap → ℕ → Fgen → Bytes → Result
unfolding split_name add_frame
load_string h cnt fg s = if h.dup_ok then add_named h fg (split_name cnt s) else error fg

-- `fgen_load_strings` on the strings of its array, from the count cnt on.
unfoldable pub load_strings : (ℕ → FrameHeap) → ℕ → Fgen → List Bytes → Result
unfolding load_string
load_strings heap cnt fg [] = done cnt fg
load_strings heap cnt fg (s ∷ ss) = elim (load_string (heap cnt) cnt fg s) [
  | done n fg' ↦ load_strings heap (cnt + 1) fg' ss
  | error fg' ↦ error fg'
  | undefined ↦ undefined
  | unfinished ↦ unfinished
]

unfoldable pub fgen_load_strings : (ℕ → FrameHeap) → Fgen → List Bytes → Result
unfolding load_strings
fgen_load_strings heap fg ss = load_strings heap 0 fg ss
