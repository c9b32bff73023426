-- ===== src/Frames/Load.antt =====
-- `fgen_load_strings`: every string of the array becomes a frame, or the call fails.
use fgen.Prelude.{
  ℕ, suc, ◌+◌, ◌^◌, ◌<◌, ◌≡◌, ap, refl, true, false, Option, none, some, List, [], ◌∷◌, arith,
  length, length-append, if◌then◌else◌, ◌≤◌,
}
use fgen.CString.{Bytes}
use fgen.Frame.{Fgen}
use fgen.Frames.{
  FrameHeap, Result, done, error, undefined, unfinished, add_frame, add_named, split_name,
  load_string, load_strings, fgen_load_strings,
}
use fgen.Frames.Add.{AddSpec, add_frame-AddSpec}
use fgen.Frames.Find.{IsValid, LeavesValid, AddSpec-LeavesValid}

-- One string adds one frame to a valid list, or fails and leaves it valid.
abbrev OneMore : Fgen → Result → Type 0
OneMore fg (done n fg') = IsValid fg' × (length fg'.head ≡ length fg.head + 1)
OneMore fg (error fg') = IsValid fg' × (length fg'.head ≡ length fg.head)
OneMore fg undefined = Unit {0}
OneMore fg unfinished = ⊥

AddSpec-OneMore :
    (fg : Fgen) (name fstr : Bytes) (r : Result)
    → LeavesValid r
    → AddSpec fg name fstr r
    → OneMore fg r
AddSpec-OneMore fg name fstr (done n fg') v a =
    (v, omega (arith, ap length a.head, length-append fg.head (a.added ∷ [])))
AddSpec-OneMore fg name fstr (error fg') v s = (v, ap length s.head)
AddSpec-OneMore fg name fstr undefined v s = tt
AddSpec-OneMore fg name fstr unfinished v s = s

add_named-OneMore :
    (h : FrameHeap) (fg : Fgen) (o : Option (Bytes × Bytes))
    → IsValid fg
    → OneMore fg (add_named h fg o)
add_named-OneMore h fg none v = (v, refl)
add_named-OneMore h fg (some (name, text)) v =
    let spec = add_frame-AddSpec h fg name text in
    AddSpec-OneMore fg name text (add_frame h fg name text) (AddSpec-LeavesValid name text _ v spec)
      spec

load_string-OneMore :
    (h : FrameHeap) (cnt : ℕ) (fg : Fgen) (s : Bytes)
    → IsValid fg
    → OneMore fg (load_string h cnt fg s)
unfolding load_string
load_string-OneMore h cnt fg s v =
    elim h.dup_ok as (λ b. OneMore fg (if b then add_named h fg (split_name cnt s) else error fg)) [
      | true ↦ add_named-OneMore h fg (split_name cnt s) v
      | false ↦ (v, refl)
    ]

-- The result of loading k strings from the count cnt on.
abbrev pub Loads : Fgen → ℕ → ℕ → Result → Type 0
Loads fg cnt k (done n fg') = IsValid fg' × (n ≡ cnt + k) × (length fg'.head ≡ length fg.head + k)
Loads fg cnt k (error fg') =
    IsValid fg' × (length fg.head ≤ length fg'.head) × (length fg'.head ≤ length fg.head + k)
Loads fg cnt k undefined = Unit {0}
Loads fg cnt k unfinished = ⊥

Loads-suc :
    (fg fg' : Fgen) (cnt k : ℕ) (r : Result)
    → length fg'.head ≡ length fg.head + 1
    → Loads fg' (cnt + 1) k r
    → Loads fg cnt (suc k) r
Loads-suc fg fg' cnt k (done n fg'') e l = (l.0, omega arith, omega arith)
Loads-suc fg fg' cnt k (error fg'') e l = (l.0, omega arith, omega arith)
Loads-suc fg fg' cnt k undefined e l = tt
Loads-suc fg fg' cnt k unfinished e l = l

abbrev go_on : (Fgen → Result) → Result → Result
go_on next r = elim r [
  | done n fg' ↦ next fg'
  | error fg' ↦ error fg'
  | undefined ↦ undefined
  | unfinished ↦ unfinished
]

go_on-Loads :
    (fg : Fgen) (cnt k : ℕ) (next : Fgen → Result) (r : Result)
    → ((fg' : Fgen) → IsValid fg' → Loads fg' (cnt + 1) k (next fg'))
    → OneMore fg r
    → Loads fg cnt (suc k) (go_on next r)
go_on-Loads fg cnt k next (done n fg') ih o = Loads-suc fg fg' cnt k (next fg') o.1 (ih fg' o.0)
go_on-Loads fg cnt k next (error fg') ih o = (o.0, omega arith, omega arith)
go_on-Loads fg cnt k next undefined ih o = tt
go_on-Loads fg cnt k next unfinished ih o = o

load_strings-Loads :
    (heap : ℕ → FrameHeap) (cnt : ℕ) (fg : Fgen) (ss : List Bytes)
    → IsValid fg
    → Loads fg cnt (length ss) (load_strings heap cnt fg ss)
unfolding load_strings
load_strings-Loads heap cnt fg [] v = (v, omega arith, omega arith)
load_strings-Loads heap cnt fg (s ∷ ss) v =
    go_on-Loads fg cnt (length ss) (λ fg'. load_strings heap (cnt + 1) fg' ss)
      (load_string (heap cnt) cnt fg s) (λ fg' v'. load_strings-Loads heap (cnt + 1) fg' ss v')
      (load_string-OneMore (heap cnt) cnt fg s v)

-- From a valid list, and for fewer strings than an int counts, `fgen_load_strings` returns the
-- number of strings and the list has as many frames more, or it returns -1 and the list has at most
-- that many more, and the list stays valid in both cases, with a count that is the number of frames
-- modulo 2^32; or the
-- encoder makes an access that C leaves undefined. The fuel of the encoder never runs out.
pub fgen_load_strings-Loads :
    (heap : ℕ → FrameHeap) (fg : Fgen) (ss : List Bytes)
    → IsValid fg
    → length ss < 2 ^ 31
    → Loads fg 0 (length ss) (fgen_load_strings heap fg ss)
unfolding fgen_load_strings
fgen_load_strings-Loads heap fg ss v int = load_strings-Loads heap 0 fg ss v
