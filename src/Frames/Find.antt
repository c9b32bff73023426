-- ===== src/Frames/Find.antt =====
-- Looking frames up by name, and the invariant of the list of frames.
use fgen.Prelude.{
  ℕ, zero, suc, ◌%◌, ◌^◌, ◌≡◌, refl, ap, ◌∙◌, sym, true, false, none, some, List, [], ◌∷◌, ◌++◌,
  arith, length, if◌then◌else◌, get_elem?, length-append, append_assoc, append-nil,
}
use fgen.CString.{Bytes, strncmp_eq}
use fgen.Frame.{Frame, Fgen}
use fgen.Frames.{
  FrameHeap, Result, done, error, undefined, unfinished, find_in, fgen_find_frame, add_frame,
}
use fgen.Frames.Add.{Appends, SameFrames, AddSpec, add_frame-AddSpec}

strncmp_eq_self : (a : Bytes) → strncmp_eq a a (length a) ≡ true
unfolding strncmp_eq
strncmp_eq_self [] = refl
strncmp_eq_self (x ∷ a) = ground (arith, strncmp_eq_self a)

-- A search goes on in the second list only if the first has no match.
find_in-append_some :
    (xs ys : List Frame) (name : Bytes) {f : Frame}
    → find_in xs name ≡ some f
    → find_in (xs ++ ys) name ≡ some f
unfolding find_in
find_in-append_some [] ys name h = cc
find_in-append_some (x ∷ xs) ys name {f} h =
    elim (strncmp_eq x.name name (length name))
        as (λ b.
          (if b then some x else find_in xs name) ≡ some f
          → (if b then some x else find_in (xs ++ ys) name) ≡ some f) [
            | true ↦ λ e. e
            | false ↦ λ e. find_in-append_some xs ys name e
          ]
      h

find_in-append_none :
    (xs ys : List Frame) (name : Bytes)
    → find_in xs name ≡ none
    → find_in (xs ++ ys) name ≡ find_in ys name
unfolding find_in
find_in-append_none [] ys name h = refl
find_in-append_none (x ∷ xs) ys name h = ground (arith, find_in-append_none xs ys name)

find_in-own : (f : Frame) (fs : List Frame) → find_in (f ∷ fs) f.name ≡ some f
unfolding find_in
find_in-own f fs = ground (arith, strncmp_eq_self f.name)

-- Each name was unused when its frame was added behind the frames `seen`.
abbrev pub EachFresh : List Frame → List Frame → Type 0
EachFresh seen [] = Unit {0}
EachFresh seen (f ∷ fs) = (find_in seen f.name ≡ none) × EachFresh (seen ++ f ∷ []) fs

-- The count, a uint32_t, is the number of frames modulo 2^32, and no frame hides a later one.
pub record IsValid (fg : Fgen) : Type 0 where
  pub counted : fg.nb_frames % 2 ^ 32 ≡ length fg.head % 2 ^ 32
  pub fresh : EachFresh [] fg.head

EachFresh-snoc :
    (seen xs : List Frame) (f : Frame)
    → EachFresh seen xs
    → find_in (seen ++ xs) f.name ≡ none
    → EachFresh seen (xs ++ f ∷ [])
EachFresh-snoc seen [] f h free = (rw append-nil at free, tt)
EachFresh-snoc seen (x ∷ xs) f h free = (
  h.0,
  EachFresh-snoc (seen ++ x ∷ []) xs f h.1
      (ap (λ l. find_in l f.name) (append_assoc seen (x ∷ []) xs) ∙ free),
)

Appends-IsValid :
    {fg fg' : Fgen} {name fstr : Bytes} → IsValid fg → Appends fg name fstr fg' → IsValid fg'
unfolding fgen_find_frame
Appends-IsValid {fg} {name} v a = record {
  counted =
      omega (arith, a.nb_frames, v.counted, ap length a.head, length-append fg.head (a.added ∷ []));
  fresh =
      rw (a.head)
        (EachFresh-snoc [] fg.head a.added v.fresh (ap (find_in fg.head) a.has_name ∙ a.unused));
}

SameFrames-IsValid : {fg fg' : Fgen} → IsValid fg → SameFrames fg fg' → IsValid fg'
SameFrames-IsValid v s = record {
  counted = omega (arith, s.nb_frames, v.counted, ap length s.head);
  fresh = rw (s.head) v.fresh;
}

-- The fgen_t that a call leaves is valid, unless the call is undefined.
abbrev pub LeavesValid : Result → Type 0
LeavesValid (done n fg) = IsValid fg
LeavesValid (error fg) = IsValid fg
LeavesValid undefined = Unit {0}
LeavesValid unfinished = ⊥

pub AddSpec-LeavesValid :
    {fg : Fgen} (name fstr : Bytes) (r : Result)
    → IsValid fg
    → AddSpec fg name fstr r
    → LeavesValid r
AddSpec-LeavesValid name fstr (done n fg') v a = Appends-IsValid v a
AddSpec-LeavesValid name fstr (error fg') v s = SameFrames-IsValid v s
AddSpec-LeavesValid name fstr undefined v s = tt
AddSpec-LeavesValid name fstr unfinished v s = s

-- `_add_frame` keeps a valid list valid, when it returns 0 and when it returns -1: the count, a
-- uint32_t, is the number of frames modulo 2^32, and each name was unused when its frame was added.
pub add_frame-LeavesValid :
    (h : FrameHeap) (fg : Fgen) (name fstr : Bytes)
    → IsValid fg
    → LeavesValid (add_frame h fg name fstr)
add_frame-LeavesValid h fg name fstr v =
    AddSpec-LeavesValid name fstr (add_frame h fg name fstr) v (add_frame-AddSpec h fg name fstr)

find_in-at :
    (seen xs : List Frame) (i : ℕ) {f : Frame}
    → EachFresh seen xs
    → get_elem? xs i ≡ some f
    → find_in (seen ++ xs) f.name ≡ some f
find_in-at seen [] i h e = cc
find_in-at seen (x ∷ xs) zero {f} h e =
    ground (arith, find_in-append_none seen (x ∷ xs) x.name, find_in-own x xs, h.0)
find_in-at seen (x ∷ xs) (suc i) {f} h e =
    ap (λ l. find_in l f.name) (sym (append_assoc seen (x ∷ []) xs))
    ∙ find_in-at (seen ++ x ∷ []) xs i h.1 e

-- In a valid list, `fgen_find_frame` with the name of any frame finds that frame, although it
-- compares only as many bytes as the name has.
pub fgen_find_frame-own :
    (fg : Fgen) (i : ℕ) (f : Frame)
    → IsValid fg
    → get_elem? fg.head i ≡ some f
    → fgen_find_frame fg f.name ≡ some f
unfolding fgen_find_frame
fgen_find_frame-own fg i f v e = find_in-at [] fg.head i v.fresh e

-- What a search for the name finds once a frame of the name and the text was added.
pub record Finds (name fstr : Bytes) (fg' : Fgen) : Type 0 where
  pub found : Frame
  pub by_name : fgen_find_frame fg' name ≡ some found
  pub has_text : found.fstr ≡ fstr

module _ {fg fg' : Fgen} {name fstr : Bytes} where
  Appends-Finds : Appends fg name fstr fg' → Finds name fstr fg'
  unfolding fgen_find_frame
  Appends-Finds a = record {
    found = a.added;
    by_name =
        ap (λ l. find_in l name) a.head
        ∙ find_in-append_none fg.head (a.added ∷ []) name a.unused
        ∙ ap (find_in (a.added ∷ [])) (sym a.has_name)
        ∙ find_in-own a.added [];
    has_text = a.has_text;
  }

  Appends-keeps_found :
      (other : Bytes) (g : Frame)
      → Appends fg name fstr fg'
      → fgen_find_frame fg other ≡ some g
      → fgen_find_frame fg' other ≡ some g
  unfolding fgen_find_frame
  Appends-keeps_found other g a e =
      ap (λ l. find_in l other) a.head ∙ find_in-append_some fg.head (a.added ∷ []) other e

-- After a successful `_add_frame` the name finds a frame of the given text.
pub add_frame-Finds :
    (h : FrameHeap) (fg : Fgen) (name fstr : Bytes) (n : ℕ) (fg' : Fgen)
    → add_frame h fg name fstr ≡ done n fg'
    → Finds name fstr fg'
add_frame-Finds h fg name fstr n fg' e = Appends-Finds (rw e at (add_frame-AddSpec h fg name fstr))

-- After a successful `_add_frame` every search that found a frame before finds the same one.
pub add_frame-keeps_found :
    (h : FrameHeap) (fg : Fgen) (name fstr : Bytes) (n : ℕ) (fg' : Fgen) (other : Bytes) (g : Frame)
    → add_frame h fg name fstr ≡ done n fg'
    → fgen_find_frame fg other ≡ some g
    → fgen_find_frame fg' other ≡ some g
add_frame-keeps_found h fg name fstr n fg' other g e =
    Appends-keeps_found other g (rw e at (add_frame-AddSpec h fg name fstr))
