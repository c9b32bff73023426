-- ===== src/Frames/Add.antt =====
-- What `_add_frame` does to the list of frames, on every branch.
use fgen.Prelude.{
  ◌+◌, ◌%◌, ◌^◌, ◌≡◌, refl, ap, ◌∙◌, true, false, Option, none, some, List, [], ◌∷◌, ◌++◌, arith,
  length, set, if◌then◌else◌, ◌&&◌,
}
use fgen.CString.{Bytes}
use fgen.Frame.{Frame, Fgen}
use fgen.Encode.Machine.{Ctx, Outcome, ok, failed, fault, stuck}
use fgen.Encode.Keeps.Rules.{After, Kept}
use fgen.Encode.Total.{encode_frame-After}
use fgen.Frames.{
  FrameHeap, Result, done, error, undefined, unfinished, fgen_find_frame, new_frame, frame_alloc,
  erase_at, frame_free, put_back, encoded, encode_new, unless_found, add_frame,
}

-- The new list is the old one with one more frame at its end, of the given name and text.
pub record Appends (fg : Fgen) (name fstr : Bytes) (fg' : Fgen) : Type 0 where
  pub added : Frame
  pub head : fg'.head ≡ fg.head ++ added ∷ []
  pub has_name : added.name ≡ name
  pub has_text : added.fstr ≡ fstr
  pub unused : fgen_find_frame fg name ≡ none
  pub nb_frames : fg'.nb_frames ≡ (fg.nb_frames + 1) % 2 ^ 32
  pub flags : fg'.flags ≡ fg.flags

-- The count is a uint32_t.
pub record SameFrames (fg fg' : Fgen) : Type 0 where
  pub head : fg'.head ≡ fg.head
  pub nb_frames : fg'.nb_frames % 2 ^ 32 ≡ fg.nb_frames % 2 ^ 32
  pub flags : fg'.flags ≡ fg.flags

-- On success the frame is added, on -1 no frame is, and the fuel never runs out.
abbrev pub AddSpec : Fgen → Bytes → Bytes → Result → Type 0
AddSpec fg name fstr (done n fg') = Appends fg name fstr fg'
AddSpec fg name fstr (error fg') = SameFrames fg fg'
AddSpec fg name fstr undefined = Unit {0}
AddSpec fg name fstr unfinished = ⊥

set-append_last : (xs : List Frame) (f g : Frame) → set (xs ++ f ∷ []) (length xs) g ≡ xs ++ g ∷ []
set-append_last [] f g = refl
set-append_last (x ∷ xs) f g = ap (λ ys. x ∷ ys) (set-append_last xs f g)

erase_at-append_last : (xs : List Frame) (f : Frame) → erase_at (xs ++ f ∷ []) (length xs) ≡ xs
erase_at-append_last [] f = refl
erase_at-append_last (x ∷ xs) f = ap (λ ys. x ∷ ys) (erase_at-append_last xs f)

SameFrames-refl : (fg : Fgen) → SameFrames fg fg
SameFrames-refl fg = record { head = refl; nb_frames = refl; flags = refl }

-- The state in which the new frame is encoded.
abbrev entered : Fgen → Bytes → Bytes → Ctx
entered fg name fstr = record {
  frame = new_frame name fstr;
  fg = record fg {
    nb_frames = (fg.nb_frames + 1) % 2 ^ 32;
    head = fg.head ++ new_frame name fstr ∷ [];
  };
}

module _ (fg : Fgen) (name fstr : Bytes) where
  put_back-head :
      (s : Ctx)
      → Kept (entered fg name fstr) s
      → (put_back (length fg.head) s).head ≡ fg.head ++ s.frame ∷ []
  put_back-head s k =
      ap (λ l. set l (length fg.head) s.frame) k.head ∙ set-append_last fg.head _ s.frame

  encoded-AddSpec :
      (o : Outcome (Unit {0}))
      → fgen_find_frame fg name ≡ none
      → After (Kept (entered fg name fstr)) (Kept (entered fg name fstr)) o
      → AddSpec fg name fstr (encoded (length fg.head) o)
  encoded-AddSpec (ok a s) free k = record {
    added = s.frame;
    head = put_back-head s k;
    has_name = k.name;
    has_text = k.fstr;
    unused = free;
    nb_frames = k.nb_frames;
    flags = k.flags;
  }
  encoded-AddSpec (failed s) free k =
      unfold frame_free in
      record {
        head =
            ap (λ l. erase_at l (length fg.head)) (put_back-head s k)
            ∙ erase_at-append_last fg.head s.frame;
        nb_frames = omega (arith, k.nb_frames);
        flags = k.flags;
      }
  encoded-AddSpec fault free k = tt
  encoded-AddSpec stuck free k = k

  encode_new-AddSpec :
      (h : FrameHeap)
      → fgen_find_frame fg name ≡ none
      → AddSpec fg name fstr (encode_new h fg (frame_alloc h fg name fstr))
  unfolding frame_alloc
  encode_new-AddSpec h free =
      elim (h.calloc_ok && (h.name_ok && h.fstr_ok))
        as (λ b. AddSpec fg name fstr (
          encode_new h fg
            (if b then some (new_frame name fstr, (entered fg name fstr).fg) else none))) [
              | true ↦ encoded-AddSpec _ free (encode_frame-After h.text_ok (entered fg name fstr))
              | false ↦ SameFrames-refl fg
            ]

  unless_found-AddSpec :
      (o : Option Frame) (r : Result)
      → (o ≡ none → AddSpec fg name fstr r)
      → AddSpec fg name fstr (unless_found o fg r)
  unless_found-AddSpec none r k = k refl
  unless_found-AddSpec (some f) r k = SameFrames-refl fg

-- `_add_frame` returns 0 with one more frame at the end of the list, of the given name and text,
-- where no frame whose name begins with that name was before, and a count that is one more modulo
-- 2^32; or it returns -1 and the list of frames, its count as a uint32_t and the flags are as
-- before; or the encoder makes an access that C leaves
-- undefined. The fuel of the encoder never runs out.
pub add_frame-AddSpec :
    (h : FrameHeap) (fg : Fgen) (name fstr : Bytes)
    → AddSpec fg name fstr (add_frame h fg name fstr)
unfolding add_frame
add_frame-AddSpec h fg [] fstr = SameFrames-refl fg
add_frame-AddSpec h fg (n ∷ name) [] = SameFrames-refl fg
add_frame-AddSpec h fg (n ∷ name) (c ∷ fstr) =
    unless_found-AddSpec fg (n ∷ name) (c ∷ fstr) _ _
      (encode_new-AddSpec fg (n ∷ name) (c ∷ fstr) h)
