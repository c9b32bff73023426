-- ===== src/Frames/Counts.antt =====
-- lib/core/fgen.c: what `fgen_load_files` reads of a file, and the frames that it adds.
use fgen.Prelude.{
  ℕ, zero, suc, ◌+◌, ◌≤◌, ◌<◌, Bool, true, false, Option, none, some, List, [], ◌∷◌, ◌++◌, ◌==◌,
  ltb, if_both, length, length-append, append_assoc, append-nil, length-drop, ◌≡◌, refl, sym, ap,
  ◌∙◌, arith,
}
use fgen.CString.{Bytes, strstr_assign}
use fgen.Strings.{strtrim}
use fgen.Frame.{Frame, Fgen}
use fgen.Frames.{FrameHeap, Result, done, error, undefined, unfinished, add_frame}
use fgen.Frames.Add.{AddSpec, add_frame-AddSpec}
use fgen.Frames.Find.{IsValid, LeavesValid, add_frame-LeavesValid}
use fgen.Frames.Files.{
  take_line, fgets, front_space, cut_comment, NextFrame, eof, found, searching, frame_at, frame_or,
  frame_in, find_loop, find_next_frame, FrameText, text, overrun, reading, append_line, strip_slash,
  has_assign, gather_more, gather_line, gather_in, gather_loop, get_frame_string, or_numbered,
  with_frame, with_text, if_done, load_frames, file_frames,
}

-- Each line takes a byte at least.
take_line-rest : (n : ℕ) (s : Bytes) → length (take_line n s).1 ≤ length s
take_line-rest zero s = omega arith
take_line-rest (suc n) [] = omega arith
take_line-rest (suc n) (c ∷ s) =
    if_both (λ (r : Bytes × Bytes). length r.1 ≤ suc (length s)) (c == b'\n') (omega arith)
      (omega (arith, take_line-rest n s))

line-rest : (n c : ℕ) (s : Bytes) → length (take_line (suc n) (c ∷ s)).1 ≤ length s
line-rest n c s =
    if_both (λ (r : Bytes × Bytes). length r.1 ≤ length s) (c == b'\n') (omega arith)
      (omega (arith, take_line-rest n s))

-- The search ends, and what it finds is behind a byte at least.
abbrev IsNext : ℕ → NextFrame → Type 0
IsNext n eof = Unit
IsNext n searching = ⊥
IsNext n (found name s) = length s < n

IsNext-weaken : (m n : ℕ) (r : NextFrame) → m ≤ n → IsNext m r → IsNext n r
IsNext-weaken m n eof le h = tt
IsNext-weaken m n searching le h = h
IsNext-weaken m n (found name s) le h = omega arith

frame_or-IsNext :
    (s line : Bytes) (next : NextFrame) (o : Option (Bytes × Bytes))
    → 0 < length s
    → IsNext (length s) next
    → IsNext (length s) (frame_or s line next o)
unfolding frame_or frame_at
frame_or-IsNext s line next none pos h = h
frame_or-IsNext s line next (some (before, after)) pos h =
    omega (arith, length-drop (front_space line + length before + 2 + front_space after) s)

frame_in-IsNext :
    (s line : Bytes) (next : NextFrame)
    → 0 < length s
    → IsNext (length s) next
    → IsNext (length s) (frame_in s line next)
unfolding frame_in
frame_in-IsNext s line next pos h =
    if_both (IsNext (length s)) (ltb (length (strtrim line)) 2) h
      (frame_or-IsNext s line next (strstr_assign (strtrim line)) pos h)

find_loop-IsNext : (fuel : ℕ) (s : Bytes) → length s < fuel → IsNext (length s) (find_loop fuel s)
unfolding find_loop fgets
find_loop-IsNext zero s lt = absurd (omega arith)
find_loop-IsNext (suc fuel) [] lt = tt
find_loop-IsNext (suc fuel) (c ∷ s) lt =
    let rest = (take_line 4095 (c ∷ s)).1 in
    let shorter = line-rest 4094 c s in
    frame_in-IsNext (c ∷ s) (cut_comment (take_line 4095 (c ∷ s)).0) (find_loop fuel rest)
      (omega arith)
      (IsNext-weaken (length rest) (suc (length s)) (find_loop fuel rest) (omega arith)
        (find_loop-IsNext fuel rest (omega arith)))

-- Gathering a text ends, and does not go back.
abbrev IsText : ℕ → FrameText → Type 0
IsText n (text str slen s) = length s ≤ n
IsText n overrun = Unit
IsText n reading = ⊥

IsText-weaken : (m n : ℕ) (r : FrameText) → m ≤ n → IsText m r → IsText n r
IsText-weaken m n (text str slen s) le h = omega arith
IsText-weaken m n overrun le h = tt
IsText-weaken m n reading le h = h

strip_slash-IsText :
    (str : Bytes) (slen : ℕ) (s : Bytes) → IsText (length s) (strip_slash str slen s)
strip_slash-IsText str zero s = omega arith
strip_slash-IsText str (suc slen) s = omega arith

gather_more-IsText :
    (n : ℕ) (again : Bytes → ℕ → FrameText) (o : Option (Bytes × ℕ))
    → ((str : Bytes) (slen : ℕ) → IsText n (again str slen))
    → IsText n (gather_more again o)
gather_more-IsText n again none h = tt
gather_more-IsText n again (some (str, slen)) h = h str slen

gather_line-IsText :
    (b : Bool) (again : Bytes → ℕ → FrameText) (str : Bytes) (slen : ℕ) (s p : Bytes)
    → ((str : Bytes) (slen : ℕ) → IsText (length s) (again str slen))
    → IsText (length s) (gather_line b again str slen s p)
unfolding gather_line
gather_line-IsText true again str slen s p h = strip_slash-IsText str slen s
gather_line-IsText false again str slen s p h =
    gather_more-IsText (length s) again (append_line str p) h

gather_in-IsText :
    (b : Bool) (again : Bytes → ℕ → FrameText) (str : Bytes) (slen : ℕ) (s p : Bytes)
    → ((str : Bytes) (slen : ℕ) → IsText (length s) (again str slen))
    → IsText (length s) (gather_in b again str slen s p)
unfolding gather_in
gather_in-IsText true again str slen s p h = h str slen
gather_in-IsText false again str slen s p h =
    gather_line-IsText (has_assign (strstr_assign p)) again str slen s p h

gather_loop-IsText :
    (fuel : ℕ) (str : Bytes) (slen : ℕ) (s : Bytes)
    → length s < fuel
    → IsText (length s) (gather_loop fuel str slen s)
unfolding gather_loop fgets
gather_loop-IsText zero str slen s lt = absurd (omega arith)
gather_loop-IsText (suc fuel) str slen [] lt = strip_slash-IsText str slen []
gather_loop-IsText (suc fuel) str slen (c ∷ s) lt =
    let (line, rest) = take_line 4095 (c ∷ s) in
    let shorter = line-rest 4094 c s in
    let p = strtrim (cut_comment line) in
    gather_in-IsText (length p == 0) (λ str' slen'. gather_loop fuel str' slen' rest) str slen
      (c ∷ s) p
      (λ str' slen'.
        IsText-weaken (length rest) (suc (length s)) (gather_loop fuel str' slen' rest)
          (omega arith) (gather_loop-IsText fuel str' slen' rest (omega arith)))

-- The frames of the list are kept, and those that were added stand behind them.
abbrev pub Extends : Fgen → Fgen → Type 0
Extends fg fg' = (added : List Frame) × (fg'.head ≡ fg.head ++ added)

Extends-refl : (fg : Fgen) → Extends fg fg
Extends-refl fg = ([], sym (append-nil fg.head))

Extends-trans : (a b c : Fgen) → Extends a b → Extends b c → Extends a c
Extends-trans a b c (xs, e) (ys, e') =
    (xs ++ ys, e' ∙ ap (λ l. l ++ ys) e ∙ append_assoc a.head xs ys)

-- What the rounds for one file leave: a valid list, and at the end of the file a number of frames
-- in `cnt` that are behind the old ones.
abbrev Grows : Fgen → ℕ → Result → Type 0
Grows fg cnt (done k fg') =
    IsValid fg' × Extends fg fg' × (length fg'.head + cnt ≡ length fg.head + k)
Grows fg cnt (error fg') = IsValid fg' × Extends fg fg'
Grows fg cnt undefined = Unit
Grows fg cnt unfinished = ⊥

module _ (fg : Fgen) (cnt : ℕ) (v : IsValid fg) where
  with_frame-Grows :
      (n : ℕ) (r : NextFrame) (next : Bytes → Bytes → Result)
      → IsNext n r
      → ((name s : Bytes) → length s < n → Grows fg cnt (next name s))
      → Grows fg cnt (with_frame cnt fg r next)
  with_frame-Grows n eof next h k = (v, Extends-refl fg, refl)
  with_frame-Grows n searching next h k = h
  with_frame-Grows n (found name s) next h k = k name s h

  with_text-Grows :
      (n : ℕ) (r : FrameText) (next : Bytes → Bytes → Result)
      → IsText n r
      → ((str s : Bytes) → length s ≤ n → Grows fg cnt (next str s))
      → Grows fg cnt (with_text cnt fg r next)
  with_text-Grows n (text str zero s) next h k = (v, Extends-refl fg, refl)
  with_text-Grows n (text str (suc slen) s) next h k = k str s h
  with_text-Grows n overrun next h k = tt
  with_text-Grows n reading next h k = h

  Grows-later :
      (fg' : Fgen) (r : Result)
      → Extends fg fg'
      → length fg'.head ≡ length fg.head + 1
      → Grows fg' (cnt + 1) r
      → Grows fg cnt r
  Grows-later fg' (done k fg2) x e (w, y, n) = (w, Extends-trans fg fg' fg2 x y, omega arith)
  Grows-later fg' (error fg2) x e (w, y) = (w, Extends-trans fg fg' fg2 x y)
  Grows-later fg' undefined x e h = tt
  Grows-later fg' unfinished x e h = h

  if_done-Grows :
      (name str : Bytes) (r : Result) (next : ℕ → Fgen → Result)
      → LeavesValid r
      → AddSpec fg name str r
      → ((n : ℕ) (fg' : Fgen) → IsValid fg' → Grows fg' (cnt + 1) (next n fg'))
      → Grows fg cnt (if_done r next)
  if_done-Grows name str (done n fg') next w spec k =
      Grows-later fg' (next n fg') (spec.added ∷ [], spec.head)
        (omega (arith, ap length spec.head, length-append fg.head (spec.added ∷ []))) (k n fg' w)
  if_done-Grows name str (error fg') next w spec k = (w, ([], spec.head ∙ sym (append-nil fg.head)))
  if_done-Grows name str undefined next w spec k = tt
  if_done-Grows name str unfinished next w spec k = spec

load_frames-Grows :
    (fuel : ℕ) (heap : ℕ → FrameHeap) (cnt : ℕ) (fg : Fgen) (s : Bytes)
    → IsValid fg
    → length s < fuel
    → Grows fg cnt (load_frames fuel heap cnt fg s)
unfolding load_frames find_next_frame get_frame_string
load_frames-Grows zero heap cnt fg s v lt = absurd (omega arith)
load_frames-Grows (suc fuel) heap cnt fg s v lt =
    with_frame-Grows fg cnt v (length s) (find_next_frame s) _
      (find_loop-IsNext (suc (length s)) s (omega arith))
      (λ name s' shorter.
        with_text-Grows fg cnt v (length s') (get_frame_string s') _
          (gather_loop-IsText (suc (length s')) [] 0 s' (omega arith))
          (λ str s'' le.
            let name' = or_numbered cnt name in
            if_done-Grows fg cnt v name' str (add_frame (heap cnt) fg name' str) _
              (add_frame-LeavesValid (heap cnt) fg name' str v)
              (add_frame-AddSpec (heap cnt) fg name' str)
              (λ n fg' v'. load_frames-Grows fuel heap (cnt + 1) fg' s'' v' (omega arith))))

-- The rounds for a file end with any fuel that is greater than its length.
pub file_frames-Grows :
    (heap : ℕ → FrameHeap) (fg : Fgen) (s : Bytes) → IsValid fg → Grows fg 0 (file_frames heap fg s)
unfolding file_frames
file_frames-Grows heap fg s v = load_frames-Grows (suc (length s)) heap 0 fg s v (omega arith)

-- What `fgen_load_files` leaves and returns, where it returns.
abbrev pub Loaded : Fgen → Result → Type 0
Loaded fg (done n fg') = IsValid fg' × Extends fg fg' × (n ≡ fg'.nb_frames)
Loaded fg (error fg') = IsValid fg' × Extends fg fg'
Loaded fg undefined = Unit
Loaded fg unfinished = ⊥
