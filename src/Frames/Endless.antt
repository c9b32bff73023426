-- ===== src/Frames/Endless.antt =====
-- lib/core/fgen.c: the loop of `fgen_load_files` over several files, which no empty file ends.
use fgen.Prelude.{ℕ, zero, suc, ◌+◌, ◌≤◌, Option, true, none, some, ltb, ◌≡◌, refl, ap, ◌∙◌, arith}
use fgen.CString.{Bytes}
use fgen.Frame.{Fgen}
use fgen.Frames.{FrameHeap, Result, done, error}
use fgen.Frames.Files.{
  NextFrame, eof, find_next_frame, with_frame, if_done, opened, load_frames, file_frames,
  load_files, fgen_load_files,
}

with_frame-eof :
    (fg : Fgen) (r : NextFrame) (next : Bytes → Bytes → Result)
    → r ≡ eof
    → with_frame 0 fg r next ≡ done 0 fg
with_frame-eof fg r next e = ap (λ r. with_frame 0 fg r next) e

-- A file without a frame leaves its count 0, and the loop over the files goes on with the second.
file_frames-empty :
    (heap : ℕ → FrameHeap) (fg : Fgen) (s : Bytes)
    → find_next_frame s ≡ eof
    → file_frames heap fg s ≡ done 0 fg
unfolding file_frames load_frames
file_frames-empty heap fg s e = with_frame-eof fg _ _ e

module _ (heap : ℕ → ℕ → FrameHeap) (open_file : ℕ → ℕ → Option Bytes) (nb_files : ℕ)
    (several : 2 ≤ nb_files)
    (empty : (round cnt : ℕ) (s : Bytes)
      → open_file round cnt ≡ some s
      → find_next_frame s ≡ eof) where
  opened-fails :
      (round cnt : ℕ) (fg : Fgen) (o : Option Bytes) (next : ℕ → Fgen → Result)
      → open_file round cnt ≡ o
      → next 0 fg ≡ error fg
      → opened fg o (λ s. if_done (file_frames (heap round) fg s) next) ≡ error fg
  opened-fails round cnt fg none next e later = refl
  opened-fails round cnt fg (some s) next e later =
      ap (λ r. if_done r next) (file_frames-empty (heap round) fg s (empty round cnt s e)) ∙ later

  load_files-fails :
      (n round cnt : ℕ) (fg : Fgen)
      → cnt ≤ 1
      → ((cnt : ℕ) → open_file (round + n) cnt ≡ none)
      → load_files heap open_file nb_files (suc n) round cnt fg ≡ error fg
  unfolding load_files
  load_files-fails zero round cnt fg le fails =
      let more : ltb cnt nb_files ≡ true = ground arith in
      let now : round + 0 ≡ round = omega arith in
      let closed : open_file round cnt ≡ none = rw (← now) (fails cnt) in rw (more, closed) refl
  load_files-fails (suc n) round cnt fg le fails =
      let more : ltb cnt nb_files ≡ true = ground arith in
      let later : round + 1 + n ≡ round + suc n = omega arith in
      rw more (
        opened-fails round cnt fg (open_file round cnt) _ refl
          (load_files-fails n (round + 1) 1 fg (omega arith) (λ cnt'. rw later (fails cnt'))))

  -- Of two files or more, none of which holds a frame whenever it is opened, `fgen_load_files` never
  -- gets to the end: where `fopen` fails in round n, as it does once too many files are open, since
  -- none is closed, the call returns -1 after at most n + 1 rounds and leaves the fgen_t as it was.
  pub fgen_load_files-fails :
      (n : ℕ) (fg : Fgen)
      → ((cnt : ℕ) → open_file n cnt ≡ none)
      → fgen_load_files heap open_file nb_files (suc n) fg ≡ error fg
  unfolding fgen_load_files
  fgen_load_files-fails n fg fails =
      let here : 0 + n ≡ n = omega arith in
      load_files-fails n 0 0 fg (omega arith) (λ cnt. rw here (fails cnt))
