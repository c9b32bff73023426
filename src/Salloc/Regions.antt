-- ===== src/Salloc/Regions.antt =====
-- The regions that `salloc` hands out: they never overlap, and they stay in the block until it
-- grows.
use fgen.Prelude.{
  ℕ, ◌+◌, ◌-◌, ◌^◌, ◌≤◌, ◌<◌, ◌≡◌, refl, ap, Bool, true, false, Option, none, some, List, [], ◌∷◌,
  ◌++◌, subst, arith, ltb, ◌==◌, ◌||◌, Bool-cases, inl, inr, length, length-append, length-take,
  length-replicate, take, replicate,
}
use fgen.CString.{Bytes}
use fgen.Salloc.{Salloc, HeapAnswer, salloc, realloc, salloc_unused, is_null, claim, after_realloc}

-- The counters of a block agree, and fit their type.
pub record Counts (s : Salloc) : Type 0 where
  pub used_fits : s.used ≤ s.size
  pub size_fits : s.size < 2 ^ 64

-- What a call may do to the counters and return.
abbrev pub Answers : Salloc → ℕ → Salloc × Option ℕ → Type 0
Answers s size (s', none) = (s'.used ≡ s.used) × (s'.size ≡ s.size)
Answers s size (s', some off) =
    (0 < size) × (off ≡ s.used) × (s'.used ≡ s.used + size) × (s'.size ≤ s.size + size) × Counts s'

or_false : (a b : Bool) → (a || b) ≡ false → b ≡ false
or_false a b e = ground arith

room_left :
    (s : Salloc) (size : ℕ) → Counts s → ltb (salloc_unused s) size ≡ false → s.used + size ≤ s.size
room_left s size c e = ground arith

claim-Answers :
    (s : Salloc) (size : ℕ)
    → 0 < size
    → s.used + size ≤ s.size
    → s.size < 2 ^ 64
    → Answers s size (claim s size)
claim-Answers s size some_size room fits = (
  some_size,
  refl,
  omega arith,
  omega arith,
  record { used_fits = omega arith; size_fits = fits },
)

after_realloc-Answers :
    (s : Salloc) (size : ℕ) (p : Option Bytes)
    → 0 < size
    → Counts s
    → s.size + size < 2 ^ 64
    → Answers s size (after_realloc s size p)
after_realloc-Answers s size none some_size c fits = (refl, refl)
after_realloc-Answers s size (some b) some_size c fits = (
  some_size,
  refl,
  omega arith,
  omega arith,
  record { used_fits = omega arith; size_fits = omega arith },
)

-- A call of `salloc` that stays below 2 ^ 64 bytes in all either fails, and leaves both counters
-- alone, or hands out the region behind what was used, counts it, and keeps the counters in
-- agreement. An empty request always fails.
pub salloc-Answers :
    (h : HeapAnswer) (s : Salloc) (size : ℕ)
    → Counts s
    → s.size + size < 2 ^ 64
    → Answers s size (salloc h s size)
unfolding salloc realloc
salloc-Answers h s size c fits = elim (Bool-cases (size == 0)) [
  | inl empty ↦ rw (empty, salloc) (refl, refl)
  | inr some_size ↦
      let positive : 0 < size = ground arith in
      elim (Bool-cases (is_null s.ptr || ltb (salloc_unused s) size)) [
        | inl grows ↦
            rw (some_size, salloc)
              (rw grows (after_realloc-Answers s size (realloc h s.ptr size) positive c fits))
        | inr stays ↦
            rw (some_size, salloc)
              (rw stays (
                claim-Answers s size positive
                  (room_left s size c (or_false (is_null s.ptr) (ltb (salloc_unused s) size) stays))
                  c.size_fits))
      ]
]

abbrev granted : ℕ → Option ℕ → List (ℕ × ℕ) → List (ℕ × ℕ)
granted size none rs = rs
granted size (some off) rs = (off, size) ∷ rs

-- The offset and the size of each region that successive calls hand out.
unfoldable pub regions : List (HeapAnswer × ℕ) → Salloc → List (ℕ × ℕ)
unfolding salloc
regions [] s = []
regions ((h, size) ∷ calls) s = let (s', o) = salloc h s size in granted size o (regions calls s')

abbrev pub requested : List (HeapAnswer × ℕ) → ℕ
requested [] = 0
requested ((h, size) ∷ calls) = size + requested calls

-- No region is empty, and each starts at `lo` or behind it, and where the one before it ends or
-- behind it.
abbrev pub Ascends : ℕ → List (ℕ × ℕ) → Type 0
Ascends lo [] = Unit
Ascends lo ((off, size) ∷ rs) = (lo ≤ off) × (0 < size) × Ascends (off + size) rs

Ascends-from : (lo lo' : ℕ) (rs : List (ℕ × ℕ)) → lo' ≤ lo → Ascends lo rs → Ascends lo' rs
Ascends-from lo lo' [] le h = tt
Ascends-from lo lo' ((off, size) ∷ rs) le h = (omega arith, h.1, h.2)

granted-Ascends :
    (s : Salloc) (size : ℕ) (calls : List (HeapAnswer × ℕ)) (r : Salloc × Option ℕ)
    → Counts s
    → s.size + requested calls + size < 2 ^ 64
    → Answers s size r
    → ((s' : Salloc)
        → Counts s'
        → s'.size + requested calls < 2 ^ 64
        → Ascends s'.used (regions calls s'))
    → Ascends s.used (granted size r.1 (regions calls r.0))
granted-Ascends s size calls (s', none) c fits (u, z) next =
    subst (λ n. Ascends n (regions calls s')) u
      (next s' (record { used_fits = omega arith; size_fits = omega arith }) (omega arith))
granted-Ascends s size calls (s', some off) c fits (some_size, at_used, u, grown, c') next = (
  omega arith,
  some_size,
  Ascends-from s'.used (off + size) (regions calls s') (omega arith) (next s' c' (omega arith)),
)

-- The regions of successive calls of `salloc`, on a heap that may refuse any of them, never
-- overlap: no region is empty, the first starts behind what was used before, and each further one
-- where the region before it ends or behind that. The size of the block and all that is requested
-- stay below 2 ^ 64 together.
pub regions-Ascends :
    (calls : List (HeapAnswer × ℕ)) (s : Salloc)
    → Counts s
    → s.size + requested calls < 2 ^ 64
    → Ascends s.used (regions calls s)
unfolding regions
regions-Ascends [] s c fits = tt
regions-Ascends ((h, size) ∷ calls) s c fits =
    granted-Ascends s size calls (salloc h s size) c (omega arith)
      (salloc-Answers h s size c (omega arith)) (λ s' c' fits'. regions-Ascends calls s' c' fits')

-- When `salloc` must grow a block of which something is used, the block that it gets from the
-- heap is too short: the region that it hands out ends behind the end of the block.
pub salloc-grown_short :
    (h : HeapAnswer) (s : Salloc) (b : Bytes) (size : ℕ)
    → Counts s
    → s.size + size < 2 ^ 64
    → s.ptr ≡ some b
    → 0 < s.used
    → s.size < s.used + size
    → h.realloc_ok ≡ true
    → (b' : Bytes) × (off : ℕ) × ((salloc h s size).0.ptr ≡ some b')
      × ((salloc h s size).1 ≡ some off)
      × (length b' < off + size)
unfolding salloc realloc
salloc-grown_short h s b size c fits there used short heap =
    (b', s.used, ap (λ r. r.0.ptr) call, ap (λ r. r.1) call, omega (arith, exact))
  where
    b' : Bytes
    b' = take size b ++ replicate (size - length b) h.junk

    exact : length b' ≡ size
    exact = omega (
      arith,
      length-append (take size b) (replicate (size - length b) h.junk),
      length-take size b,
      length-replicate (size - length b) h.junk,
    )

    block : realloc h s.ptr size ≡ some b'
    block = rw there (rw heap refl)

    some_size : (size == 0) ≡ false
    some_size = ground arith

    grows : (is_null s.ptr || ltb (salloc_unused s) size) ≡ true
    grows = rw there (ground arith)

    call : salloc h s size ≡ after_realloc s size (some b')
    call = rw (some_size, salloc) (rw grows (rw block refl))
