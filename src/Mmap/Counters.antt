-- ===== src/Mmap/Counters.antt =====
-- lib/mmap/fgen_mmap.c: the counters of `mmap_stats` over a run of the program's calls.
use fgen.Prelude.{ℕ, ◌+◌, Bool, Option, none, some, List, [], ◌∷◌, ◌++◌, u64, ◌≡◌, ◌≢◌, All}
use fgen.Mmap.{MmapType, MmapStats, MmapData}
use fgen.Mmap.Alloc.{Kernel, mmap_alloc}
use fgen.Mmap.NonNull.{IsNonNull}
use fgen.Mmap.Use.{mmap_free}

-- The bytes counted as mapped and as released, over all types.
abbrev pub total_allocated : MmapStats → ℕ
total_allocated st = st.sizes_4kb.allocated + st.sizes_2mb.allocated + st.sizes_1gb.allocated

abbrev pub total_freed : MmapStats → ℕ
total_freed st = st.sizes_4kb.freed + st.sizes_2mb.freed + st.sizes_1gb.freed

unfoldable pub live_bytes : List MmapData → ℕ
live_bytes [] = 0
live_bytes (mm ∷ mms) = mm.sz + live_bytes mms

-- The counters, and the mappings that the program holds.
pub record Held : Type 0 where
  pub stats : MmapStats
  pub live : List MmapData

abbrev pub as_list : Option MmapData → List MmapData
as_list none = []
as_list (some mm) = mm ∷ []

-- One call of the program: `mmap_alloc`, with or without a result, or `mmap_free` of a mapping that
-- it holds.
pub data Call (s t : Held) : Type 0 where
  allocates :
      (fuel : ℕ) (k : Kernel) (bufcnt bufsz : ℕ) (typ : MmapType) (mm : MmapData)
      → IsNonNull k
      → mmap_alloc fuel k s.stats bufcnt bufsz typ ≡ some (t.stats, some mm)
      → t.live ≡ mm ∷ s.live
      → Call s t
  refuses :
      (fuel : ℕ) (k : Kernel) (bufcnt bufsz : ℕ) (typ : MmapType)
      → IsNonNull k
      → mmap_alloc fuel k s.stats bufcnt bufsz typ ≡ some (t.stats, none)
      → t.live ≡ s.live
      → Call s t
  frees :
      (munmap_ok done : Bool) (xs ys : List MmapData) (mm : MmapData) (kept : Option MmapData)
      → mmap_free munmap_ok s.stats (some mm) ≡ (t.stats, (done, kept))
      → s.live ≡ xs ++ (mm ∷ ys)
      → t.live ≡ xs ++ (as_list kept ++ ys)
      → Call s t

pub data Calls (s : Held) : Held → Type 0 where
  begin : Calls s s
  more : {t u : Held} → Calls s t → Call t u → Calls s u

-- The bytes mapped are those released and those that the program holds, modulo 2 ^ 64.
abbrev pub IsBalanced : Held → Type 0
IsBalanced s =
    (u64 (total_allocated s.stats) ≡ u64 (total_freed s.stats + live_bytes s.live))
    × All (λ mm. mm.addr ≢ 0) s.live

-- What `mmap_alloc` has counted.
abbrev IsCounted : MmapStats → Option (MmapStats × Option MmapData) → Type 0
IsCounted st none = Unit
IsCounted st (some (st', none)) =
    (total_allocated st' ≡ total_allocated st) × (total_freed st' ≡ total_freed st)
IsCounted st (some (st', some mm)) =
    (u64 (total_allocated st') ≡ u64 (total_allocated st + mm.sz))
    × (total_freed st' ≡ total_freed st)
    × (mm.addr ≢ 0)

-- What `mmap_free` has counted for a mapping that is not at NULL.
abbrev IsReleased : MmapStats → MmapData → MmapStats × (Bool × Option MmapData) → Type 0
IsReleased st mm (st', (done, kept)) =
    (total_allocated st' ≡ total_allocated st)
    × (u64 (total_freed st' + live_bytes (as_list kept)) ≡ u64 (total_freed st + mm.sz))
    × All (λ m. m.addr ≢ 0) (as_list kept)
