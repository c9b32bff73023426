-- ===== src/Mmap/NonNull.antt =====
-- lib/mmap/fgen_mmap.c: no mapping that `mmap_alloc` returns is at NULL.
use fgen.Prelude.{ℕ, zero, suc, if_both, Option, none, some, ◌≢◌, ap}
use fgen.Mmap.{
  MmapType, hugepage_4kb, hugepage_2mb, hugepage_1gb, hugepage_cnt, MmapStats, MmapData,
}
use fgen.Mmap.Alloc.{
  Kernel, alloc_mem, or_else, map_4kb, map_2mb, map_1gb, map_pages, Ending, looping, left, mapped,
  degrade, try_next, after_map, retry,
}

-- mmap never answers NULL for a mapping.
abbrev pub IsNonNull : Kernel → Type 0
IsNonNull k = (pass size : ℕ) (flags : Option ℕ) → k.mmap pass size flags ≢ some 0

-- A mapping that the passes end with is not at NULL.
abbrev pub EndsNonNull : Ending → Type 0
EndsNonNull looping = Unit
EndsNonNull left = Unit
EndsNonNull (mapped typ mm) = mm.addr ≢ 0

or_else-NonNull :
    (r : MmapData × Option ℕ) (next : MmapData → MmapData × Option ℕ)
    → r.1 ≢ some 0
    → ((mm : MmapData) → (next mm).1 ≢ some 0)
    → (or_else r next).1 ≢ some 0
or_else-NonNull (mm, none) next here there = there mm
or_else-NonNull (mm, some va) next here there = here

module _ (k : Kernel) (nonnull : IsNonNull k) (st : MmapStats) where
  alloc_mem-NonNull :
      (pass : ℕ) (typ : MmapType) (mm : MmapData) → (alloc_mem k pass st typ mm).1 ≢ some 0
  unfolding alloc_mem
  alloc_mem-NonNull pass typ mm = nonnull pass _ _

  map_2mb-NonNull : (pass : ℕ) (mm : MmapData) → (map_2mb k pass st mm).1 ≢ some 0
  unfolding map_2mb map_4kb
  map_2mb-NonNull pass mm =
      or_else-NonNull (alloc_mem k pass st hugepage_2mb mm) (map_4kb k pass st)
        (alloc_mem-NonNull pass hugepage_2mb mm) (alloc_mem-NonNull pass hugepage_4kb)

  map_pages-NonNull :
      (pass : ℕ) (typ : MmapType) (mm : MmapData) → (map_pages k pass st typ mm).1 ≢ some 0
  unfolding map_pages map_1gb map_4kb
  map_pages-NonNull pass hugepage_cnt mm = alloc_mem-NonNull pass hugepage_4kb mm
  map_pages-NonNull pass hugepage_4kb mm = alloc_mem-NonNull pass hugepage_4kb mm
  map_pages-NonNull pass hugepage_2mb mm = map_2mb-NonNull pass mm
  map_pages-NonNull pass hugepage_1gb mm =
      or_else-NonNull (alloc_mem k pass st hugepage_1gb mm) (map_2mb k pass st)
        (alloc_mem-NonNull pass hugepage_1gb mm) (map_2mb-NonNull pass)

  try_next-NonNull :
      (again : MmapType → MmapData → Ending) (mm : MmapData) (o : Option MmapType)
      → ((typ : MmapType) (mm : MmapData) → EndsNonNull (again typ mm))
      → EndsNonNull (try_next again mm o)
  try_next-NonNull again mm none h = tt
  try_next-NonNull again mm (some typ) h = h typ mm

  after_map-NonNull :
      (pass : ℕ) (again : MmapType → MmapData → Ending) (typ : MmapType) (r : MmapData × Option ℕ)
      → r.1 ≢ some 0
      → ((typ : MmapType) (mm : MmapData) → EndsNonNull (again typ mm))
      → EndsNonNull (after_map k pass again typ r)
  after_map-NonNull pass again typ (mm, none) r h = tt
  after_map-NonNull pass again typ (mm, some va) r h =
      if_both EndsNonNull (k.sigbus pass mm.align)
        (if_both EndsNonNull (k.munmap_ok pass)
          (try_next-NonNull again (record mm { addr = 0 }) (degrade mm.typ) h) tt)
        (λ e. r (ap some e))

  pub retry-NonNull :
      (fuel pass : ℕ) (typ : MmapType) (mm : MmapData) → EndsNonNull (retry fuel k pass st typ mm)
  unfolding retry
  retry-NonNull zero pass typ mm = tt
  retry-NonNull (suc fuel) pass typ mm =
      after_map-NonNull pass (retry fuel k (suc pass) st) typ (map_pages k pass st typ mm)
        (map_pages-NonNull pass typ mm) (retry-NonNull fuel (suc pass))
