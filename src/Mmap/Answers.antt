-- ===== src/Mmap/Answers.antt =====
-- lib/mmap/fgen_mmap.c: the passes over `retry` come to an end.
use fgen.Prelude.{ℕ, zero, suc, ◌≤◌, ◌<◌, ◌||◌, Option, none, some, ◌==◌, if_both, ◌≡◌, refl, arith}
use fgen.Mmap.{
  MmapType, hugepage_4kb, hugepage_2mb, hugepage_1gb, hugepage_cnt, MmapStats, MmapData,
}
use fgen.Mmap.Alloc.{
  Kernel, alloc_mem, or_else, map_4kb, map_2mb, map_1gb, map_pages, Ending, looping, left, mapped,
  degrade, try_next, after_map, retry, init_stats, valid_type, finish_alloc, zeroed_data,
  mmap_alloc,
}
use fgen.Mmap.Sizes.{rank}

abbrev Low : ℕ → MmapData × Option ℕ → Type 0
Low top r = rank r.0.typ ≤ top

or_else-Low :
    (top : ℕ) (r : MmapData × Option ℕ) (next : MmapData → MmapData × Option ℕ)
    → Low top r
    → ((mm : MmapData) → Low top (next mm))
    → Low top (or_else r next)
or_else-Low top (mm, none) next here there = there mm
or_else-Low top (mm, some va) next here there = here

pub map_pages-Low :
    (k : Kernel) (pass : ℕ) (st : MmapStats) (typ : MmapType) (mm : MmapData)
    → Low (rank typ) (map_pages k pass st typ mm)
unfolding map_pages map_1gb map_2mb map_4kb alloc_mem
map_pages-Low k pass st hugepage_cnt mm = omega arith
map_pages-Low k pass st hugepage_4kb mm = omega arith
map_pages-Low k pass st hugepage_2mb mm =
    or_else-Low 1 (alloc_mem k pass st hugepage_2mb mm) (map_4kb k pass st) (omega arith)
      (λ m. omega arith)
map_pages-Low k pass st hugepage_1gb mm =
    or_else-Low 2 (alloc_mem k pass st hugepage_1gb mm) (map_2mb k pass st) (omega arith) (λ m.
      or_else-Low 2 (alloc_mem k pass st hugepage_2mb m) (map_4kb k pass st) (omega arith)
        (λ n. omega arith))

abbrev Ended : Ending → Type 0
Ended looping = ⊥
Ended left = Unit
Ended (mapped typ mm) = Unit

try_next-Ended :
    (again : MmapType → MmapData → Ending) (mm : MmapData) (typ : MmapType)
    → ((next : MmapType) → rank next < rank typ → Ended (again next mm))
    → Ended (try_next again mm (degrade typ))
try_next-Ended again mm hugepage_1gb h = h hugepage_2mb (omega arith)
try_next-Ended again mm hugepage_2mb h = h hugepage_4kb (omega arith)
try_next-Ended again mm hugepage_4kb h = tt
try_next-Ended again mm hugepage_cnt h = tt

after_map-Ended :
    (k : Kernel) (pass : ℕ) (again : MmapType → MmapData → Ending) (typ : MmapType)
    (r : MmapData × Option ℕ)
    → ((next : MmapType) (mm : MmapData) → rank next < rank r.0.typ → Ended (again next mm))
    → Ended (after_map k pass again typ r)
after_map-Ended k pass again typ (mm, none) h = tt
after_map-Ended k pass again typ (mm, some va) h =
    if_both Ended (k.sigbus pass mm.align)
      (if_both Ended (k.munmap_ok pass)
        (try_next-Ended again (record mm { addr = 0 }) mm.typ
          (λ next. h next (record mm { addr = 0 })))
        tt)
      tt

-- Each SIGBUS goes down by at least one type.
retry-Ended :
    (fuel : ℕ) (k : Kernel) (pass : ℕ) (st : MmapStats) (typ : MmapType) (mm : MmapData)
    → rank typ < fuel
    → Ended (retry fuel k pass st typ mm)
unfolding retry
retry-Ended zero k pass st typ mm lt = absurd (omega arith)
retry-Ended (suc fuel) k pass st typ mm lt =
    let low = map_pages-Low k pass st typ mm in
    after_map-Ended k pass (retry fuel k (suc pass) st) typ (map_pages k pass st typ mm)
      (λ next m below. retry-Ended fuel k (suc pass) st next m (omega arith))

pub rank-small : (typ : MmapType) → rank typ < 3
rank-small hugepage_4kb = omega arith
rank-small hugepage_2mb = omega arith
rank-small hugepage_1gb = omega arith
rank-small hugepage_cnt = omega arith

abbrev pub IsResult : Option (MmapStats × Option MmapData) → Type 0
IsResult r = (st : MmapStats) × (mm : Option MmapData) × (r ≡ some (st, mm))

finish_alloc-IsResult : (st : MmapStats) (e : Ending) → Ended e → IsResult (finish_alloc st e)
unfolding finish_alloc
finish_alloc-IsResult st looping h = absurd h
finish_alloc-IsResult st left h = (st, none, refl)
finish_alloc-IsResult st (mapped typ mm) h = (_, some mm, refl)

-- `mmap_alloc` ends whatever the kernel answers, after at most three passes over `retry`.
pub mmap_alloc-IsResult :
    (fuel : ℕ) (k : Kernel) (st : MmapStats) (bufcnt bufsz : ℕ) (typ : MmapType)
    → 3 ≤ fuel
    → IsResult (mmap_alloc fuel k st bufcnt bufsz typ)
unfolding mmap_alloc
mmap_alloc-IsResult fuel k st bufcnt bufsz typ enough =
    let ini = init_stats k st in
    let lt = rank-small (valid_type typ) in
    if_both IsResult k.calloc_ok
      (if_both IsResult (bufcnt == 0 || bufsz == 0) (ini, none, refl)
        (finish_alloc-IsResult ini (retry fuel k 0 ini (valid_type typ) (zeroed_data bufcnt bufsz))
          (retry-Ended fuel k 0 ini (valid_type typ) (zeroed_data bufcnt bufsz) (omega arith))))
      (ini, none, refl)
