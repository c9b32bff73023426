-- ===== src/Mmap/Alloc.antt =====
-- lib/mmap/fgen_mmap.c: `__alloc_mem` and `mmap_alloc`. The kernel is a parameter: what it answers
-- may depend on how often SIGBUS has sent the code back to `retry`. The handlers of SIGBUS are
-- taken to be set and restored without an error, so that a SIGBUS always comes back to sigsetjmp.
use fgen.Prelude.{
  ℕ, zero, suc, ◌+◌, ◌*◌, Bool, true, ◌||◌, Option, none, some, ◌==◌, if◌then◌else◌, u64,
}
use fgen.Common.{align_ceil}
use fgen.Mmap.{
  MmapType, hugepage_4kb, hugepage_2mb, hugepage_1gb, hugepage_cnt, MmapSizes, MmapStats, MmapData,
  pagesz_flags, sizes, set_sizes,
}

-- What the system answers: the page size; whether calloc finds room; for a pass over `retry`, the
-- address of a mapping of a size with the flags of its pages, or none for MAP_FAILED; whether the
-- first write to the mapping of a pass, of pages of a size, raises SIGBUS; and whether the munmap of a pass succeeds.
pub record Kernel : Type 0 where
  pub getpagesize : ℕ
  pub calloc_ok : Bool
  pub mmap : ℕ → ℕ → Option ℕ → Option ℕ
  pub sigbus : ℕ → ℕ → Bool
  pub munmap_ok : ℕ → Bool

-- `__alloc_mem`: the data, and the answer of mmap.
unfoldable pub alloc_mem : Kernel → ℕ → MmapStats → MmapType → MmapData → MmapData × Option ℕ
unfolding align_ceil pagesz_flags sizes
alloc_mem k pass st typ mm =
    let page = (sizes st typ).page_sz in
    let size = align_ceil (u64 (mm.bufcnt * mm.bufsz)) page in
    (
      record mm { typ = typ; align = page; sz = size },
      k.mmap pass size (pagesz_flags k.getpagesize page),
    )

abbrev pub or_else : MmapData × Option ℕ → (MmapData → MmapData × Option ℕ) → MmapData × Option ℕ
or_else (mm, none) next = next mm
or_else (mm, some va) next = (mm, some va)

-- The switch of `mmap_alloc`, whose cases fall through to the next smaller page.
unfoldable pub map_4kb : Kernel → ℕ → MmapStats → MmapData → MmapData × Option ℕ
unfolding alloc_mem
map_4kb k pass st mm = alloc_mem k pass st hugepage_4kb mm

unfoldable pub map_2mb : Kernel → ℕ → MmapStats → MmapData → MmapData × Option ℕ
unfolding alloc_mem map_4kb
map_2mb k pass st mm = or_else (alloc_mem k pass st hugepage_2mb mm) (map_4kb k pass st)

unfoldable pub map_1gb : Kernel → ℕ → MmapStats → MmapData → MmapData × Option ℕ
unfolding alloc_mem map_2mb
map_1gb k pass st mm = or_else (alloc_mem k pass st hugepage_1gb mm) (map_2mb k pass st)

unfoldable pub map_pages : Kernel → ℕ → MmapStats → MmapType → MmapData → MmapData × Option ℕ
unfolding map_4kb map_2mb map_1gb
map_pages k pass st hugepage_1gb mm = map_1gb k pass st mm
map_pages k pass st hugepage_2mb mm = map_2mb k pass st mm
map_pages k pass st _ mm = map_4kb k pass st mm

-- How the passes over `retry` end: out of fuel, at `leave`, or with a mapping that was written to,
-- and the value of `typ` then.
pub data Ending : Type 0 where
  looping : Ending
  left : Ending
  mapped : MmapType → MmapData → Ending

-- The second switch: the next type to try after SIGBUS.
abbrev pub degrade : MmapType → Option MmapType
degrade hugepage_1gb = some hugepage_2mb
degrade hugepage_2mb = some hugepage_4kb
degrade _ = none

abbrev pub try_next : (MmapType → MmapData → Ending) → MmapData → Option MmapType → Ending
try_next again mm none = left
try_next again mm (some typ) = again typ mm

-- What follows the first switch, where `again` is `goto retry`.
abbrev pub after_map :
    Kernel → ℕ → (MmapType → MmapData → Ending) → MmapType → MmapData × Option ℕ → Ending
after_map k pass again typ (mm, none) = left
after_map k pass again typ (mm, some va) =
    if k.sigbus pass mm.align
    then if k.munmap_ok pass then try_next again (record mm { addr = 0 }) (degrade mm.typ) else left
    else mapped typ (record mm { addr = va })

unfoldable pub retry : ℕ → Kernel → ℕ → MmapStats → MmapType → MmapData → Ending
unfolding map_pages
retry zero k pass st typ mm = looping
retry (suc fuel) k pass st typ mm =
    after_map k pass (retry fuel k (suc pass) st) typ (map_pages k pass st typ mm)

-- The first lines of `mmap_alloc`.
unfoldable pub init_stats : Kernel → MmapStats → MmapStats
init_stats k st = if st.inited then st else record {
  inited = true;
  sizes_4kb = record st.sizes_4kb { page_sz = k.getpagesize };
  sizes_2mb = record st.sizes_2mb { page_sz = 2 * 1024 * 1024 };
  sizes_1gb = record st.sizes_1gb { page_sz = 1024 * 1024 * 1024 };
}

abbrev pub valid_type : MmapType → MmapType
valid_type hugepage_cnt = hugepage_4kb
valid_type typ = typ

-- `mmap_stats.sizes[typ]` after a mapping of `sz` bytes.
abbrev pub count_alloc : MmapSizes → ℕ → MmapSizes
count_alloc s sz = record s {
  allocated = u64 (s.allocated + sz);
  num_allocated = u64 (s.num_allocated + 1);
}

unfoldable pub finish_alloc : MmapStats → Ending → Option (MmapStats × Option MmapData)
unfolding sizes set_sizes
finish_alloc st looping = none
finish_alloc st left = some (st, none)
finish_alloc st (mapped typ mm) =
    some (set_sizes st typ (count_alloc (sizes st typ) mm.sz), some mm)

abbrev pub zeroed_data : ℕ → ℕ → MmapData
zeroed_data bufcnt bufsz = record {
  bufcnt = bufcnt;
  bufsz = bufsz;
  sz = 0;
  addr = 0;
  typ = hugepage_4kb;
  align = 0;
}

-- `mmap_alloc`, whose passes over `retry` are at most `fuel`: none without enough of it, or the new
-- counters and the mapping, or no mapping for NULL.
unfoldable pub mmap_alloc :
    ℕ → Kernel → MmapStats → ℕ → ℕ → MmapType → Option (MmapStats × Option MmapData)
unfolding init_stats retry finish_alloc
mmap_alloc fuel k st bufcnt bufsz typ =
    let st' = init_stats k st in
    if k.calloc_ok
    then if bufcnt == 0 || bufsz == 0
      then some (st', none)
      else finish_alloc st' (retry fuel k 0 st' (valid_type typ) (zeroed_data bufcnt bufsz))
    else some (st', none)
