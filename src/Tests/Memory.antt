-- ===== src/Tests/Memory.antt =====
-- Powers of two, alignment and mappings at concrete inputs.
use fgen.Prelude.{
  ℕ, ◌+◌, ◌*◌, ◌^◌, ◌≤◌, ◌<◌, true, false, Option, none, some, [], ◌∷◌, ◌==◌, if◌then◌else◌, ◌≡◌,
  refl, arith,
}
use fgen.Common.{
  combine32ms1b, combine64ms1b, align32pow2, align32prevpow2, align64pow2, ctz, bsf32, bsf64,
  bsf32_safe, log2_u32, log2_u64, fls_u32, top_position, align_floor, align_ceil,
}
use fgen.Common.Pow2.{IsCeilPow, align32pow2-IsCeilPow, align64pow2-IsCeilPow}
use fgen.Common.Align.{align-Bounds}
use fgen.Mmap.{
  hugepage_4kb, hugepage_2mb, hugepage_1gb, hugepage_cnt, MmapSizes, MmapStats, MmapData,
  pagesz_flags, sizes, set_sizes,
}
use fgen.Mmap.Alloc.{
  Kernel, alloc_mem, map_4kb, map_2mb, map_1gb, map_pages, retry, init_stats, finish_alloc,
  mmap_alloc,
}
use fgen.Mmap.Sizes.{IsPages, IsSized, rank, mmap_alloc-IsSized}
use fgen.Mmap.Answers.{IsResult, mmap_alloc-IsResult}
use fgen.Mmap.Maps.{HasRoom, mmap_alloc-maps}
use fgen.Mmap.Counters.{Held}

align32pow2-IsCeilPow_example :
    (n : ℕ) × (align32pow2 1000 ≡ 2 ^ n) × (log2_u32 1000 ≡ some n) × IsCeilPow 1000 n
align32pow2-IsCeilPow_example = align32pow2-IsCeilPow 1000 (omega arith) (omega arith)

align64pow2-IsCeilPow_example :
    (n : ℕ) × (align64pow2 (2 ^ 40 + 1) ≡ 2 ^ n)
    × (log2_u64 (2 ^ 40 + 1) ≡ some n)
    × IsCeilPow (2 ^ 40 + 1) n
align64pow2-IsCeilPow_example = align64pow2-IsCeilPow (2 ^ 40 + 1) (omega arith) (omega arith)

prev_run : (align32prevpow2 1000 ≡ 512) × (fls_u32 1000 ≡ 10)
unfolding align32prevpow2 combine32ms1b fls_u32 top_position
prev_run = (refl, refl)

align-Bounds_example :
    ((q : ℕ) × (align_ceil 5000 (2 ^ 12) ≡ q * 2 ^ 12)
      × (5000 ≤ q * 2 ^ 12)
      × (q * 2 ^ 12 < 5000 + 2 ^ 12))
    × ((q : ℕ) × (align_floor 5000 (2 ^ 12) ≡ q * 2 ^ 12)
        × (q * 2 ^ 12 ≤ 5000)
        × (5000 < q * 2 ^ 12 + 2 ^ 12))
align-Bounds_example = align-Bounds 12 5000 (omega arith) (omega arith)

-- A value above 2 ^ 31 rounds to 0, and its logarithm is undefined.
align32pow2_wraps : align32pow2 (2 ^ 31 + 1) ≡ 0
unfolding align32pow2 combine32ms1b
align32pow2_wraps = refl

log2_u32_undefined : log2_u32 (2 ^ 31 + 1) ≡ none
unfolding log2_u32 align32pow2 combine32ms1b bsf32 ctz
log2_u32_undefined = refl

-- The safe search of a value whose low half is 0 is undefined.
bsf32_safe_undefined : bsf32_safe (2 ^ 32) ≡ none
unfolding bsf32_safe bsf32 ctz
bsf32_safe_undefined = refl

-- A system that has no pages of 1 GB, and raises SIGBUS on those of 2 MB.
abbrev page_answer : Option ℕ → Option ℕ
page_answer none = none
page_answer (some flags) =
    if flags == 0
    then some 0x7f0000001000
    else if flags == 1409548288
    then some 0x7f0000200000
    else none

abbrev system : Kernel
system = record {
  getpagesize = 4096;
  calloc_ok = true;
  mmap = λ pass size flags. page_answer flags;
  sigbus = λ pass page. page == 2 ^ 21;
  munmap_ok = λ pass. true;
}

abbrev no_sizes : MmapSizes
no_sizes = record { page_sz = 0; num_allocated = 0; num_freed = 0; allocated = 0; freed = 0 }

abbrev no_stats : MmapStats
no_stats = record {
  inited = false;
  sizes_4kb = no_sizes;
  sizes_2mb = no_sizes;
  sizes_1gb = no_sizes;
}

abbrev first_stats : MmapStats
first_stats = record {
  inited = true;
  sizes_4kb = record no_sizes { page_sz = 4096; allocated = 8192; num_allocated = 1 };
  sizes_2mb = record no_sizes { page_sz = 2097152 };
  sizes_1gb = record no_sizes { page_sz = 1073741824 };
}

abbrev first_map : MmapData
first_map = record {
  bufcnt = 5;
  bufsz = 1500;
  sz = 8192;
  addr = 0x7f0000001000;
  typ = hugepage_4kb;
  align = 4096;
}

mmap_alloc_run :
    mmap_alloc 3 system no_stats 5 1500 hugepage_1gb ≡ some (first_stats, some first_map)
unfolding mmap_alloc retry init_stats finish_alloc map_pages map_1gb map_2mb map_4kb alloc_mem
    align_ceil align_floor pagesz_flags log2_u64 align64pow2 combine64ms1b bsf64 ctz sizes set_sizes
mmap_alloc_run = refl

system-IsPages : IsPages (init_stats system no_stats)
unfolding init_stats sizes
system-IsPages hugepage_4kb = (12, omega arith, refl)
system-IsPages hugepage_2mb = (21, omega arith, refl)
system-IsPages hugepage_1gb = (30, omega arith, refl)
system-IsPages hugepage_cnt = (12, omega arith, refl)

mmap_alloc-IsSized_example :
    IsSized (init_stats system no_stats) 5 1500 (rank hugepage_1gb) first_map
mmap_alloc-IsSized_example =
    mmap_alloc-IsSized 3 system no_stats first_stats 5 1500 hugepage_1gb first_map (omega arith)
      (omega arith) system-IsPages mmap_alloc_run

mmap_alloc-IsResult_example : IsResult (mmap_alloc 3 system no_stats 5 1500 hugepage_cnt)
mmap_alloc-IsResult_example =
    mmap_alloc-IsResult 3 system no_stats 5 1500 hugepage_cnt (omega arith)

system_room : HasRoom system (init_stats system no_stats) (5 * 1500)
unfolding init_stats sizes pagesz_flags
system_room pass = (0x7f0000001000, refl)

system_calm :
    (pass : ℕ)
    → system.sigbus pass (sizes (init_stats system no_stats) hugepage_4kb).page_sz ≡ false
unfolding init_stats sizes
system_calm pass = refl

mmap_alloc-maps_example :
    (st' : MmapStats) × (mm : MmapData) × (mmap_alloc 3 system no_stats 5 1500 hugepage_1gb
      ≡ some (st', some mm))
mmap_alloc-maps_example =
    mmap_alloc-maps 3 system no_stats 5 1500 hugepage_1gb (omega arith) refl (omega arith)
      (omega arith) system_room system_calm (λ pass. refl)

abbrev start : Held
start = record { stats = no_stats; live = [] }

abbrev after_alloc : Held
after_alloc = record { stats = first_stats; live = first_map ∷ [] }

abbrev after_free : Held
after_free = record {
  stats = record first_stats {
    sizes_4kb = record first_stats.sizes_4kb { freed = 8192; num_freed = 1 };
  };
  live = [];
}
