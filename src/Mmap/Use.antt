-- ===== src/Mmap/Use.antt =====
-- lib/mmap/fgen_mmap.c: `mmap_free`, and the addresses and sizes of a mapping.
use fgen.Prelude.{
  ℕ, ◌+◌, Bool, true, false, ◌||◌, Option, none, some, ◌==◌, if◌then◌else◌, u64, leb,
}
use fgen.Mmap.{MmapType, hugepage_cnt, MmapSizes, MmapStats, MmapData, sizes, set_sizes}

abbrev pub is_cnt : MmapType → Bool
is_cnt hugepage_cnt = true
is_cnt _ = false

-- `mmap_stats.sizes[typ]` after the release of `sz` bytes.
abbrev pub count_free : MmapSizes → ℕ → MmapSizes
count_free s sz = record s { freed = u64 (s.freed + sz); num_freed = u64 (s.num_freed + 1) }

-- `mmap_free` for the answer of munmap: the counters, whether it returns 0, and the data that are
-- still allocated.
unfoldable pub mmap_free : Bool → MmapStats → Option MmapData → MmapStats × (Bool × Option MmapData)
unfolding sizes set_sizes
mmap_free munmap_ok st none = (st, (true, none))
mmap_free munmap_ok st (some mm) =
    if is_cnt mm.typ
    then (st, (false, some mm))
    else if mm.addr == 0 || mm.sz == 0
    then (st, (true, none))
    else if munmap_ok
    then (set_sizes st mm.typ (count_free (sizes st mm.typ) mm.sz), (true, none))
    else (st, (false, some mm))

-- `mmap_size`, and the counts that it stores.
unfoldable pub mmap_size : Option MmapData → ℕ
mmap_size none = 0
mmap_size (some mm) = mm.sz

unfoldable pub mmap_size_counts : Option MmapData → Option (ℕ × ℕ)
mmap_size_counts none = none
mmap_size_counts (some mm) = some (mm.bufcnt, mm.bufsz)

-- `mmap_addr_at_offset`; the result 0 is NULL.
unfoldable pub mmap_addr_at_offset : Option MmapData → ℕ → ℕ
unfolding mmap_size
mmap_addr_at_offset none offset = 0
mmap_addr_at_offset (some mm) offset =
    if leb offset (mmap_size (some mm)) then u64 (mm.addr + offset) else 0

-- `mmap_addr`.
unfoldable pub mmap_addr : Option MmapData → ℕ
unfolding mmap_addr_at_offset
mmap_addr mm = mmap_addr_at_offset mm 0
