-- ===== src/Mmap.antt =====
-- lib/mmap/fgen_mmap.c, mmap_private.h and fgen_mmap.h: page types by name and the flags of a
-- mapping. The mapping of memory itself stands in Mmap/Alloc.antt, its release and the accesses in
-- Mmap/Use.antt.
pub mod Alloc
pub mod Use
pub mod Sizes
pub mod Answers
pub mod Maps
pub mod NonNull
pub mod Counters
use fgen.Prelude.{
  ℕ, ◌+◌, ◌*◌, ◌^◌, Bool, true, false, ◌||◌, Option, none, some, List, [], ◌∷◌, ◌==◌, if◌then◌else◌,
  bit_or, ◌<<<◌,
}
use fgen.CString.{Bytes, codes, strcasecmp_eq}
use fgen.Common.{log2_u64}

-- mmap_type_t; `hugepage_cnt` stands for every number from MMAP_HUGEPAGE_CNT on.
pub data MmapType : Type 0 where
  hugepage_4kb : MmapType
  hugepage_2mb : MmapType
  hugepage_1gb : MmapType
  hugepage_cnt : MmapType

-- mmap_sizes_t.
pub record MmapSizes : Type 0 where
  pub page_sz : ℕ
  pub num_allocated : ℕ
  pub num_freed : ℕ
  pub allocated : ℕ
  pub freed : ℕ

-- mmap_stats_t, the array `sizes` written out.
pub record MmapStats : Type 0 where
  pub inited : Bool
  pub sizes_4kb : MmapSizes
  pub sizes_2mb : MmapSizes
  pub sizes_1gb : MmapSizes

-- struct mmap_data; the address 0 is NULL.
pub record MmapData : Type 0 where
  pub bufcnt : ℕ
  pub bufsz : ℕ
  pub sz : ℕ
  pub addr : ℕ
  pub typ : MmapType
  pub align : ℕ

-- `mmap_types`.
abbrev pub mmap_types : List (Bytes × MmapType)
mmap_types =
    (codes "4KB", hugepage_4kb) ∷ (codes "2MB", hugepage_2mb) ∷ (codes "1GB", hugepage_1gb) ∷ []

abbrev pub type_in : List (Bytes × MmapType) → Bytes → MmapType → MmapType
type_in [] htype default = default
type_in ((name, typ) ∷ types) htype default =
    let rest = type_in types htype default in if strcasecmp_eq htype name then typ else rest

-- `mmap_type_by_name` for the value of `mmap_default_type`; none is NULL.
unfoldable pub mmap_type_by_name : MmapType → Option Bytes → MmapType
unfolding strcasecmp_eq
mmap_type_by_name default none = default
mmap_type_by_name default (some []) = default
mmap_type_by_name default (some (c ∷ s)) =
    if strcasecmp_eq (c ∷ s) (codes "default") then default else type_in mmap_types (c ∷ s) default

-- A name of the table; none is past its end, which is undefined.
abbrev pub type_name : MmapType → Option Bytes
type_name hugepage_4kb = some (codes "4KB")
type_name hugepage_2mb = some (codes "2MB")
type_name hugepage_1gb = some (codes "1GB")
type_name hugepage_cnt = none

-- `mmap_name_by_type`.
unfoldable pub mmap_name_by_type : MmapType → MmapType → Option Bytes
mmap_name_by_type default hugepage_cnt = type_name default
mmap_name_by_type default typ = type_name typ

-- `mmap_set_default` and `mmap_set_default_by_name`: the new `mmap_default_type`.
unfoldable pub mmap_set_default : MmapType → MmapType → MmapType
mmap_set_default default htype = htype

unfoldable pub mmap_set_default_by_name : MmapType → Option Bytes → MmapType
unfolding mmap_set_default mmap_type_by_name
mmap_set_default_by_name default name = mmap_set_default default (mmap_type_by_name default name)

-- MAP_HUGETLB and MAP_HUGE_SHIFT of Linux.
abbrev pub map_hugetlb : ℕ
map_hugetlb = 0x40000

abbrev pub map_huge_shift : ℕ
map_huge_shift = 26

abbrev pub huge_flags : Option ℕ → Option ℕ
huge_flags none = none
huge_flags (some log2) = some (bit_or (log2 <<< map_huge_shift) map_hugetlb)

-- `pagesz_flags` for the page size that `getpagesize` gives; none is undefined.
unfoldable pub pagesz_flags : ℕ → ℕ → Option ℕ
unfolding log2_u64
pagesz_flags default_sz page_sz =
    if page_sz == default_sz then some 0 else huge_flags (log2_u64 page_sz)

-- `mmap_stats.sizes[typ]`, for a type of the table.
unfoldable pub sizes : MmapStats → MmapType → MmapSizes
sizes st hugepage_1gb = st.sizes_1gb
sizes st hugepage_2mb = st.sizes_2mb
sizes st _ = st.sizes_4kb

unfoldable pub set_sizes : MmapStats → MmapType → MmapSizes → MmapStats
set_sizes st hugepage_1gb s = record st { sizes_1gb = s }
set_sizes st hugepage_2mb s = record st { sizes_2mb = s }
set_sizes st _ s = record st { sizes_4kb = s }
