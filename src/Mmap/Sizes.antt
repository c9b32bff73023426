-- ===== src/Mmap/Sizes.antt =====
-- lib/mmap/fgen_mmap.c: what `mmap_alloc` returns holds the buffers, in whole pages.
use fgen.Prelude.{
  ℕ, zero, suc, ◌+◌, ◌-◌, ◌*◌, ◌^◌, ◌≤◌, ◌<◌, ◌||◌, Option, none, some, ◌==◌, if_both, u64, ◌≡◌,
  refl, sym, ap, ◌∙◌, subst, arith,
}
use native.Mathlib.Nat.{mul-le-mul}
use fgen.Common.{align_ceil}
use fgen.Common.Align.{align-Bounds}
use fgen.Prelude.Powers.{pow_mono}
use fgen.Mmap.{
  MmapType, hugepage_4kb, hugepage_2mb, hugepage_1gb, hugepage_cnt, MmapStats, MmapData, sizes,
}
use fgen.Mmap.Alloc.{
  Kernel, alloc_mem, or_else, map_4kb, map_2mb, map_1gb, map_pages, Ending, looping, left, mapped,
  degrade, try_next, after_map, retry, init_stats, valid_type, finish_alloc, zeroed_data,
  mmap_alloc,
}

-- Every page size is a power of two, of 1 GB at most.
abbrev pub IsPages : MmapStats → Type 0
IsPages st = (typ : MmapType) → (n : ℕ) × (n ≤ 30) × ((sizes st typ).page_sz ≡ 2 ^ n)

-- The order of the types, in which SIGBUS and a failed mapping go down.
abbrev pub rank : MmapType → ℕ
rank hugepage_1gb = 2
rank hugepage_2mb = 1
rank _ = 0

-- The data of a mapping for `bufcnt` buffers of `bufsz` bytes, with pages of at most a rank.
abbrev pub IsSized : MmapStats → ℕ → ℕ → ℕ → MmapData → Type 0
IsSized st bufcnt bufsz top mm =
    let page = (sizes st mm.typ).page_sz in
    (mm.bufcnt ≡ bufcnt)
    × (mm.bufsz ≡ bufsz)
    × (rank mm.typ ≤ top)
    × (mm.align ≡ page)
    × ((q : ℕ) × (mm.sz ≡ q * page) × (bufcnt * bufsz ≤ mm.sz) × (mm.sz < bufcnt * bufsz + page))

size-fits : (a b : ℕ) → a < 2 ^ 32 → b < 2 ^ 32 → a * b ≤ (2 ^ 32 - 1) * (2 ^ 32 - 1)
size-fits a b ha hb = mul-le-mul {n₂ = 2 ^ 32 - 1} {m₂ = 2 ^ 32 - 1} (omega arith) (omega arith)

module _ (st : MmapStats) (pages : IsPages st) (bufcnt bufsz : ℕ) (cnt : bufcnt < 2 ^ 32)
    (buf : bufsz < 2 ^ 32) where
  size-Bounds :
      (typ : MmapType)
      → let page = (sizes st typ).page_sz in
        (q : ℕ) × (align_ceil (u64 (bufcnt * bufsz)) page ≡ q * page)
        × (bufcnt * bufsz ≤ q * page)
        × (q * page < bufcnt * bufsz + page)
  size-Bounds typ =
      let (n, small, e) = pages typ in
      let fits = size-fits bufcnt bufsz cnt buf in
      let room = pow_mono n 30 small in
      let whole : u64 (bufcnt * bufsz) ≡ bufcnt * bufsz = omega arith in
      let (q, ceil, above, near) =
        (align-Bounds n (u64 (bufcnt * bufsz)) (omega arith) (omega (arith, whole))).0 in
      (
        q,
        ap (λ (t : ℕ). align_ceil (u64 (bufcnt * bufsz)) t) e
            ∙ ceil
            ∙ ap (λ (t : ℕ). q * t) (sym e),
        omega (arith, above, whole, ap (λ (t : ℕ). q * t) e),
        omega (arith, near, whole, ap (λ (t : ℕ). q * t) e, e),
      )

  -- The data that have the two counts.
  abbrev Counted : MmapData → Type 0
  Counted mm = (mm.bufcnt ≡ bufcnt) × (mm.bufsz ≡ bufsz)

  alloc_mem-IsSized :
      (k : Kernel) (pass : ℕ) (typ : MmapType) (mm : MmapData)
      → Counted mm
      → IsSized st bufcnt bufsz (rank typ) (alloc_mem k pass st typ mm).0
  unfolding alloc_mem
  alloc_mem-IsSized k pass typ mm (c, b) =
      let page = (sizes st typ).page_sz in
      let (q, ceil, above, near) = size-Bounds typ in
      let same : mm.bufcnt * mm.bufsz ≡ bufcnt * bufsz =
        ap (λ (t : ℕ). t * mm.bufsz) c ∙ ap (λ (t : ℕ). bufcnt * t) b in
      let size = ap (λ (t : ℕ). align_ceil (u64 t) page) same ∙ ceil in
      (c, b, omega arith, refl, (q, size, omega (arith, size, above), omega (arith, size, near)))

  lowered :
      (r : ℕ) (mm : MmapData) (top : ℕ)
      → r ≤ top
      → IsSized st bufcnt bufsz r mm
      → IsSized st bufcnt bufsz top mm
  lowered r mm top le (c, b, below, al, size) = (c, b, omega arith, al, size)

  or_else-IsSized :
      (top : ℕ) (r : MmapData × Option ℕ) (next : MmapData → MmapData × Option ℕ)
      → IsSized st bufcnt bufsz top r.0
      → ((mm : MmapData) → Counted mm → IsSized st bufcnt bufsz top (next mm).0)
      → IsSized st bufcnt bufsz top (or_else r next).0
  or_else-IsSized top (mm, none) next (c, b, _, _, _) there = there mm (c, b)
  or_else-IsSized top (mm, some va) next here there = here

  map_2mb-IsSized :
      (k : Kernel) (pass : ℕ) (mm : MmapData)
      → Counted mm
      → IsSized st bufcnt bufsz 1 (map_2mb k pass st mm).0
  unfolding map_2mb map_4kb
  map_2mb-IsSized k pass mm c =
      or_else-IsSized 1 (alloc_mem k pass st hugepage_2mb mm) (map_4kb k pass st)
        (alloc_mem-IsSized k pass hugepage_2mb mm c)
        (λ m c.
          lowered 0 (map_4kb k pass st m).0 1 (omega arith)
            (alloc_mem-IsSized k pass hugepage_4kb m c))

  map_pages-IsSized :
      (k : Kernel) (pass : ℕ) (typ : MmapType) (mm : MmapData)
      → Counted mm
      → IsSized st bufcnt bufsz (rank typ) (map_pages k pass st typ mm).0
  unfolding map_pages map_1gb map_4kb
  map_pages-IsSized k pass hugepage_cnt mm c = alloc_mem-IsSized k pass hugepage_4kb mm c
  map_pages-IsSized k pass hugepage_4kb mm c = alloc_mem-IsSized k pass hugepage_4kb mm c
  map_pages-IsSized k pass hugepage_2mb mm c = map_2mb-IsSized k pass mm c
  map_pages-IsSized k pass hugepage_1gb mm c =
      or_else-IsSized 2 (alloc_mem k pass st hugepage_1gb mm) (map_2mb k pass st)
        (alloc_mem-IsSized k pass hugepage_1gb mm c)
        (λ m c. lowered 1 (map_2mb k pass st m).0 2 (omega arith) (map_2mb-IsSized k pass m c))

  -- What holds of the mapping, if the passes end with one.
  abbrev EndsSized : ℕ → Ending → Type 0
  EndsSized top looping = Unit
  EndsSized top left = Unit
  EndsSized top (mapped typ mm) = IsSized st bufcnt bufsz top mm

  EndsSized-raised : (low top : ℕ) (e : Ending) → low ≤ top → EndsSized low e → EndsSized top e
  EndsSized-raised low top looping le h = tt
  EndsSized-raised low top left le h = tt
  EndsSized-raised low top (mapped typ mm) le h = lowered low mm top le h

  try_next-EndsSized :
      (top : ℕ) (again : MmapType → MmapData → Ending) (mm : MmapData) (typ : MmapType)
      → Counted mm
      → rank typ ≤ top
      → ((next : MmapType) → EndsSized (rank next) (again next mm))
      → EndsSized top (try_next again mm (degrade typ))
  try_next-EndsSized top again mm hugepage_1gb c le h =
      EndsSized-raised 1 top (again hugepage_2mb mm) (omega arith) (h hugepage_2mb)
  try_next-EndsSized top again mm hugepage_2mb c le h =
      EndsSized-raised 0 top (again hugepage_4kb mm) (omega arith) (h hugepage_4kb)
  try_next-EndsSized top again mm hugepage_4kb c le h = tt
  try_next-EndsSized top again mm hugepage_cnt c le h = tt

  after_map-EndsSized :
      (k : Kernel) (pass top : ℕ) (again : MmapType → MmapData → Ending) (typ : MmapType)
      (r : MmapData × Option ℕ)
      → IsSized st bufcnt bufsz top r.0
      → ((next : MmapType) (mm : MmapData) → Counted mm → EndsSized (rank next) (again next mm))
      → EndsSized top (after_map k pass again typ r)
  after_map-EndsSized k pass top again typ (mm, none) s h = tt
  after_map-EndsSized k pass top again typ (mm, some va) (c, b, below, al, size) h =
      if_both (λ e. EndsSized top e) (k.sigbus pass mm.align)
        (if_both (λ e. EndsSized top e) (k.munmap_ok pass)
          (try_next-EndsSized top again (record mm { addr = 0 }) mm.typ (c, b) below
            (λ next. h next (record mm { addr = 0 }) (c, b)))
          tt)
        (c, b, below, al, size)

  retry-EndsSized :
      (fuel : ℕ) (k : Kernel) (pass : ℕ) (typ : MmapType) (mm : MmapData)
      → Counted mm
      → EndsSized (rank typ) (retry fuel k pass st typ mm)
  unfolding retry
  retry-EndsSized zero k pass typ mm c = tt
  retry-EndsSized (suc fuel) k pass typ mm c =
      after_map-EndsSized k pass (rank typ) (retry fuel k (suc pass) st) typ
        (map_pages k pass st typ mm) (map_pages-IsSized k pass typ mm c)
        (retry-EndsSized fuel k (suc pass))

  -- What holds of the result of `mmap_alloc`, if it has a mapping.
  abbrev ReturnsSized : ℕ → Option (MmapStats × Option MmapData) → Type 0
  ReturnsSized top none = Unit
  ReturnsSized top (some (st', none)) = Unit
  ReturnsSized top (some (st', some mm)) = IsSized st bufcnt bufsz top mm

  finish_alloc-ReturnsSized :
      (top : ℕ) (e : Ending) → EndsSized top e → ReturnsSized top (finish_alloc st e)
  unfolding finish_alloc
  finish_alloc-ReturnsSized top looping h = tt
  finish_alloc-ReturnsSized top left h = tt
  finish_alloc-ReturnsSized top (mapped typ mm) h = h

rank-valid : (typ : MmapType) → rank (valid_type typ) ≡ rank typ
rank-valid hugepage_4kb = refl
rank-valid hugepage_2mb = refl
rank-valid hugepage_1gb = refl
rank-valid hugepage_cnt = refl

-- `mmap_alloc` for counts of 32 bits, with page sizes that are powers of two of 1 GB at most, never
-- returns a mapping but one with the two counts, of a type that is not above the type asked for and
-- with the alignment of its pages, whose size is the least number of whole pages of that type that holds bufcnt * bufsz bytes.
pub mmap_alloc-IsSized :
    (fuel : ℕ) (k : Kernel) (st st' : MmapStats) (bufcnt bufsz : ℕ) (typ : MmapType) (mm : MmapData)
    → bufcnt < 2 ^ 32
    → bufsz < 2 ^ 32
    → IsPages (init_stats k st)
    → mmap_alloc fuel k st bufcnt bufsz typ ≡ some (st', some mm)
    → IsSized (init_stats k st) bufcnt bufsz (rank typ) mm
unfolding mmap_alloc
mmap_alloc-IsSized fuel k st st' bufcnt bufsz typ mm cnt buf pages e =
    let ini = init_stats k st in
    let holds = ReturnsSized ini pages bufcnt bufsz cnt buf in
    let top = rank (valid_type typ) in
    let ends =
      retry-EndsSized ini pages bufcnt bufsz cnt buf fuel k 0 (valid_type typ)
        (zeroed_data bufcnt bufsz) (refl, refl) in
    let all =
      if_both (holds top) k.calloc_ok
        (if_both (holds top) (bufcnt == 0 || bufsz == 0) tt (
          finish_alloc-ReturnsSized ini pages bufcnt bufsz cnt buf top
            (retry fuel k 0 ini (valid_type typ) (zeroed_data bufcnt bufsz)) ends))
        tt in
    subst (λ r. IsSized ini bufcnt bufsz r mm) (rank-valid typ) (subst (holds top) e all)
