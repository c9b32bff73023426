-- ===== src/Mmap/Maps.antt =====
-- lib/mmap/fgen_mmap.c: `mmap_alloc` returns a mapping where the kernel has pages of the default
-- size.
use fgen.Prelude.{
  ℕ, zero, suc, ◌*◌, ◌≤◌, ◌<◌, true, false, ◌||◌, Option, none, some, ◌==◌, if_cases, u64, ◌≡◌, ◌≢◌,
  refl, sym, ap, ◌∙◌, subst, arith,
}
use mathlib.Core.Bool.{true≢false}
use fgen.Common.{align_ceil}
use fgen.Mmap.{
  MmapType, hugepage_4kb, hugepage_2mb, hugepage_1gb, hugepage_cnt, MmapStats, MmapData,
  pagesz_flags, sizes,
}
use fgen.Mmap.Alloc.{
  Kernel, alloc_mem, or_else, map_4kb, map_2mb, map_1gb, map_pages, Ending, looping, left, mapped,
  degrade, try_next, after_map, retry, init_stats, valid_type, finish_alloc, zeroed_data,
  mmap_alloc,
}
use fgen.Mmap.Sizes.{rank}
use fgen.Mmap.Answers.{map_pages-Low, rank-small}

abbrev Live : Ending → Type 0
Live looping = ⊥
Live left = ⊥
Live (mapped typ mm) = Unit

try_next-Live :
    (again : MmapType → MmapData → Ending) (mm : MmapData) (typ : MmapType)
    → rank typ ≢ 0
    → ((next : MmapType) → rank next < rank typ → Live (again next mm))
    → Live (try_next again mm (degrade typ))
try_next-Live again mm hugepage_1gb some_left h = h hugepage_2mb (omega arith)
try_next-Live again mm hugepage_2mb some_left h = h hugepage_4kb (omega arith)
try_next-Live again mm hugepage_4kb some_left h = absurd (some_left refl)
try_next-Live again mm hugepage_cnt some_left h = absurd (some_left refl)

abbrev default_page : MmapStats → ℕ
default_page st = (sizes st hugepage_4kb).page_sz

-- The kernel always has pages of the default size for so many bytes.
abbrev pub HasRoom : Kernel → MmapStats → ℕ → Type 0
HasRoom k st len =
    (pass : ℕ)
    → (va : ℕ) × (k.mmap pass (align_ceil (u64 len) (sizes st hugepage_4kb).page_sz)
          (pagesz_flags k.getpagesize (sizes st hugepage_4kb).page_sz)
        ≡ some va)

module _ (k : Kernel) (st : MmapStats) (bufcnt bufsz : ℕ) (room : HasRoom k st (bufcnt * bufsz))
    (calm : (pass : ℕ) → k.sigbus pass (default_page st) ≡ false)
    (unmaps : (pass : ℕ) → k.munmap_ok pass ≡ true) where
  abbrev Counted : MmapData → Type 0
  Counted mm = (mm.bufcnt ≡ bufcnt) × (mm.bufsz ≡ bufsz)

  -- A mapping was found, and one of the smallest rank has default pages.
  abbrev Found : MmapData × Option ℕ → Type 0
  Found (mm, none) = ⊥
  Found (mm, some va) = Counted mm × (rank mm.typ ≡ 0 → mm.align ≡ default_page st)

  map_4kb-Found : (pass : ℕ) (mm : MmapData) → Counted mm → Found (map_4kb k pass st mm)
  unfolding map_4kb alloc_mem
  map_4kb-Found pass mm (c, b) =
      let (va, e) = room pass in
      let same : mm.bufcnt * mm.bufsz ≡ bufcnt * bufsz =
        ap (λ (t : ℕ). t * mm.bufsz) c ∙ ap (λ (t : ℕ). bufcnt * t) b in
      let answer =
        ap
          (λ (t : ℕ).
            k.mmap pass (align_ceil (u64 t) (default_page st))
              (pagesz_flags k.getpagesize (default_page st)))
          same
        ∙ e in
      subst (λ o. Found ((alloc_mem k pass st hugepage_4kb mm).0, o)) (sym answer)
        ((c, b), λ _. refl)

  or_else-Found :
      (r : MmapData × Option ℕ) (next : MmapData → MmapData × Option ℕ)
      → Counted r.0
      → rank r.0.typ ≢ 0
      → ((mm : MmapData) → Counted mm → Found (next mm))
      → Found (or_else r next)
  or_else-Found (mm, none) next c high h = h mm c
  or_else-Found (mm, some va) next c high h = (c, λ low. absurd (high low))

  map_2mb-Found : (pass : ℕ) (mm : MmapData) → Counted mm → Found (map_2mb k pass st mm)
  unfolding map_2mb alloc_mem
  map_2mb-Found pass mm c =
      or_else-Found (alloc_mem k pass st hugepage_2mb mm) (map_4kb k pass st) c
        (λ e. omega (arith, e)) (map_4kb-Found pass)

  map_pages-Found :
      (pass : ℕ) (typ : MmapType) (mm : MmapData) → Counted mm → Found (map_pages k pass st typ mm)
  unfolding map_pages map_1gb alloc_mem
  map_pages-Found pass hugepage_cnt mm c = map_4kb-Found pass mm c
  map_pages-Found pass hugepage_4kb mm c = map_4kb-Found pass mm c
  map_pages-Found pass hugepage_2mb mm c = map_2mb-Found pass mm c
  map_pages-Found pass hugepage_1gb mm c =
      or_else-Found (alloc_mem k pass st hugepage_1gb mm) (map_2mb k pass st) c
        (λ e. omega (arith, e)) (map_2mb-Found pass)

  after_map-Live :
      (pass : ℕ) (again : MmapType → MmapData → Ending) (typ : MmapType) (r : MmapData × Option ℕ)
      → Found r
      → ((next : MmapType) (mm : MmapData)
          → Counted mm
          → rank next < rank r.0.typ
          → Live (again next mm))
      → Live (after_map k pass again typ r)
  after_map-Live pass again typ (mm, none) found h = absurd found
  after_map-Live pass again typ (mm, some va) (c, default) h =
      let next = record mm { addr = 0 } in
      if_cases Live (k.sigbus pass mm.align)
        (λ t.
          if_cases Live (k.munmap_ok pass)
            (λ _.
              try_next-Live again next mm.typ
                (λ low.
                  true≢false (sym t ∙ ap (λ (a : ℕ). k.sigbus pass a) (default low) ∙ calm pass))
                (λ typ'. h typ' next c))
            (λ f. absurd (true≢false (sym (unmaps pass) ∙ f))))
        (λ _. tt)

  retry-Live :
      (fuel pass : ℕ) (typ : MmapType) (mm : MmapData)
      → Counted mm
      → rank typ < fuel
      → Live (retry fuel k pass st typ mm)
  unfolding retry
  retry-Live zero pass typ mm c lt = absurd (omega arith)
  retry-Live (suc fuel) pass typ mm c lt =
      let low = map_pages-Low k pass st typ mm in
      after_map-Live pass (retry fuel k (suc pass) st) typ (map_pages k pass st typ mm)
        (map_pages-Found pass typ mm c)
        (λ next m counted below. retry-Live fuel (suc pass) next m counted (omega arith))

  finish_alloc-Live :
      (e : Ending)
      → Live e
      → (st' : MmapStats) × (mm : MmapData) × (finish_alloc st e ≡ some (st', some mm))
  unfolding finish_alloc
  finish_alloc-Live looping h = absurd h
  finish_alloc-Live left h = absurd h
  finish_alloc-Live (mapped typ mm) h = (_, mm, refl)

-- Where calloc finds room, both counts are positive, every munmap succeeds, and the kernel has
-- pages of the default size, the first write to which raises no SIGBUS, `mmap_alloc` returns a
-- mapping, whatever becomes of the larger pages that it tries first.
pub mmap_alloc-maps :
    (fuel : ℕ) (k : Kernel) (st : MmapStats) (bufcnt bufsz : ℕ) (typ : MmapType)
    → 3 ≤ fuel
    → k.calloc_ok ≡ true
    → 0 < bufcnt
    → 0 < bufsz
    → HasRoom k (init_stats k st) (bufcnt * bufsz)
    → ((pass : ℕ) → k.sigbus pass (sizes (init_stats k st) hugepage_4kb).page_sz ≡ false)
    → ((pass : ℕ) → k.munmap_ok pass ≡ true)
    → (st' : MmapStats) × (mm : MmapData) × (mmap_alloc fuel k st bufcnt bufsz typ
        ≡ some (st', some mm))
unfolding mmap_alloc
mmap_alloc-maps fuel k st bufcnt bufsz typ enough ok cnt buf room calm unmaps =
    let ini = init_stats k st in
    let start = valid_type typ in
    let lt = rank-small start in
    let Maps = λ (r : Option (MmapStats × Option MmapData)).
      (st' : MmapStats) × (mm : MmapData) × (r ≡ some (st', some mm)) in
    if_cases Maps k.calloc_ok
      (λ _.
        if_cases Maps (bufcnt == 0 || bufsz == 0) (λ z. absurd (ground arith))
          (λ _.
            finish_alloc-Live k ini bufcnt bufsz room calm unmaps
              (retry fuel k 0 ini start (zeroed_data bufcnt bufsz))
              (retry-Live k ini bufcnt bufsz room calm unmaps fuel 0 start
                (zeroed_data bufcnt bufsz) (refl, refl) (omega arith))))
      (λ f. absurd (true≢false (sym ok ∙ f)))
