-- ===== src/Physmem/Init.antt =====
-- `KrInitPhysmemmgmt` and `KrInitPhysMetaArray`.
pub mod Laws
pub mod Meta
use ych.Prelude.{
  ℕ, zero, suc, ◌+◌, ◌-◌, ◌*◌, ◌/◌, ◌%◌, ◌^◌, Bool, true, false, ◌||◌, ◌&&◌, not, List, [], ◌∷◌,
  Option, none, some, ltb, ◌==◌, if◌then◌else◌,
}
use ych.Arena.{Arena, arena_acquire}
use ych.Physmem.{
  Pmm, InitStage, PageType, PageMeta, page_size, invalid_page_id, page_address, has_bookkeeping,
}
use ych.Physmem.Bitmap.{PageBitmap, bit, set_page_status}
use ych.Physmem.Hunt.{Method}
use ych.Physmem.Acquire.{acquire_pages}
use ych.Physmem.Release.{Outcome, returned, meltdown, relinquish_page, set_meta}

-- `KrMemoryDescriptor`, without the padding
pub record MemoryDescriptor : Type 0 where
  pub physical_base : ℕ
  pub page_count : ℕ
  pub attributes : ℕ
  pub region_type : ℕ

-- `KrIsUsableMemoryRegionType`: loader code and data, boot services code and data, conventional,
-- ACPI reclaimable.
unfoldable pub is_usable_memory_region_type : ℕ → Bool
is_usable_memory_region_type t = t == 1 || (t == 2 || (t == 3 || (t == 4 || (t == 7 || t == 9))))

-- One region of the first pass: totals, and the end of the highest usable region.
unfoldable pub note_region : MemoryDescriptor → Pmm → Pmm
unfolding is_usable_memory_region_type
note_region d s =
    let total = (s.total_pages + d.page_count) % 2 ^ 64 in
    let region_end = (d.physical_base + d.page_count * page_size) % 2 ^ 64 in
    if is_usable_memory_region_type d.region_type
    then record s {
      total_pages = total;
      paddr_highest = if ltb s.paddr_highest region_end then region_end else s.paddr_highest;
    }
    else record s {
      total_pages = total;
      unusable_pages = (s.unusable_pages + d.page_count) % 2 ^ 64;
    }

-- The first pass over the memory map.
unfoldable pub discover : List MemoryDescriptor → Pmm → Pmm
discover [] s = s
discover (d ∷ ds) s = discover ds (note_region d s)

-- A call of `KrSetPhysicalPageStatus` on the advisory bitmap whose result is not looked at.
unfoldable pub mark_advisory : Pmm → ℕ → ℕ → Bool → Pmm
mark_advisory s start n status = elim (set_page_status s.nr_pages s.advisory start n status) [
  | none ↦ s
  | some bm ↦ record s { advisory = bm }
]

-- The second pass, over the canonical map: the first region gives the acquisition hint.
unfoldable pub mark_usable : List MemoryDescriptor → Pmm → Pmm
mark_usable [] s = s
mark_usable (d ∷ ds) s =
    let id = d.physical_base / page_size in
    let hint =
      if s.acquire_hint == 0 || s.acquire_hint == invalid_page_id
      then id % 2 ^ 32
      else s.acquire_hint in
    mark_usable ds
      (mark_advisory (record s { acquire_hint = hint }) (id % 2 ^ 32) d.page_count false)

-- `KrLoadInfo`, as far as it is used here
pub record LoadInfo : Type 0 where
  pub addr_physical_base : ℕ
  pub reserve_size : ℕ

-- Counts from the highest address; the first `bitmap_size` bytes are set to 0xFF.
unfoldable pub lay_out : Pmm → Pmm
lay_out s =
    let nr_pages = (s.paddr_highest + page_size - 1) % 2 ^ 64 / page_size % 2 ^ 32 in
    let size = (nr_pages + 7) % 2 ^ 32 / 8 in record s { nr_pages = nr_pages; bitmap_size = size }

unfoldable pub fill_advisory : Pmm → Pmm
fill_advisory s = record s {
  advisory = λ i o. if ltb i s.bitmap_size then true else s.advisory i o;
}

-- The areas that are never given out: the kernel's own, and the first MiB.
unfoldable pub mark_kernel : LoadInfo → Pmm → Pmm
mark_kernel info s =
    let kernel =
      mark_advisory s (info.addr_physical_base / page_size % 2 ^ 32) (info.reserve_size / page_size)
        true in
    mark_advisory kernel 0 256 true

-- The copy of the advisory bitmap becomes the primary one.
unfoldable pub finish_init : Pmm → Pmm
finish_init s = record s {
  primary = λ i o. if ltb i s.bitmap_size then s.advisory i o else s.primary i o;
  init_stage = InitStage.basic;
}

-- Everything behind the first guard, with the arena that serves both bitmaps. A failure keeps what
-- has been written so far.
unfoldable pub run_init :
    List MemoryDescriptor → List MemoryDescriptor → LoadInfo → Pmm → Arena → Pmm × Arena × Bool
run_init memory_map canonical info s arena =
    let s1 = lay_out (discover memory_map s) in
    let (arena1, p1) = arena_acquire arena s1.bitmap_size in
    if p1 == 0
    then (s1, arena1, false)
    else (let s2 = mark_kernel info (mark_usable canonical (fill_advisory s1)) in
        let (arena2, p2) = arena_acquire arena1 s2.bitmap_size in
        if p2 == 0 then (s2, arena2, false) else (finish_init s2, arena2, true))

abbrev has_started : InitStage → Bool
has_started InitStage.none_yet = false
has_started _ = true

unfoldable pub init_physmemmgmt :
    List MemoryDescriptor → List MemoryDescriptor → LoadInfo → Pmm → Arena → Pmm × Arena × Bool
unfolding run_init
init_physmemmgmt memory_map canonical info s arena =
    if has_started s.init_stage
    then (s, arena, false)
    else run_init memory_map canonical info s arena

-- `KrPhysicalPageMeta` takes six bytes.
abbrev pub metas_per_page : ℕ
metas_per_page = page_size / 6

abbrev zeroed : PageMeta
zeroed = record {
  ref_count = 0;
  auxiliary = 0;
  pinned = false;
  user = false;
  page_type = PageType.invalid;
}

-- The loop that gives back what a request that fell short acquired; a meltdown ends it.
unfoldable pub relinquish_range : ℕ → ℕ → Pmm → Pmm
relinquish_range zero id s = s
relinquish_range (suc n) id s = elim (relinquish_page s id) [
  | returned t answer ↦ relinquish_range n (id + 1) t
  | meltdown ↦ s
]

-- The zeroed array, and the two nested loops that mark what was allocated before.
unfoldable pub initial_meta : Pmm → ℕ → ℕ → PageMeta
initial_meta s count id =
    let blank = if ltb id (count * page_size % 2 ^ 32 / 6) then zeroed else s.meta id in
    if ltb id (8 * s.bitmap_size) && bit s.primary id
    then record blank { ref_count = 1; page_type = PageType.reserved }
    else blank

abbrev pub dense_base : Method
dense_base = record { sparse = false; dense = true; base_out_only = true; for_user = false }

-- `dmap_base` is the start of the direct map, which `KrPhysToVirt` adds.
unfoldable pub init_phys_meta_array : ℕ → (ℕ → ℕ) → Pmm → Pmm × Bool
unfolding initial_meta
init_phys_meta_array dmap_base out s =
    let needed = (s.total_pages + metas_per_page - 1) % 2 ^ 64 / metas_per_page % 2 ^ 32 in
    let r = acquire_pages s out needed PageType.bookkeeping dense_base invalid_page_id in
    let paddr = page_address r.state (r.out 0) in
    if not (has_started s.init_stage)
    then (s, false)
    else (if ltb r.count needed then (relinquish_range r.count (r.out 0) r.state, false) else (
      record r.state {
        paddr_meta_array = paddr;
        vaddr_meta_array = (dmap_base + paddr) % 2 ^ 64;
        meta = initial_meta r.state r.count;
      },
      true,
    ))
