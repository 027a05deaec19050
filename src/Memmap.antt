-- ===== src/Memmap.antt =====
-- The canonical memory map, Kernel/Source/Init/KrInitMemmap.c: runs of usable regions that follow one
-- another in the map and in the address space become one region.
pub mod Cover
pub mod Sort
use ych.Prelude.{
  ℕ, zero, suc, ◌+◌, ◌*◌, ◌%◌, ◌^◌, Bool, ◌||◌, not, List, [], ◌∷◌, ◌==◌, if◌then◌else◌,
}
use ych.Physmem.Init.{MemoryDescriptor, is_usable_memory_region_type}

-- The peek ahead: the page count that the region at `base` grows to, and the descriptors that are
-- left. The address is taken on 64 bits.
unfoldable pub peek_ahead : ℕ → ℕ → ℕ → List MemoryDescriptor → ℕ × List MemoryDescriptor
peek_ahead size base count [] = (count, [])
peek_ahead size base count (d ∷ ds) =
    let rest = peek_ahead size base ((count + d.page_count) % 2 ^ 64) ds in
    if not (is_usable_memory_region_type d.region_type)
      || not ((base + count * size) % 2 ^ 64 == d.physical_base)
    then (count, d ∷ ds)
    else rest

-- The loop over the firmware's map, which `peek_ahead` moves on by at least one descriptor.
unfoldable pub build_canonical : ℕ → ℕ → List MemoryDescriptor → List MemoryDescriptor
build_canonical size zero ds = []
build_canonical size (suc fuel) [] = []
build_canonical size (suc fuel) (d ∷ ds) =
    let skipped = build_canonical size fuel ds in
    let ahead = peek_ahead size d.physical_base d.page_count ds in
    let rest = build_canonical size fuel ahead.1 in
    if not (is_usable_memory_region_type d.region_type)
    then skipped
    else record {
      physical_base = d.physical_base;
      page_count = ahead.0;
      attributes = 0;
      region_type = 7;
    }
      ∷ rest
