-- ===== src/Tests/Regions.antt =====
-- The regions of Kernel/Source/Memory/Virtmemmgmt.c, on an address space with two of them.
use ych.Prelude.{if◌then◌else◌, ◌==◌, ◌+◌, ◌%◌, ◌^◌, ◌≡◌, refl, true, false, some, [], ◌∷◌, arith}
use ych.Krtl.Mem.{is_power_of_two_aligned}
use ych.Vmm.{
  Region, AddressSpace, region_page_size, locate_region, overlaps_any_regions, find_insert_point,
  is_forbidden, acquire_region,
}
use ych.Vmm.Linked.{IsChain, IsRun, IsDistinct, Avoids, last_of}
use ych.Vmm.Overlap.{IsSorted, meets, has_address, overlaps_any_regions-meets, locate_region-meets}
use ych.Vmm.Insert.{is_acceptable, IsLinked, acquire_region-IsSorted, find_insert_point-overlap}

abbrev low_region : Region
low_region = record { vaddr_start = 0x10000; vaddr_end = 0x20000; flags = 0 }

abbrev high_region : Region
high_region = record { vaddr_start = 0x30000; vaddr_end = 0x40000; flags = 0 }

abbrev space : AddressSpace
space = record {
  is_kernel = false;
  regions = low_region ∷ high_region ∷ [];
  nodes = 0x1000 ∷ 0x2000 ∷ [];
  links = record {
    prev = λ n. if n == 0x2000 then 0x1000 else 0;
    next = λ n. if n == 0x1000 then 0x2000 else 0;
    root = 0x1000;
    tail = 0x2000;
  };
  nr_regions = 2;
}

space-IsSorted : IsSorted 0 (low_region ∷ high_region ∷ [])
unfolding IsSorted
space-IsSorted = (omega arith, (omega arith, (omega arith, (omega arith, tt))))

gap_acceptable : is_acceptable space 0x20000 0x28000 0 ≡ true
unfolding is_acceptable is_forbidden is_power_of_two_aligned region_page_size
gap_acceptable = refl

gap_free : meets (low_region ∷ high_region ∷ []) 0x20000 0x28000 ≡ false
unfolding meets
gap_free = refl

overlaps_any_regions-meets_example :
    overlaps_any_regions space 0x18000 0x28000 ≡ meets space.regions 0x18000 0x28000
overlaps_any_regions-meets_example =
    overlaps_any_regions-meets space 0x18000 0x28000 space-IsSorted (omega arith)

locate_region-meets_run :
    has_address (locate_region space.regions 0x18000) 0x18000
    ≡ meets space.regions 0x18000 (0x18000 + 1)
locate_region-meets_run = locate_region-meets space.regions 0x18000

space-IsChain : IsChain space.links space.nodes
unfolding IsRun IsDistinct Avoids last_of
space-IsChain = record {
  run = (omega arith, (refl, (refl, (omega arith, (refl, (refl, tt))))));
  distinct = ((omega arith, tt), (tt, tt));
  root = refl;
  tail = refl;
}

node-Avoids : Avoids 0x3000 space.nodes
unfolding Avoids
node-Avoids = (omega arith, (omega arith, tt))

acquire_region-IsSorted_example :
    ((acquire_region (some 0x3000) space 0x20000 0x28000 0).1
      ≡ some (record { vaddr_start = 0x20000; vaddr_end = 0x28000; flags = 0 }))
    × IsLinked
        (record { vaddr_start = 0x20000; vaddr_end = 0x28000; flags = 0 })
        0x3000
        space
        (acquire_region (some 0x3000) space 0x20000 0x28000 0).0
    × IsSorted 0 (acquire_region (some 0x3000) space 0x20000 0x28000 0).0.regions
    × IsChain
        (acquire_region (some 0x3000) space 0x20000 0x28000 0).0.links
        (acquire_region (some 0x3000) space 0x20000 0x28000 0).0.nodes
    × ((acquire_region (some 0x3000) space 0x20000 0x28000 0).0.nr_regions ≡ (2 + 1) % 2 ^ 32)
acquire_region-IsSorted_example =
    acquire_region-IsSorted space low_region (high_region ∷ []) 0x3000 0x20000 0x28000 0 refl
      space-IsSorted refl space-IsChain (omega arith) node-Avoids (omega arith) gap_acceptable
      gap_free

find_insert_point-overlap_run :
    (meets space.regions 0x18000 0x28000 ≡ true)
    × (find_insert_point space 0x18000 0x28000 ≡ some 1)
find_insert_point-overlap_run =
    find_insert_point-overlap space low_region high_region [] 0x18000 0x28000 refl (omega arith)
      (omega arith) (omega arith) (omega arith)
