-- ===== src/Tests/Sorting.antt =====
-- The sorting of small memory maps.
use ych.Prelude.{ℕ, ◌≡◌, refl, ◌==◌, if◌then◌else◌, arith}
use ych.Physmem.Init.{MemoryDescriptor}
use ych.Memmap.Sort.{swap, part_loop, part_descarray, quicksort_memmap, sort_memmap}
use ych.Memmap.Sort.Order.{Leads, Sorts, sort_memmap-Sorts}

abbrev descriptor : ℕ → MemoryDescriptor
descriptor base = record { physical_base = base; page_count = 1; attributes = 0; region_type = 7 }

abbrev firmware_map : ℕ → MemoryDescriptor
firmware_map x =
    if x == 0 then descriptor 0x1000 else (if x == 1 then descriptor 0x9000 else descriptor 0x5000)

firmware_map-Leads : Leads 2 firmware_map
firmware_map-Leads x l h = ground arith

sort_memmap-Sorts_example : Sorts 0 2 firmware_map (sort_memmap 3 firmware_map)
sort_memmap-Sorts_example =
    sort_memmap-Sorts 3 firmware_map (omega arith) (omega arith) firmware_map-Leads

sorted_map :
    ((sort_memmap 3 firmware_map 0).physical_base ≡ 0x1000)
    × ((sort_memmap 3 firmware_map 1).physical_base ≡ 0x5000)
    × ((sort_memmap 3 firmware_map 2).physical_base ≡ 0x9000)
unfolding sort_memmap quicksort_memmap part_descarray part_loop swap
sorted_map = (refl, refl, refl)

-- A pivot that stays at the start leaves the range before it to end at 2 ^ 32 - 1.
pivot_first :
    (part_descarray (λ x. if x == 0 then descriptor 0x5000 else descriptor 0x3000) 0 1).1 ≡ 0
unfolding part_descarray part_loop
pivot_first = refl
