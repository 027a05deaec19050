-- ===== src/Vmm/Overlap.antt =====
-- Lookups in a sorted list of regions.
use ych.Prelude.{
  ℕ, ◌+◌, ◌≤◌, ◌<◌, ◌≡◌, refl, Bool, false, ◌&&◌, ◌||◌, leb, ltb, Option, none, some, List, [], ◌∷◌,
  arith, Bool-cases, inl, inr,
}
use ych.Vmm.{
  Region, AddressSpace, locate_region, overlaps_region, overlaps_list, overlaps_any_regions,
}

-- The list is sorted: no region is empty, and each one starts at or behind the end of the one before.
unfoldable pub IsSorted : ℕ → List Region → Type 0
IsSorted low [] = Unit
IsSorted low (r ∷ rs) =
    (low ≤ r.vaddr_start) × ((r.vaddr_start < r.vaddr_end) × IsSorted r.vaddr_end rs)

-- Whether a range meets one of the regions.
unfoldable pub meets : List Region → ℕ → ℕ → Bool
meets [] start stop = false
meets (r ∷ rs) start stop = (ltb start r.vaddr_end && ltb r.vaddr_start stop) || meets rs start stop

meets_behind :
    (rs : List Region) (low start stop : ℕ)
    → IsSorted low rs
    → stop ≤ low
    → meets rs start stop ≡ false
unfolding meets IsSorted
meets_behind [] low start stop sorted h = refl
meets_behind (r ∷ rs) low start stop (here, (filled, sorted)) h =
    ground (arith, meets_behind rs r.vaddr_end start stop sorted (omega arith))

overlaps_list_lem :
    (rs : List Region) (low start stop : ℕ)
    → IsSorted low rs
    → start < stop
    → overlaps_list rs start stop ≡ meets rs start stop
unfolding overlaps_list overlaps_region meets IsSorted
overlaps_list_lem [] low start stop sorted h = refl
overlaps_list_lem (r ∷ rs) low start stop (here, (filled, sorted)) h =
    let rest = overlaps_list_lem rs r.vaddr_end start stop sorted h in
    elim (Bool-cases (leb stop r.vaddr_start)) [
      | inl behind ↦ ground (arith, meets_behind rs r.vaddr_end start stop sorted (ground arith))
      | inr before ↦ ground (arith, rest)
    ]

-- For a range that is not empty and regions that are sorted, the search that ends early finds an
-- overlap exactly where the range meets one of the regions.
pub overlaps_any_regions-meets :
    (s : AddressSpace) (start stop : ℕ)
    → IsSorted 0 s.regions
    → start < stop
    → overlaps_any_regions s start stop ≡ meets s.regions start stop
unfolding overlaps_any_regions
overlaps_any_regions-meets s start stop sorted h =
    ground (arith, overlaps_list_lem s.regions 0 start stop sorted h)

-- Whether what was located is a region that has the address.
unfoldable pub has_address : Option Region → ℕ → Bool
has_address none vaddr = false
has_address (some r) vaddr = leb r.vaddr_start vaddr && ltb vaddr r.vaddr_end

-- An address is located exactly where it lies in one of the regions, and what is located is a region
-- that has it.
pub locate_region-meets :
    (rs : List Region) (vaddr : ℕ)
    → has_address (locate_region rs vaddr) vaddr ≡ meets rs vaddr (vaddr + 1)
unfolding locate_region has_address meets
locate_region-meets [] vaddr = refl
locate_region-meets (r ∷ rs) vaddr =
    let rest = locate_region-meets rs vaddr in
    elim (Bool-cases (leb r.vaddr_start vaddr && ltb vaddr r.vaddr_end)) [
      | inl here ↦ rw here (ground arith)
      | inr away ↦ rw away (ground (arith, rest))
    ]
