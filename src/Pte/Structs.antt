-- ===== src/Pte/Structs.antt =====
-- Page structures in memory, `PteGetPageStruct` and `PteGetOrAcquirePageStruct` of
-- Kernel/Source/Memory/PTE.c, over the physical memory manager.
pub mod Linked
use ych.Prelude.{
  ℕ, ◌+◌, ◌*◌, ◌%◌, ◌^◌, bit_and, Bool, true, false, ◌&&◌, not, leb, ltb, ◌==◌, if◌then◌else◌,
  Option, none, some,
}
use ych.Physmem.{Pmm, PageType, invalid_page_id, page_address}
use ych.Physmem.Acquire.{acquire_page}
use ych.Physmem.Release.{Outcome, returned, meltdown, relinquish_page}
use ych.Pte.{EntryType, PatSelect, encode_entry, encode_failure}

-- Memory as 64-bit words by virtual address, the physical memory manager, the counter of failed
-- encodings, what is known of the virtual memory manager, and the start of its direct map.
pub record Tables : Type 0 where
  pub words : ℕ → ℕ
  pub pmm : Pmm
  pub num_failed : ℕ
  pub vmm : Option Bool
  pub dmap_base : ℕ

abbrev pub entry_address : ℕ → ℕ → ℕ
entry_address container index = (container + index * 8) % 2 ^ 64

-- `KrPhysToVirt`
abbrev pub phys_to_virt : Tables → ℕ → ℕ
phys_to_virt s paddr = (s.dmap_base + paddr) % 2 ^ 64

-- `PTE_PHYSADDR_MASK`
abbrev pub physaddr_mask : ℕ
physaddr_mask = 0x000F_FFFF_FFFF_F000

abbrev pub is_present : ℕ → Bool
is_present entry = not (bit_and entry 1 == 0)

-- `none` is `NULLPTR`.
unfoldable pub get_page_struct : Tables → ℕ → ℕ → Option ℕ
get_page_struct s container index =
    let entry = s.words (entry_address container index) in
    if is_present entry then some (phys_to_virt s (bit_and entry physaddr_mask)) else none

abbrev pub store_word : (ℕ → ℕ) → ℕ → ℕ → ℕ → ℕ
store_word words address value a = if a == address then value else words a

-- The page's words, for a page that does not reach over the end of the address space.
abbrev pub zero_page : (ℕ → ℕ) → ℕ → ℕ → ℕ
zero_page words start a = if leb start a && ltb a (start + 4096) then 0 else words a

-- What follows the acquisition of the page `id`.
unfoldable pub link_page : Tables → ℕ → ℕ → EntryType → ℕ → PatSelect → Tables × Option ℕ
link_page s id address type flags select =
    let paddr = page_address s.pmm id in
    let (entry, failed) = encode_entry s.vmm s.num_failed type paddr flags select in
    let stored = store_word s.words address entry in
    if entry == encode_failure
    then elim (relinquish_page s.pmm id) [
      | returned pmm answer ↦ (record s { words = stored; pmm = pmm; num_failed = failed }, none)
      | meltdown ↦ (record s { words = stored; num_failed = failed }, none)
    ]
    else (
      record s { words = zero_page stored (phys_to_virt s paddr); num_failed = failed },
      some (phys_to_virt s paddr),
    )

unfoldable pub get_or_acquire_page_struct :
    Tables → ℕ → EntryType → ℕ → ℕ → PatSelect → Tables × Option ℕ
unfolding link_page
get_or_acquire_page_struct s container type index flags select =
    let entry = s.words (entry_address container index) in
    if is_present entry
    then (s, some (phys_to_virt s (bit_and entry physaddr_mask)))
    else (let (pmm, id) = acquire_page s.pmm PageType.page_struct invalid_page_id in
        if id == invalid_page_id
        then (record s { pmm = pmm }, none)
        else link_page (record s { pmm = pmm }) id (entry_address container index) type flags
            select)
