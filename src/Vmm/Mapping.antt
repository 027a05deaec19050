-- ===== src/Vmm/Mapping.antt =====
-- `VmMapStatic` of Kernel/Source/Memory/Virtmemmgmt.c: the pages of a region, one after another.
pub mod Present
pub mod Pages
use ych.Prelude.{
  ℕ, zero, suc, ◌+◌, ◌-◌, ◌*◌, ◌/◌, ◌%◌, ◌^◌, Bool, true, false, ◌&&◌, not, ltb, ◌==◌,
  if◌then◌else◌, Option, none, some,
}
use ych.Krtl.Mem.{is_power_of_two_aligned}
use ych.Pte.{
  EntryType, PatSelect, PatMsrState, AddressMode, VirtualAddress, select_pat, unmake_virtual,
}
use ych.Pte.Structs.{Tables, entry_address, phys_to_virt, store_word, get_or_acquire_page_struct}
use ych.Vmm.{Region, has_flag, region_page_size, encode_entry_for}

-- What a mapping reads and never writes: the memory types, whether the region is the kernel's, and
-- the physical address of the address space's root.
pub record Context : Type 0 where
  pub pat : PatMsrState
  pub is_kernel : Bool
  pub paddr_root : ℕ

-- `g_pslDefault`
abbrev pub default_select : Context → PatSelect
default_select c = select_pat c.pat 6

-- `Container[Index] = VmEncodeEntryFor(pNode, Type, Paddr)`
unfoldable pub store_leaf : Context → Tables → Region → EntryType → ℕ → ℕ → ℕ → Tables × Bool
store_leaf c s r type container index paddr =
    let (entry, failed) = encode_entry_for s.vmm s.num_failed c.pat c.is_kernel r type paddr in
    (
      record s {
        words = store_word s.words (entry_address container index) entry;
        num_failed = failed;
      },
      true,
    )

-- The table that the entry leads to, acquired where there is none, and what is done with it.
abbrev pub through :
    Context → Tables → ℕ → EntryType → ℕ → (Tables → ℕ → Tables × Bool) → Tables × Bool
through c s container type index next =
    let (s', table) = get_or_acquire_page_struct s container type index 3 (default_select c) in
    elim table [ none ↦ (s', false) | some t ↦ next s' t ]

-- One round of the loop.
unfoldable pub map_page : Context → Tables → Region → AddressMode → ℕ → ℕ → Tables × Bool
map_page c s r AddressMode.large vaddr paddr =
    let v = unmake_virtual AddressMode.large vaddr in
    through c s (phys_to_virt s c.paddr_root) EntryType.pml4 v.pml4 λ s1 pdpt.
      through c s1 pdpt EntryType.pdpt v.pdpt
        λ s2 pd. store_leaf c s2 r EntryType.pd2mb pd v.pd paddr
map_page c s r mode vaddr paddr =
    let v = unmake_virtual mode vaddr in
    through c s (phys_to_virt s c.paddr_root) EntryType.pml4 v.pml4 λ s1 pdpt.
      through c s1 pdpt EntryType.pdpt v.pdpt λ s2 pd.
        through c s2 pd EntryType.pd v.pd λ s3 pt. store_leaf c s3 r EntryType.pt pt v.pt paddr

-- `for (MappingOffset = 0; MappingOffset < MappingSize; ...)`; a round that fails ends it. The offset and
-- the addresses are of 64 bits. `none` stands for a loop that is not at its end after the rounds.
unfoldable pub map_pages :
    ℕ → Context → Tables → Region → AddressMode → ℕ → ℕ → ℕ → Option (Tables × Bool)
map_pages zero c s r mode paddr size offset = none
map_pages (suc fuel) c s r mode paddr size offset =
    let (s', done) =
      map_page c s r mode ((r.vaddr_start + offset) % 2 ^ 64) ((paddr + offset) % 2 ^ 64) in
    let rest =
      map_pages fuel c s' r mode paddr size ((offset + region_page_size r.flags) % 2 ^ 64) in
    if not (ltb offset size) then some (s, true) else (if done then rest else some (s', false))

-- `pNode->Flags & KR_PAGE_SIZE`: the bit of the number 4096, not that of the large pages.
unfoldable pub mapping_mode : Region → AddressMode
mapping_mode r = if has_flag r.flags 4096 then AddressMode.large else AddressMode.small

-- `MappingSize`
abbrev pub mapping_size : Region → ℕ
mapping_size r = (r.vaddr_end + 2 ^ 64 - r.vaddr_start) % 2 ^ 64

-- A round for every page of 4096 bytes, one for a rest, and the last test.
unfoldable pub map_static : Context → Tables → Region → ℕ → Option (Tables × Bool)
map_static c s r paddr =
    if not (is_power_of_two_aligned paddr (region_page_size r.flags))
    then some (s, false)
    else (if not (has_flag r.flags (2 ^ 7))
        then some (s, false)
        else map_pages (mapping_size r / 4096 + 2) c s r (mapping_mode r) paddr (mapping_size r) 0)
