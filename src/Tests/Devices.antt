-- ===== src/Tests/Devices.antt =====
-- Mappings and nodes of Kernel/Source/Memory on small inputs.
use ych.Prelude.{
  ℕ, ◌+◌, ◌^◌, ◌≡◌, refl, true, some, none, List, [], ◌∷◌, arith, ◌==◌, if◌then◌else◌, leb, ◌*◌,
  inl,
}
use ych.Mmio.Ranges.{allocate_all, IsApart, Request, demand, AllWords, allocate_all-IsApart}
use ych.Vmm.Mapping.{Context, map_page, mapping_mode}
use ych.Vmm.Mapping.Present.{Walk, leaf_of, map_page-leaf_of}
use ych.Vmm.Kernel.{BootInfo, frame_buffer_region}
use ych.Vmm.{Region, encode_entry_for}
use ych.Vmm.Nodes.{
  Rna, MetaSlot, meta_slot_vptr, slot_vptr, acquire_node, relinquish_node, take_slot, lowest_clear,
}
use ych.Vmm.Nodes.Slots.{IsSlotMap, IsTaken, take-IsTaken}
use ych.Vmm.Nodes.Cycle.{IsRoot, acquire_node-relinquish_node}
use ych.Physmem.{invalid_page_id, is_reserved, page_address}
use ych.Tests.Pages.{twelve_pages}
use ych.Pte.{AddressMode, EntryType}
use ych.Pte.Structs.{Tables, get_page_struct}

abbrev requests : List Request
requests = (12, 0x3000) ∷ (21, 0x20_0000) ∷ (12, 0x1000) ∷ []

requests-words : AllWords requests
unfolding AllWords
requests-words = (omega arith, (omega arith, (omega arith, tt)))

requests_fit : 0xFFFF_FFC0_0000_0000 + demand requests ≡ 0xFFFF_FFC0_0040_6000
unfolding demand
requests_fit = refl

allocate_all-IsApart_example :
    IsApart 0xFFFF_FFC0_0000_0000 (allocate_all 0xFFFF_FFC0_0000_0000 requests)
allocate_all-IsApart_example =
    allocate_all-IsApart 0xFFFF_FFC0_0000_0000 requests requests-words (omega (arith, requests_fit))

-- The page structures on the way to address 0, at 0x1000 to 0x4000.
abbrev words : ℕ → ℕ
words a =
    if a == 0x1000
    then 0x2001
    else (if a == 0x2000 then 0x3001 else (if a == 0x3000 then 0x4001 else 0))

abbrev low_tables : Tables
low_tables = record { words = words; pmm = twelve_pages; num_failed = 0; vmm = none; dmap_base = 0 }

abbrev context : Context
context = record {
  pat = record { pa_uc = 3; pa_wc = 4; pa_wt = 1; pa_wp = 5; pa_wb = 0; pa_ucm = 2 };
  is_kernel = true;
  paddr_root = 0x1000;
}

abbrev device_region : Region
device_region = record { vaddr_start = 0; vaddr_end = 0x1000; flags = 2 ^ 7 + 2 ^ 5 + 2 ^ 4 + 1 }

low_walk : Walk low_tables 0x1000 0
unfolding get_page_struct
low_walk = record {
  pdpt = 0x2000;
  pd = 0x3000;
  pt = 0x4000;
  first = refl;
  second = refl;
  third = refl;
}

map_page-leaf_of_example :
    ((map_page context low_tables device_region AddressMode.small 0 0xFEC0_0000).1 ≡ true)
    × (leaf_of
          (map_page context low_tables device_region AddressMode.small 0 0xFEC0_0000).0
          0x1000
          0
        ≡ some (encode_entry_for none 0 context.pat true device_region EntryType.pt 0xFEC0_0000).0)
unfolding low_walk
map_page-leaf_of_example =
    map_page-leaf_of context low_tables device_region 0 0xFEC0_0000 low_walk (omega arith)
      (omega arith) (omega arith)

-- A region of large pages is mapped by pages of 4096 bytes, of which each is stored for a step of
-- 2 MiB.
large_region_mode :
    mapping_mode (record device_region { flags = 2 ^ 7 + 2 ^ 2 }) ≡ AddressMode.small
unfolding mapping_mode
large_region_mode = refl

abbrev boot_info : BootInfo
boot_info = record {
  addr_virtual_base = 0xFFFF_FFFF_8000_0000;
  reserve_size = 0x40_0000;
  fbuf_virtual = 0xFFFF_FFFF_C000_0000;
  fbuf_size = 0x80_0000;
}

-- The frame buffer's region ends before it starts, inside the one of the image.
frame_buffer_end : (frame_buffer_region boot_info).vaddr_end ≡ 0xFFFF_FFFF_8080_0000
unfolding frame_buffer_region
frame_buffer_end = refl

-- The allocator's first page is page 1, with two slots in use.
abbrev root_meta : MetaSlot
root_meta = record {
  bitmap = 7;
  this = 1;
  prev = invalid_page_id;
  next = invalid_page_id;
  nr_slots = 3;
}

abbrev root_rna : Rna
root_rna = record {
  root = 1;
  metas = λ a. root_meta;
  nodes = λ a. record { vaddr_start = 0; vaddr_end = 0; flags = 0 };
  pmm = record twelve_pages { advisory = λ i o. leb (8 * i + o) 1 };
  dmap_base = 0x10000;
}

root_rna-IsRoot : IsRoot root_rna root_meta
unfolding IsSlotMap is_reserved page_address
root_rna-IsRoot = record {
  meta = refl;
  own = refl;
  number = omega arith;
  map = inl (omega arith);
  not_full = omega arith;
  counted = (omega arith, omega arith);
  reserved = refl;
  room = omega arith;
}

acquire_node-relinquish_node_example :
    (s2 : Rna) × (relinquish_node (acquire_node root_rna).0 (acquire_node root_rna).1
      ≡ some (s2, true))
    × ((s2.metas (meta_slot_vptr root_rna 1)).bitmap ≡ 7)
    × ((s2.metas (meta_slot_vptr root_rna 1)).nr_slots ≡ 3)
acquire_node-relinquish_node_example =
    acquire_node-relinquish_node root_rna root_meta root_rna-IsRoot

-- A page that was appended does not know its number: a node of it is one in page 0.
abbrev appended_rna : Rna
appended_rna = record root_rna {
  metas = λ a. record root_meta { bitmap = 1; this = 0; nr_slots = 1 };
}

node_of_page_zero : (take_slot appended_rna 0x12000).1 ≡ 0x10040
unfolding take_slot slot_vptr page_address lowest_clear
node_of_page_zero = refl

take-IsTaken_run : IsTaken 7
unfolding IsSlotMap
take-IsTaken_run = take-IsTaken 7 (inl (omega arith)) (omega arith)
