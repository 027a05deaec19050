-- ===== src/Vmm/Nodes.antt =====
-- Kernel/Source/Memory/PrivateVMM/RegionNodeAllocator.h: the nodes of the regions, in the slots of
-- pages. The first slot of a page describes the others.
pub mod Slots
pub mod Cycle
use ych.Prelude.{
  ℕ, zero, suc, ◌+◌, ◌-◌, ◌*◌, ◌/◌, ◌%◌, ◌^◌, bit_and, bit_or, Bool, true, false, ◌&&◌, not, leb,
  ltb, ◌==◌, if◌then◌else◌, Option, none, some,
}
use ych.Krtl.Mem.{not64}
use ych.Physmem.{Pmm, PageType, invalid_page_id, page_address}
use ych.Physmem.Acquire.{acquire_page}
use ych.Physmem.Release.{Outcome, returned, meltdown, relinquish_page, reserve_page}
use ych.Vmm.{Region}

-- `KrRnaMetaSlot`
pub record MetaSlot : Type 0 where
  pub bitmap : ℕ
  pub this : ℕ
  pub prev : ℕ
  pub next : ℕ
  pub nr_slots : ℕ

abbrev pub blank_slot : MetaSlot
blank_slot = record { bitmap = 0; this = 0; prev = 0; next = 0; nr_slots = 0 }

abbrev pub blank_region : Region
blank_region = record { vaddr_start = 0; vaddr_end = 0; flags = 0 }

-- `g_RnaRootPageID`, and what the allocator's pages hold by virtual address: descriptions and nodes.
pub record Rna : Type 0 where
  pub root : ℕ
  pub metas : ℕ → MetaSlot
  pub nodes : ℕ → Region
  pub pmm : Pmm
  pub dmap_base : ℕ

abbrev pub slot_size : ℕ
slot_size = 64

-- `RnaGetSlotVptr`
unfoldable pub slot_vptr : Rna → ℕ → ℕ → ℕ
slot_vptr s page slot = (s.dmap_base + page_address s.pmm page + slot * slot_size) % 2 ^ 64

unfoldable pub meta_slot_vptr : Rna → ℕ → ℕ
meta_slot_vptr s page = slot_vptr s page 0

abbrev pub in_page : ℕ → ℕ → Bool
in_page start a = leb start a && ltb a (start + 4096)

-- `KrtlContiguousZeroBuffer` of a page
unfoldable pub zero_slots : Rna → ℕ → Rna
zero_slots s start = record s {
  metas = λ a. if in_page start a then blank_slot else s.metas a;
  nodes = λ a. if in_page start a then blank_region else s.nodes a;
}

unfoldable pub put_meta : Rna → ℕ → MetaSlot → Rna
put_meta s address value = record s { metas = λ a. if a == address then value else s.metas a }

unfoldable pub rna_init : Rna → Rna × Bool
rna_init s =
    if not (s.root == invalid_page_id)
    then (s, false)
    else (let (pmm, page) = acquire_page s.pmm PageType.rna invalid_page_id in
        let s1 : Rna = record s { root = page; pmm = pmm } in
        let at = meta_slot_vptr s1 page in
        let s2 = zero_slots s1 at in
        if page == invalid_page_id then (s1, false) else (
          put_meta (record s2 { pmm = (reserve_page s2.pmm page).0 }) at
              (record {
                bitmap = 1;
                this = page;
                prev = invalid_page_id;
                next = invalid_page_id;
                nr_slots = 1;
              }),
          true,
        ))

-- `1 << slot`: an `int`, widened with its sign. The processor takes the count modulo 32.
unfoldable pub slot_mask : ℕ → ℕ
slot_mask slot = if slot % 32 == 31 then 2 ^ 64 - 2 ^ 31 else 2 ^ (slot % 32)

-- `__builtin_ctzl(~Bitmap)`: the lowest bit that is clear, for one that exists within `fuel` bits.
unfoldable pub lowest_clear : ℕ → ℕ → ℕ
lowest_clear zero bitmap = 0
lowest_clear (suc fuel) bitmap =
    let rest = lowest_clear fuel (bitmap / 2) in if bitmap % 2 == 0 then 0 else suc rest

-- The new page, linked behind the one at `at`. Its own number is left at 0.
unfoldable pub append_page : Rna → ℕ → Rna × Option ℕ
append_page s at =
    let (pmm, page) = acquire_page s.pmm PageType.rna invalid_page_id in
    let s1 = record s { pmm = pmm } in
    let new = meta_slot_vptr s1 page in
    let s2 = zero_slots s1 new in
    let s3 = put_meta s2 at (record (s2.metas at) { next = page }) in
    if page == invalid_page_id then (s1, none) else (
      put_meta s3 new (record (s3.metas new) {
        prev = (s2.metas at).this;
        next = invalid_page_id;
        bitmap = 1;
        nr_slots = 1;
      }),
      some new,
    )

-- `for (;;)`: the first page of the chain with a clear bit, or a new one.
unfoldable pub choose_page : ℕ → Rna → ℕ → Rna × Option ℕ
choose_page zero s at = (s, none)
choose_page (suc fuel) s at =
    let rest = choose_page fuel s (meta_slot_vptr s (s.metas at).next) in
    if not ((s.metas at).bitmap == 2 ^ 64 - 1)
    then (s, some at)
    else (if not ((s.metas at).next == invalid_page_id) then rest else append_page s at)

-- The slot is taken from the page described at `at`.
unfoldable pub take_slot : Rna → ℕ → Rna × ℕ
take_slot s at =
    let m = s.metas at in
    let slot = lowest_clear 64 m.bitmap in
    let node = slot_vptr s m.this slot in
    let s' = put_meta s at (record m {
      bitmap = bit_or m.bitmap (slot_mask slot);
      nr_slots = (m.nr_slots + 1) % 2 ^ 8;
    }) in
    (record s' { nodes = λ a. if a == node then blank_region else s'.nodes a }, node)

-- As many rounds as there are pages. `NULLPTR` is 0.
unfoldable pub acquire_node : Rna → Rna × ℕ
acquire_node s =
    let (s', chosen) = choose_page (s.pmm.nr_pages + 1) s (meta_slot_vptr s s.root) in
    elim chosen [ none ↦ (s', 0) | some at ↦ take_slot s' at ]

-- `do ... while`: the page that the node's address lies in.
unfoldable pub search_page : ℕ → Rna → ℕ → ℕ → ℕ
search_page zero s page node = invalid_page_id
search_page (suc fuel) s page node =
    let at = meta_slot_vptr s page in
    let next = (s.metas at).next in
    let rest = search_page fuel s next node in
    if in_page at node then page else (if next == invalid_page_id then invalid_page_id else rest)

-- `if (pMeta->Prev != IVLDPGID)` and `if (pMeta->Next != IVLDPGID)` with the writes behind them
unfoldable pub set_next : Rna → ℕ → ℕ → Rna
set_next s page next =
    let at = meta_slot_vptr s page in
    if page == invalid_page_id then s else put_meta s at (record (s.metas at) { next = next })

unfoldable pub set_prev : Rna → ℕ → ℕ → Rna
set_prev s page prev =
    let at = meta_slot_vptr s page in
    if page == invalid_page_id then s else put_meta s at (record (s.metas at) { prev = prev })

-- A page with no slot but its first is taken out of the chain.
unfoldable pub unlink_page : Rna → ℕ → Rna
unlink_page s at =
    let s1 = set_next s (s.metas at).prev (s.metas at).next in
    set_prev s1 (s1.metas at).next (s1.metas at).prev

unfoldable pub clear_slot : Rna → ℕ → ℕ → Rna
clear_slot s at slot =
    let m = s.metas at in
    put_meta s at (record m {
      bitmap = bit_and m.bitmap (not64 (slot_mask slot));
      nr_slots = (m.nr_slots + (2 ^ 8 - 1)) % 2 ^ 8;
    })

unfoldable pub tidy_page : Rna → ℕ → Rna
tidy_page s at = if (s.metas at).nr_slots == 1 then unlink_page s at else s

-- The slot's bit is cleared. The page is handed to the physical memory manager whatever is left in
-- it, and that one's answer is dropped. `none` is its meltdown.
unfoldable pub release_slot : Rna → ℕ → ℕ → Option (Rna × Bool)
release_slot s at node =
    let s' = tidy_page (clear_slot s at ((node - at) / slot_size)) at in
    elim (relinquish_page s'.pmm (s'.metas at).this) [
      | returned pmm answer ↦ some (record s' { pmm = pmm }, true)
      | meltdown ↦ none
    ]

unfoldable pub relinquish_node : Rna → ℕ → Option (Rna × Bool)
relinquish_node s node =
    let page = search_page (s.pmm.nr_pages + 1) s s.root node in
    if page == invalid_page_id then some (s, false) else release_slot s (meta_slot_vptr s page) node
