-- ===== src/Vmm.antt =====
-- The regions of an address space, Kernel/Source/Memory/Virtmemmgmt.c. The doubly linked list from
-- `pRootVMR` to `pTailVMR` is its links, by the address of a node, beside the list of the regions that
-- lie at these addresses, which the searches go along.
pub mod Overlap
pub mod Insert
pub mod Linked
pub mod Nodes
pub mod Mapping
pub mod Kernel
use ych.Prelude.{
  ℕ, zero, suc, ◌+◌, ◌-◌, ◌%◌, ◌^◌, bit_and, bit_or, Bool, true, false, ◌&&◌, ◌||◌, not, leb, ltb,
  ◌==◌, if◌then◌else◌, Option, none, some, List, [], ◌∷◌,
}
use ych.Krtl.Mem.{is_power_of_two_aligned}
use ych.Pte.{EntryType, PatMsrState, select_pat, encode_entry, encode_failure}

-- `KrVirtualMemoryRegion`: the start is inclusive, the end exclusive.
pub record Region : Type 0 where
  pub vaddr_start : ℕ
  pub vaddr_end : ℕ
  pub flags : ℕ

-- `pPrev` and `pNext` of the nodes, by their addresses, `pRootVMR` and `pTailVMR`. 0 is `NULLPTR`.
pub record Links : Type 0 where
  pub prev : ℕ → ℕ
  pub next : ℕ → ℕ
  pub root : ℕ
  pub tail : ℕ

abbrev pub put_link : (ℕ → ℕ) → ℕ → ℕ → ℕ → ℕ
put_link links node value n = if n == node then value else links n

-- The links of a new node between the node `before` which it stands and the one `after` which.
unfoldable pub link_node : Links → ℕ → ℕ → ℕ → Links
link_node l node before after = record {
  prev = put_link (if before == 0 then l.prev else put_link l.prev before node) node after;
  next = put_link (if after == 0 then l.next else put_link l.next after node) node before;
  root = if before == l.root then node else l.root;
  tail = if after == l.tail then node else l.tail;
}

-- `KrAddressSpace`, with the addresses of its nodes; `is_kernel` is whether its root is the kernel's.
pub record AddressSpace : Type 0 where
  pub is_kernel : Bool
  pub regions : List Region
  pub nodes : List ℕ
  pub links : Links
  pub nr_regions : ℕ

abbrev pub has_flag : ℕ → ℕ → Bool
has_flag flags flag = not (bit_and flags flag == 0)

unfoldable pub region_page_size : ℕ → ℕ
region_page_size flags = if has_flag flags (2 ^ 2) then 0x200000 else 0x1000

unfoldable pub locate_region : List Region → ℕ → Option Region
locate_region [] vaddr = none
locate_region (r ∷ rs) vaddr =
    let rest = locate_region rs vaddr in
    if leb r.vaddr_start vaddr && ltb vaddr r.vaddr_end then some r else rest

unfoldable pub overlaps_region : Region → ℕ → ℕ → Bool
overlaps_region r start stop =
    if leb stop start then false else ltb start r.vaddr_end && ltb r.vaddr_start stop

-- The loop over the list, which ends at the first region behind the range.
unfoldable pub overlaps_list : List Region → ℕ → ℕ → Bool
unfolding overlaps_region
overlaps_list [] start stop = false
overlaps_list (r ∷ rs) start stop =
    let rest = overlaps_list rs start stop in
    if leb stop r.vaddr_start then false else (if overlaps_region r start stop then true else rest)

unfoldable pub overlaps_any_regions : AddressSpace → ℕ → ℕ → Bool
overlaps_any_regions s start stop =
    if leb stop start then false else overlaps_list s.regions start stop

-- Whether the node's next one, if any, does not end the search: `VaddrEnd >= pNext->VaddrStart`.
abbrev pub reaches_next : List Region → ℕ → Bool
reaches_next [] stop = false
reaches_next (n ∷ rs) stop = leb n.vaddr_start stop

-- The loop of `VmFindInsertPoint`: the index of the node to insert before, which is the length of
-- the list where the new node becomes the last.
unfoldable pub find_insert_index : List Region → ℕ → ℕ → ℕ → Option ℕ
find_insert_index [] start stop i = none
find_insert_index (r ∷ rs) start stop i =
    let rest = find_insert_index rs start stop (i + 1) in
    if leb stop r.vaddr_start
    then some i
    else (if leb r.vaddr_end start
        then (if reaches_next rs stop then rest else some (i + 1))
        else rest)

unfoldable pub find_insert_point : AddressSpace → ℕ → ℕ → Option ℕ
find_insert_point s start stop =
    if leb stop start then none else find_insert_index s.regions start stop 0

-- `*pBefore`: the node of that index.
unfoldable pub node_before : ℕ → List ℕ → ℕ
node_before i [] = 0
node_before zero (n ∷ ns) = n
node_before (suc i) (n ∷ ns) = node_before i ns

-- `*pAfter`: the node in front of that index, which is `first` in front of all.
unfoldable pub node_after : ℕ → ℕ → List ℕ → ℕ
node_after first zero ns = first
node_after first (suc i) [] = first
node_after first (suc i) (n ∷ ns) = node_after n i ns

-- A list whose new element stands before the one of that index.
unfoldable pub insert_at {ℓ} : {A : Type ℓ} → ℕ → A → List A → List A
insert_at zero node rs = node ∷ rs
insert_at (suc i) node [] = node ∷ []
insert_at (suc i) node (r ∷ rs) = r ∷ insert_at i node rs

-- `KR_MAKE_VIRTUAL(KRNL_PML4_IDX, 0, 0, 0, 0)`
abbrev pub kernel_base : ℕ
kernel_base = 0xFFFF_FF80_0000_0000

-- Whether the division of the address space between kernel and user forbids the start.
unfoldable pub is_forbidden : AddressSpace → ℕ → ℕ → Bool
is_forbidden s start flags =
    if has_flag flags (2 ^ 8)
    then false
    else (if s.is_kernel then ltb start kernel_base else leb kernel_base start)

-- `address` is the node that `RnaAcquireNode` returns. `none` is `NULLPTR`.
unfoldable pub acquire_region : Option ℕ → AddressSpace → ℕ → ℕ → ℕ → AddressSpace × Option Region
unfolding is_forbidden region_page_size
acquire_region address s start stop flags =
    if leb stop start
      || is_forbidden s start flags
      || not (
          is_power_of_two_aligned start (region_page_size flags)
          && is_power_of_two_aligned stop (region_page_size flags))
    then (s, none)
    else elim (find_insert_point s start stop) [
      | none ↦ (s, none)
      | some i ↦
          let node : Region = record { vaddr_start = start; vaddr_end = stop; flags = flags } in
          elim address [
            | none ↦ (s, none)
            | some a ↦ (
              record s {
                regions = insert_at i node s.regions;
                nodes = insert_at i a s.nodes;
                links = link_node s.links a (node_before i s.nodes) (node_after 0 i s.nodes);
                nr_regions = (s.nr_regions + 1) % 2 ^ 32;
              },
              some node,
            )
          ]
    ]

-- The leaf entry of a page of a region: present, with the region's rights, global in the kernel's
-- address space and for the user elsewhere.
unfoldable pub leaf_flags : Bool → ℕ → ℕ
leaf_flags is_kernel flags =
    let writable = if has_flag flags (2 ^ 5) then bit_or 1 (2 ^ 1) else 1 in
    let guarded = if has_flag flags (2 ^ 3) then writable else bit_or writable (2 ^ 63) in
    if is_kernel then bit_or guarded (2 ^ 8) else bit_or guarded (2 ^ 2)

unfoldable pub encode_entry_for :
    Option Bool → ℕ → PatMsrState → Bool → Region → EntryType → ℕ → ℕ × ℕ
unfolding leaf_flags
encode_entry_for vmm num_failed pat is_kernel r type paddr =
    let caching = bit_and r.flags 3 in
    if caching == 3
    then (encode_failure, num_failed)
    else encode_entry vmm num_failed type paddr (leaf_flags is_kernel r.flags)
        (select_pat pat (if caching == 0 then 6 else (if caching == 1 then 0 else 1)))
