-- ===== src/Pte.antt =====
-- Page-table entries and virtual addresses, Kernel/Source/Memory/PTE.c, and the memory types that
-- an entry selects, Kernel/Source/CPU/PAT.c.
use ych.Prelude.{
  ℕ, zero, suc, ◌+◌, ◌-◌, ◌*◌, ◌/◌, ◌%◌, ◌^◌, bit_and, bit_or, Bool, true, false, not, ◌==◌,
  if◌then◌else◌, Option, none, some, List, [], ◌∷◌, get_or,
}
use ych.Krtl.Mem.{not64}
pub mod Entries
pub mod Structs
pub mod Addresses

pub data EntryType : Type 0 where
  pml4 pdpt pdp1gb pd pd2mb pt invalid : EntryType

-- `KrPatSelect`: the three bits of the memory type, as flags.
pub record PatSelect : Type 0 where
  pub pat : Bool
  pub pcd : Bool
  pub pwt : Bool

abbrev pub pat_select_table : List PatSelect
pat_select_table =
    record { pat = false; pcd = false; pwt = false }
    ∷ record { pat = false; pcd = false; pwt = true }
    ∷ record { pat = false; pcd = true; pwt = false }
    ∷ record { pat = false; pcd = true; pwt = true }
    ∷ record { pat = true; pcd = false; pwt = false }
    ∷ record { pat = true; pcd = false; pwt = true }
    ∷ record { pat = true; pcd = true; pwt = false }
    ∷ record { pat = true; pcd = true; pwt = true }
    ∷ []

-- `KrPatMsrState`: the entry of the register that holds each memory type.
pub record PatMsrState : Type 0 where
  pub pa_uc : ℕ
  pub pa_wc : ℕ
  pub pa_wt : ℕ
  pub pa_wp : ℕ
  pub pa_wb : ℕ
  pub pa_ucm : ℕ

unfoldable pub pat_target : PatMsrState → ℕ → ℕ
pat_target s mem_type =
    if mem_type == 0
    then s.pa_uc
    else (if mem_type == 1
        then s.pa_wc
        else (if mem_type == 4
            then s.pa_wt
            else (if mem_type == 5
                then s.pa_wp
                else (if mem_type == 6 then s.pa_wb else (if mem_type == 7 then s.pa_ucm else 0)))))

-- The fields have three bits, so the table is read inside its bounds.
unfoldable pub select_pat : PatMsrState → ℕ → PatSelect
unfolding pat_target
select_pat s mem_type =
    get_or pat_select_table (pat_target s mem_type % 8)
      (record { pat = false; pcd = false; pwt = false })

unfoldable pub parent_type : EntryType → EntryType
parent_type EntryType.pml4 = EntryType.invalid
parent_type EntryType.pdpt = EntryType.pml4
parent_type EntryType.pdp1gb = EntryType.pml4
parent_type EntryType.pd = EntryType.pdpt
parent_type EntryType.pd2mb = EntryType.pdpt
parent_type EntryType.pt = EntryType.pd
parent_type EntryType.invalid = EntryType.invalid

unfoldable pub is_leaf : EntryType → Bool
is_leaf EntryType.pdp1gb = true
is_leaf EntryType.pd2mb = true
is_leaf EntryType.pt = true
is_leaf EntryType.pml4 = false
is_leaf EntryType.pdpt = false
is_leaf EntryType.pd = false
is_leaf EntryType.invalid = false

unfoldable pub alignment : EntryType → ℕ
alignment EntryType.pml4 = 0x1000
alignment EntryType.pdpt = 0x1000
alignment EntryType.pd = 0x1000
alignment EntryType.pt = 0x1000
alignment EntryType.pdp1gb = 0x40000000
alignment EntryType.pd2mb = 0x200000
alignment EntryType.invalid = 0

-- Whether the entry maps a 1 GiB or 2 MiB page.
abbrev pub is_big : EntryType → Bool
is_big EntryType.pdp1gb = true
is_big EntryType.pd2mb = true
is_big EntryType.pml4 = false
is_big EntryType.pdpt = false
is_big EntryType.pd = false
is_big EntryType.pt = false
is_big EntryType.invalid = false

abbrev pub with_flag : Bool → ℕ → ℕ → ℕ
with_flag set flag x = if set then bit_or x flag else x

-- The bit of the memory type's third flag: 12 for big pages, 7 for a page table's entries, and
-- none where the hierarchy does not support it.
abbrev pub pat_flag : EntryType → ℕ → ℕ
pat_flag EntryType.pdp1gb x = bit_or x (2 ^ 12)
pat_flag EntryType.pd2mb x = bit_or x (2 ^ 12)
pat_flag EntryType.pt x = bit_or x (2 ^ 7)
pat_flag EntryType.pml4 x = x
pat_flag EntryType.pdpt x = x
pat_flag EntryType.pd x = x
pat_flag EntryType.invalid x = x

unfoldable pub make_flags : EntryType → ℕ → PatSelect → ℕ
make_flags type base select =
    let kept = bit_and base (not64 (2 ^ 3 + 2 ^ 4 + 2 ^ 7 + 2 ^ 12)) in
    let sized = with_flag (is_big type) (2 ^ 7) kept in
    let through = with_flag select.pwt (2 ^ 3) sized in
    let cached = with_flag select.pcd (2 ^ 4) through in
    if select.pat then pat_flag type cached else cached

abbrev pub encode_failure : ℕ
encode_failure = 2 ^ 64 - 1

-- `none` before the virtual memory manager is up; `some` says whether no-execute is supported.
abbrev pub sanitize : Option Bool → ℕ → ℕ
sanitize none flags = flags
sanitize (some supported) flags = if supported then flags else bit_and flags (not64 (2 ^ 63))

-- The counter of failed encodings is passed through. The mask `alignment - 1` wraps for a type
-- that is not one of the six.
unfoldable pub encode_entry : Option Bool → ℕ → EntryType → ℕ → ℕ → PatSelect → ℕ × ℕ
unfolding alignment
encode_entry vmm num_failed type address flags select =
    if bit_and address ((alignment type + 2 ^ 64 - 1) % 2 ^ 64) == 0
    then (bit_or (make_flags type (sanitize vmm flags) select) address, num_failed)
    else (encode_failure, (num_failed + 1) % 2 ^ 32)

pub data AddressMode : Type 0 where
  small large huge : AddressMode

-- `KrVirtualAddress`, indices as 32-bit numbers.
pub record VirtualAddress : Type 0 where
  pub pml4 : ℕ
  pub pdpt : ℕ
  pub pd : ℕ
  pub pt : ℕ
  pub offset : ℕ

abbrev pub index_bits : ℕ → ℕ
index_bits x = bit_and x (2 ^ 9 - 1)

abbrev pub lower_part : AddressMode → VirtualAddress → ℕ → ℕ
lower_part AddressMode.huge v x = bit_or x (bit_and v.offset (2 ^ 30 - 1))
lower_part AddressMode.large v x =
    bit_or (bit_or x (index_bits v.pd * 2 ^ 21)) (bit_and v.offset (2 ^ 21 - 1) * 2 ^ 12)
lower_part AddressMode.small v x =
    bit_or (bit_or (bit_or x (index_bits v.pd * 2 ^ 21)) (index_bits v.pt * 2 ^ 12))
      (bit_and v.offset (2 ^ 12 - 1))

-- The shifts stay below 2 ^ 64. The sign is bit 9 of the first index.
unfoldable pub make_virtual : AddressMode → VirtualAddress → ℕ
make_virtual mode v =
    let sign = if bit_and v.pml4 (2 ^ 9) == 0 then 0 else 0xFFFF000000000000 in
    lower_part mode v
      (bit_or (bit_or sign (index_bits v.pml4 * 2 ^ 39)) (index_bits v.pdpt * 2 ^ 30))

unfoldable pub unmake_virtual : AddressMode → ℕ → VirtualAddress
unmake_virtual AddressMode.small a = record {
  pml4 = index_bits (a / 2 ^ 39);
  pdpt = index_bits (a / 2 ^ 30);
  pd = index_bits (a / 2 ^ 21);
  pt = index_bits (a / 2 ^ 12);
  offset = bit_and a (2 ^ 12 - 1);
}
unmake_virtual AddressMode.large a = record {
  pml4 = index_bits (a / 2 ^ 39);
  pdpt = index_bits (a / 2 ^ 30);
  pd = index_bits (a / 2 ^ 21);
  pt = 0;
  offset = bit_and (a / 2 ^ 12) (2 ^ 21 - 1);
}
unmake_virtual AddressMode.huge a = record {
  pml4 = index_bits (a / 2 ^ 39);
  pdpt = index_bits (a / 2 ^ 30);
  pd = 0;
  pt = 0;
  offset = bit_and (a / 2 ^ 21) (2 ^ 30 - 1);
}
