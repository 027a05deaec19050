-- ===== src/Pte/Structs/Linked.antt =====
-- What an acquired page structure is linked by.
use ych.Prelude.{
  ℕ, zero, suc, ◌+◌, ◌-◌, ◌*◌, ◌/◌, ◌%◌, ◌^◌, ◌≤◌, ◌<◌, ◌≡◌, refl, bit_and, bit_or, Bool, true,
  false, ◌&&◌, leb, ltb, ◌==◌, Option, none, some, arith, ◌∙◌, eq→beq,
}
use native.Mathlib.Nat.{pow-suc, pow-zero}
use ych.Prelude.Bits.{or_step, and_step, or-low, and-low, and-or, zero-or, zero-and}
use ych.Prelude.Masks.{and_high, and_low}
use ych.Physmem.{Pmm, PageType, invalid_page_id, page_address, is_valid_page_id}
use ych.Physmem.Acquire.{acquire_page}
use ych.Pte.Structs.{
  Tables, entry_address, phys_to_virt, physaddr_mask, is_present, get_page_struct, store_word,
  zero_page, link_page, get_or_acquire_page_struct,
}
use ych.Pte.{
  alignment, EntryType, PatSelect, with_flag, make_flags, sanitize, encode_entry, encode_failure,
}

or_bound : (k x y : ℕ) → x < 2 ^ k → y < 2 ^ k → bit_or x y < 2 ^ k
or_bound zero x y hx hy =
    let e = pow-zero 2 in
    let x0 : x ≡ 0 = omega arith in let y0 : y ≡ 0 = omega arith in rw (x0, y0) (omega arith)
or_bound (suc k) x y hx hy =
    let e = pow-suc 2 k in
    omega (arith, or_step x y, or_bound k (x / 2) (y / 2) (omega arith) (omega arith))

and_bound : (k x y : ℕ) → x < 2 ^ k → bit_and x y < 2 ^ k
and_bound zero x y hx =
    let e = pow-zero 2 in let x0 : x ≡ 0 = omega arith in rw x0 (omega (arith, zero-and y))
and_bound (suc k) x y hx =
    let e = pow-suc 2 k in omega (arith, and_step x y, and_bound k (x / 2) (y / 2) (omega arith))

-- The types whose entries refer to page structures.
unfoldable pub is_branch : EntryType → Bool
is_branch EntryType.pml4 = true
is_branch EntryType.pdpt = true
is_branch EntryType.pd = true
is_branch EntryType.pdp1gb = false
is_branch EntryType.pd2mb = false
is_branch EntryType.pt = false
is_branch EntryType.invalid = false

with_flag_low :
    (set : Bool) (flag x : ℕ)
    → flag < 2 ^ 12
    → flag % 2 ≡ 0
    → x < 2 ^ 12
    → (with_flag set flag x < 2 ^ 12) × (with_flag set flag x % 2 ≡ x % 2)
with_flag_low true flag x hf ef hx = (or_bound 12 x flag hx hf, omega (arith, or-low x flag))
with_flag_low false flag x hf ef hx = (hx, refl)

kept_low :
    (base mask : ℕ)
    → mask % 2 ≡ 1
    → base < 2 ^ 12
    → (bit_and base mask < 2 ^ 12) × (bit_and base mask % 2 ≡ base % 2)
kept_low base mask e h = (and_bound 12 base mask h, omega (arith, and-low base mask))

branch_flags :
    (base : ℕ) (pcd pwt : Bool)
    → base < 2 ^ 12
    → let x =
        with_flag pcd
          (2 ^ 4)
          (with_flag pwt (2 ^ 3) (bit_and base (2 ^ 64 - 1 - (2 ^ 3 + 2 ^ 4 + 2 ^ 7 + 2 ^ 12)))) in
      (x < 2 ^ 12) × (x % 2 ≡ base % 2)
branch_flags base pcd pwt h =
    let (b0, e0) = kept_low base (2 ^ 64 - 1 - (2 ^ 3 + 2 ^ 4 + 2 ^ 7 + 2 ^ 12)) refl h in
    let (b1, e1) = with_flag_low pwt (2 ^ 3) _ (omega arith) refl b0 in
    let (b2, e2) = with_flag_low pcd (2 ^ 4) _ (omega arith) refl b1 in (b2, e2 ∙ e1 ∙ e0)

make_flags-low :
    (type : EntryType) (base : ℕ) (select : PatSelect)
    → is_branch type ≡ true
    → base < 2 ^ 12
    → (make_flags type base select < 2 ^ 12) × (make_flags type base select % 2 ≡ base % 2)
unfolding make_flags is_branch
make_flags-low EntryType.pml4 base select b h =
    let p = branch_flags base select.pcd select.pwt h in ground (arith, p)
make_flags-low EntryType.pdpt base select b h =
    let p = branch_flags base select.pcd select.pwt h in ground (arith, p)
make_flags-low EntryType.pd base select b h =
    let p = branch_flags base select.pcd select.pwt h in ground (arith, p)
make_flags-low EntryType.pdp1gb base select b h = absurd cc
make_flags-low EntryType.pd2mb base select b h = absurd cc
make_flags-low EntryType.pt base select b h = absurd cc
make_flags-low EntryType.invalid base select b h = absurd cc

-- An entry that is put together from low flags and a page's address.
joined :
    (flags address : ℕ)
    → flags < 2 ^ 12
    → address % 2 ^ 12 ≡ 0
    → address < 2 ^ 52
    → (bit_and (bit_or flags address) ((2 ^ 40 - 1) * 2 ^ 12) ≡ address)
      × (bit_or flags address % 2 ≡ flags % 2)
joined flags address low aligned small =
    let none_high : bit_and flags ((2 ^ 40 - 1) * 2 ^ 12) ≡ 0 =
      omega (arith, and_high 40 12 flags) in
    let all_high : bit_and address ((2 ^ 40 - 1) * 2 ^ 12) ≡ address =
      omega (arith, and_high 40 12 address) in
    (
      rw (and-or flags address ((2 ^ 40 - 1) * 2 ^ 12), none_high, all_high, zero-or address) refl,
      omega (arith, or-low flags address),
    )

sanitize-low :
    (vmm : Option Bool) (flags : ℕ)
    → flags < 2 ^ 12
    → (sanitize vmm flags < 2 ^ 12) × (sanitize vmm flags % 2 ≡ flags % 2)
sanitize-low none flags h = (h, refl)
sanitize-low (some true) flags h = (h, refl)
sanitize-low (some false) flags h = kept_low flags (2 ^ 64 - 1 - 2 ^ 63) refl h

branch_alignment : (type : EntryType) → is_branch type ≡ true → alignment type ≡ 0x1000
unfolding alignment is_branch
branch_alignment EntryType.pml4 b = refl
branch_alignment EntryType.pdpt b = refl
branch_alignment EntryType.pd b = refl
branch_alignment EntryType.pdp1gb b = absurd cc
branch_alignment EntryType.pd2mb b = absurd cc
branch_alignment EntryType.pt b = absurd cc
branch_alignment EntryType.invalid b = absurd cc

-- An encoded entry that refers to a page structure.
record Link (vmm : Option Bool) (num_failed : ℕ) (type : EntryType) (address flags : ℕ)
    (select : PatSelect) : Type 0 where
  entry : ℕ
  encoded : encode_entry vmm num_failed type address flags select ≡ (entry, num_failed)
  refers : bit_and entry physaddr_mask ≡ address
  present : is_present entry ≡ true
  sound : (entry == encode_failure) ≡ false

encode_entry-Link :
    (vmm : Option Bool) (num_failed : ℕ) (type : EntryType) (address flags : ℕ) (select : PatSelect)
    → is_branch type ≡ true
    → flags < 2 ^ 12
    → flags % 2 ≡ 1
    → address % 2 ^ 12 ≡ 0
    → address < 2 ^ 52
    → Link vmm num_failed type address flags select
unfolding encode_entry
encode_entry-Link vmm num_failed type address flags select branch low odd aligned small =
    let (s_low, s_odd) = sanitize-low vmm flags low in
    let (f_low, f_odd) = make_flags-low type (sanitize vmm flags) select branch s_low in
    let made = make_flags type (sanitize vmm flags) select in
    let (high, first) = joined made address f_low aligned small in
    let big : bit_or made address < 2 ^ 52 = or_bound 52 made address (omega arith) small in
    let four : alignment type ≡ 0x1000 = branch_alignment type branch in
    let test : bit_and address ((0x1000 + 2 ^ 64 - 1) % 2 ^ 64) ≡ 0 =
      and_low 12 address ∙ aligned in
    record {
      entry = bit_or made address;
      encoded = rw (four, test) refl;
      refers = high;
      present = ground (arith, and_low 1 (bit_or made address));
      sound = ground arith;
    }

-- The address of a page below 4 GiB, which the 32-bit product of the source does not cut.
low_address :
    (s : Pmm) (id : ℕ) → is_valid_page_id s id ≡ true → id < 2 ^ 20 → page_address s id ≡ id * 4096
unfolding page_address
low_address s id v h = ground arith

-- An entry that is not present, whose word lies outside the page that is acquired for it, is linked
-- to that page: the type is one of a page structure, the flags are below 2 ^ 12 and have the present
-- bit, and the page's id is below 2 ^ 20. The answer is the address in the direct map of the 4096
-- bytes of that id, the lookup of the entry then answers the same, every word of them is 0, and the
-- physical memory manager is as after the acquisition.
pub get_or_acquire_page_struct-linked :
    (s : Tables) (container index flags : ℕ) (type : EntryType) (select : PatSelect)
    → is_branch type ≡ true
    → flags < 2 ^ 12
    → flags % 2 ≡ 1
    → is_present (s.words (entry_address container index)) ≡ false
    → let (pmm, id) = acquire_page s.pmm PageType.page_struct invalid_page_id in
      let start = (s.dmap_base + id * 4096) % 2 ^ 64 in
      is_valid_page_id pmm id ≡ true
      → id < 2 ^ 20
      → (leb start (entry_address container index)
          && ltb (entry_address container index) (start + 4096))
        ≡ false
      → let (t, answer) = get_or_acquire_page_struct s container type index flags select in
        (answer ≡ some start)
        × ((get_page_struct t container index ≡ some start)
            × (((a : ℕ) → start ≤ a → a < start + 4096 → t.words a ≡ 0) × (t.pmm ≡ pmm)))
unfolding get_or_acquire_page_struct link_page get_page_struct
get_or_acquire_page_struct-linked s container index flags type select branch low odd absent valid
      below outside =
    let r = acquire_page s.pmm PageType.page_struct invalid_page_id in
    let got : (r.1 == invalid_page_id) ≡ false = ground arith in
    let e : page_address r.0 r.1 ≡ r.1 * 4096 = low_address r.0 r.1 valid below in
    let l =
      encode_entry-Link s.vmm s.num_failed type (r.1 * 4096) flags select branch low odd
        (omega arith) (omega arith) in
    let own : (entry_address container index == entry_address container index) ≡ true =
      eq→beq _ _ refl in
    let start = phys_to_virt s (r.1 * 4096) in
    let at = entry_address container index in
    let read : zero_page (store_word s.words at l.entry) start at ≡ l.entry =
      rw (outside, own) refl in
    rw (absent, got, e, l.encoded, l.sound)
      (refl, (rw (read, l.present, l.refers) refl, ((λ a lo hi. ground arith), refl)))
