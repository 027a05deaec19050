-- ===== src/Pte/Entries.antt =====
-- What an encoded entry contains, bit by bit, and when the encoding fails.
use ych.Prelude.{
  ℕ, zero, suc, ◌+◌, ◌-◌, ◌*◌, ◌/◌, ◌%◌, ◌^◌, ◌≤◌, ◌<◌, ◌≡◌, ◌≢◌, refl, ◌∙◌, sym, ap, min, max,
  bit_and, bit_or, Bool, true, false, ◌||◌, ◌&&◌, ◌==◌, if◌then◌else◌, Option, none, some, arith,
  ne→beq, beq→eq, get_or,
}
use native.Mathlib.Nat.{div-div-eq-div-mul, pow-succ'}
use ych.Prelude.Range.{all_below, all_below_sound}
use ych.Prelude.Bits.{or-half, or-low, and-half, and-low}
use ych.Prelude.Masks.{and_low}
use ych.Pte.{
  EntryType, PatSelect, alignment, is_big, with_flag, pat_flag, make_flags, sanitize, encode_entry,
  encode_failure, PatMsrState, pat_target, select_pat, pat_select_table,
}

unfoldable pub bit : ℕ → ℕ → ℕ
bit n x = x / 2 ^ n % 2

bit-suc : (n x : ℕ) → bit (suc n) x ≡ bit n (x / 2)
unfolding bit
bit-suc n x = ap (λ y. y % 2) (rw (div-div-eq-div-mul, pow-succ' 2 n) refl)

bit-zero : (x : ℕ) → bit 0 x ≡ x % 2
unfolding bit
bit-zero x = omega arith

bit-or : (n x y : ℕ) → bit n (bit_or x y) ≡ max (bit n x) (bit n y)
bit-or zero x y = rw (bit-zero (bit_or x y), bit-zero x, bit-zero y) (or-low x y)
bit-or (suc n) x y =
    rw (bit-suc n (bit_or x y), bit-suc n x, bit-suc n y, or-half x y) (bit-or n (x / 2) (y / 2))

bit-and : (n x y : ℕ) → bit n (bit_and x y) ≡ min (bit n x) (bit n y)
bit-and zero x y = rw (bit-zero (bit_and x y), bit-zero x, bit-zero y) (and-low x y)
bit-and (suc n) x y =
    rw (bit-suc n (bit_and x y), bit-suc n x, bit-suc n y, and-half x y) (bit-and n (x / 2) (y / 2))

unfoldable pub flag_bit : Bool → ℕ
flag_bit true = 1
flag_bit false = 0

bit_bound : (n x : ℕ) → bit n x ≤ 1
unfolding bit
bit_bound n x = omega arith

-- The bits of the constants, by evaluation.
constants : ℕ → Bool
constants n =
    (bit n (2 ^ 3) == flag_bit (n == 3))
    && ((bit n (2 ^ 4) == flag_bit (n == 4))
        && ((bit n (2 ^ 7) == flag_bit (n == 7))
            && ((bit n (2 ^ 12) == flag_bit (n == 12))
                && ((bit n (2 ^ 64 - 1 - (2 ^ 3 + 2 ^ 4 + 2 ^ 7 + 2 ^ 12))
                      == (1 - flag_bit (n == 3 || (n == 4 || (n == 7 || n == 12)))))
                    && (bit n (2 ^ 64 - 1 - 2 ^ 63) == (1 - flag_bit (n == 63)))))))

constants_table : all_below 64 constants ≡ true
unfolding all_below constants bit flag_bit
constants_table = refl

unfoldable pub is_pt : EntryType → Bool
is_pt EntryType.pt = true
is_pt EntryType.pml4 = false
is_pt EntryType.pdpt = false
is_pt EntryType.pdp1gb = false
is_pt EntryType.pd = false
is_pt EntryType.pd2mb = false
is_pt EntryType.invalid = false

-- What bit `n` of an entry is meant to be: the memory type's bits and the page-size bit stand at
-- their places for the type of the entry; no-execute is dropped where it is not supported; every
-- other bit is a bit of the flags or of the address.
unfoldable pub flags_bit : EntryType → PatSelect → ℕ → Bool → Bool
flags_bit type select n other =
    if n == 3
    then select.pwt
    else (if n == 4
        then select.pcd
        else (if n == 7
            then is_big type || (select.pat && is_pt type)
            else (if n == 12 then select.pat && is_big type else other)))

abbrev mask_kept : ℕ
mask_kept = 2 ^ 64 - 1 - (2 ^ 3 + 2 ^ 4 + 2 ^ 7 + 2 ^ 12)

-- The constants' bits, as equations.
record Constants (n : ℕ) : Type 0 where
  pwt : bit n (2 ^ 3) ≡ flag_bit (n == 3)
  pcd : bit n (2 ^ 4) ≡ flag_bit (n == 4)
  size : bit n (2 ^ 7) ≡ flag_bit (n == 7)
  big : bit n (2 ^ 12) ≡ flag_bit (n == 12)
  kept : bit n mask_kept ≡ 1 - flag_bit (n == 3 || (n == 4 || (n == 7 || n == 12)))
  nx : bit n (2 ^ 64 - 1 - 2 ^ 63) ≡ 1 - flag_bit (n == 63)

checked-Constants : (n : ℕ) → n < 64 → Constants n
unfolding constants
checked-Constants n h =
    let c = all_below_sound 64 constants n constants_table h in
    record {
      pwt = ground (arith, c);
      pcd = ground (arith, c);
      size = ground (arith, c);
      big = ground (arith, c);
      kept = ground (arith, c);
      nx = ground (arith, c);
    }

bit-with_flag :
    (n x flag : ℕ) (set : Bool)
    → bit n (with_flag set flag x) ≡ (if set then max (bit n x) (bit n flag) else bit n x)
bit-with_flag n x flag true = bit-or n x flag
bit-with_flag n x flag false = refl

bit-pat_flag :
    (n x : ℕ) (type : EntryType)
    → bit n (pat_flag type x) ≡ (
        if is_big type
        then max (bit n x) (bit n (2 ^ 12))
        else (if is_pt type then max (bit n x) (bit n (2 ^ 7)) else bit n x))
unfolding is_pt
bit-pat_flag n x EntryType.pml4 = refl
bit-pat_flag n x EntryType.pdpt = refl
bit-pat_flag n x EntryType.pdp1gb = bit-or n x (2 ^ 12)
bit-pat_flag n x EntryType.pd = refl
bit-pat_flag n x EntryType.pd2mb = bit-or n x (2 ^ 12)
bit-pat_flag n x EntryType.pt = bit-or n x (2 ^ 7)
bit-pat_flag n x EntryType.invalid = refl

big_no_pt : (type : EntryType) → (is_big type && is_pt type) ≡ false
unfolding is_pt
big_no_pt EntryType.pml4 = refl
big_no_pt EntryType.pdpt = refl
big_no_pt EntryType.pdp1gb = refl
big_no_pt EntryType.pd = refl
big_no_pt EntryType.pd2mb = refl
big_no_pt EntryType.pt = refl
big_no_pt EntryType.invalid = refl

make_flags-bits :
    (type : EntryType) (base : ℕ) (select : PatSelect) (n : ℕ)
    → n < 64
    → bit n (make_flags type base select) ≡ flag_bit (flags_bit type select n (bit n base == 1))
unfolding make_flags flags_bit flag_bit
make_flags-bits type base select n h =
    let c = checked-Constants n h in
    let kept = bit_and base mask_kept in
    let sized = with_flag (is_big type) (2 ^ 7) kept in
    let through = with_flag select.pwt (2 ^ 3) sized in
    let cached = with_flag select.pcd (2 ^ 4) through in
    let e1 = bit-and n base mask_kept in
    let e2 = bit-with_flag n kept (2 ^ 7) (is_big type) in
    let e3 = bit-with_flag n sized (2 ^ 3) select.pwt in
    let e4 = bit-with_flag n through (2 ^ 4) select.pcd in
    let e5 = bit-pat_flag n cached type in
    let no_both = big_no_pt type in
    let bound = bit_bound n base in ground (arith, c.pwt, c.pcd, c.size, c.big, c.kept)

lacks_nx : Option Bool → Bool
lacks_nx none = false
lacks_nx (some true) = false
lacks_nx (some false) = true

-- What bit `n` of the flags is after no-execute was dropped, where the processor lacks it.
unfoldable pub usable_bit : Option Bool → ℕ → ℕ → Bool
unfolding lacks_nx
usable_bit vmm n flags = if n == 63 && lacks_nx vmm then false else bit n flags == 1

sanitize-bit :
    (vmm : Option Bool) (n flags : ℕ)
    → n < 64
    → (bit n (sanitize vmm flags) == 1) ≡ usable_bit vmm n flags
unfolding usable_bit lacks_nx flag_bit
sanitize-bit none n flags h = ground arith
sanitize-bit (some true) n flags h = ground arith
sanitize-bit (some false) n flags h =
    let c = checked-Constants n h in
    ground (arith, bit-and n flags (2 ^ 64 - 1 - 2 ^ 63), bit_bound n flags, c.nx)

-- The test on the mask is the test of divisibility.
mask_test :
    (type : EntryType) (address : ℕ)
    → type ≢ EntryType.invalid
    → bit_and address ((alignment type + 2 ^ 64 - 1) % 2 ^ 64) ≡ address % alignment type
unfolding alignment
mask_test EntryType.pml4 address h = and_low 12 address
mask_test EntryType.pdpt address h = and_low 12 address
mask_test EntryType.pdp1gb address h = and_low 30 address
mask_test EntryType.pd address h = and_low 12 address
mask_test EntryType.pd2mb address h = and_low 21 address
mask_test EntryType.pt address h = and_low 12 address
mask_test EntryType.invalid address h = absurd (h refl)

-- For a type of entry and an address that is a multiple of the type's alignment, every bit of the
-- entry is the address's or the one the flags and the memory type ask for at that place: 3 and 4
-- are the memory type's, 7 is the page size of a big page and the memory type's for a page table's
-- entry, 12 is the memory type's for a big page, 63 is dropped where no-execute is not supported,
-- and the others are the flags'. The counter of failures stays.
pub encode_entry-bits :
    (vmm : Option Bool) (num_failed : ℕ) (type : EntryType) (address flags : ℕ) (select : PatSelect)
    (n : ℕ)
    → type ≢ EntryType.invalid
    → address % alignment type ≡ 0
    → n < 64
    → let (entry, failed) = encode_entry vmm num_failed type address flags select in
      (bit n entry
        ≡ max (flag_bit (flags_bit type select n (usable_bit vmm n flags))) (bit n address))
      × (failed ≡ num_failed)
unfolding encode_entry
encode_entry-bits vmm num_failed type address flags select n valid aligned h =
    let test = mask_test type address valid ∙ aligned in
    rw test (
      bit-or n (make_flags type (sanitize vmm flags) select) address
          ∙ rw (make_flags-bits type (sanitize vmm flags) select n h, sanitize-bit vmm n flags h)
              refl,
      refl,
    )

-- For a type of entry and an address that is not a multiple of its alignment, the encoding returns
-- the failure value and counts the failure.
pub encode_entry-misaligned :
    (vmm : Option Bool) (num_failed : ℕ) (type : EntryType) (address flags : ℕ) (select : PatSelect)
    → type ≢ EntryType.invalid
    → address % alignment type ≢ 0
    → encode_entry vmm num_failed type address flags select
      ≡ (encode_failure, (num_failed + 1) % 2 ^ 32)
unfolding encode_entry
encode_entry-misaligned vmm num_failed type address flags select valid misaligned =
    let test =
      ne→beq (bit_and address ((alignment type + 2 ^ 64 - 1) % 2 ^ 64)) 0
        (λ e. misaligned (sym (mask_test type address valid) ∙ e)) in
    rw test refl

unfoldable pub select_number : PatSelect → ℕ
select_number p = flag_bit p.pat * 4 + flag_bit p.pcd * 2 + flag_bit p.pwt

eight_table :
    all_below 8 (λ i.
      select_number (get_or pat_select_table i (record { pat = false; pcd = false; pwt = false }))
      == i)
    ≡ true
unfolding all_below select_number flag_bit
eight_table = refl

-- The flags of the selected memory type, read as a number, are the entry of the register that holds
-- the memory type, for entries below 8.
pub select_pat-number :
    (s : PatMsrState) (mem_type : ℕ)
    → pat_target s mem_type < 8
    → select_number (select_pat s mem_type) ≡ pat_target s mem_type
unfolding select_pat
select_pat-number s mem_type h =
    let e : pat_target s mem_type % 8 ≡ pat_target s mem_type = omega arith in
    rw e (
      beq→eq _ _ (
        all_below_sound 8
          (λ i.
            select_number
              (get_or pat_select_table i (record { pat = false; pcd = false; pwt = false }))
            == i)
          (pat_target s mem_type) eight_table h))
