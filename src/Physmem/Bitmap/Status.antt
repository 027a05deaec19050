-- ===== src/Physmem/Bitmap/Status.antt =====
-- `KrSetPhysicalPageStatus` against a description of its range bit by bit.
use ych.Prelude.{
  ℕ, zero, suc, ◌+◌, ◌-◌, ◌*◌, ◌/◌, ◌%◌, ◌^◌, ◌≤◌, ◌<◌, ◌≡◌, Bool, true, ◌&&◌, none, some, arith,
  ltb, leb, if◌then◌else◌, Bool-cases, inl, inr, leb→le,
}
use ych.Physmem.Bitmap.{
  Byte, PageBitmap, bit, set_bit, store_byte, store_wide, head_loop, bulk_loop, tail_loop,
  aligned_part, write_range, set_page_status,
}

head_loop_bits :
    (n : ℕ) (v : Byte) (offset : ℕ) (status : Bool) (o : ℕ)
    → let r = head_loop v offset n status in
      (r.0 o ≡ (if leb offset o && (ltb o (offset + n) && ltb o 8) then status else v o))
unfolding head_loop set_bit
head_loop_bits zero v offset status o = ground arith
head_loop_bits (suc n) v offset status o =
    ground (arith, head_loop_bits n (set_bit v offset status) (offset + 1) status o)

head_loop_left :
    (n : ℕ) (v : Byte) (offset : ℕ) (status : Bool)
    → (head_loop v offset n status).1 ≡ n - (8 - offset)
unfolding head_loop
head_loop_left zero v offset status = omega arith
head_loop_left (suc n) v offset status =
    ground (arith, head_loop_left n (set_bit v offset status) (offset + 1) status)

tail_loop_bits :
    (n : ℕ) (v : Byte) (offset : ℕ) (status : Bool) (o : ℕ)
    → tail_loop v offset n status o ≡ (if leb offset o && ltb o (offset + n) then status else v o)
unfolding tail_loop set_bit
tail_loop_bits zero v offset status o = ground arith
tail_loop_bits (suc n) v offset status o =
    ground (arith, tail_loop_bits n (set_bit v offset status) (offset + 1) status o)

-- What a bulk loop leaves: whole bytes are written, and less than one more write's worth is left.
record Bulk (width : ℕ) (bm : PageBitmap) (region n : ℕ) (status : Bool) (r : PageBitmap × ℕ × ℕ)
    : Type 0 where
  progress : region ≤ r.1
  balance : 8 * r.1 + r.2 ≡ 8 * region + n
  bits : (j o : ℕ) → r.0 j o ≡ (if leb region j && ltb j r.1 then status else bm j o)

bulk_loop-Bulk :
    (width fuel : ℕ) (bm : PageBitmap) (region n : ℕ) (status : Bool)
    → Bulk width bm region n status (bulk_loop width fuel bm region n status)
unfolding bulk_loop store_wide
bulk_loop-Bulk width zero bm region n status = record {
  progress = omega arith;
  balance = omega arith;
  bits = λ j o. ground arith;
}
bulk_loop-Bulk width (suc fuel) bm region n status = elim (Bool-cases (leb (8 * width) n)) [
  | inr stop ↦
      rw stop (record { progress = omega arith; balance = omega arith; bits = λ j o. ground arith })
  | inl more ↦ rw more (
      let rest =
        bulk_loop-Bulk width fuel (store_wide bm region width status) (region + width)
          (n - 8 * width) status in
      record {
        progress = omega (arith, rest.progress);
        balance = omega (arith, rest.balance, leb→le _ _ more);
        bits = λ j o. ground (arith, rest.bits j o, rest.progress);
      })
]

-- With fuel for every round, less than `8 * width` is left.
bulk_loop_left :
    (width fuel : ℕ) (bm : PageBitmap) (region n : ℕ) (status : Bool)
    → 0 < width
    → n ≤ fuel
    → (bulk_loop width fuel bm region n status).2 < 8 * width
unfolding bulk_loop
bulk_loop_left width zero bm region n status w h = omega arith
bulk_loop_left width (suc fuel) bm region n status w h = ground (
  arith,
  bulk_loop_left width fuel (store_wide bm region width status) (region + width) (n - 8 * width)
      status,
)

-- The aligned part writes the `n` bits from the first of its region.
aligned_part_bits :
    (bm : PageBitmap) (region n : ℕ) (status : Bool) (j o : ℕ)
    → o < 8
    → aligned_part bm region n status j o ≡ (
        if leb (8 * region) (8 * j + o) && ltb (8 * j + o) (8 * region + n) then status else bm j o)
unfolding aligned_part store_byte
aligned_part_bits bm region n status j o h =
    let s8 = bulk_loop 8 n bm region n status in
    let s4 = bulk_loop 4 s8.2 s8.0 s8.1 s8.2 status in
    let s2 = bulk_loop 2 s4.2 s4.0 s4.1 s4.2 status in
    let s1 = bulk_loop 1 s2.2 s2.0 s2.1 s2.2 status in
    let b8 = bulk_loop-Bulk 8 n bm region n status in
    let b4 = bulk_loop-Bulk 4 s8.2 s8.0 s8.1 s8.2 status in
    let b2 = bulk_loop-Bulk 2 s4.2 s4.0 s4.1 s4.2 status in
    let b1 = bulk_loop-Bulk 1 s2.2 s2.0 s2.1 s2.2 status in
    let left : s1.2 < 8 = bulk_loop_left 1 s2.2 s2.0 s2.1 s2.2 status (omega arith) (omega arith) in
    let whole : s1.0 j o ≡ (if leb region j && ltb j s1.1 then status else bm j o) = ground (
      arith,
      b8.bits j o,
      b4.bits j o,
      b2.bits j o,
      b1.bits j o,
      b8.progress,
      b4.progress,
      b2.progress,
      b1.progress,
    ) in
    let balance : 8 * s1.1 + s1.2 ≡ 8 * region + n =
      omega (arith, b8.balance, b4.balance, b2.balance, b1.balance) in
    let progress : region ≤ s1.1 =
      omega (arith, b8.progress, b4.progress, b2.progress, b1.progress) in
    ground (
      arith,
      whole,
      balance,
      progress,
      left,
      tail_loop_bits s1.2 (s1.0 s1.1) 0 status o,
      b1.bits s1.1 o,
    )

write_range_bits :
    (bm : PageBitmap) (start n : ℕ) (status : Bool) (page : ℕ)
    → bit (write_range bm start n status) page
      ≡ (if leb start page && ltb page (start + n) then status else bit bm page)
unfolding write_range store_byte
write_range_bits bm start n status page =
    let r = head_loop (bm (start / 8)) (start % 8) n status in
    ground (
      arith,
      aligned_part_bits bm (start / 8) n status (page / 8) (page % 8) (omega arith),
      aligned_part_bits (store_byte bm (start / 8) r.0) (start / 8 + 1) r.1 status (page / 8)
          (page % 8) (omega arith),
      head_loop_bits n (bm (start / 8)) (start % 8) status (page % 8),
      head_loop_left n (bm (start / 8)) (start % 8) status,
    )

-- A range of pages that lies inside the physical pages, with an end below 2 ^ 64, is accepted, and
-- exactly the bits of its pages take the status: every other page of the bitmap keeps its bit.
pub set_page_status_bits :
    (nr_pages : ℕ) (bm : PageBitmap) (start n : ℕ) (status : Bool)
    → start + n ≤ nr_pages
    → start + n < 2 ^ 64
    → (bm' : PageBitmap) × (set_page_status nr_pages bm start n status ≡ some bm')
      × ((page : ℕ)
          → bit bm' page ≡ (if leb start page && ltb page (start + n) then status else bit bm page))
unfolding set_page_status
set_page_status_bits nr_pages bm start n status h w =
    (write_range bm start n status, ground arith, write_range_bits bm start n status)

-- No write of set bits clears one, whether the range is accepted or not.
pub set_page_status_grows :
    (nr_pages : ℕ) (bm bm' : PageBitmap) (start n page : ℕ)
    → set_page_status nr_pages bm start n true ≡ some bm'
    → bit bm page ≡ true
    → bit bm' page ≡ true
unfolding set_page_status
set_page_status_grows nr_pages bm bm' start n page e b =
    let w = write_range_bits bm start n true page in
    elim (Bool-cases (ltb nr_pages ((start + n) % 2 ^ 64))) [
      | inl beyond ↦ let refused : none ≡ some bm' = rw beyond at e in cc refused
      | inr inside ↦
          let done : some (write_range bm start n true) ≡ some bm' = rw inside at e in
          let written : write_range bm start n true ≡ bm' = cc done in
          rw (← written) (ground (arith, w))
    ]
