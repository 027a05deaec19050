-- ===== src/Physmem/Bitmap.antt =====
-- `KrSetPhysicalPageStatus`. A bitmap is read bit by bit: byte index, then offset of the bit.
pub mod Status
use ych.Prelude.{
  ℕ, zero, suc, ◌+◌, ◌-◌, ◌*◌, ◌/◌, ◌%◌, ◌^◌, Bool, ◌&&◌, not, Option, none, some, ltb, leb, ◌==◌,
  if◌then◌else◌,
}

abbrev pub Byte : Type 0
Byte = ℕ → Bool

abbrev pub PageBitmap : Type 0
PageBitmap = ℕ → Byte

-- the bit of a page
abbrev pub bit : PageBitmap → ℕ → Bool
bit bm page = bm (page / 8) (page % 8)

-- `Value |= (1 << BitOffset)` or `Value &= ~(1 << BitOffset)`
unfoldable pub set_bit : Byte → ℕ → Bool → Byte
set_bit v offset status o = if o == offset then status else v o

-- `*pRegion = Value`
unfoldable pub store_byte : PageBitmap → ℕ → Byte → PageBitmap
store_byte bm i v j = if j == i then v else bm j

-- A write of all ones or all zeroes that is `width` bytes wide.
unfoldable pub store_wide : PageBitmap → ℕ → ℕ → Bool → PageBitmap
store_wide bm region width status j o =
    if leb region j && ltb j (region + width) then status else bm j o

-- `for (; BitOffset < 8 && N; BitOffset++, N--)`: the byte, and what is left of `N`.
head_loop : Byte → ℕ → ℕ → Bool → Byte × ℕ
unfolding set_bit
head_loop v offset zero status = (v, 0)
head_loop v offset (suc n) status =
    let rest = head_loop (set_bit v offset status) (offset + 1) n status in
    if ltb offset 8 then rest else (v, suc n)

-- `while (N >= 8 * width)`, for the widths 8, 4, 2 and 1: bitmap, region and what is left of `N`.
bulk_loop : ℕ → ℕ → PageBitmap → ℕ → ℕ → Bool → PageBitmap × ℕ × ℕ
unfolding store_wide
bulk_loop width zero bm region n status = (bm, region, n)
bulk_loop width (suc fuel) bm region n status =
    let rest =
      bulk_loop width fuel (store_wide bm region width status) (region + width) (n - 8 * width)
        status in
    if leb (8 * width) n then rest else (bm, region, n)

-- `for (BitOffset = 0; N; BitOffset++, N--)`
tail_loop : Byte → ℕ → ℕ → Bool → Byte
unfolding set_bit
tail_loop v offset zero status = v
tail_loop v offset (suc n) status = tail_loop (set_bit v offset status) (offset + 1) n status

-- The part of the function behind the unaligned start.
aligned_part : PageBitmap → ℕ → ℕ → Bool → PageBitmap
unfolding bulk_loop tail_loop store_byte
aligned_part bm region n status =
    let (bm8, r8, n8) = bulk_loop 8 n bm region n status in
    let (bm4, r4, n4) = bulk_loop 4 n8 bm8 r8 n8 status in
    let (bm2, r2, n2) = bulk_loop 2 n4 bm4 r4 n4 status in
    let (bm1, r1, n1) = bulk_loop 1 n2 bm2 r2 n2 status in
    if n1 == 0 then bm1 else store_byte bm1 r1 (tail_loop (bm1 r1) 0 n1 status)

-- The writes of the function, for a range inside the bitmap.
write_range : PageBitmap → ℕ → ℕ → Bool → PageBitmap
unfolding aligned_part head_loop store_byte
write_range bm start n status =
    let region = start / 8 in
    let offset = start % 8 in
    if offset == 0
    then aligned_part bm region n status
    else (let (v, left) = head_loop (bm region) offset n status in
        aligned_part (store_byte bm region v) (region + 1) left status)

-- `none` is the refusal, which leaves the bitmap alone.
unfoldable pub set_page_status : ℕ → PageBitmap → ℕ → ℕ → Bool → Option PageBitmap
unfolding write_range
set_page_status nr_pages bm start n status =
    if ltb nr_pages ((start + n) % 2 ^ 64) then none else some (write_range bm start n status)
