-- ===== src/Physmem/Release.antt =====
-- `PmRelinquishPage` and `KrReservePhysicalPage`.
pub mod Laws
use ych.Prelude.{ℕ, ◌+◌, ◌-◌, ◌/◌, ◌%◌, ◌^◌, Bool, true, false, not, leb, ◌==◌, if◌then◌else◌}
use ych.Physmem.{Pmm, PageMeta, is_valid_page_id, is_reserved, has_bookkeeping}
use ych.Physmem.Bitmap.{PageBitmap, bit, set_bit, store_byte}

-- `KrReservePhysicalPage`, `PmRelinquishPage` return; a pinned page stops the machine.
pub data Outcome : Type 0 where
  returned : Pmm → Bool → Outcome
  meltdown : Outcome

unfoldable pub set_page_bit : PageBitmap → ℕ → Bool → PageBitmap
unfolding set_bit store_byte
set_page_bit bm page status = store_byte bm (page / 8) (set_bit (bm (page / 8)) (page % 8) status)

unfoldable pub set_meta : (ℕ → PageMeta) → ℕ → PageMeta → ℕ → PageMeta
set_meta meta page value id = if id == page then value else meta id

-- From the bitmap on: the page's bit is cleared if it was set.
unfoldable pub free_bit : Pmm → ℕ → Outcome
unfolding set_page_bit
free_bit s page =
    if leb s.bitmap_size (page / 8)
    then returned s false
    else (if bit s.primary page
        then returned
            (record s {
              primary = set_page_bit s.primary page false;
              acquired_pages = (s.acquired_pages + (2 ^ 64 - 1)) % 2 ^ 64;
            })
            true
        else returned s false)

-- `--pMeta->RefCount`; only the last reference goes on to the bitmap.
unfoldable pub drop_reference : Pmm → ℕ → Outcome
unfolding set_meta free_bit
drop_reference s page =
    let m = s.meta page in
    if m.pinned
    then meltdown
    else (if m.ref_count == 0
        then returned s false
        else (let s' = record s {
          meta = set_meta s.meta page (record m { ref_count = m.ref_count - 1 });
        } in
            if m.ref_count - 1 == 0 then free_bit s' page else returned s' true))

unfoldable pub relinquish_page : Pmm → ℕ → Outcome
unfolding is_reserved drop_reference
relinquish_page s page =
    if is_reserved s page
    then returned s false
    else (if has_bookkeeping s.init_stage then drop_reference s page else free_bit s page)

unfoldable pub reserve_page : Pmm → ℕ → Pmm × Bool
unfolding is_valid_page_id set_page_bit set_meta
reserve_page s page =
    if not (is_valid_page_id s page)
    then (s, false)
    else (if not (bit s.primary page) then (s, false) else (
      record s {
        advisory = set_page_bit s.advisory page true;
        unusable_pages = (s.unusable_pages + 1) % 2 ^ 64;
        meta =
            if has_bookkeeping s.init_stage
            then set_meta s.meta page (record (s.meta page) { pinned = true })
            else s.meta;
      },
      true,
    ))
