-- ===== src/Physmem/Release/Laws.antt =====
-- Giving pages back, and keeping them for good.
use ych.Prelude.{
  ℕ, ◌+◌, ◌-◌, ◌/◌, ◌%◌, ◌^◌, ◌*◌, ◌≤◌, ◌<◌, ◌≡◌, refl, inl, inr, Bool, true, false, ◌&&◌, not,
  arith, ltb, ◌==◌, if◌then◌else◌, Bool-cases, ap,
}
use ych.Physmem.{Pmm, InitStage, is_reserved, has_bookkeeping}
use ych.Physmem.Bitmap.{PageBitmap, bit, set_bit, store_byte}
use ych.Physmem.Hunt.Sound.{IsFree}
use ych.Physmem.State.{IsWellFormed}
use ych.Physmem.Release.{returned, set_page_bit, relinquish_page}

pub set_page_bit_bits :
    (bm : PageBitmap) (page : ℕ) (status : Bool) (q : ℕ)
    → bit (set_page_bit bm page status) q ≡ (if q == page then status else bit bm q)
unfolding set_page_bit set_bit store_byte
set_page_bit_bits bm page status q = ground arith

-- Before there is bookkeeping: a page that is not reserved and lies in the bitmap loses its bit,
-- and nobody else's changes; the answer says whether the bit was set.
pub record Relinquished (s : Pmm) (page : ℕ) (t : Pmm) (answer : Bool) : Type 0 where
  pub answered :
      answer ≡ (not (is_reserved s page) && (ltb (page / 8) s.bitmap_size && bit s.primary page))
  pub bits : (q : ℕ) → bit t.primary q ≡ (if answer && q == page then false else bit s.primary q)
  pub counter :
      t.acquired_pages
      ≡ (if answer then (s.acquired_pages + (2 ^ 64 - 1)) % 2 ^ 64 else s.acquired_pages)
  pub advisory : t.advisory ≡ s.advisory
  pub nr_pages : t.nr_pages ≡ s.nr_pages
  pub bitmap_size : t.bitmap_size ≡ s.bitmap_size
  pub stage : t.init_stage ≡ s.init_stage

free_bit_case :
    (s : Pmm) (page : ℕ)
    → has_bookkeeping s.init_stage ≡ false
    → is_reserved s page ≡ false
    → (t : Pmm) × (answer : Bool) × (relinquish_page s page ≡ returned t answer)
      × Relinquished s page t answer
unfolding relinquish_page
free_bit_case s page early loose =
    elim (Bool-cases (ltb (page / 8) s.bitmap_size && bit s.primary page)) [
      | inr unset ↦ (
        s,
        false,
        ground arith,
        record {
          answered = ground arith;
          bits = λ q. refl;
          counter = refl;
          advisory = refl;
          nr_pages = refl;
          bitmap_size = refl;
          stage = refl;
        },
      )
      | inl set ↦ (
        record s {
          primary = set_page_bit s.primary page false;
          acquired_pages = (s.acquired_pages + (2 ^ 64 - 1)) % 2 ^ 64;
        },
        true,
        ground arith,
        record {
          answered = ground arith;
          bits = λ q. set_page_bit_bits s.primary page false q;
          counter = refl;
          advisory = refl;
          nr_pages = refl;
          bitmap_size = refl;
          stage = refl;
        },
      )
    ]

-- In the basic stage `PmRelinquishPage` returns. It answers yes exactly where the page is not
-- reserved, lies in the bitmap and has its bit set; then this bit alone is cleared and the counter
-- goes down by one. Otherwise bits and counter stay; the advisory bitmap, the sizes and the stage
-- stay in both cases.
pub relinquish_page-Relinquished :
    (s : Pmm) (page : ℕ)
    → s.init_stage ≡ InitStage.basic
    → (t : Pmm) × (answer : Bool) × (relinquish_page s page ≡ returned t answer)
      × Relinquished s page t answer
unfolding relinquish_page
relinquish_page-Relinquished s page basic =
    let early : has_bookkeeping s.init_stage ≡ false = ap has_bookkeeping basic in
    elim (Bool-cases (is_reserved s page)) [
      | inl kept ↦ (
        s,
        false,
        ground arith,
        record {
          answered = ground arith;
          bits = λ q. refl;
          counter = refl;
          advisory = refl;
          nr_pages = refl;
          bitmap_size = refl;
          stage = refl;
        },
      )
      | inr loose ↦ free_bit_case s page early loose
    ]

-- In a well-formed state of the basic stage, relinquishing a page id behind the last page that lies
-- in the bitmap's last byte is answered with yes, and the page that does not exist becomes free.
pub relinquish_beyond :
    (s : Pmm) (page : ℕ)
    → IsWellFormed s
    → s.init_stage ≡ InitStage.basic
    → s.nr_pages ≤ page
    → page < 8 * s.bitmap_size
    → (t : Pmm) × (relinquish_page s page ≡ returned t true) × IsFree t page
unfolding is_reserved
relinquish_beyond s page v basic lo hi =
    let (t, a, e, r) = relinquish_page-Relinquished s page basic in
    let hit : a ≡ true = ground (arith, r.answered, v.padding page lo hi) in
    (
      t,
      rw hit at e,
      record {
        inside = omega (arith, r.bitmap_size);
        clear = ground (arith, r.bits page);
        unreserved = ground (arith, r.nr_pages);
      },
    )
