-- ===== src/Physmem/Hunt.antt =====
-- The search of `PmAcquirePages`, the two loops behind the label `Hunt`.
pub mod Rule
pub mod Sound
pub mod Order
pub mod Complete
use ych.Prelude.{
  ℕ, zero, suc, ◌+◌, ◌-◌, ◌/◌, ◌%◌, ◌^◌, Bool, true, false, ◌&&◌, ◌||◌, not, ltb, ◌==◌,
  if◌then◌else◌,
}
use ych.Physmem.{Pmm, is_reserved}
use ych.Physmem.Bitmap.{bit}

-- `dwAcquisitionMethod`, by the four bits that are tested.
pub record Method : Type 0 where
  pub sparse : Bool
  pub dense : Bool
  pub base_out_only : Bool
  pub for_user : Bool

-- `uNoAcquired`, `PageID` and the array behind `pOutIDs`.
pub record Search : Type 0 where
  pub count : ℕ
  pub page : ℕ
  pub out : ℕ → ℕ

-- `pOutIDs[i] = id`
unfoldable pub put : (ℕ → ℕ) → ℕ → ℕ → ℕ → ℕ
put out i id j = if j == i then id else out j

-- the condition of the first `if`: taken, or reserved
unfoldable pub is_unavailable : Pmm → ℕ → ℕ → ℕ → Bool
unfolding is_reserved
is_unavailable s i offset page = s.primary i offset || is_reserved s page

-- The body of the inner loop, and its `BitOffset++, PageID++`.
unfoldable pub visit : Pmm → Method → ℕ → ℕ → Search → Search
unfolding is_unavailable put
visit s m i offset h =
    let next = (h.page + 1) % 2 ^ 32 in
    if is_unavailable s i offset h.page
    then (if m.dense then record h { count = 0; page = next } else record h { page = next })
    else (if m.base_out_only
        then record {
          count = h.count + 1;
          page = next;
          out = if h.count == 0 then put h.out 0 h.page else h.out;
        }
        else record { count = h.count + 1; page = next; out = put h.out h.count h.page })

-- The inner loop, for the rounds that are left of the byte.
unfoldable pub visit_byte : Pmm → Method → ℕ → ℕ → ℕ → ℕ → Search → Search
unfolding visit
visit_byte s m want i zero offset h = h
visit_byte s m want i (suc rounds) offset h =
    let rest = visit_byte s m want i rounds (offset + 1) (visit s m i offset h) in
    if ltb h.count want then rest else h

-- The outer loop, for the rounds that are left of the bitmap. `reroll` is `bIsReroll`.
unfoldable pub visit_bytes : Pmm → Method → ℕ → Bool → ℕ → ℕ → ℕ → Search → Search
unfolding visit_byte
visit_bytes s m want reroll initial zero i h = h
visit_bytes s m want reroll initial (suc rounds) i h =
    let rest =
      visit_bytes s m want reroll initial rounds (i + 1)
        (visit_byte s m want i (8 - h.page % 8) (h.page % 8) h) in
    if ltb h.count want && (not reroll || ltb h.page initial) then rest else h

-- `for (SIZE i = PageID / 8; i < BitmapSize && ...; i++)`
unfoldable pub pass : Pmm → Method → ℕ → Bool → ℕ → Search → Search
unfolding visit_bytes
pass s m want reroll initial h =
    visit_bytes s m want reroll initial (s.bitmap_size - h.page / 8) (h.page / 8) h

-- Before the wraparound a dense streak is dropped.
unfoldable pub rewind : Method → Search → Search
rewind m h = record h { count = if m.dense then 0 else h.count; page = 0 }

-- Both passes; the second one only where the first began behind page 0 and found too little.
unfoldable pub hunt : Pmm → Method → ℕ → ℕ → (ℕ → ℕ) → Search
unfolding pass rewind
hunt s m want initial out =
    let first = pass s m want false initial (record { count = 0; page = initial; out = out }) in
    if not (initial == 0) && ltb first.count want
    then pass s m want true initial (rewind m first)
    else first
