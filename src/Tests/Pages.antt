-- ===== src/Tests/Pages.antt =====
-- The physical memory manager, Kernel/Source/Memory/Physmemmgmt.c, on twelve pages in a bitmap of
-- two bytes: page 0 is reserved, and the bits behind page 11 are set.
use ych.Prelude.{
  ℕ, ◌+◌, ◌*◌, ◌%◌, ◌^◌, ◌<◌, ◌≡◌, ◌/◌, ◌*◌, refl, ◌⊎◌, inl, inr, Bool, true, false, ◌||◌, ◌&&◌,
  arith, leb, ltb, ◌==◌, if◌then◌else◌, some, List, [], ◌∷◌, none, ◌≤◌,
}
use ych.Pte.{EntryType, PatSelect}
use ych.Pte.Structs.{Tables, entry_address, get_page_struct, get_or_acquire_page_struct}
use ych.Pte.Structs.Linked.{is_branch, get_or_acquire_page_struct-linked}
use ych.Arena.{Arena, arena_acquire, space_left}
use ych.Arena.Laws.{IsOpen, Served, arena_acquire-Served}
use ych.Physmem.{
  Pmm, InitStage, PageType, PageMeta, invalid_page_id, is_valid_page_id, is_reserved, page_id,
  page_address,
}
use ych.Physmem.Bitmap.{PageBitmap, bit, set_page_status}
use ych.Physmem.Bitmap.Status.{set_page_status_bits}
use ych.Physmem.Hunt.{Method, hunt}
use ych.Physmem.Hunt.Sound.{IsFree}
use ych.Physmem.Acquire.{
  start_page, is_refused, sparse_only, settle, claim_runs, run_end, claim, acquire_pages,
  acquire_page,
}
use ych.Physmem.Acquire.Sparse.{Granted, IsProper, acquire_pages-Granted, acquire_page-Granted}
use ych.Physmem.Acquire.Dense.{GrantedRange, acquire_pages-GrantedRange}
use ych.Physmem.Release.{returned, relinquish_page, reserve_page}
use ych.Physmem.Release.Laws.{Relinquished, relinquish_page-Relinquished, relinquish_beyond}
use ych.Physmem.State.{IsWellFormed}
use ych.Physmem.Steps.{Step, Reach, Inv, Reach-Inv, Reach-reserved}
use ych.Physmem.Address.{page_id-page_address}
use ych.Krtl.Mem.{align_up_to_power_of_two}
use ych.Physmem.Init.{
  MemoryDescriptor, LoadInfo, discover, note_region, lay_out, mark_kernel, mark_advisory,
  mark_usable, fill_advisory, finish_init, init_physmemmgmt, init_phys_meta_array,
}
use ych.Physmem.Init.Laws.{init_physmemmgmt-IsWellFormed, init_physmemmgmt-guards}
use ych.Physmem.Init.Meta.{init_phys_meta_array-stage}

abbrev no_meta : ℕ → PageMeta
no_meta id = record {
  ref_count = 0;
  auxiliary = 0;
  pinned = false;
  user = false;
  page_type = PageType.invalid;
}

abbrev pub twelve_pages : Pmm
twelve_pages = record {
  init_stage = InitStage.basic;
  paddr_meta_array = 0;
  vaddr_meta_array = 0;
  paddr_highest = 12 * 4096;
  advisory = λ i o. 8 * i + o == 0;
  primary = λ i o. (8 * i + o == 0) || leb 12 (8 * i + o);
  bitmap_size = 2;
  nr_pages = 12;
  total_pages = 12;
  unusable_pages = 0;
  acquired_pages = 0;
  acquire_hint = 0;
  meta = no_meta;
}

twelve_pages-IsWellFormed : IsWellFormed twelve_pages
twelve_pages-IsWellFormed = record {
  small = omega arith;
  covers = omega arith;
  padding = λ page lo hi. ground arith;
  counted = omega arith;
}

set_page_status_bits_example :
    (bm' : PageBitmap) × (set_page_status 12 twelve_pages.primary 3 6 true ≡ some bm')
    × ((page : ℕ)
        → bit bm' page ≡ (if leb 3 page && ltb page 9 then true else bit twelve_pages.primary page))
set_page_status_bits_example =
    set_page_status_bits 12 twelve_pages.primary 3 6 true (omega arith) (omega arith)

starts_at : is_valid_page_id twelve_pages (start_page twelve_pages invalid_page_id) ≡ true
unfolding is_valid_page_id start_page
starts_at = refl

starts_at_five : is_valid_page_id twelve_pages (start_page twelve_pages 5) ≡ true
unfolding is_valid_page_id start_page
starts_at_five = refl

sparse_accepted : is_refused sparse_only ≡ false
unfolding is_refused
sparse_accepted = refl

start_is_zero : start_page twelve_pages invalid_page_id ≡ 0
unfolding start_page
start_is_zero = refl

abbrev no_ids : ℕ → ℕ
no_ids k = 0

acquire_pages-Granted_example :
    Granted twelve_pages 3
      (acquire_pages twelve_pages no_ids 3 PageType.general sparse_only invalid_page_id)
acquire_pages-Granted_example =
    acquire_pages-Granted twelve_pages twelve_pages-IsWellFormed sparse_only 3 PageType.general refl
      refl no_ids invalid_page_id
      (record { wanted = omega arith; accepted = sparse_accepted; starts = starts_at })
      (inl (inl start_is_zero))

abbrev dense_only : Method
dense_only = record { sparse = false; dense = true; base_out_only = false; for_user = false }

dense_accepted : is_refused dense_only ≡ false
unfolding is_refused
dense_accepted = refl

dense_request : IsProper twelve_pages dense_only 4 5
dense_request = record { wanted = omega arith; accepted = dense_accepted; starts = starts_at_five }

acquire_pages-GrantedRange_example :
    GrantedRange twelve_pages dense_only 4
      (acquire_pages twelve_pages no_ids 4 PageType.general dense_only 5)
acquire_pages-GrantedRange_example =
    acquire_pages-GrantedRange twelve_pages twelve_pages-IsWellFormed dense_only 4 PageType.general
      refl no_ids 5 dense_request

acquire_page-Granted_example :
    (IsFree twelve_pages (acquire_page twelve_pages PageType.general 5).1
      × ((page : ℕ)
          → bit (acquire_page twelve_pages PageType.general 5).0.primary page ≡ (
              ((acquire_page twelve_pages PageType.general 5).1 == page)
              || bit twelve_pages.primary page)))
    ⊎ (((acquire_page twelve_pages PageType.general 5).1 ≡ invalid_page_id)
        × ((page : ℕ)
            → bit (acquire_page twelve_pages PageType.general 5).0.primary page
              ≡ bit twelve_pages.primary page)
        × ((q : ℕ) → ¬ IsFree twelve_pages q))
acquire_page-Granted_example =
    acquire_page-Granted twelve_pages PageType.general 5 twelve_pages-IsWellFormed starts_at_five

twelve_pages-Inv : Inv twelve_pages
twelve_pages-Inv = record { valid = twelve_pages-IsWellFormed; stage = refl }

abbrev taken : Pmm
taken = (acquire_page twelve_pages PageType.general 5).0

-- A page is taken, and then page 5 is reserved.
taken_and_kept :
    {may_return : Pmm → ℕ → Type 0} → Reach may_return twelve_pages (reserve_page taken 5).0
taken_and_kept =
    Reach.next (Reach.next Reach.here (Step.take_page PageType.general 5)) (Step.keep_page 5)

Reach-Inv_example : Inv (reserve_page taken 5).0
Reach-Inv_example = Reach-Inv twelve_pages-Inv taken_and_kept

zero_reserved : is_reserved twelve_pages 0 ≡ true
unfolding is_reserved is_valid_page_id
zero_reserved = refl

Reach-reserved_example :
    ((reserve_page taken 5).0.init_stage ≡ InitStage.basic)
    × (is_reserved (reserve_page taken 5).0 0 ≡ true)
Reach-reserved_example = Reach-reserved refl taken_and_kept 0 zero_reserved

relinquish_page-Relinquished_example :
    (t : Pmm) × (answer : Bool) × (relinquish_page twelve_pages 13 ≡ returned t answer)
    × Relinquished twelve_pages 13 t answer
relinquish_page-Relinquished_example = relinquish_page-Relinquished twelve_pages 13 refl

abbrev page_seven_taken : Pmm
page_seven_taken = record twelve_pages {
  primary = λ i o. (8 * i + o == 7) || twelve_pages.primary i o;
}

relinquish_beyond_run :
    (t : Pmm) × (relinquish_page twelve_pages 13 ≡ returned t true) × IsFree t 13
relinquish_beyond_run =
    relinquish_beyond twelve_pages 13 twelve_pages-IsWellFormed refl (omega arith) (omega arith)

three_valid : is_valid_page_id twelve_pages 3 ≡ true
unfolding is_valid_page_id
three_valid = refl

page_id-page_address_run : page_id twelve_pages (page_address twelve_pages 3) ≡ 3 % 2 ^ 20
page_id-page_address_run = page_id-page_address twelve_pages 3 three_valid (omega arith)

-- 512 pages of conventional memory, of which the kernel has eight from page 300 on.
abbrev fresh : Pmm
fresh = record twelve_pages {
  init_stage = InitStage.none_yet;
  advisory = λ i o. false;
  primary = λ i o. false;
  paddr_highest = 0;
  bitmap_size = 0;
  nr_pages = 0;
  total_pages = 0;
}

abbrev regions : List MemoryDescriptor
regions = record { physical_base = 0; page_count = 512; attributes = 0; region_type = 7 } ∷ []

abbrev kernel : LoadInfo
kernel = record { addr_physical_base = 300 * 4096; reserve_size = 8 * 4096 }

abbrev arena : Arena
arena = record { base = 0x1000; ptr = 0x1000; limit = 0x3000 }

init_succeeds : (init_physmemmgmt regions regions kernel fresh arena).2 ≡ true
unfolding init_physmemmgmt arena_acquire align_up_to_power_of_two lay_out discover note_region
    mark_kernel mark_advisory set_page_status mark_usable fill_advisory
init_succeeds = refl

init_highest : (discover regions fresh).paddr_highest ≡ 2097152
unfolding discover note_region
init_highest = refl

init_pages : (init_physmemmgmt regions regions kernel fresh arena).0.nr_pages ≡ 512
unfolding init_physmemmgmt arena_acquire align_up_to_power_of_two lay_out discover note_region
    mark_kernel mark_advisory set_page_status mark_usable fill_advisory finish_init
init_pages = refl

init_physmemmgmt-IsWellFormed_example :
    IsWellFormed (init_physmemmgmt regions regions kernel fresh arena).0
    × ((init_physmemmgmt regions regions kernel fresh arena).0.init_stage ≡ InitStage.basic)
    × ((page : ℕ)
        → page < 8 * (init_physmemmgmt regions regions kernel fresh arena).0.bitmap_size
        → bit (init_physmemmgmt regions regions kernel fresh arena).0.primary page
          ≡ bit (init_physmemmgmt regions regions kernel fresh arena).0.advisory page)
init_physmemmgmt-IsWellFormed_example =
    init_physmemmgmt-IsWellFormed regions regions kernel fresh arena (omega arith, tt) (omega arith)
      (omega arith) (omega (arith, init_highest)) init_succeeds

init_physmemmgmt-guards_example :
    bit (init_physmemmgmt regions regions kernel fresh arena).0.primary 305 ≡ true
init_physmemmgmt-guards_example =
    init_physmemmgmt-guards regions regions kernel fresh arena 305 (omega arith, tt) (omega arith)
      (omega arith) (omega (arith, init_highest)) init_succeeds (omega (arith, init_pages))
      (omega (arith, init_pages)) (inr (omega arith, omega arith))

init_phys_meta_array-stage_run :
    (init_phys_meta_array 0 no_ids twelve_pages).0.init_stage ≡ InitStage.basic
init_phys_meta_array-stage_run = init_phys_meta_array-stage 0 no_ids twelve_pages refl

meta_succeeds : (init_phys_meta_array 0 no_ids twelve_pages).1 ≡ true
unfolding init_phys_meta_array acquire_pages hunt settle claim set_page_status
meta_succeeds = refl

meta_size : (init_phys_meta_array 0 no_ids twelve_pages).0.bitmap_size ≡ 2
unfolding init_phys_meta_array acquire_pages hunt settle claim set_page_status
meta_size = refl

meta_zero : bit (init_phys_meta_array 0 no_ids twelve_pages).0.primary 1 ≡ true
unfolding init_phys_meta_array acquire_pages hunt settle claim set_page_status
meta_zero = refl

arena-IsOpen : IsOpen arena
arena-IsOpen = record {
  placed = omega arith;
  started = omega arith;
  within = omega arith;
  room = omega arith;
  aligned = omega arith;
}

arena_acquire-Served_example :
    IsOpen (arena_acquire arena 100).0
    × ((Served arena 100 (arena_acquire arena 100).0 (arena_acquire arena 100).1
          × ((arena_acquire arena 100).1 % 16 ≡ 0))
        ⊎ (((arena_acquire arena 100).0 ≡ arena)
            × ((arena_acquire arena 100).1 ≡ 0)
            × (space_left arena < (100 + 15) / 16 * 16)))
arena_acquire-Served_example =
    arena_acquire-Served arena 100 arena-IsOpen (omega arith) (omega arith)

-- The first page that is taken is page 1; the one behind the hint is page 5.
takes_first : (acquire_page twelve_pages PageType.general invalid_page_id).1 ≡ 1
unfolding acquire_page acquire_pages hunt settle
takes_first = refl

-- Page tables in empty memory, over the twelve pages.
abbrev tables : Tables
tables = record {
  words = λ a. 0;
  pmm = twelve_pages;
  num_failed = 0;
  vmm = none;
  dmap_base = 0x1000000;
}

abbrev default_select : PatSelect
default_select = record { pat = false; pcd = false; pwt = false }

branch_type : is_branch EntryType.pdpt ≡ true
unfolding is_branch
branch_type = refl

abbrev struct_page : ℕ
struct_page = (acquire_page twelve_pages PageType.page_struct invalid_page_id).1

page_found :
    is_valid_page_id (acquire_page twelve_pages PageType.page_struct invalid_page_id).0 struct_page
    ≡ true
unfolding acquire_page acquire_pages hunt settle claim_runs claim set_page_status run_end
    is_valid_page_id
page_found = refl

page_low : struct_page < 2 ^ 20
unfolding acquire_page acquire_pages hunt settle
page_low = omega arith

abbrev struct_start : ℕ
struct_start = (0x1000000 + struct_page * 4096) % 2 ^ 64

page_outside :
    (leb struct_start (entry_address 0x5000 3)
      && ltb (entry_address 0x5000 3) (struct_start + 4096))
    ≡ false
unfolding acquire_page acquire_pages hunt settle claim_runs claim set_page_status run_end
page_outside = refl

get_or_acquire_page_struct-linked_example :
    ((get_or_acquire_page_struct tables 0x5000 EntryType.pdpt 3 3 default_select).1
      ≡ some struct_start)
    × ((get_page_struct
            (get_or_acquire_page_struct tables 0x5000 EntryType.pdpt 3 3 default_select).0
            0x5000
            3
          ≡ some struct_start)
        × (((a : ℕ)
              → struct_start ≤ a
              → a < struct_start + 4096
              → (get_or_acquire_page_struct tables 0x5000 EntryType.pdpt 3 3 default_select).0.words
                  a
                ≡ 0)
            × ((get_or_acquire_page_struct tables 0x5000 EntryType.pdpt 3 3 default_select).0.pmm
                ≡ (acquire_page twelve_pages PageType.page_struct invalid_page_id).0)))
get_or_acquire_page_struct-linked_example =
    get_or_acquire_page_struct-linked tables 0x5000 3 3 EntryType.pdpt default_select branch_type
      (omega arith) (omega arith) refl page_found page_low page_outside
