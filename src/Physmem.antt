-- ===== src/Physmem.antt =====
-- Kernel/Source/Memory/Physmemmgmt.c and Kernel/Include/Memory/Physmemmgmt.h: the state of the
-- physical memory manager, and the queries that its operations share.
pub mod Bitmap
pub mod Hunt
pub mod Acquire
pub mod Release
pub mod State
pub mod Steps
pub mod Address
pub mod Init
use ych.Prelude.{
  ℕ, ◌+◌, ◌*◌, ◌/◌, ◌%◌, ◌^◌, Bool, false, ◌&&◌, not, Option, none, some, leb, ltb, ◌==◌,
  if◌then◌else◌,
}
use Bitmap.{PageBitmap, bit}

-- `IVLDPGID`, the all-ones DWORD
abbrev pub invalid_page_id : ℕ
invalid_page_id = 0xffff_ffff

abbrev pub page_size : ℕ
page_size = 4096

pub data PageType : Type 0 where
  invalid general page_struct rna bookkeeping reserved : PageType

-- `KrPhysicalPageMeta`; `Flags` as its two bits.
pub record PageMeta : Type 0 where
  pub ref_count : ℕ
  pub auxiliary : ℕ
  pub pinned : Bool
  pub user : Bool
  pub page_type : PageType

pub data InitStage : Type 0 where
  none_yet basic bookkeeping : InitStage

-- `KrPhysmemmgmtState`, and the metadata array that `VaddrMetaArray` points at. The bitmaps stand
-- for what `pAdvisoryBitmap` and `pPrimaryBitmap` point at.
pub record Pmm : Type 0 where
  pub init_stage : InitStage
  pub paddr_meta_array : ℕ
  pub vaddr_meta_array : ℕ
  pub paddr_highest : ℕ
  pub advisory : PageBitmap
  pub primary : PageBitmap
  pub bitmap_size : ℕ
  pub nr_pages : ℕ
  pub total_pages : ℕ
  pub unusable_pages : ℕ
  pub acquired_pages : ℕ
  pub acquire_hint : ℕ
  pub meta : ℕ → PageMeta

abbrev pub has_bookkeeping : InitStage → Bool
has_bookkeeping InitStage.bookkeeping = Bool.true
has_bookkeeping _ = false

unfoldable pub is_valid_page_id : Pmm → ℕ → Bool
is_valid_page_id s page = not (page == invalid_page_id) && ltb page s.nr_pages

unfoldable pub is_reserved : Pmm → ℕ → Bool
unfolding is_valid_page_id
is_reserved s page = if is_valid_page_id s page then bit s.advisory page else false

-- `NULLPTR` is 0. The product is taken on 32 bits, as `PAGEID * int` is, and widened afterwards.
unfoldable pub page_address : Pmm → ℕ → ℕ
unfolding is_valid_page_id
page_address s page = if is_valid_page_id s page then page * page_size % 2 ^ 32 else 0

unfoldable pub page_id : Pmm → ℕ → ℕ
page_id s address =
    if ltb s.paddr_highest address then invalid_page_id else address / page_size % 2 ^ 32

unfoldable pub set_acquisition_hint : Pmm → ℕ → Pmm × Bool
unfolding is_valid_page_id
set_acquisition_hint s page =
    if is_valid_page_id s page then (record s { acquire_hint = page }, Bool.true) else (s, false)
