-- ===== src/Physmem/State.antt =====
-- The invariant of the manager's state.
use ych.Prelude.{ℕ, ◌*◌, ◌^◌, ◌≤◌, ◌<◌, ◌≡◌, true, arith}
use ych.Physmem.{Pmm}
use ych.Physmem.Bitmap.{bit}
use ych.Physmem.Hunt.Sound.{IsFree}

-- The bits of the bitmap's last byte that stand for no page are never clear, and page ids fit a
-- DWORD.
pub record IsWellFormed (s : Pmm) : Type 0 where
  pub small : 8 * s.bitmap_size < 2 ^ 32
  pub covers : s.nr_pages ≤ 8 * s.bitmap_size
  pub padding :
      (page : ℕ) → s.nr_pages ≤ page → page < 8 * s.bitmap_size → bit s.primary page ≡ true
  pub counted : s.acquired_pages < 2 ^ 64

pub IsFree-lt : {s : Pmm} {page : ℕ} → IsWellFormed s → IsFree s page → page < s.nr_pages
IsFree-lt {page} v f = ground (arith, v.padding page, f.inside, f.clear)
