-- ===== src/Vmm/Mapping/Pages.antt =====
-- The loop of `VmMapStatic` in Kernel/Source/Memory/Virtmemmgmt.c against the pages of its region, one
-- by one.
use ych.Prelude.{ℕ, zero, suc, ◌+◌, ◌*◌, ◌%◌, ◌^◌, Bool, true, false, if◌then◌else◌}
use ych.Pte.{AddressMode}
use ych.Pte.Structs.{Tables}
use ych.Vmm.{Region}
use ych.Vmm.Mapping.{Context, map_page}

-- `n` pages of `page` bytes from page number `k` on, up to the first that cannot be mapped.
unfoldable pub map_each : ℕ → ℕ → ℕ → Context → Tables → Region → AddressMode → ℕ → Tables × Bool
map_each zero k page c s r mode paddr = (s, true)
map_each (suc n) k page c s r mode paddr =
    let (s', done) =
      map_page c s r mode ((r.vaddr_start + k * page) % 2 ^ 64) ((paddr + k * page) % 2 ^ 64) in
    let rest = map_each n (suc k) page c s' r mode paddr in if done then rest else (s', false)
