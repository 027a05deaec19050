-- ===== src/Mmio.antt =====
-- Kernel/Source/Memory/MMIO.c: addresses for the registers of devices.
pub mod Ranges
use ych.Prelude.{
  ℕ, ◌+◌, ◌%◌, ◌^◌, bit_and, Bool, true, false, not, ◌==◌, if◌then◌else◌, Option, none, some,
}
use ych.Krtl.Mem.{is_power_of_two_aligned, align_up_to_power_of_two}
use ych.Pte.Structs.{Tables}
use ych.Vmm.{AddressSpace, Region, acquire_region, has_flag}
use ych.Vmm.Mapping.{Context, map_static}

-- `g_VaddrMmioHead` before and after, and the range's start.
unfoldable pub allocate_range : ℕ → ℕ → ℕ → ℕ × ℕ
allocate_range head alignment size =
    let base = align_up_to_power_of_two head alignment in ((base + size) % 2 ^ 64, base)

pub record Devices : Type 0 where
  pub head : ℕ
  pub space : AddressSpace
  pub tables : Tables

-- `VmRelinquishRegion` does nothing yet.
unfoldable pub relinquish_region : AddressSpace → Region → AddressSpace × Bool
relinquish_region s r = (s, false)

-- Readable, writable and static, write-combined or not cached
abbrev pub device_flags : ℕ → ℕ
device_flags flags = 2 ^ 4 + 2 ^ 5 + 2 ^ 7 + (if has_flag flags (2 ^ 1) then 2 else 1)

abbrev pub device_page_size : ℕ → ℕ
device_page_size flags = if has_flag flags 1 then 0x200000 else 0x1000

-- Once the range has a region, it is mapped; where that fails the region stays. 0 is the failure, and
-- `none` a mapping that does not end.
unfoldable pub map_region : Context → Devices → Region → ℕ → ℕ → Option (Devices × ℕ)
map_region c s r base paddr = elim (map_static c s.tables r paddr) [
  | none ↦ none
  | some (tables, done) ↦
      if done
      then some (record s { tables = tables }, base)
      else some (record s { tables = tables; space = (relinquish_region s.space r).0 }, 0)
]

unfoldable pub map_device : Option ℕ → Context → Devices → ℕ → ℕ → ℕ → Option (Devices × ℕ)
map_device node c s paddr size flags =
    let page = device_page_size flags in
    let (head, base) = allocate_range s.head page size in
    let (space, region) =
      acquire_region node s.space base ((base + size) % 2 ^ 64) (device_flags flags) in
    if not (is_power_of_two_aligned paddr page)
    then some (s, 0)
    else (if not (is_power_of_two_aligned ((paddr + size) % 2 ^ 64) page)
        then some (s, 0)
        else (let s' : Devices = record s { head = head; space = space } in
            elim region [ none ↦ some (s', 0) | some r ↦ map_region c s' r base paddr ]))
