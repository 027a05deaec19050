-- ===== src/Tests/Words.antt =====
-- The helpers of Kernel/Source/KRTL, the canonical memory map of Kernel/Source/Init/KrInitMemmap.c,
-- and the page-table entries of Kernel/Source/Memory/PTE.c.
use ych.Prelude.{
  ◌+◌, ◌%◌, ◌^◌, ◌≤◌, ◌<◌, ◌≡◌, ◌≢◌, ◌↔◌, refl, max, true, false, ◌&&◌, arith, leb, ltb,
  if◌then◌else◌, some, ℕ, List, [], ◌∷◌, length,
}
use ych.Krtl.Mem.{Memory, set_buffer, buffer_equal, align_up_to_power_of_two}
use ych.Krtl.Mem.Align.{align_up_least}
use ych.Krtl.Mem.Buffers.{Agree, set_buffer_lem, buffer_equal_iff}
use ych.Krtl.Mem.{write}
use ych.Krtl.Text.{reverse_string, digit_char, emit_digits, unsigned_to_string}
use ych.Krtl.Text.Numeral.{Numeral, unsigned_to_string-Numeral}
use ych.Physmem.Init.{MemoryDescriptor, is_usable_memory_region_type}
use ych.Memmap.{peek_ahead, build_canonical}
use ych.Memmap.Cover.{usable_at, covered_at, AllInside, build_canonical-covered}
use ych.Pte.{
  EntryType, PatSelect, PatMsrState, pat_target, alignment, encode_entry, encode_failure,
  AddressMode, VirtualAddress, make_virtual, unmake_virtual,
}
use ych.Pte.Entries.{
  bit, flag_bit, flags_bit, usable_bit, encode_entry-bits, encode_entry-misaligned,
}
use ych.Pte.Addresses.{unmake_virtual-make_virtual, make_virtual-unmake_virtual}

align_up_least_run :
    (align_up_to_power_of_two 0x3001 (2 ^ 12) % 2 ^ 12 ≡ 0)
    × (0x3001 ≤ align_up_to_power_of_two 0x3001 (2 ^ 12))
    × (align_up_to_power_of_two 0x3001 (2 ^ 12) < 0x3001 + 2 ^ 12)
align_up_least_run = align_up_least 52 12 0x3001 refl (omega arith)

abbrev zeroes : Memory
zeroes x = 0

set_buffer_lem_run :
    set_buffer zeroes 0x100 7 4 0x103
    ≡ (if leb 0x100 0x103 && ltb 0x103 (0x100 + 4) then 7 else zeroes 0x103)
set_buffer_lem_run = set_buffer_lem 4 zeroes 0x100 7 0x103

buffer_equal_iff_run :
    (buffer_equal zeroes 0x100 0x200 4 ≡ true)
    ↔ (Agree zeroes 0x100 0x200 4 × (zeroes (0x100 + 4) ≢ zeroes (0x200 + 4)))
buffer_equal_iff_run = buffer_equal_iff 4 zeroes 0x100 0x200 (omega arith)

abbrev write_combining : PatSelect
write_combining = record { pat = true; pcd = false; pwt = true }

big_aligned : 0x40200000 % alignment EntryType.pd2mb ≡ 0
unfolding alignment
big_aligned = refl

big_valid : EntryType.pd2mb ≢ EntryType.invalid
big_valid e = cc

encode_entry-bits_example :
    (bit 12 (encode_entry (some false) 0 EntryType.pd2mb 0x40200000 3 write_combining).0
      ≡ max
          (flag_bit (flags_bit EntryType.pd2mb write_combining 12 (usable_bit (some false) 12 3)))
          (bit 12 0x40200000))
    × ((encode_entry (some false) 0 EntryType.pd2mb 0x40200000 3 write_combining).1 ≡ 0)
encode_entry-bits_example =
    encode_entry-bits (some false) 0 EntryType.pd2mb 0x40200000 3 write_combining 12 big_valid
      big_aligned (omega arith)

small_misaligned : 0x1000 % alignment EntryType.pd2mb ≢ 0
unfolding alignment
small_misaligned e = omega arith

encode_entry-misaligned_run :
    encode_entry (some true) 4 EntryType.pd2mb 0x1000 3 write_combining
    ≡ (encode_failure, (4 + 1) % 2 ^ 32)
encode_entry-misaligned_run =
    encode_entry-misaligned (some true) 4 EntryType.pd2mb 0x1000 3 write_combining big_valid
      small_misaligned

abbrev registers : PatMsrState
registers = record { pa_uc = 3; pa_wc = 5; pa_wt = 1; pa_wp = 4; pa_wb = 0; pa_ucm = 2 }

wc_target : pat_target registers 1 ≡ 5
unfolding pat_target
wc_target = refl

abbrev indices : VirtualAddress
indices = record { pml4 = 256; pdpt = 3; pd = 511; pt = 7; offset = 0xABC }

unmake_virtual-make_virtual_run :
    unmake_virtual AddressMode.small (make_virtual AddressMode.small indices) ≡ indices
unmake_virtual-make_virtual_run =
    unmake_virtual-make_virtual indices (omega arith) (omega arith) (omega arith) (omega arith)
      (omega arith)

make_virtual-unmake_virtual_example :
    make_virtual AddressMode.small (unmake_virtual AddressMode.small 0xFFFF800000001000)
    ≡ 0xFFFF800000001000 % 2 ^ 48
make_virtual-unmake_virtual_example = make_virtual-unmake_virtual 0xFFFF800000001000

-- 0xBEEF in hexadecimal.
beef : unsigned_to_string zeroes 0x100 0xBEEF 16 true 0x101 ≡ 69
unfolding unsigned_to_string emit_digits reverse_string digit_char write
beef = refl

unsigned_to_string-Numeral_example :
    (n : ℕ) × Numeral zeroes 0x100 0xBEEF 16 true n (unsigned_to_string zeroes 0x100 0xBEEF 16 true)
unsigned_to_string-Numeral_example =
    unsigned_to_string-Numeral zeroes 0x100 0xBEEF 16 true (omega arith) (omega arith) (omega arith)

-- Two usable regions that join, one that is reserved, and one usable region behind a gap.
abbrev four_regions : List MemoryDescriptor
four_regions =
    record { physical_base = 0; page_count = 2; attributes = 0; region_type = 7 }
    ∷ record { physical_base = 0x2000; page_count = 1; attributes = 0; region_type = 3 }
    ∷ record { physical_base = 0x3000; page_count = 1; attributes = 0; region_type = 0 }
    ∷ record { physical_base = 0x8000; page_count = 4; attributes = 0; region_type = 7 }
    ∷ []

two_regions : length (build_canonical 4096 4 four_regions) ≡ 2
unfolding build_canonical peek_ahead is_usable_memory_region_type
two_regions = refl

four-AllInside : AllInside 4096 four_regions
unfolding AllInside
four-AllInside = (omega arith, (omega arith, (omega arith, (omega arith, tt))))

build_canonical-covered_example :
    covered_at 4096 (build_canonical 4096 4 four_regions) 0x2500
    ≡ usable_at 4096 four_regions 0x2500
build_canonical-covered_example =
    build_canonical-covered 4096 4 four_regions 0x2500 (omega arith) (omega arith) four-AllInside
