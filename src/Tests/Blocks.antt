-- ===== src/Tests/Blocks.antt =====
-- The kernel heap of Kernel/Source/Memory/Krnlheap.c on small ones.
use ych.Prelude.{◌+◌, ◌-◌, ◌^◌, ◌≡◌, ◌≢◌, refl, true, false, some, List, [], ◌∷◌, arith}
use ych.Krtl.Mem.{is_power_of_two_aligned, align_up_to_power_of_two}
use ych.Vmm.{AddressSpace, acquire_region, find_insert_point, find_insert_index}
use ych.Heap.{
  Heap, Header, heap_init, heap_start, heap_stop, aligned_acquire, heap_acquire, heap_relinquish,
  put_header, heap_rounds, locate_aligned_free_of_size_from, block_serves, aligned_payload,
  take_block,
}
use ych.Heap.Chain.{Block, IsHeap, IsChain, IsRoomy}
use ych.Heap.Acquire.{Outcome, requested, aligned_acquire-Outcome}
use ych.Heap.Return.{Returned, heap_relinquish-Returned}
use ych.Heap.Release.{released}
use ych.Heap.Cycle.{IsCoalesced, aligned_acquire-heap_relinquish}
use ych.Heap.Invariant.{
  IsWhole, KeepsWhole, heap_init-IsWhole, aligned_acquire-IsWhole, heap_relinquish-KeepsWhole,
}

abbrev empty_header : Header
empty_header = record { prev = 0; next = 0; payload_size = 0; free = false }

abbrev one_block : List Block
one_block = record { payload_size = 0xFE7; free = true } ∷ []

abbrev small_heap : Heap
small_heap = record {
  initialized = true;
  start = 0x1000;
  stop = 0x2000;
  root = 0x1000;
  headers =
      put_header (λ a. empty_header) 0x1000
        (record { prev = 0; next = 0; payload_size = 0xFE7; free = true });
  words = λ a. 0;
}

small_heap-IsHeap : IsHeap small_heap one_block
unfolding IsChain IsRoomy put_header
small_heap-IsHeap = record {
  rooted = refl;
  positive = omega arith;
  bounded = omega arith;
  chain = (refl, tt);
  tiles = refl;
  roomy = (omega arith, tt);
}

one_block-IsCoalesced : IsCoalesced one_block
unfolding IsCoalesced
one_block-IsCoalesced = tt

first_pointer : (aligned_acquire small_heap 100 (2 ^ 4)).1 ≡ 0x1020
unfolding aligned_acquire take_block locate_aligned_free_of_size_from heap_rounds put_header
    block_serves align_up_to_power_of_two aligned_payload
first_pointer = refl

first_served : (aligned_acquire small_heap 100 (2 ^ 4)).1 ≢ 0
first_served e = omega (arith, first_pointer)

aligned_acquire-Outcome_example :
    Outcome small_heap one_block (requested 100 4) 4 (aligned_acquire small_heap 100 (2 ^ 4))
aligned_acquire-Outcome_example =
    aligned_acquire-Outcome small_heap one_block 60 4 small_heap-IsHeap refl (omega arith) 100
      (omega arith) (omega arith)

aligned_acquire-heap_relinquish_example :
    (s2 : Heap) × (heap_relinquish
        (aligned_acquire small_heap 100 (2 ^ 4)).0
        (aligned_acquire small_heap 100 (2 ^ 4)).1
      ≡ some (s2, true))
    × IsHeap s2 one_block
aligned_acquire-heap_relinquish_example =
    aligned_acquire-heap_relinquish small_heap one_block 60 4 100 small_heap-IsHeap
      one_block-IsCoalesced refl (omega arith) (omega arith) (omega arith) first_served

-- A free block, one in use with its pointer 0x1050, and the rest of the heap.
abbrev before_block : Block
before_block = record { payload_size = 32; free = true }

abbrev used_block : Block
used_block = record { payload_size = 100; free = false }

abbrev last_block : Block
last_block = record { payload_size = 0xF31; free = true }

abbrev three_blocks : List Block
three_blocks = before_block ∷ used_block ∷ last_block ∷ []

abbrev three_heap : Heap
three_heap = record {
  initialized = true;
  start = 0x1000;
  stop = 0x2000;
  root = 0x1000;
  headers =
      put_header
        (put_header
          (put_header (λ a. empty_header) 0x1000
            (record { prev = 0; next = 0x1039; payload_size = 32; free = true }))
          0x1039 (record { prev = 0x1000; next = 0x10B6; payload_size = 100; free = false }))
        0x10B6 (record { prev = 0x1039; next = 0; payload_size = 0xF31; free = true });
  words = λ a. 0x27;
}

three_heap-IsHeap : IsHeap three_heap three_blocks
unfolding IsChain IsRoomy put_header
three_heap-IsHeap = record {
  rooted = refl;
  positive = omega arith;
  bounded = omega arith;
  chain = (refl, (refl, (refl, tt)));
  tiles = refl;
  roomy = (omega arith, (omega arith, (omega arith, tt)));
}

three_blocks-IsCoalesced : IsCoalesced three_blocks
unfolding IsCoalesced
three_blocks-IsCoalesced = (refl, (refl, tt))

heap_relinquish-Returned_example :
    Returned three_heap []
      (released (some before_block) used_block (last_block ∷ []))
      (heap_relinquish three_heap 0x1060)
heap_relinquish-Returned_example =
    heap_relinquish-Returned three_heap three_blocks (before_block ∷ []) used_block
      (last_block ∷ []) 0x1060 three_heap-IsHeap refl refl (omega arith) (omega arith) refl

heap_relinquish-KeepsWhole_example : KeepsWhole false (heap_relinquish three_heap 0x1060)
heap_relinquish-KeepsWhole_example =
    heap_relinquish-KeepsWhole three_heap three_blocks 0x1060 three_heap-IsHeap
      three_blocks-IsCoalesced
      (record {
        before = before_block ∷ [];
        block = used_block;
        behind = last_block ∷ [];
        split = refl;
        used = refl;
        own = omega arith;
        inside = omega arith;
        word = refl;
      })

small_heap-IsWhole : IsWhole small_heap
unfolding IsWhole
small_heap-IsWhole = (one_block, small_heap-IsHeap, one_block-IsCoalesced)

aligned_acquire-IsWhole_example : IsWhole (aligned_acquire small_heap 100 (2 ^ 4)).0
aligned_acquire-IsWhole_example =
    aligned_acquire-IsWhole small_heap 60 4 100 small_heap-IsWhole refl (omega arith) (omega arith)
      (omega arith)

-- The kernel's address space with the region of its image.
abbrev kernel_space : AddressSpace
kernel_space = record {
  is_kernel = true;
  regions =
      record { vaddr_start = 0xFFFF_FFFF_8000_0000; vaddr_end = 0xFFFF_FFFF_8020_0000; flags = 0 }
      ∷ [];
  nodes = 0x1000 ∷ [];
  links = record { prev = λ n. 0; next = λ n. 0; root = 0x1000; tail = 0x1000 };
  nr_regions = 1;
}

abbrev fresh_heap : Heap
fresh_heap = record small_heap { initialized = false; start = 0; stop = 0; root = 0 }

heap_region_free :
    (acquire_region (some 0x2000) kernel_space heap_start heap_stop (2 ^ 4 + 2 ^ 5)).1
    ≡ some (record { vaddr_start = heap_start; vaddr_end = heap_stop; flags = 2 ^ 4 + 2 ^ 5 })
unfolding acquire_region is_power_of_two_aligned find_insert_point find_insert_index
heap_region_free = refl

heap_init-IsWhole_run :
    ((heap_init (some 0x2000) kernel_space fresh_heap).1.1 ≡ true)
    × IsWhole (heap_init (some 0x2000) kernel_space fresh_heap).1.0
heap_init-IsWhole_run =
    heap_init-IsWhole (some 0x2000) kernel_space fresh_heap _ refl heap_region_free

-- A request that the alignment takes past 2 ^ 64 is one for no bytes, and succeeds.
huge_request : (heap_acquire small_heap (2 ^ 64 - 1)).1 ≡ 0x1020
unfolding heap_acquire aligned_acquire take_block locate_aligned_free_of_size_from heap_rounds
    put_header block_serves align_up_to_power_of_two aligned_payload
huge_request = refl

-- By an alignment of a page, the tolerance is larger than the payload of 32 bytes: a block is taken
-- for one of nearly 2 ^ 64 bytes, and the pointer lies behind it.
abbrev tight_heap : Heap
tight_heap = record small_heap {
  headers =
      put_header (λ a. empty_header) 0x1000
        (record { prev = 0; next = 0; payload_size = 32; free = true });
  stop = 0x1039;
}

pointer_behind : (aligned_acquire tight_heap 64 (2 ^ 12)).1 ≡ 0x2000
unfolding aligned_acquire take_block locate_aligned_free_of_size_from heap_rounds put_header
    block_serves align_up_to_power_of_two aligned_payload
pointer_behind = refl

-- An alignment above 2 ^ 16 takes the distance to the header past the word that stores it: the
-- header is looked for elsewhere.
abbrev wide_heap : Heap
wide_heap = record small_heap {
  start = 0x10000;
  stop = 0x100000;
  root = 0x10000;
  headers =
      put_header (λ a. empty_header) 0x10000
        (record { prev = 0; next = 0; payload_size = 0xEFFE7; free = true });
}

distance_cut :
    ((aligned_acquire wide_heap 64 (2 ^ 17)).1 ≡ 0x20000)
    × ((aligned_acquire wide_heap 64 (2 ^ 17)).0.words (0x20000 - 2) ≡ 0)
unfolding aligned_acquire take_block locate_aligned_free_of_size_from heap_rounds put_header
    block_serves align_up_to_power_of_two aligned_payload
distance_cut = (refl, refl)
