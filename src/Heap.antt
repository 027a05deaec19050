-- ===== src/Heap.antt =====
-- Kernel/Source/Memory/Krnlheap.c: the kernel heap. A block is a header of 25 packed bytes and the
-- payload behind it; the headers form a doubly linked list.
pub mod Chain
pub mod Split
pub mod Place
pub mod Locate
pub mod Acquire
pub mod Absorb
pub mod Release
pub mod Return
pub mod Cycle
pub mod Invariant
use ych.Prelude.{
  ℕ, zero, suc, ◌+◌, ◌-◌, ◌/◌, ◌%◌, ◌^◌, bit_and, Bool, true, false, ◌&&◌, ◌||◌, not, leb, ltb,
  ◌==◌, if◌then◌else◌, Option, none, some,
}
use ych.Krtl.Mem.{align_up_to_power_of_two}
use ych.Vmm.{AddressSpace, Region, acquire_region}

-- `HeapHeader`; a `NULLPTR` is 0.
pub record Header : Type 0 where
  pub prev : ℕ
  pub next : ℕ
  pub payload_size : ℕ
  pub free : Bool

abbrev pub header_size : ℕ
header_size = 25

abbrev pub min_payload_size : ℕ
min_payload_size = 32

-- The statics of the file, the headers by their addresses, and the words of type `offset_to_meta_t`
-- by theirs.
pub record Heap : Type 0 where
  pub initialized : Bool
  pub start : ℕ
  pub stop : ℕ
  pub root : ℕ
  pub headers : ℕ → Header
  pub words : ℕ → ℕ

unfoldable pub put_header : (ℕ → Header) → ℕ → Header → ℕ → Header
put_header h a v x = if x == a then v else h x

-- `SIZE` and `UINTPTR` have 64 bits.
abbrev pub sub64 : ℕ → ℕ → ℕ
sub64 a b = (a + 2 ^ 64 - b) % 2 ^ 64

-- `KR_MAKE_VIRTUAL(KRNL_PML4_IDX, KRNL_HEAP_PDPT_IDX, 0, 0, 0)` and the MMIO entry behind it
abbrev pub heap_start : ℕ
heap_start = 0xFFFF_FF80_0000_0000

abbrev pub heap_stop : ℕ
heap_stop = 0xFFFF_FFC0_0000_0000

-- `node` is the region's node, if one can be acquired. The flags are readable and writable.
unfoldable pub heap_init : Option ℕ → AddressSpace → Heap → AddressSpace × (Heap × Bool)
heap_init node space s =
    if s.initialized
    then (space, (s, false))
    else (let (space', region) = acquire_region node space heap_start heap_stop (2 ^ 4 + 2 ^ 5) in
        elim region [
          | none ↦ (space', (record s { start = heap_start; stop = heap_stop }, false))
          | some r ↦ (
            space',
            (
              record s {
                initialized = true;
                start = heap_start;
                stop = heap_stop;
                root = heap_start;
                headers = put_header s.headers heap_start (record {
                  prev = 0;
                  next = 0;
                  payload_size = sub64 (sub64 heap_stop heap_start) header_size;
                  free = true;
                });
              },
              true,
            ),
          )
        ])

-- `HeapAlignedReAcquire` is not written yet and returns `NULLPTR`.
unfoldable pub aligned_re_acquire : Heap → ℕ → ℕ → ℕ → Heap × ℕ
aligned_re_acquire s address n alignment = (s, 0)

unfoldable pub header_payload_address : ℕ → ℕ
header_payload_address a = (a + header_size) % 2 ^ 64

-- `while (pRef)`: the loops end at the first block that will do, or at 0 behind the last.
unfoldable pub locate_free_from : (ℕ → Header) → ℕ → ℕ → ℕ
locate_free_from h zero a = 0
locate_free_from h (suc fuel) a =
    let rest = locate_free_from h fuel (h a).next in
    if a == 0 then 0 else (if (h a).free then a else rest)

unfoldable pub locate_free_of_size_from : (ℕ → Header) → ℕ → ℕ → ℕ → ℕ
locate_free_of_size_from h zero a n = 0
locate_free_of_size_from h (suc fuel) a n =
    let rest = locate_free_of_size_from h fuel (h a).next n in
    if a == 0 then 0 else (if (h a).free && leb n (h a).payload_size then a else rest)

-- The payload's address inside a block: aligned, with room for the offset word before it.
unfoldable pub aligned_payload : ℕ → ℕ → ℕ
unfolding header_payload_address
aligned_payload a alignment =
    let original = header_payload_address a in
    let aligned = align_up_to_power_of_two original alignment in
    let tolerance = sub64 aligned original in
    if ltb tolerance 2
    then align_up_to_power_of_two ((aligned + (2 - tolerance)) % 2 ^ 64) alignment
    else aligned

-- `pRef->PayloadSize - ErrorTolerance >= N`
unfoldable pub block_serves : (ℕ → Header) → ℕ → ℕ → ℕ → Bool
block_serves h a n alignment =
    leb n
      (sub64 (h a).payload_size (sub64 (aligned_payload a alignment) (header_payload_address a)))

-- The block and the aligned payload in it; the block is 0 where none serves.
unfoldable pub locate_aligned_free_of_size_from : (ℕ → Header) → ℕ → ℕ → ℕ → ℕ → ℕ × ℕ
locate_aligned_free_of_size_from h zero a n alignment = (0, 0)
locate_aligned_free_of_size_from h (suc fuel) a n alignment =
    let rest = locate_aligned_free_of_size_from h fuel (h a).next n alignment in
    if a == 0
    then (0, 0)
    else (if (h a).free && block_serves h a n alignment
        then (a, aligned_payload a alignment)
        else rest)

-- `AddrAbsNd`, the address behind the block
abbrev pub block_stop : (ℕ → Header) → ℕ → ℕ
block_stop h a = (a + header_size + (h a).payload_size) % 2 ^ 64

unfoldable pub can_split_at : (ℕ → Header) → ℕ → ℕ → Bool
can_split_at h a offset =
    if ltb (sub64 (block_stop h a) a) offset
    then false
    else leb (min_payload_size + header_size) (sub64 (block_stop h a) ((a + offset) % 2 ^ 64))

-- `if (p) p->pPrev = prev`
unfoldable pub link_back : (ℕ → Header) → ℕ → ℕ → ℕ → Header
link_back h a prev = if a == 0 then h else put_header h a (record (h a) { prev = prev })

unfoldable pub resize : (ℕ → Header) → ℕ → ℕ → ℕ → ℕ → Header
resize h a size next = put_header h a (record (h a) { payload_size = size; next = next })

unfoldable pub set_free : (ℕ → Header) → ℕ → Bool → ℕ → Header
set_free h a free = put_header h a (record (h a) { free = free })

unfoldable pub try_split_at : (ℕ → Header) → ℕ → ℕ → (ℕ → Header) × Bool
try_split_at h a offset =
    if can_split_at h a offset
    then (let insert = (a + offset) % 2 ^ 64 in
        let cut = sub64 (block_stop h a) insert in
        let inserted : Header = record {
          prev = a;
          next = (h a).next;
          payload_size = sub64 cut header_size;
          free = true;
        } in
        let h' = link_back (put_header h insert inserted) (h a).next insert in
        (resize h' a (sub64 (h' a).payload_size cut) insert, true))
    else (h, false)

-- Enough rounds for as many blocks as the heap has room for.
unfoldable pub heap_rounds : Heap → ℕ
heap_rounds s = (s.stop - s.start) / header_size + 1

-- `~((offset_to_meta_t) 0)` is the `int` -1, and as a `SIZE` the greatest one.
abbrev pub max_offset_to_meta : ℕ
max_offset_to_meta = 2 ^ 64 - 1

-- What `HeapAlignedAcquire` does with the block `a` and the payload address `p` in it: `NULLPTR` is
-- 0. The offset word is stored on 16 bits.
unfoldable pub take_block : Heap → ℕ → ℕ → ℕ → Heap × ℕ
take_block s n a p =
    if a == 0 || ltb max_offset_to_meta (sub64 p a)
    then (s, 0)
    else (let h = (try_split_at s.headers a (sub64 ((p + n) % 2 ^ 64) a)).0 in
        (
          record s {
            headers = set_free h a false;
            words = λ x. if x == sub64 p 2 then sub64 p a % 2 ^ 16 else s.words x;
          },
          p,
        ))

abbrev pub at_least_minimum : ℕ → ℕ
at_least_minimum n = if ltb n min_payload_size then min_payload_size else n

unfoldable pub aligned_acquire : Heap → ℕ → ℕ → Heap × ℕ
aligned_acquire s n alignment =
    if n == 0 || (alignment == 0 || not (bit_and alignment (alignment - 1) == 0))
    then (s, 0)
    else (let size = align_up_to_power_of_two (at_least_minimum n) alignment in
        let (a, p) =
          locate_aligned_free_of_size_from s.headers (heap_rounds s) s.root size alignment in
        take_block s size a p)

unfoldable pub heap_acquire : Heap → ℕ → Heap × ℕ
heap_acquire s n = aligned_acquire s n 0x10

-- The previous block swallows this one. `none` is the write through `pMyNext` where it is a
-- `NULLPTR`. The second component is the block that goes on.
unfoldable pub swallow_into_previous : (ℕ → Header) → ℕ → Option ((ℕ → Header) × ℕ)
swallow_into_previous h a =
    let before = (h a).prev in
    let after = (h a).next in
    let size = ((h before).payload_size + ((h a).payload_size + header_size)) % 2 ^ 64 in
    if not (before == 0) && (h before).free
    then (if after == 0
        then none
        else some (link_back (resize h before size after) after before, before))
    else some (h, a)

-- The block `a` swallows `after`, the next block of the block that is given back.
unfoldable pub swallow_next : (ℕ → Header) → ℕ → ℕ → ℕ → Header
swallow_next h a after =
    let size = ((h a).payload_size + ((h after).payload_size + header_size)) % 2 ^ 64 in
    if not (after == 0) && (h after).free
    then link_back (resize h a size (h after).next) (h after).next a
    else h

unfoldable pub relinquish_block : (ℕ → Header) → ℕ → Option (ℕ → Header)
relinquish_block h a = elim (swallow_into_previous (set_free h a true) a) [
  | none ↦ none
  | some (h', b) ↦ some (swallow_next h' b (h a).next)
]

-- `none` is the fault.
unfoldable pub heap_relinquish : Heap → ℕ → Option (Heap × Bool)
heap_relinquish s p =
    let a = sub64 p (s.words (sub64 p 2)) in
    if ltb p s.start || leb s.stop p
    then some (s, false)
    else (if (s.headers a).free then some (s, false) else elim (relinquish_block s.headers a) [
      | none ↦ none
      | some h ↦ some (record s { headers = h }, true)
    ])
