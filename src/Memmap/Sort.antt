-- ===== src/Memmap/Sort.antt =====
-- The sorting of the memory map by its addresses, the first half of `KrInitMemmap` in
-- Kernel/Source/Init/KrInitMemmap.c.
pub mod Swaps
pub mod Parts
pub mod Order
use ych.Prelude.{ℕ, zero, suc, ◌+◌, ◌-◌, ◌%◌, ◌^◌, Bool, true, false, ltb, ◌==◌, if◌then◌else◌}
use ych.Physmem.Init.{MemoryDescriptor}

-- `KrSwapMemdescs` on two elements of the map
unfoldable pub swap : (ℕ → MemoryDescriptor) → ℕ → ℕ → ℕ → MemoryDescriptor
swap a i j = λ x. if x == i then a j else (if x == j then a i else a x)

-- The loop of `KrPartDescarray` with `n` rounds left, at `j`. `next` is `i + 1` of the source.
unfoldable pub part_loop : ℕ → ℕ → ℕ → ℕ → (ℕ → MemoryDescriptor) → (ℕ → MemoryDescriptor) × ℕ
part_loop zero pivot j next a = (a, next)
part_loop (suc n) pivot j next a =
    let hit = part_loop n pivot (suc j) (suc next) (swap a next j) in
    let miss = part_loop n pivot (suc j) next a in
    if ltb (a j).physical_base pivot then hit else miss

-- `KrPartDescarray`
unfoldable pub part_descarray : (ℕ → MemoryDescriptor) → ℕ → ℕ → (ℕ → MemoryDescriptor) × ℕ
part_descarray a start limit =
    let (b, p) = part_loop (limit - start) (a limit).physical_base start start a in
    (swap b p limit, p)

-- `KrQuicksortMemmap`: a round of its loop sorts the shorter side by the recursion and goes on with
-- the other. `pi - 1` is taken on 32 bits.
unfoldable pub quicksort_memmap : ℕ → (ℕ → MemoryDescriptor) → ℕ → ℕ → ℕ → MemoryDescriptor
quicksort_memmap zero a start limit = a
quicksort_memmap (suc fuel) a start limit =
    let (b, p) = part_descarray a start limit in
    let before = (p + (2 ^ 32 - 1)) % 2 ^ 32 in
    let left_first = quicksort_memmap fuel (quicksort_memmap fuel b start before) (suc p) limit in
    let right_first = quicksort_memmap fuel (quicksort_memmap fuel b (suc p) limit) start before in
    if ltb start limit then (if ltb (p - start) (limit - p) then left_first else right_first) else a

-- The call of `KrInitMemmap` for a map of `count` descriptors.
unfoldable pub sort_memmap : ℕ → (ℕ → MemoryDescriptor) → ℕ → MemoryDescriptor
sort_memmap count a = quicksort_memmap count a 0 ((count + (2 ^ 32 - 1)) % 2 ^ 32)
