-- ===== src/Arena.antt =====
-- Kernel/Source/Memory/BootstrapArena.c: the bump allocator that serves the kernel until it has
-- page tables of its own. Addresses are numbers, `NULLPTR` is 0.
pub mod Laws
use ych.Prelude.{ℕ, ◌+◌, ◌-◌, ◌%◌, ◌^◌, Bool, true, false, ◌||◌, not, ltb, ◌==◌, if◌then◌else◌}
use ych.Krtl.Mem.{align_up_to_power_of_two}

pub record Arena : Type 0 where
  pub base : ℕ
  pub ptr : ℕ
  pub limit : ℕ

unfoldable pub init_arena : Arena → ℕ → ℕ → Arena × Bool
init_arena a base size =
    if size == 0 || (not (a.base == 0) || (not (a.ptr == 0) || not (a.limit == 0)))
    then (a, false)
    else (record { base = base; ptr = base; limit = (base + size) % 2 ^ 64 }, true)

-- `(p + Alignment - 1) & ~(Alignment - 1)`
unfoldable pub arena_align : Arena → ℕ → Arena × Bool
arena_align a alignment =
    let aligned = align_up_to_power_of_two a.ptr alignment in
    if ltb a.limit aligned then (a, false) else (record a { ptr = aligned }, true)

-- The size is rounded up to a multiple of `KR_BOOTSTRAP_ARENA_ALIGNMENT`, 16.
unfoldable pub arena_acquire : Arena → ℕ → Arena × ℕ
arena_acquire a size =
    let n = align_up_to_power_of_two size 16 in
    if n == 0 || ltb a.limit ((a.ptr + n) % 2 ^ 64)
    then (a, 0)
    else (record a { ptr = (a.ptr + n) % 2 ^ 64 }, a.ptr)

-- `KrBootstrapArenaRelease` does nothing.
unfoldable pub arena_release : Arena → ℕ → Arena
arena_release a address = a

unfoldable pub space_left : Arena → ℕ
space_left a = if a.ptr == 0 then 0 else a.limit - a.ptr
