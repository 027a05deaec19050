-- ===== src/Arena/Laws.antt =====
-- The blocks that the arena hands out.
use ych.Prelude.{
  ℕ, ◌+◌, ◌-◌, ◌*◌, ◌/◌, ◌%◌, ◌^◌, ◌≤◌, ◌<◌, ◌≡◌, refl, ◌⊎◌, inl, inr, ◌||◌, arith, ltb, ◌==◌,
  Bool-cases,
}
use ych.Krtl.Mem.{align_up_to_power_of_two}
use ych.Krtl.Mem.Align.{align_up_least}
use ych.Arena.{Arena, arena_acquire, space_left}

-- An arena in use, below the end of the address space.
pub record IsOpen (a : Arena) : Type 0 where
  pub placed : 0 < a.base
  pub started : a.base ≤ a.ptr
  pub within : a.ptr ≤ a.limit
  pub room : a.limit + 2 ^ 32 ≤ 2 ^ 64
  pub aligned : a.ptr % 16 ≡ 0

pub record Served (a : Arena) (size : ℕ) (b : Arena) (address : ℕ) : Type 0 where
  -- the block starts where the free part started, aligned, and the free part starts behind it
  pub starts : address ≡ a.ptr
  pub covers : address + size ≤ b.ptr
  pub tight : b.ptr < address + size + 16
  pub within : b.ptr ≤ b.limit
  pub space : space_left a ≡ space_left b + (b.ptr - address)

-- An open arena stays open under a request of between 1 and 2 ^ 32 - 17 bytes. The request is served
-- with an aligned block at the start of the free part, inside the arena, and the space left shrinks
-- by no more than 15 bytes above the size; or nothing changes, the answer is 0, and the space left is
-- smaller than the size rounded up to a multiple of 16.
pub arena_acquire-Served :
    (a : Arena) (size : ℕ)
    → IsOpen a
    → 0 < size
    → size < 2 ^ 32 - 16
    → let (b, address) = arena_acquire a size in
      IsOpen b
      × ((Served a size b address × (address % 16 ≡ 0))
          ⊎ ((b ≡ a) × (address ≡ 0) × (space_left a < (size + 15) / 16 * 16)))
unfolding arena_acquire space_left
arena_acquire-Served a size o pos small =
    let r = align_up_least 60 4 size refl (omega arith) in
    let n = align_up_to_power_of_two size 16 in
    elim (Bool-cases (n == 0 || ltb a.limit ((a.ptr + n) % 2 ^ 64))) [
      | inl full ↦ rw full (o, inr (refl, refl, ground (arith, r)))
      | inr fits ↦
          let end : (a.ptr + n) % 2 ^ 64 ≡ a.ptr + n = omega (arith, r) in
          let below : a.ptr + n ≤ a.limit = ground (arith, end) in
          rw (fits, end)
            (
              record {
                placed = o.placed;
                started = omega arith;
                within = below;
                room = o.room;
                aligned = omega (arith, r);
              },
              inl (
                record {
                  starts = refl;
                  covers = omega (arith, r);
                  tight = omega (arith, r);
                  within = below;
                  space = ground arith;
                },
                o.aligned,
              ),
            )
    ]
