-- ===== src/Mmio/Ranges.antt =====
-- The ranges that are handed out one after another.
use ych.Prelude.{ℕ, ◌+◌, ◌-◌, ◌%◌, ◌^◌, ◌<◌, ◌≤◌, ◌≡◌, List, [], ◌∷◌, arith}
use ych.Krtl.Mem.{align_up_to_power_of_two}
use ych.Krtl.Mem.Align.{align_up_least}
use ych.Mmio.{allocate_range}

-- A request: the exponent of the alignment, and the size.
abbrev pub Request : Type 0
Request = ℕ × ℕ

unfoldable pub allocate_all : ℕ → List Request → List Request
allocate_all head [] = []
allocate_all head ((k, size) ∷ rs) =
    let (head', base) = allocate_range head (2 ^ k) size in (base, size) ∷ allocate_all head' rs

-- The sizes and the most that aligning skips, together.
unfoldable pub demand : List Request → ℕ
demand [] = 0
demand ((k, size) ∷ rs) = 2 ^ k + size + demand rs

-- The ranges lie behind `head` and behind one another.
unfoldable pub IsApart : ℕ → List Request → Type 0
IsApart head [] = Unit {0}
IsApart head ((base, size) ∷ rs) = (head ≤ base) × IsApart (base + size) rs

-- The exponents are those of an alignment of 64 bits.
unfoldable pub AllWords : List Request → Type 0
AllWords [] = Unit {0}
AllWords ((k, size) ∷ rs) = (k ≤ 64) × AllWords rs

-- As long as the requests fit behind the head in the address space, the ranges handed out for them
-- stand behind one another and do not overlap.
pub allocate_all-IsApart :
    (head : ℕ) (rs : List Request)
    → AllWords rs
    → head + demand rs < 2 ^ 64
    → IsApart head (allocate_all head rs)
unfolding allocate_all demand IsApart AllWords allocate_range
allocate_all-IsApart head [] words room = tt
allocate_all-IsApart head ((k, size) ∷ rs) (low, words) room =
    let (m, ge, lt) = align_up_least (64 - k) k head (omega arith) (omega arith) in
    let base = align_up_to_power_of_two head (2 ^ k) in
    let e : (base + size) % 2 ^ 64 ≡ base + size = omega arith in
    (ge, rw e (allocate_all-IsApart (base + size) rs words (omega arith)))
