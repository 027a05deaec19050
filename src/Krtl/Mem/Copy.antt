-- ===== src/Krtl/Mem/Copy.antt =====
-- Copies between buffers that may overlap.
use ych.Prelude.{ℕ, zero, suc, ◌+◌, ◌-◌, ◌≤◌, ◌≡◌, ◌⊎◌, ◌&&◌, leb, ltb, if◌then◌else◌, arith}
use ych.Krtl.Mem.{Memory, write, copy_forward, copy_backward, move_buffer}

-- The bytes of the source before the copy, at the destination.
abbrev pub moved : Memory → ℕ → ℕ → ℕ → ℕ → ℕ
moved m dest src n x = if leb dest x && ltb x (dest + n) then m (src + (x - dest)) else m x

pub copy_forward_lem :
    (n : ℕ) (m : Memory) (dest src x : ℕ)
    → (dest ≤ src) ⊎ (src + n ≤ dest)
    → copy_forward m dest src n x ≡ moved m dest src n x
unfolding copy_forward write
copy_forward_lem zero m dest src x apart = ground arith
copy_forward_lem (suc n) m dest src x apart =
    let rest = copy_forward_lem n (write m dest (m src)) (dest + 1) (src + 1) x (ground arith) in
    rw rest (grind arith)

pub copy_backward_lem :
    (n : ℕ) (m : Memory) (dest src x : ℕ)
    → src ≤ dest
    → copy_backward m dest src n x ≡ moved m dest src n x
unfolding copy_backward write
copy_backward_lem zero m dest src x apart = ground arith
copy_backward_lem (suc n) m dest src x apart =
    let rest = copy_backward_lem n (write m (dest + n) (m (src + n))) dest src x apart in
    rw rest (grind arith)

-- However the two buffers overlap, the move leaves at the destination what the source held, and every
-- byte outside of the destination as it was.
pub move_buffer_lem :
    (m : Memory) (dest src n x : ℕ) → move_buffer m dest src n x ≡ moved m dest src n x
unfolding move_buffer
move_buffer_lem m dest src n x =
    ground (arith, copy_forward_lem n m dest src x, copy_backward_lem n m dest src x)
