-- ===== src/Krtl/Mem.antt =====
-- Buffers and alignment, Kernel/Source/KRTL/Krnlmem.c and Krnlmem.asm.
pub mod Align
pub mod Buffers
pub mod Copy
use ych.Prelude.{ℕ, zero, suc, ◌+◌, ◌-◌, ◌%◌, ◌^◌, Bool, bit_and, ◌||◌, ltb, ◌==◌, if◌then◌else◌}

abbrev pub Memory : Type 0
Memory = ℕ → ℕ

-- `*a = v`
unfoldable pub write : Memory → ℕ → ℕ → Memory
write m a v x = if x == a then v else m x

-- `while (N--) *pDestBytes++ = Value;`
unfoldable pub set_buffer : Memory → ℕ → ℕ → ℕ → Memory
unfolding write
set_buffer m dest value zero = m
set_buffer m dest value (suc n) = set_buffer (write m dest value) (dest + 1) value n

unfoldable pub zero_buffer : Memory → ℕ → ℕ → Memory
unfolding set_buffer
zero_buffer m dest n = set_buffer m dest 0 n

-- The loop compares the bytes before it counts, and stops after the count has passed zero: what
-- remains of `N`, with its wrap at 2 ^ 64, decides.
compare_loop : Memory → ℕ → ℕ → ℕ → ℕ
compare_loop m l r zero = if m l == m r then 2 ^ 64 - 1 else 0
compare_loop m l r (suc n) =
    let rest = compare_loop m (l + 1) (r + 1) n in if m l == m r then rest else suc n

unfoldable pub buffer_equal : Memory → ℕ → ℕ → ℕ → Bool
unfolding compare_loop
buffer_equal m l r n = compare_loop m l r n == 0

-- `~x` on 64 bits
abbrev pub not64 : ℕ → ℕ
not64 x = 2 ^ 64 - 1 - x

unfoldable pub is_power_of_two_aligned : ℕ → ℕ → Bool
is_power_of_two_aligned address alignment = bit_and address (alignment - 1) == 0

unfoldable pub align_up_to_power_of_two : ℕ → ℕ → ℕ
align_up_to_power_of_two address alignment =
    bit_and ((address + (alignment - 1)) % 2 ^ 64) (not64 (alignment - 1))

-- `REP MOVSB`, upwards
unfoldable pub copy_forward : Memory → ℕ → ℕ → ℕ → Memory
copy_forward m dest src zero = m
copy_forward m dest src (suc n) = copy_forward (write m dest (m src)) (dest + 1) (src + 1) n

-- `.L_backward`, from the last byte down
unfoldable pub copy_backward : Memory → ℕ → ℕ → ℕ → Memory
copy_backward m dest src zero = m
copy_backward m dest src (suc n) = copy_backward (write m (dest + n) (m (src + n))) dest src n

-- `KrtlContiguousCopyBuffer`
unfoldable pub copy_buffer : Memory → ℕ → ℕ → ℕ → Memory
copy_buffer m dest src n = copy_forward m dest src n

-- `KrtlContiguousMoveBuffer`
unfoldable pub move_buffer : Memory → ℕ → ℕ → ℕ → Memory
move_buffer m dest src n =
    if n == 0 || dest == src
    then m
    else (if ltb dest src then copy_forward m dest src n else copy_backward m dest src n)
