-- ===== src/Krtl/Mem/Align.antt =====
-- The two alignment helpers against division.
use native.Mathlib.Nat.{
  mod-lt, div-add-mod', mod-eq_of_lt, div-mul-le_self, div-lt_iff_lt-mul, mul-mod_left,
}
use ych.Prelude.{
  ℕ, zero, suc, ◌+◌, ◌-◌, ◌*◌, ◌/◌, ◌%◌, ◌^◌, ◌≤◌, ◌<◌, ◌≡◌, ◌↔◌, true, arith, ap, sym, ◌∙◌,
}
use ych.Prelude.Masks.{and_low, and_high, pow_pos, two_pow_add}
use ych.Krtl.Mem.{not64, is_power_of_two_aligned, align_up_to_power_of_two}

-- The alignment test by a power of two is divisibility by it.
pub aligned_iff : (k a : ℕ) → (is_power_of_two_aligned a (2 ^ k) ≡ true) ↔ (a % 2 ^ k ≡ 0)
unfolding is_power_of_two_aligned
aligned_iff k a = ground (arith, and_low k a)

sub_one_mul : (a b : ℕ) → 0 < a → (a - 1) * b + b ≡ a * b
sub_one_mul zero b h = absurd (omega arith)
sub_one_mul (suc a) b h = let e : suc a - 1 ≡ a = omega arith in rw e (omega arith)

-- The complement of a mask of low ones is a mask of high ones.
pub high_mask : (j k : ℕ) → j + k ≡ 64 → not64 (2 ^ k - 1) ≡ (2 ^ j - 1) * 2 ^ k
high_mask j k e =
    let split : 2 ^ 64 ≡ 2 ^ j * 2 ^ k = ap (λ (t : ℕ). 2 ^ t) (sym e) ∙ two_pow_add j k in
    let factor : (2 ^ j - 1) * 2 ^ k + 2 ^ k ≡ 2 ^ j * 2 ^ k =
      sub_one_mul (2 ^ j) (2 ^ k) (pow_pos j) in
    omega (arith, pow_pos k)

-- Where the sum does not wrap, rounding up is `ceil(a / 2^k) * 2^k`.
pub align_up_div :
    (j k a : ℕ)
    → j + k ≡ 64
    → a + 2 ^ k ≤ 2 ^ 64
    → align_up_to_power_of_two a (2 ^ k) ≡ (a + (2 ^ k - 1)) / 2 ^ k * 2 ^ k
unfolding align_up_to_power_of_two
align_up_div j k a e h =
    let fits : a + (2 ^ k - 1) < 2 ^ 64 = omega (arith, pow_pos k) in
    let split : 2 ^ 64 ≡ 2 ^ j * 2 ^ k = ap (λ (t : ℕ). 2 ^ t) (sym e) ∙ two_pow_add j k in
    let low : (a + (2 ^ k - 1)) / 2 ^ k < 2 ^ j = (div-lt_iff_lt-mul (pow_pos k)).1 (omega arith) in
    rw (mod-eq_of_lt fits, high_mask j k e, and_high j k (a + (2 ^ k - 1)), mod-eq_of_lt low)

-- Where the sum does not wrap at 2 ^ 64, aligning up by a power of two gives the least multiple of it
-- that is not below the address.
pub align_up_least :
    (j k a : ℕ)
    → j + k ≡ 64
    → a + 2 ^ k ≤ 2 ^ 64
    → let r = align_up_to_power_of_two a (2 ^ k) in (r % 2 ^ k ≡ 0) × (a ≤ r) × (r < a + 2 ^ k)
align_up_least j k a e h =
    let x = a + (2 ^ k - 1) in
    rw (align_up_div j k a e h) (
      mul-mod_left (x / 2 ^ k) (2 ^ k),
      omega (arith, div-add-mod' x (2 ^ k), mod-lt x (pow_pos k), pow_pos k),
      omega (arith, div-mul-le_self x (2 ^ k), pow_pos k),
    )
