-- ===== src/Vmm/Nodes/Slots.antt =====
-- The bitmap of the slots: taking one and giving it back.
use native.Mathlib.Nat.{pow-suc, mod-eq_of_lt, div-div-eq-div-mul, pow-succ'}
use mathlib.Core.Path.{subst}
use ych.Prelude.{
  ℕ, zero, suc, ◌+◌, ◌-◌, ◌*◌, ◌/◌, ◌%◌, ◌^◌, ◌<◌, ◌≤◌, ◌≡◌, ◌≢◌, ◌⊎◌, refl, inl, inr, bit_and,
  bit_or, ◌==◌, Bool-cases, ne→beq, arith, sym,
}
use ych.Prelude.Bits.{and_step, or_step}
use ych.Prelude.Masks.{and_low, mod_digit, pow_pos, pow_lt, or-zero}
use ych.Krtl.Mem.{not64}
use ych.Vmm.Nodes.{lowest_clear, slot_mask}

-- A digit that is clear, by halving.
half_digit : (i b : ℕ) → b / 2 / 2 ^ i ≡ b / 2 ^ suc i
half_digit i b = rw (div-div-eq-div-mul, pow-succ' 2 i)

pub or_pow : (i b : ℕ) → b / 2 ^ i % 2 ≡ 0 → bit_or b (2 ^ i) ≡ b + 2 ^ i
or_pow zero b clear = omega (arith, or_step b 1, or-zero (b / 2))
or_pow (suc i) b clear =
    let two : 2 ^ suc i ≡ 2 ^ i * 2 = pow-suc 2 i in
    let e : b / 2 / 2 ^ i % 2 ≡ 0 = rw (half_digit i b) clear in
    let ih = or_pow i (b / 2) e in
    let half : 2 ^ suc i / 2 ≡ 2 ^ i = omega arith in
    rw (or_step b (2 ^ suc i), half, ih) (ground arith)

pub and_pow :
    (w i b : ℕ)
    → i < w
    → b < 2 ^ w
    → b / 2 ^ i % 2 ≡ 0
    → bit_and (b + 2 ^ i) (2 ^ w - 1 - 2 ^ i) ≡ b
and_pow zero i b lt bound clear = absurd (omega arith)
and_pow (suc w) zero b lt bound clear =
    let two : 2 ^ suc w ≡ 2 ^ w * 2 = pow-suc 2 w in
    let pos = pow_pos w in
    let low : b / 2 < 2 ^ w = omega arith in
    let half : (2 ^ suc w - 1 - 2 ^ 0) / 2 ≡ 2 ^ w - 1 = omega arith in
    let up : (b + 2 ^ 0) / 2 ≡ b / 2 = omega arith in
    rw (and_step (b + 2 ^ 0) (2 ^ suc w - 1 - 2 ^ 0), half, up, and_low w (b / 2), mod-eq_of_lt low)
      (ground arith)
and_pow (suc w) (suc i) b lt bound clear =
    let two : 2 ^ suc w ≡ 2 ^ w * 2 = pow-suc 2 w in
    let twi : 2 ^ suc i ≡ 2 ^ i * 2 = pow-suc 2 i in
    let e : b / 2 / 2 ^ i % 2 ≡ 0 = rw (half_digit i b) clear in
    let ih = and_pow w i (b / 2) (omega arith) (omega arith) e in
    let half : (2 ^ suc w - 1 - 2 ^ suc i) / 2 ≡ 2 ^ w - 1 - 2 ^ i =
      omega (arith, pow_lt i w (omega arith)) in
    let up : (b + 2 ^ suc i) / 2 ≡ b / 2 + 2 ^ i = omega arith in
    rw (and_step (b + 2 ^ suc i) (2 ^ suc w - 1 - 2 ^ suc i), half, up, ih)
      (ground (arith, pow_lt i w (omega arith)))

-- Setting a clear bit of `w` does not carry out of them.
set_below : (w i b : ℕ) → i < w → b < 2 ^ w → b / 2 ^ i % 2 ≡ 0 → b + 2 ^ i < 2 ^ w
set_below zero i b lt bound clear = absurd (omega arith)
set_below (suc w) zero b lt bound clear = omega (arith, pow-suc 2 w, pow_pos w)
set_below (suc w) (suc i) b lt bound clear =
    let e : b / 2 / 2 ^ i % 2 ≡ 0 = rw (half_digit i b) clear in
    let two : 2 ^ suc w ≡ 2 ^ w * 2 = pow-suc 2 w in
    omega (arith, pow-suc 2 i, set_below w i (b / 2) (omega arith) (omega arith) e)

-- A clear bit above an odd lowest one is one of the half.
half_clear : (w b : ℕ) → b % 2 ≡ 1 → b % 2 ^ suc w ≢ 2 ^ suc w - 1 → b / 2 % 2 ^ w ≢ 2 ^ w - 1
half_clear w b odd h e = h (omega (arith, mod_digit w b, pow_pos w, pow-suc 2 w))

-- The lowest clear bit of a number that has one in its lowest `w` bits, which more fuel finds too.
pub lowest_clear_lem :
    (w v b : ℕ)
    → b % 2 ^ w ≢ 2 ^ w - 1
    → (lowest_clear (w + v) b < w) × (b / 2 ^ lowest_clear (w + v) b % 2 ≡ 0)
unfolding lowest_clear
lowest_clear_lem zero v b some_clear = absurd (some_clear (omega arith))
lowest_clear_lem (suc w) v b some_clear =
    let e : suc w + v ≡ suc (w + v) = omega arith in
    rw e (elim (Bool-cases (b % 2 == 0)) [
      | inl even ↦ rw even (omega arith, ground arith)
      | inr odd ↦
          let ih = lowest_clear_lem w v (b / 2) (half_clear w b (ground arith) some_clear) in
          rw (odd, sym (half_digit (lowest_clear (w + v) (b / 2)) b)) (omega (arith, ih.0), ih.1)
    ])

-- What a bitmap can be: its bits from 31 on are set or clear together.
unfoldable pub IsSlotMap : ℕ → Type 0
IsSlotMap b = (b < 2 ^ 31) ⊎ ((2 ^ 64 - 2 ^ 31 ≤ b) × (b < 2 ^ 64))

-- The lowest clear bit of a bitmap that is not full is one of the first 31, or bit 31 behind them.
slot-cases :
    (b : ℕ)
    → IsSlotMap b
    → b ≢ 2 ^ 64 - 1
    → ((lowest_clear 64 b < 31) × (b / 2 ^ lowest_clear 64 b % 2 ≡ 0))
      ⊎ ((b ≡ 2 ^ 31 - 1) × (lowest_clear 64 b ≡ 31))
unfolding IsSlotMap lowest_clear
slot-cases b map not_full = elim (Bool-cases (b % 2 ^ 31 == 2 ^ 31 - 1)) [
  | inl full ↦ let e : b ≡ 2 ^ 31 - 1 = ground arith in inr (e, rw e refl)
  | inr clear ↦ inl (lowest_clear_lem 31 33 b (ground arith))
]

-- The slot that is taken, what its bit was, and that giving it back restores the bitmap.
pub record IsTaken (b : ℕ) : Type 0 where
  pub below : lowest_clear 64 b < 32
  pub clear : b / 2 ^ lowest_clear 64 b % 2 ≡ 0
  pub set : bit_or b (slot_mask (lowest_clear 64 b)) ≡ b + slot_mask (lowest_clear 64 b)
  pub map : IsSlotMap (bit_or b (slot_mask (lowest_clear 64 b)))
  pub back :
      bit_and (bit_or b (slot_mask (lowest_clear 64 b))) (not64 (slot_mask (lowest_clear 64 b))) ≡ b

low_mask : (slot : ℕ) → slot < 31 → slot_mask slot ≡ 2 ^ slot
unfolding slot_mask
low_mask slot lt = let e : slot % 32 ≡ slot = omega arith in rw (e, ne→beq slot 31 (omega arith))

low-IsTaken :
    (b : ℕ) → IsSlotMap b → lowest_clear 64 b < 31 → b / 2 ^ lowest_clear 64 b % 2 ≡ 0 → IsTaken b
unfolding IsSlotMap
low-IsTaken b map lt clear =
    let i = lowest_clear 64 b in
    let bound : b < 2 ^ 64 = ground arith in
    let set : bit_or b (slot_mask i) ≡ b + 2 ^ i = rw (low_mask i lt) (or_pow i b clear) in
    record {
      below = omega arith;
      clear = clear;
      set = rw (low_mask i lt) (or_pow i b clear);
      map = rw set (elim map [
        | inl small ↦ inl (set_below 31 i b lt small clear)
        | inr (large, top) ↦ inr (omega arith, set_below 64 i b (omega arith) top clear)
      ]);
      back = rw (set, low_mask i lt) (and_pow 64 i b (omega arith) bound clear);
    }

top-IsTaken : IsTaken (2 ^ 31 - 1)
unfolding IsSlotMap slot_mask lowest_clear
top-IsTaken = record {
  below = omega arith;
  clear = refl;
  set = refl;
  map = inr (omega arith, omega arith);
  back = refl;
}

-- A slot taken from a bitmap that is not full is one of the first 32 and was clear; the bits of
-- the bitmap stay of its kind, and clearing the slot's bit restores it.
pub take-IsTaken : (b : ℕ) → IsSlotMap b → b ≢ 2 ^ 64 - 1 → IsTaken b
take-IsTaken b map not_full = elim (slot-cases b map not_full) [
  | inl (lt, clear) ↦ low-IsTaken b map lt clear
  | inr (e, at) ↦ subst IsTaken (sym e) top-IsTaken
]
