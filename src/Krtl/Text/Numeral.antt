-- ===== src/Krtl/Text/Numeral.antt =====
-- `KrtlUnsignedToString` against positional notation.
use ych.Prelude.{
  ℕ, zero, suc, ◌+◌, ◌-◌, ◌/◌, ◌%◌, ◌^◌, ◌≤◌, ◌<◌, ◌≡◌, refl, ◌⊎◌, inl, inr, Bool, true, false, ◌∙◌,
  ◌&&◌, leb, ◌==◌, if◌then◌else◌, arith, Bool-cases,
}
use native.Mathlib.Nat.{pow-zero, div-one, one-le-pow, mod-eq_of_lt}
use ych.Krtl.Mem.{Memory, write}
use ych.Krtl.Text.{reverse_string, digit_char, unsigned_to_string}
use ych.Krtl.Text.Digits.{name_at, digit_names, digit_char-mod}
use ych.Krtl.Text.Emit.{Emitted, reverse_string_lem, emit_digits-Emitted}

-- The text of a number at `dest`: `n` digits from the highest on, without leading zeroes, and a
-- terminating 0; every byte outside is as before.
pub record Numeral (m : Memory) (dest value radix : ℕ) (uppercase : Bool) (n : ℕ) (r : Memory)
    : Type 0 where
  pub some_digit : 0 < n
  pub small : value < radix ^ n
  pub least : (n ≡ 1) ⊎ (radix ^ (n - 1) ≤ value)
  pub digits :
      (i : ℕ)
      → i < n
      → r (dest + i) ≡ name_at (digit_names uppercase) (value / radix ^ (n - 1 - i) % radix)
  pub ends : r (dest + n) ≡ 0
  pub others : (x : ℕ) → (leb dest x && leb x (dest + n)) ≡ false → r x ≡ m x

zero_digit : (i radix : ℕ) → i < 1 → 1 < radix → 0 / radix ^ (1 - 1 - i) % radix ≡ 0
zero_digit i radix h base =
    let k : 1 - 1 - i ≡ 0 = omega arith in
    let q : 0 / radix ^ 0 ≡ 0 = rw (pow-zero radix) (div-one 0) in
    rw (k, q) (mod-eq_of_lt (omega arith))

has_digit : (n value radix : ℕ) → 0 < value → value < radix ^ n → 0 < n
has_digit zero value radix some small = let e = pow-zero radix in absurd (omega arith)
has_digit (suc n) value radix some small = omega arith

zero_named : (uppercase : Bool) → name_at (digit_names uppercase) 0 ≡ 48
zero_named true = refl
zero_named false = refl

zero-Numeral :
    (m : Memory) (dest radix : ℕ) (uppercase : Bool)
    → 1 < radix
    → Numeral m dest 0 radix uppercase 1 (write (write m dest 48) (dest + 1) 0)
unfolding write
zero-Numeral m dest radix uppercase base = record {
  some_digit = omega arith;
  small = one-le-pow 1 radix (omega arith);
  least = inl refl;
  digits = λ i h. rw (zero_digit i radix h base) (ground (arith, zero_named uppercase));
  ends = ground arith;
  others = λ x out. ground arith;
}

reversed-Numeral :
    (m : Memory) (dest value radix : ℕ) (uppercase : Bool) (n : ℕ) (r : Memory × ℕ)
    → 0 < value
    → 1 < radix
    → radix ≤ 36
    → n ≤ 64
    → Emitted m dest value radix uppercase n r
    → Numeral m dest value radix uppercase n (reverse_string 64 (write r.0 r.1 0) dest (r.1 - 1))
unfolding write
reversed-Numeral m dest value radix uppercase n r some base top bound e = record {
  some_digit = positive;
  small = e.small;
  least = elim e.least [ inl none ↦ absurd (omega (arith, positive)) | inr l ↦ inr l ];
  digits =
      λ i h. digits i h ∙ digit_char-mod (value / radix ^ (n - 1 - i)) radix uppercase base top;
  ends = grind (arith, flip (dest + n), e.behind);
  others = λ x out. grind (arith, flip x, e.behind, e.others x);
}
  where
    positive : 0 < n
    positive = has_digit n value radix some e.small

    flip :
        (x : ℕ)
        → reverse_string 64 (write r.0 r.1 0) dest (r.1 - 1) x ≡ (
            if leb dest x && leb x (r.1 - 1)
            then write r.0 r.1 0 (dest + (r.1 - 1) - x)
            else write r.0 r.1 0 x)
    flip x = reverse_string_lem 64 (write r.0 r.1 0) dest (r.1 - 1) x (omega (arith, e.behind))

    digits :
        (i : ℕ)
        → i < n
        → reverse_string 64 (write r.0 r.1 0) dest (r.1 - 1) (dest + i)
          ≡ digit_char (value / radix ^ (n - 1 - i) % radix) uppercase
    digits i h =
        let back : dest + (r.1 - 1) - (dest + i) ≡ dest + (n - 1 - i) = omega (arith, e.behind) in
        let digit = e.digits (n - 1 - i) (omega arith) in
        ground (arith, flip (dest + i), back, digit, e.behind)

-- Into a radix from 2 to 36, a number below 2 ^ 64 is written with its digits from the highest on,
-- by their names 0 to 9 and then the letters, without leading zeroes (0 as one digit), and a
-- terminating 0; every byte outside is as before.
pub unsigned_to_string-Numeral :
    (m : Memory) (dest value radix : ℕ) (uppercase : Bool)
    → 1 < radix
    → radix ≤ 36
    → value < 2 ^ 64
    → (n : ℕ) × Numeral m dest value radix uppercase n
        (unsigned_to_string m dest value radix uppercase)
unfolding unsigned_to_string
unsigned_to_string-Numeral m dest value radix uppercase base top b =
    let (n, (bound, e)) = emit_digits-Emitted 64 m dest value radix uppercase base b in
    elim (Bool-cases (value == 0)) [
      | inl none ↦
          let z : value ≡ 0 = ground arith in
          (1, rw (none, z) (zero-Numeral m dest radix uppercase base))
      | inr some ↦ (
        n,
        rw some (reversed-Numeral m dest value radix uppercase n _ (ground arith) base top bound e),
      )
    ]
