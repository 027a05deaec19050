-- ===== src/Krtl/Text/Signed.antt =====
-- `KrtlSignedToString` of a negative number, and `KrtlStringSize`.
use ych.Prelude.{
  ℕ, zero, suc, ◌+◌, ◌-◌, ◌/◌, ◌%◌, ◌^◌, ◌≤◌, ◌<◌, ◌≡◌, ◌≢◌, refl, ◌∙◌, inl, inr, Bool, true, false,
  ◌&&◌, leb, ◌==◌, if◌then◌else◌, arith, Bool-cases, ne→beq,
}
use native.Mathlib.Nat.{pow-zero}
use ych.Krtl.Mem.{Memory, write}
use ych.Krtl.Text.{
  reverse_string, digit_char, signed_to_string, unsigned_to_string, string_size, string_size_from,
}
use ych.Krtl.Text.Digits.{name_at, digit_names, digit_char-mod}
use ych.Krtl.Text.Emit.{Emitted, reverse_string_lem, emit_digits-Emitted}

-- A minus sign at `dest`, `n` digits from the highest on without leading zeroes, and a terminating 0;
-- every byte outside is as before.
pub record NegativeNumeral (m : Memory) (dest value radix : ℕ) (uppercase : Bool) (n : ℕ)
    (r : Memory) : Type 0 where
  pub some_digit : 0 < n
  pub small : value < radix ^ n
  pub least : radix ^ (n - 1) ≤ value
  pub sign : r dest ≡ 45
  pub digits :
      (i : ℕ)
      → i < n
      → r (dest + 1 + i) ≡ name_at (digit_names uppercase) (value / radix ^ (n - 1 - i) % radix)
  pub ends : r (dest + 1 + n) ≡ 0
  pub others : (x : ℕ) → (leb dest x && leb x (dest + 1 + n)) ≡ false → r x ≡ m x

reversed-NegativeNumeral :
    (m : Memory) (dest value radix : ℕ) (uppercase : Bool) (n : ℕ) (r : Memory × ℕ)
    → 1 < radix
    → radix ≤ 36
    → 0 < n
    → radix ^ (n - 1) ≤ value
    → n ≤ 64
    → Emitted m dest value radix uppercase n r
    → NegativeNumeral m dest value radix uppercase n
        (reverse_string 64 (write (write r.0 r.1 45) (r.1 + 1) 0) dest (r.1 + 1 - 1))
unfolding write
reversed-NegativeNumeral m dest value radix uppercase n r base top positive least bound e = record {
  some_digit = positive;
  small = e.small;
  least = least;
  sign = ground (arith, flip dest, e.behind);
  digits = λ i h.
      let text_of : Memory = reverse_string 64 text dest (r.1 + 1 - 1) in
      let code : text_of (dest + 1 + i)
          ≡ digit_char (value / radix ^ (n - 1 - i) % radix) uppercase =
        ground
          (arith, flip (dest + 1 + i), e.digits (n - 1 - i) (omega arith), e.behind, back i h) in
      code ∙ digit_char-mod (value / radix ^ (n - 1 - i)) radix uppercase base top;
  ends = grind (arith, flip (dest + 1 + n), e.behind);
  others = λ x out. grind (arith, flip x, e.behind, e.others x);
}
  where
    text : Memory
    text = write (write r.0 r.1 45) (r.1 + 1) 0

    flip :
        (x : ℕ)
        → reverse_string 64 text dest (r.1 + 1 - 1) x
          ≡ (if leb dest x && leb x (r.1 + 1 - 1) then text (dest + (r.1 + 1 - 1) - x) else text x)
    flip x = reverse_string_lem 64 text dest (r.1 + 1 - 1) x (omega (arith, e.behind))

    back : (i : ℕ) → i < n → dest + (r.1 + 1 - 1) - (dest + 1 + i) ≡ dest + (n - 1 - i)
    back i h = omega (arith, e.behind)

some_digits : (n value radix : ℕ) → 0 < value → value < radix ^ n → 0 < n
some_digits zero value radix pos small = let e = pow-zero radix in absurd (omega arith)
some_digits (suc n) value radix pos small = omega arith

-- Into a radix from 2 to 36, a negative number above - 2 ^ 63 is written as a minus sign and the digits
-- of its negation by their names, from the highest on and without leading zeroes, and a terminating 0; every byte outside is as before.
pub signed_to_string-NegativeNumeral :
    (m : Memory) (dest value radix : ℕ) (uppercase : Bool)
    → 1 < radix
    → radix ≤ 36
    → 2 ^ 63 < value
    → value < 2 ^ 64
    → (n : ℕ) × NegativeNumeral m dest
        (2 ^ 64 - value)
        radix
        uppercase
        n
        (signed_to_string m dest value radix uppercase)
unfolding signed_to_string
signed_to_string-NegativeNumeral m dest value radix uppercase base top low high =
    let (n, (bound, e)) =
      emit_digits-Emitted 64 m dest (2 ^ 64 - value) radix uppercase base (omega arith) in
    let negative : leb (2 ^ 63) value ≡ true = ground arith in
    let positive = some_digits n (2 ^ 64 - value) radix (omega arith) e.small in
    let least : radix ^ (n - 1) ≤ 2 ^ 64 - value = elim e.least [
      | inl no_digit ↦ absurd (omega arith)
      | inr l ↦ l
    ] in
    (
      n,
      rw (negative, ne→beq value 0 (omega arith))
          (reversed-NegativeNumeral m dest (2 ^ 64 - value) radix uppercase n _ base top positive
            least bound e),
    )

-- A number that is not negative is written as the unsigned one.
pub signed_to_string-unsigned_to_string :
    (m : Memory) (dest value radix : ℕ) (uppercase : Bool)
    → value < 2 ^ 63
    → signed_to_string m dest value radix uppercase
      ≡ unsigned_to_string m dest value radix uppercase
unfolding signed_to_string unsigned_to_string
signed_to_string-unsigned_to_string m dest value radix uppercase h =
    let positive : leb (2 ^ 63) value ≡ false = ground arith in rw positive refl

string_size_from_lem :
    (fuel : ℕ) (m : Memory) (start i n : ℕ)
    → i ≤ n
    → n ≤ i + fuel
    → ((k : ℕ) → i ≤ k → k < n → m (start + k) ≢ 0)
    → m (start + n) ≡ 0
    → string_size_from fuel m start i ≡ n
unfolding string_size_from
string_size_from_lem zero m start i n le enough text ends = omega arith
string_size_from_lem (suc fuel) m start i n le enough text ends =
    elim (Bool-cases (m (start + i) == 0)) [
      | inl stop ↦ rw stop (elim (Bool-cases (i == n)) [
        | inl here ↦ ground arith
        | inr before ↦ absurd (text i (omega arith) (ground arith) (ground arith))
      ])
      | inr go ↦
          let ne : i ≢ n = λ e. grind arith in
          rw go (
            string_size_from_lem fuel m start (i + 1) n (omega arith) (omega arith)
              (λ k lo hi. text k (omega arith) hi) ends)
    ]

-- The size is the distance to the first 0 behind the first byte, whatever the first byte is.
pub string_size_lem :
    (fuel : ℕ) (m : Memory) (start n : ℕ)
    → 0 < n
    → n ≤ 1 + fuel
    → ((k : ℕ) → 1 ≤ k → k < n → m (start + k) ≢ 0)
    → m (start + n) ≡ 0
    → string_size fuel m start ≡ n
unfolding string_size
string_size_lem fuel m start n pos enough text ends =
    string_size_from_lem fuel m start 1 n pos enough text ends
