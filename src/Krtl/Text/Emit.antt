-- ===== src/Krtl/Text/Emit.antt =====
-- The two loops: the digits as they are written, and the reversal.
use ych.Prelude.{
  ℕ, zero, suc, ◌+◌, ◌-◌, ◌*◌, ◌/◌, ◌%◌, ◌^◌, ◌≤◌, ◌<◌, ◌≡◌, refl, ◌⊎◌, inl, inr, Bool, false, ◌&&◌,
  leb, ltb, ◌==◌, if◌then◌else◌, arith, Bool-cases,
}
use native.Mathlib.Nat.{
  pow-suc, pow-succ', pow-zero, div-lt_iff_lt-mul, le-div_iff_mul-le, div-div-eq-div-mul,
  mul-le-mul_left, div-one,
}
use ych.Krtl.Mem.{Memory, write}
use ych.Krtl.Text.{reverse_string, digit_char, emit_digits}

-- The bytes from `start` to `last` in the opposite order, and every other byte as before.
pub reverse_string_lem :
    (fuel : ℕ) (m : Memory) (start last x : ℕ)
    → last < start + 2 * fuel
    → reverse_string fuel m start last x
      ≡ (if leb start x && leb x last then m (start + last - x) else m x)
unfolding reverse_string write
reverse_string_lem zero m start last x h = ground arith
reverse_string_lem (suc fuel) m start last x h =
    let rest =
      reverse_string_lem fuel (write (write m start (m last)) last (m start)) (start + 1) (last - 1)
        x (omega arith) in
    elim (Bool-cases (ltb start last)) [
      | inl go ↦ rw go (grind (arith, rest))
      | inr done ↦ rw done (grind arith)
    ]

-- What the digit loop leaves, `n` digits from the lowest on.
pub record Emitted (m : Memory) (dest value radix : ℕ) (uppercase : Bool) (n : ℕ) (r : Memory × ℕ)
    : Type 0 where
  pub behind : r.1 ≡ dest + n
  pub small : value < radix ^ n
  pub least : (n ≡ 0) ⊎ (radix ^ (n - 1) ≤ value)
  pub digits : (i : ℕ) → i < n → r.0 (dest + i) ≡ digit_char (value / radix ^ i % radix) uppercase
  pub others : (x : ℕ) → (leb dest x && ltb x (dest + n)) ≡ false → r.0 x ≡ m x

half_bound : (fuel value radix : ℕ) → 1 < radix → value < 2 ^ suc fuel → value / radix < 2 ^ fuel
half_bound fuel value radix h b =
    let double : 2 ^ suc fuel ≡ 2 ^ fuel * 2 = pow-suc 2 fuel in
    let wide : 2 ^ fuel * 2 ≤ 2 ^ fuel * radix = mul-le-mul_left (2 ^ fuel) h in
    let pos : 0 < radix = omega arith in (div-lt_iff_lt-mul pos).1 (omega arith)

small_step : (n value radix : ℕ) → 0 < radix → value / radix < radix ^ n → value < radix ^ suc n
small_step n value radix pos h =
    let e = pow-suc radix n in
    let b : value < radix ^ n * radix = (div-lt_iff_lt-mul pos).0 h in omega arith

least_step :
    (n value radix : ℕ)
    → 0 < radix
    → 0 < value
    → (n ≡ 0) ⊎ (radix ^ (n - 1) ≤ value / radix)
    → radix ^ n ≤ value
least_step zero value radix pos some l = let e = pow-zero radix in omega arith
least_step (suc n) value radix pos some (inl e) = absurd (omega arith)
least_step (suc n) value radix pos some (inr l) =
    let e = pow-suc radix n in
    let k : suc n - 1 ≡ n = omega arith in
    let l' : radix ^ n ≤ value / radix = rw k at l in
    let b : radix ^ n * radix ≤ value = (le-div_iff_mul-le pos).0 l' in omega arith

digit_step : (i value radix : ℕ) → value / radix / radix ^ i ≡ value / radix ^ suc i
digit_step i value radix = rw (div-div-eq-div-mul, pow-succ' radix i) refl

Emitted-suc :
    (m : Memory) (dest value radix : ℕ) (uppercase : Bool) (n : ℕ) (r : Memory × ℕ)
    → 0 < radix
    → 0 < value
    → Emitted
        (write m dest (digit_char (value % radix) uppercase))
        (dest + 1)
        (value / radix)
        radix
        uppercase
        n
        r
    → Emitted m dest value radix uppercase (suc n) r
unfolding write
Emitted-suc m dest value radix uppercase n r pos some e = record {
  behind = omega (arith, e.behind);
  small = small_step n value radix pos e.small;
  least = inr (rw pred (least_step n value radix pos some e.least));
  digits = digits;
  others = λ x out. ground (arith, e.others x);
}
  where
    pred : suc n - 1 ≡ n
    pred = omega arith

    digits : (i : ℕ) → i < suc n → r.0 (dest + i) ≡ digit_char (value / radix ^ i % radix) uppercase
    digits zero h =
        let here : dest + 0 ≡ dest = omega arith in
        let whole : value / radix ^ 0 ≡ value = rw (pow-zero radix) (div-one value) in
        let kept = e.others dest (ground arith) in rw (here, whole) (ground (arith, kept))
    digits (suc i) h =
        let moved : dest + suc i ≡ dest + 1 + i = omega arith in
        rw (moved, ← digit_step i value radix) (e.digits i (omega arith))

-- With fuel for the bits of the value, the loop writes the digits of the value.
pub emit_digits-Emitted :
    (fuel : ℕ) (m : Memory) (dest value radix : ℕ) (uppercase : Bool)
    → 1 < radix
    → value < 2 ^ fuel
    → (n : ℕ) × ((n ≤ fuel)
        × Emitted m dest value radix uppercase n (emit_digits fuel m dest value radix uppercase))
unfolding emit_digits
emit_digits-Emitted zero m dest value radix uppercase base b =
    let e = pow-zero radix in
    (
      0,
      (
        omega arith,
        record {
          behind = omega arith;
          small = omega arith;
          least = inl refl;
          digits = λ i h. absurd (omega arith);
          others = λ x out. refl;
        },
      ),
    )
emit_digits-Emitted (suc fuel) m dest value radix uppercase base b =
    let e = pow-zero radix in
    let (n, (bound, rest)) =
      emit_digits-Emitted fuel (write m dest (digit_char (value % radix) uppercase)) (dest + 1)
        (value / radix) radix uppercase base (half_bound fuel value radix base b) in
    elim (Bool-cases (value == 0)) [
      | inl none ↦ rw none (
        0,
        (
          omega arith,
          record {
            behind = omega arith;
            small = ground arith;
            least = inl refl;
            digits = λ i h. absurd (omega arith);
            others = λ x out. refl;
          },
        ),
      )
      | inr some ↦ rw some (
        suc n,
        (
          omega arith,
          Emitted-suc m dest value radix uppercase n _ (omega arith) (ground arith) rest,
        ),
      )
    ]
