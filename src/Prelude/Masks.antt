-- ===== src/Prelude/Masks.antt =====
-- Masks of ones and disjoint fields as arithmetic, at every width.
use Prim.Native.Nat.{ℕ, zero, suc, ◌+◌, ◌-◌, ◌*◌, ◌/◌, ◌%◌, ◌^◌, ◌≤◌, ◌<◌, bit_and, bit_or}
use mathlib.Core.Path.{◌≡◌, refl, ap, sym}
use native.Mathlib.Nat.{
  pow-suc, pow-succ', one-le-pow, add_comm, mod-lt, mod-eq_of_lt, mul-add-mod_self_right,
  add-mul-div_right, div-eq_of_lt, div-add-mod', div-div-eq-div-mul,
}
use native.Mathlib.Omega.{arith}
use ych.Prelude.Bits.{and_step, or_step}

and-zero_below : (n x : ℕ) → x ≤ n → bit_and x 0 ≡ 0
and-zero_below zero zero h = refl
and-zero_below zero (suc x) h = absurd (omega arith)
and-zero_below (suc n) zero h = refl
and-zero_below (suc n) (suc x) h =
    omega (arith, and_step (suc x) 0, and-zero_below n (suc x / 2) (omega arith))

pub and-zero : (x : ℕ) → bit_and x 0 ≡ 0
and-zero x = and-zero_below x x (omega arith)

or-zero_below : (n x : ℕ) → x ≤ n → bit_or x 0 ≡ x
or-zero_below zero zero h = refl
or-zero_below zero (suc x) h = absurd (omega arith)
or-zero_below (suc n) zero h = refl
or-zero_below (suc n) (suc x) h =
    omega (arith, or_step (suc x) 0, or-zero_below n (suc x / 2) (omega arith))

pub or-zero : (x : ℕ) → bit_or x 0 ≡ x
or-zero x = or-zero_below x x (omega arith)

pow-half : (k : ℕ) → (2 ^ suc k - 1) / 2 ≡ 2 ^ k - 1
pow-half k = omega (arith, pow-suc 2 k, one-le-pow k 2 (omega arith))

-- The quotient and the remainder are determined by their equation.
pub mod_unique : (n q m r : ℕ) → n ≡ q * m + r → r < m → n % m ≡ r
mod_unique n q m r e h = rw (e, mul-add-mod_self_right) (mod-eq_of_lt h)

pub div_unique : (n q m r : ℕ) → n ≡ q * m + r → r < m → n / m ≡ q
div_unique n q m r e h =
    let pos : 0 < m = omega arith in
    rw (e, add_comm (q * m) r, add-mul-div_right r q pos) (omega (arith, div-eq_of_lt h))

pub mod_digit : (k x : ℕ) → x / 2 % 2 ^ k * 2 + x % 2 ≡ x % 2 ^ suc k
mod_digit k x =
    let r = x / 2 % 2 ^ k in
    let q = x / 2 / 2 ^ k in
    let half : x / 2 ≡ q * 2 ^ k + r = sym (div-add-mod' (x / 2) (2 ^ k)) in
    let low : r < 2 ^ k = mod-lt (x / 2) (one-le-pow k 2 (omega arith)) in
    let two : 2 ^ suc k ≡ 2 ^ k * 2 = pow-suc 2 k in
    let e : q * 2 ^ suc k ≡ q * 2 ^ k * 2 = omega (arith, ap (λ (t : ℕ). q * t) two) in
    sym (mod_unique x q (2 ^ suc k) (r * 2 + x % 2) (omega arith) (omega arith))

-- A mask of the `k` low bits is the remainder by `2 ^ k`.
pub and_low : (k x : ℕ) → bit_and x (2 ^ k - 1) ≡ x % 2 ^ k
and_low zero x = omega (arith, and-zero x)
and_low (suc k) x =
    rw (and_step x (2 ^ suc k - 1), pow-half k, and_low k (x / 2))
      (omega (arith, mod_digit k x, pow-suc 2 k, one-le-pow k 2 (omega arith)))

shift_digit : (m k : ℕ) → m * 2 ^ suc k ≡ m * 2 ^ k * 2
shift_digit m k = omega (arith, ap (λ (t : ℕ). m * t) (pow-suc 2 k))

div_digit : (k x : ℕ) → x / 2 / 2 ^ k ≡ x / 2 ^ suc k
div_digit k x = rw (div-div-eq-div-mul, pow-succ' 2 k)

-- A mask of `j` bits above the `k` lowest.
pub and_high : (j k x : ℕ) → bit_and x ((2 ^ j - 1) * 2 ^ k) ≡ x / 2 ^ k % 2 ^ j * 2 ^ k
and_high j zero x = ground (arith, and_low j x)
and_high j (suc k) x = ground (
  arith,
  and_step x ((2 ^ j - 1) * 2 ^ suc k),
  shift_digit (2 ^ j - 1) k,
  shift_digit (x / 2 ^ suc k % 2 ^ j) k,
  and_high j k (x / 2),
  div_digit k x,
)

-- `|` of a multiple of `2 ^ k` and a number below it is their sum.
pub or_fields : (k q r : ℕ) → r < 2 ^ k → bit_or (q * 2 ^ k) r ≡ q * 2 ^ k + r
or_fields zero q r h = ground (arith, or-zero q)
or_fields (suc k) q r h = ground (
  arith,
  or_step (q * 2 ^ suc k) r,
  shift_digit q k,
  or_fields k q (r / 2) (omega (arith, pow-suc 2 k)),
)

-- `2 ^ k` divides out what the mask leaves.
pub pow_pos : (k : ℕ) → 0 < 2 ^ k
pow_pos k = one-le-pow k 2 (omega arith)

pub two_pow_add : (j k : ℕ) → 2 ^ (j + k) ≡ 2 ^ j * 2 ^ k
two_pow_add zero k = let e : 0 + k ≡ k = omega arith in rw e (omega arith)
two_pow_add (suc j) k =
    let e : suc j + k ≡ suc (j + k) = omega arith in
    rw (e, pow-suc 2 (j + k), pow-suc 2 j, two_pow_add j k) (omega arith)

pub pow_lt : (i w : ℕ) → i < w → 2 ^ i < 2 ^ w
pow_lt i zero h = absurd (omega arith)
pow_lt zero (suc w) h = omega (arith, pow-suc 2 w, pow_pos w)
pow_lt (suc i) (suc w) h = omega (arith, pow-suc 2 i, pow-suc 2 w, pow_lt i w (omega arith))
