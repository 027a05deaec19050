-- ===== src/Prelude/Bits.antt =====
-- `&` and `|` digit by digit: each operation halves both arguments and combines the lowest
-- digits. The library states this with fuel, which is dropped here.
use Prim.Native.Nat.{
  ℕ, zero, suc, ◌+◌, ◌*◌, ◌/◌, ◌%◌, ◌≤◌, min, max, bit_and, bit_or, digits, bit_and-bitwise,
  bit_or-bitwise,
}
use mathlib.Core.Path.{◌≡◌, refl, ap₂}
use native.Mathlib.Omega.{arith}

-- Any two amounts of fuel that cover the first argument give one result.
enough_digits :
    (e : ℕ → ℕ) (op : ℕ → ℕ → ℕ) (j k x y : ℕ)
    → x ≤ j
    → x ≤ k
    → digits e op j x y ≡ digits e op k x y
enough_digits e op zero k (suc x) y hj hk = absurd (omega arith)
enough_digits e op (suc j) zero (suc x) y hj hk = absurd (omega arith)
enough_digits e op (suc j) (suc k) (suc x) y hj hk =
    ap₂ (λ (t u : ℕ). t * 2 + u)
      (enough_digits e op j k (suc x / 2) (y / 2) (omega arith) (omega arith)) refl
enough_digits e op zero zero zero y hj hk = refl
enough_digits e op zero (suc k) zero y hj hk = refl
enough_digits e op (suc j) zero zero y hj hk = refl
enough_digits e op (suc j) (suc k) zero y hj hk = refl

pub and_step : (x y : ℕ) → bit_and x y ≡ bit_and (x / 2) (y / 2) * 2 + min (x % 2) (y % 2)
and_step zero y = omega (arith, bit_and-bitwise 0 y, bit_and-bitwise 0 (y / 2))
and_step (suc x) y = omega (
  arith,
  bit_and-bitwise (suc x) y,
  bit_and-bitwise (suc x / 2) (y / 2),
  enough_digits (λ t. 0) min x (suc x / 2) (suc x / 2) (y / 2) (omega arith) (omega arith),
)

pub or_step : (x y : ℕ) → bit_or x y ≡ bit_or (x / 2) (y / 2) * 2 + max (x % 2) (y % 2)
or_step zero y = omega (arith, bit_or-bitwise 0 y, bit_or-bitwise 0 (y / 2))
or_step (suc x) y = omega (
  arith,
  bit_or-bitwise (suc x) y,
  bit_or-bitwise (suc x / 2) (y / 2),
  enough_digits (λ t. t) max x (suc x / 2) (suc x / 2) (y / 2) (omega arith) (omega arith),
)

pub zero-and : (y : ℕ) → bit_and 0 y ≡ 0
zero-and y = omega (arith, bit_and-bitwise 0 y)

pub zero-or : (y : ℕ) → bit_or 0 y ≡ y
zero-or y = omega (arith, bit_or-bitwise 0 y)

pub or-half : (x y : ℕ) → bit_or x y / 2 ≡ bit_or (x / 2) (y / 2)
or-half x y = omega (arith, or_step x y)

pub or-low : (x y : ℕ) → bit_or x y % 2 ≡ max (x % 2) (y % 2)
or-low x y = omega (arith, or_step x y)

pub and-half : (x y : ℕ) → bit_and x y / 2 ≡ bit_and (x / 2) (y / 2)
and-half x y = omega (arith, and_step x y)

pub and-low : (x y : ℕ) → bit_and x y % 2 ≡ min (x % 2) (y % 2)
and-low x y = omega (arith, and_step x y)

-- `n` bounds both arguments of `|`, so the recursion on it is structural.
and-or_below :
    (n x y m : ℕ) → x ≤ n → y ≤ n → bit_and (bit_or x y) m ≡ bit_or (bit_and x m) (bit_and y m)
and-or_below zero zero zero m hx hy = rw (zero-or, zero-and, zero-or)
and-or_below zero zero (suc y) m hx hy = absurd (omega arith)
and-or_below zero (suc x) y m hx hy = absurd (omega arith)
and-or_below (suc n) x y m hx hy = ground (
  arith,
  and_step (bit_or x y) m,
  or_step (bit_and x m) (bit_and y m),
  or-half x y,
  or-low x y,
  and-half x m,
  and-half y m,
  and-low x m,
  and-low y m,
  and-or_below n (x / 2) (y / 2) (m / 2) (omega arith) (omega arith),
)

-- A mask distributes over `|`.
pub and-or : (x y m : ℕ) → bit_and (bit_or x y) m ≡ bit_or (bit_and x m) (bit_and y m)
and-or x y m = and-or_below (x + y) x y m (omega arith) (omega arith)
