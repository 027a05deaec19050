-- ===== src/Prelude/Range.antt =====
-- Checks of every number below a bound, by evaluation.
use Prim.Native.Nat.{ℕ, zero, suc, ◌<◌}
use mathlib.Core.Path.{◌≡◌, refl}
use mathlib.Core.Bool.{Bool, true, false, ◌&&◌}
use native.Mathlib.Omega.{arith}

unfoldable pub all_below : ℕ → (ℕ → Bool) → Bool
all_below zero test = true
all_below (suc n) test = test n && all_below n test

pub all_below_sound :
    (n : ℕ) (test : ℕ → Bool) (x : ℕ) → all_below n test ≡ true → x < n → test x ≡ true
unfolding all_below
all_below_sound zero test x all h = absurd (omega arith)
all_below_sound (suc n) test x all h = ground (arith, all_below_sound n test x)

abbrev pub Bool_eq : Bool → Bool → Bool
Bool_eq true b = b
Bool_eq false true = false
Bool_eq false false = true

pub Bool_eq_sound : (a b : Bool) → Bool_eq a b ≡ true → a ≡ b
Bool_eq_sound true true h = refl
Bool_eq_sound true false h = cc
Bool_eq_sound false true h = cc
Bool_eq_sound false false h = refl
