-- ===== src/Krtl/Text/Digits.antt =====
-- The digits of a radix of at most 36, by their names, against `KrtlDigitChar` of
-- Kernel/Source/KRTL/Krnlstring.c.
use ych.Prelude.{
  ℕ, zero, suc, ◌<◌, ◌≡◌, ◌≤◌, ◌%◌, refl, Bool, true, false, ◌==◌, List, [], ◌∷◌, ◌++◌, beq→eq,
  arith,
}
use native.Mathlib.Nat.{mod-lt}
use ych.Prelude.Range.{all_below, all_below_sound}
use ych.Krtl.Text.{digit_char}

-- "0123456789"
abbrev numerals : List ℕ
numerals = 48 ∷ 49 ∷ 50 ∷ 51 ∷ 52 ∷ 53 ∷ 54 ∷ 55 ∷ 56 ∷ 57 ∷ []

-- "abcdefghijklmnopqrstuvwxyz"
abbrev small_letters : List ℕ
small_letters =
    97 ∷ 98 ∷ 99 ∷ 100 ∷ 101 ∷ 102 ∷ 103 ∷ 104 ∷ 105 ∷ 106 ∷ 107 ∷ 108 ∷ 109 ∷ 110 ∷ 111 ∷ 112 ∷ 113
    ∷ 114 ∷ 115 ∷ 116 ∷ 117 ∷ 118 ∷ 119 ∷ 120 ∷ 121 ∷ 122 ∷ []

-- "ABCDEFGHIJKLMNOPQRSTUVWXYZ"
abbrev capital_letters : List ℕ
capital_letters =
    65 ∷ 66 ∷ 67 ∷ 68 ∷ 69 ∷ 70 ∷ 71 ∷ 72 ∷ 73 ∷ 74 ∷ 75 ∷ 76 ∷ 77 ∷ 78 ∷ 79 ∷ 80 ∷ 81 ∷ 82 ∷ 83
    ∷ 84 ∷ 85 ∷ 86 ∷ 87 ∷ 88 ∷ 89 ∷ 90 ∷ []

abbrev pub name_at : List ℕ → ℕ → ℕ
name_at [] i = 0
name_at (c ∷ cs) zero = c
name_at (c ∷ cs) (suc i) = name_at cs i

-- The names of the digits, in their order.
abbrev pub digit_names : Bool → List ℕ
digit_names true = numerals ++ capital_letters
digit_names false = numerals ++ small_letters

all_named :
    (uppercase : Bool)
    → all_below 36 (λ d. digit_char d uppercase == name_at (digit_names uppercase) d) ≡ true
unfolding all_below digit_char
all_named true = refl
all_named false = refl

pub digit_char-name_at :
    (d : ℕ) (uppercase : Bool) → d < 36 → digit_char d uppercase ≡ name_at (digit_names uppercase) d
digit_char-name_at d uppercase h =
    beq→eq (digit_char d uppercase) (name_at (digit_names uppercase) d) (
      all_below_sound 36 (λ d. digit_char d uppercase == name_at (digit_names uppercase) d) d
        (all_named uppercase) h)

-- A remainder by such a radix is a digit.
pub digit_char-mod :
    (x radix : ℕ) (uppercase : Bool)
    → 1 < radix
    → radix ≤ 36
    → digit_char (x % radix) uppercase ≡ name_at (digit_names uppercase) (x % radix)
digit_char-mod x radix uppercase base top =
    let small : x % radix < radix = mod-lt x (omega arith) in
    digit_char-name_at (x % radix) uppercase (omega arith)
