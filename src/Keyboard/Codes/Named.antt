-- ===== src/Keyboard/Codes/Named.antt =====
-- The translation of scancodes against the names that the two headers give to both sides.
use Prim.Native.String.{String, compare}
use Prim.Native.Nat.{Ordering}
use ych.Prelude.{
  ℕ, ◌<◌, ◌≡◌, refl, ap, sym, ◌∙◌, Bool, true, false, ◌&&◌, ◌==◌, if◌then◌else◌, Option, none, some,
  List, [], ◌∷◌, arith,
}
use ych.Prelude.Range.{all_below, all_below_sound}
use ych.Keyboard.Codes.{keycodes, standard_scancodes, extended_scancodes}
use ych.Keyboard.Tables.{scancode_to_keycode}

same_name : String → String → Bool
same_name s t = elim (compare s t) [
  | Ordering.lt ↦ false
  | Ordering.eq ↦ true
  | Ordering.gt ↦ false
]

-- The first name of a code, and the code of a name.
unfoldable pub name_in : ℕ → List (String × ℕ) → Option String
name_in code [] = none
name_in code ((name, c) ∷ rest) = if c == code then some name else name_in code rest

unfoldable pub code_in : String → List (String × ℕ) → Option ℕ
unfolding same_name
code_in name [] = none
code_in name ((n, code) ∷ rest) = if same_name n name then some code else code_in name rest

abbrev pub scancodes : Bool → List (String × ℕ)
scancodes true = extended_scancodes
scancodes false = standard_scancodes

agree : Option ℕ → Option ℕ → Bool
agree none o = true
agree (some k) none = false
agree (some k) (some j) = k == j

agrees_named : Bool → ℕ → Option String → Bool
agrees_named ext sc none = true
agrees_named ext sc (some name) = agree (code_in name keycodes) (scancode_to_keycode ext sc)

agrees : Bool → ℕ → Bool
agrees ext sc = agrees_named ext sc (name_in sc (scancodes ext))

agrees_table : all_below 256 (λ sc. agrees true sc && agrees false sc) ≡ true
unfolding all_below agrees agrees_named agree same_name name_in code_in scancode_to_keycode
agrees_table = refl

agree_sound : (k : ℕ) (o : Option ℕ) → agree (some k) o ≡ true → o ≡ some k
unfolding agree
agree_sound k none h = cc
agree_sound k (some j) h = ground (arith, h)

agrees_sound :
    (ext : Bool) (sc k : ℕ) (name : String)
    → agrees ext sc ≡ true
    → name_in sc (scancodes ext) ≡ some name
    → code_in name keycodes ≡ some k
    → scancode_to_keycode ext sc ≡ some k
unfolding agrees agrees_named
agrees_sound ext sc k name h n c =
    let named : agrees_named ext sc (some name) ≡ true = ap (agrees_named ext sc) (sym n) ∙ h in
    let table : agree (some k) (scancode_to_keycode ext sc) ≡ true =
      ap (λ o. agree o (scancode_to_keycode ext sc)) (sym c) ∙ named in
    agree_sound k (scancode_to_keycode ext sc) table

-- A scancode below 256 that the header gives the name of a key code is translated to that key
-- code.
pub scancode_to_keycode-named :
    (ext : Bool) (sc k : ℕ) (name : String)
    → sc < 256
    → name_in sc (scancodes ext) ≡ some name
    → code_in name keycodes ≡ some k
    → scancode_to_keycode ext sc ≡ some k
scancode_to_keycode-named true sc k name h n c =
    let t = all_below_sound 256 (λ sc. agrees true sc && agrees false sc) sc agrees_table h in
    agrees_sound true sc k name (ground (arith, t)) n c
scancode_to_keycode-named false sc k name h n c =
    let t = all_below_sound 256 (λ sc. agrees true sc && agrees false sc) sc agrees_table h in
    agrees_sound false sc k name (ground (arith, t)) n c
