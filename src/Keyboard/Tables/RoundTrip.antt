-- ===== src/Keyboard/Tables/RoundTrip.antt =====
-- The two directions of the translation against each other, checked over all bytes.
use ych.Prelude.{
  ℕ, ◌<◌, ◌≡◌, ◌≢◌, refl, Bool, true, false, ◌||◌, ◌&&◌, ltb, Option, none, some, arith, is_some,
  ◌==◌, if◌then◌else◌,
}
use ych.Prelude.Range.{all_below, all_below_sound, Bool_eq, Bool_eq_sound}
use ych.Keyboard.Tables.{keycode_to_scancode, scancode_to_keycode}

-- From a key code to its scancode and back.
comes_back : ℕ → Option (ℕ × Bool) → Bool
comes_back k none = true
comes_back k (some (sc, ext)) =
    k == 0x95 || (k == 0x96 || elim (scancode_to_keycode ext sc) [ none ↦ false | some j ↦ j == k ])

comes_back_table : all_below 256 (λ k. comes_back k (keycode_to_scancode k)) ≡ true
unfolding all_below comes_back keycode_to_scancode scancode_to_keycode
comes_back_table = refl

-- The scancode of every key code below 256 but "print screen" and "pause" is translated back to it.
pub scancode_to_keycode-keycode_to_scancode :
    (k sc : ℕ) (ext : Bool)
    → k < 256
    → k ≢ 0x95
    → k ≢ 0x96
    → keycode_to_scancode k ≡ some (sc, ext)
    → scancode_to_keycode ext sc ≡ some k
unfolding comes_back
scancode_to_keycode-keycode_to_scancode k sc ext h print pause e =
    let t =
      rw e at
        (all_below_sound 256 (λ k. comes_back k (keycode_to_scancode k)) k comes_back_table h) in
    ground (arith, t)

-- From a scancode to its key code and back.
goes_back : Bool → ℕ → Option ℕ → Bool
goes_back ext sc none = true
goes_back ext sc (some k) = k == 0 || elim (keycode_to_scancode k) [
  | none ↦ false
  | some (sc', ext') ↦ sc' == sc && Bool_eq ext' ext
]

goes_back_table :
    all_below 256 (λ sc.
      goes_back true sc (scancode_to_keycode true sc)
      && goes_back false sc (scancode_to_keycode false sc))
    ≡ true
unfolding all_below goes_back keycode_to_scancode scancode_to_keycode
goes_back_table = refl

-- The key code of every scancode below 256 that stands for a key is translated back to it.
pub keycode_to_scancode-scancode_to_keycode :
    (sc k : ℕ) (ext : Bool)
    → sc < 256
    → k ≢ 0
    → scancode_to_keycode ext sc ≡ some k
    → keycode_to_scancode k ≡ some (sc, ext)
unfolding goes_back
keycode_to_scancode-scancode_to_keycode sc k true h key e =
    let t = rw e at (
      all_below_sound 256
        (λ sc.
          goes_back true sc (scancode_to_keycode true sc)
          && goes_back false sc (scancode_to_keycode false sc))
        sc goes_back_table h) in
    ground (arith, t)
keycode_to_scancode-scancode_to_keycode sc k false h key e =
    let t = rw e at (
      all_below_sound 256
        (λ sc.
          goes_back true sc (scancode_to_keycode true sc)
          && goes_back false sc (scancode_to_keycode false sc))
        sc goes_back_table h) in
    ground (arith, t)

bounds_table :
    all_below 256 (λ sc.
      Bool_eq (is_some (scancode_to_keycode true sc)) (ltb sc 126)
      && Bool_eq (is_some (scancode_to_keycode false sc)) (ltb sc 132))
    ≡ true
unfolding all_below scancode_to_keycode
bounds_table = refl

-- For every byte, the read of the table stays inside the array exactly for the scancodes below
-- the number of its entries, and every other byte is read outside it.
pub scancode_to_keycode-inside :
    (sc : ℕ) (ext : Bool)
    → sc < 256
    → is_some (scancode_to_keycode ext sc) ≡ ltb sc (if ext then 126 else 132)
scancode_to_keycode-inside sc true h =
    let t =
      all_below_sound 256
        (λ sc.
          Bool_eq (is_some (scancode_to_keycode true sc)) (ltb sc 126)
          && Bool_eq (is_some (scancode_to_keycode false sc)) (ltb sc 132))
        sc bounds_table h in
    Bool_eq_sound _ _ (ground (arith, t))
scancode_to_keycode-inside sc false h =
    let t =
      all_below_sound 256
        (λ sc.
          Bool_eq (is_some (scancode_to_keycode true sc)) (ltb sc 126)
          && Bool_eq (is_some (scancode_to_keycode false sc)) (ltb sc 132))
        sc bounds_table h in
    Bool_eq_sound _ _ (ground (arith, t))
