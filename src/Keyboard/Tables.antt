-- ===== src/Keyboard/Tables.antt =====
-- The translation between scancodes and key codes, PS2Scancodes.h. A key code is a number, 0 is
-- `KC_INVALID`.
pub mod RoundTrip
use ych.Prelude.{
  ℕ, zero, suc, Bool, true, false, Option, none, some, List, [], ◌∷◌, ltb, ◌==◌, if◌then◌else◌,
}

-- `StandardScancodeToKeycodeMap`, eight scancodes a row
abbrev pub standard_map : List ℕ
standard_map =
    0x00 ∷ 0xF9 ∷ 0x00 ∷ 0xF5 ∷ 0xF3 ∷ 0xF1 ∷ 0xF2 ∷ 0xFC ∷ 0x00 ∷ 0xFA ∷ 0xF8 ∷ 0xF6 ∷ 0xF4 ∷ 0x09
    ∷ 0x60 ∷ 0x00 ∷ 0x00 ∷ 0x84 ∷ 0x80 ∷ 0x00 ∷ 0x82 ∷ 0x51 ∷ 0x31 ∷ 0x00 ∷ 0x00 ∷ 0x00 ∷ 0x5A
    ∷ 0x53 ∷ 0x41 ∷ 0x57 ∷ 0x32 ∷ 0x00 ∷ 0x00 ∷ 0x43 ∷ 0x58 ∷ 0x44 ∷ 0x45 ∷ 0x34 ∷ 0x33 ∷ 0x00
    ∷ 0x00 ∷ 0x20 ∷ 0x56 ∷ 0x46 ∷ 0x54 ∷ 0x52 ∷ 0x35 ∷ 0x00 ∷ 0x00 ∷ 0x4E ∷ 0x42 ∷ 0x48 ∷ 0x47
    ∷ 0x59 ∷ 0x36 ∷ 0x00 ∷ 0x00 ∷ 0x00 ∷ 0x4D ∷ 0x4A ∷ 0x55 ∷ 0x37 ∷ 0x38 ∷ 0x00 ∷ 0x00 ∷ 0x2C
    ∷ 0x4B ∷ 0x49 ∷ 0x4F ∷ 0x30 ∷ 0x39 ∷ 0x00 ∷ 0x00 ∷ 0x2E ∷ 0x2F ∷ 0x4C ∷ 0x3B ∷ 0x50 ∷ 0x2D
    ∷ 0x00 ∷ 0x00 ∷ 0x00 ∷ 0x27 ∷ 0x00 ∷ 0x5B ∷ 0x3D ∷ 0x00 ∷ 0x00 ∷ 0x14 ∷ 0x81 ∷ 0x0A ∷ 0x5D
    ∷ 0x00 ∷ 0x5C ∷ 0x00 ∷ 0x00 ∷ 0x00 ∷ 0x00 ∷ 0x00 ∷ 0x00 ∷ 0x00 ∷ 0x00 ∷ 0x08 ∷ 0x00 ∷ 0x00
    ∷ 0x71 ∷ 0x00 ∷ 0x74 ∷ 0x77 ∷ 0x00 ∷ 0x00 ∷ 0x00 ∷ 0x70 ∷ 0x7E ∷ 0x72 ∷ 0x75 ∷ 0x76 ∷ 0x78
    ∷ 0x1B ∷ 0x90 ∷ 0xFB ∷ 0x7C ∷ 0x73 ∷ 0x7D ∷ 0x7B ∷ 0x79 ∷ 0x91 ∷ 0x00 ∷ 0x00 ∷ 0x00 ∷ 0x00
    ∷ 0xF7 ∷ []

-- `ExtendedScancodeToKeycodeMap`
abbrev pub extended_map : List ℕ
extended_map =
    0x00 ∷ 0x00 ∷ 0x00 ∷ 0x00 ∷ 0x00 ∷ 0x00 ∷ 0x00 ∷ 0x00 ∷ 0x00 ∷ 0x00 ∷ 0x00 ∷ 0x00 ∷ 0x00 ∷ 0x00
    ∷ 0x00 ∷ 0x00 ∷ 0x00 ∷ 0x85 ∷ 0x00 ∷ 0x00 ∷ 0x83 ∷ 0x00 ∷ 0x00 ∷ 0x00 ∷ 0x00 ∷ 0x00 ∷ 0x00
    ∷ 0x00 ∷ 0x00 ∷ 0x00 ∷ 0x00 ∷ 0x86 ∷ 0x00 ∷ 0xB1 ∷ 0x00 ∷ 0xB0 ∷ 0x00 ∷ 0x00 ∷ 0x00 ∷ 0x87
    ∷ 0x00 ∷ 0x00 ∷ 0x00 ∷ 0x00 ∷ 0x00 ∷ 0x00 ∷ 0x00 ∷ 0x88 ∷ 0x00 ∷ 0x00 ∷ 0xB2 ∷ 0x00 ∷ 0x00
    ∷ 0x00 ∷ 0x00 ∷ 0x00 ∷ 0x00 ∷ 0x00 ∷ 0x00 ∷ 0x00 ∷ 0x00 ∷ 0x00 ∷ 0x00 ∷ 0x00 ∷ 0x00 ∷ 0x00
    ∷ 0x00 ∷ 0x00 ∷ 0x00 ∷ 0x00 ∷ 0x00 ∷ 0x00 ∷ 0x00 ∷ 0x00 ∷ 0x7F ∷ 0x00 ∷ 0x00 ∷ 0x00 ∷ 0x00
    ∷ 0x00 ∷ 0x00 ∷ 0x00 ∷ 0x00 ∷ 0x00 ∷ 0x00 ∷ 0x00 ∷ 0x00 ∷ 0x00 ∷ 0x00 ∷ 0x00 ∷ 0x7A ∷ 0x00
    ∷ 0x00 ∷ 0x00 ∷ 0x00 ∷ 0x00 ∷ 0x00 ∷ 0x00 ∷ 0x00 ∷ 0x00 ∷ 0x00 ∷ 0x00 ∷ 0x00 ∷ 0x00 ∷ 0x00
    ∷ 0x94 ∷ 0x00 ∷ 0xA1 ∷ 0x93 ∷ 0x00 ∷ 0x00 ∷ 0x00 ∷ 0x97 ∷ 0x9A ∷ 0xA8 ∷ 0x00 ∷ 0xA2 ∷ 0xA4
    ∷ 0x00 ∷ 0x00 ∷ 0x00 ∷ 0x00 ∷ 0x99 ∷ 0x00 ∷ 0x00 ∷ 0x98 ∷ []

-- The cases of `PS2_KeycodeToScancode`: key code, scancode, and whether it has the prefix.
abbrev pub keycode_cases : List (ℕ × (ℕ × Bool))
keycode_cases =
    (0x08, (0x66, false))
    ∷ (0x09, (0x0D, false))
    ∷ (0x0A, (0x5A, false))
    ∷ (0x14, (0x58, false))
    ∷ (0x1B, (0x76, false))
    ∷ (0x20, (0x29, false))
    ∷ (0x27, (0x52, false))
    ∷ (0x2C, (0x41, false))
    ∷ (0x2D, (0x4E, false))
    ∷ (0x2E, (0x49, false))
    ∷ (0x2F, (0x4A, false))
    ∷ (0x30, (0x45, false))
    ∷ (0x31, (0x16, false))
    ∷ (0x32, (0x1E, false))
    ∷ (0x33, (0x26, false))
    ∷ (0x34, (0x25, false))
    ∷ (0x35, (0x2E, false))
    ∷ (0x36, (0x36, false))
    ∷ (0x37, (0x3D, false))
    ∷ (0x38, (0x3E, false))
    ∷ (0x39, (0x46, false))
    ∷ (0x3B, (0x4C, false))
    ∷ (0x3D, (0x55, false))
    ∷ (0x41, (0x1C, false))
    ∷ (0x42, (0x32, false))
    ∷ (0x43, (0x21, false))
    ∷ (0x44, (0x23, false))
    ∷ (0x45, (0x24, false))
    ∷ (0x46, (0x2B, false))
    ∷ (0x47, (0x34, false))
    ∷ (0x48, (0x33, false))
    ∷ (0x49, (0x43, false))
    ∷ (0x4A, (0x3B, false))
    ∷ (0x4B, (0x42, false))
    ∷ (0x4C, (0x4B, false))
    ∷ (0x4D, (0x3A, false))
    ∷ (0x4E, (0x31, false))
    ∷ (0x4F, (0x44, false))
    ∷ (0x50, (0x4D, false))
    ∷ (0x51, (0x15, false))
    ∷ (0x52, (0x2D, false))
    ∷ (0x53, (0x1B, false))
    ∷ (0x54, (0x2C, false))
    ∷ (0x55, (0x3C, false))
    ∷ (0x56, (0x2A, false))
    ∷ (0x57, (0x1D, false))
    ∷ (0x58, (0x22, false))
    ∷ (0x59, (0x35, false))
    ∷ (0x5A, (0x1A, false))
    ∷ (0x5B, (0x54, false))
    ∷ (0x5C, (0x5D, false))
    ∷ (0x5D, (0x5B, false))
    ∷ (0x60, (0x0E, false))
    ∷ (0x70, (0x70, false))
    ∷ (0x71, (0x69, false))
    ∷ (0x72, (0x72, false))
    ∷ (0x73, (0x7A, false))
    ∷ (0x74, (0x6B, false))
    ∷ (0x75, (0x73, false))
    ∷ (0x76, (0x74, false))
    ∷ (0x77, (0x6C, false))
    ∷ (0x78, (0x75, false))
    ∷ (0x79, (0x7D, false))
    ∷ (0x7A, (0x5A, true))
    ∷ (0x7B, (0x7C, false))
    ∷ (0x7C, (0x79, false))
    ∷ (0x7D, (0x7B, false))
    ∷ (0x7E, (0x71, false))
    ∷ (0x7F, (0x4A, true))
    ∷ (0x80, (0x12, false))
    ∷ (0x81, (0x59, false))
    ∷ (0x82, (0x14, false))
    ∷ (0x83, (0x14, true))
    ∷ (0x84, (0x11, false))
    ∷ (0x85, (0x11, true))
    ∷ (0x86, (0x1F, true))
    ∷ (0x87, (0x27, true))
    ∷ (0x88, (0x2F, true))
    ∷ (0x90, (0x77, false))
    ∷ (0x91, (0x7E, false))
    ∷ (0x93, (0x6C, true))
    ∷ (0x94, (0x69, true))
    ∷ (0x95, (0xF7, false))
    ∷ (0x96, (0xF8, false))
    ∷ (0x97, (0x70, true))
    ∷ (0x98, (0x7D, true))
    ∷ (0x99, (0x7A, true))
    ∷ (0x9A, (0x71, true))
    ∷ (0xA1, (0x6B, true))
    ∷ (0xA2, (0x74, true))
    ∷ (0xA4, (0x75, true))
    ∷ (0xA8, (0x72, true))
    ∷ (0xB0, (0x23, true))
    ∷ (0xB1, (0x21, true))
    ∷ (0xB2, (0x32, true))
    ∷ (0xF1, (0x05, false))
    ∷ (0xF2, (0x06, false))
    ∷ (0xF3, (0x04, false))
    ∷ (0xF4, (0x0C, false))
    ∷ (0xF5, (0x03, false))
    ∷ (0xF6, (0x0B, false))
    ∷ (0xF7, (0x83, false))
    ∷ (0xF8, (0x0A, false))
    ∷ (0xF9, (0x01, false))
    ∷ (0xFA, (0x09, false))
    ∷ (0xFB, (0x78, false))
    ∷ (0xFC, (0x07, false))
    ∷ []

lookup_case : ℕ → List (ℕ × (ℕ × Bool)) → Option (ℕ × Bool)
lookup_case k [] = none
lookup_case k ((j, v) ∷ cases) = if j == k then some v else lookup_case k cases

-- `none` is the default of the switch, which returns `KC_INVALID` and sets no flag.
unfoldable pub keycode_to_scancode : ℕ → Option (ℕ × Bool)
unfolding lookup_case
keycode_to_scancode k = lookup_case k keycode_cases

-- An index behind the end of the array is `none`, a read outside it.
entry : List ℕ → ℕ → Option ℕ
entry [] i = none
entry (k ∷ ks) zero = some k
entry (k ∷ ks) (suc i) = entry ks i

-- The guard compares the scancode with the size of the array in bytes, four to an entry: 528 and
-- 504 bytes for 132 and 126 entries.
unfoldable pub scancode_to_keycode : Bool → ℕ → Option ℕ
unfolding entry
scancode_to_keycode extend scancode =
    if extend
    then (if ltb 504 scancode then some 0 else entry extended_map scancode)
    else (if ltb 528 scancode then some 0 else entry standard_map scancode)
