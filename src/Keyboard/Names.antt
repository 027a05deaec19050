-- ===== src/Keyboard/Names.antt =====
-- `KeyStateToString` and `KeycodeToString`, Kernel/Source/HumanInterface/Keycodes.c.
use Prim.Native.String.{String}
use ych.Prelude.{
  ℕ, Bool, true, Option, none, some, List, [], ◌∷◌, ◌==◌, ◌≡◌, ◌<◌, ◌||◌, not, refl, if◌then◌else◌,
  is_some,
}
use ych.Keyboard.Tables.{keycode_to_scancode}
use ych.Prelude.Range.{all_below, all_below_sound, Bool_eq, Bool_eq_sound}

unfoldable pub key_state_to_string : ℕ → String
key_state_to_string state =
    if state == 0 then "Released" else (if state == 1 then "Pressed" else "INVALID")

-- The cases of the switch: each key code and the text of its name.
abbrev pub name_cases : List (ℕ × String)
name_cases =
    (0x08, "BACKSPACE")
    ∷ (0x09, "TAB")
    ∷ (0x0A, "ENTER")
    ∷ (0x14, "CAPS_LOCK")
    ∷ (0x1B, "ESCAPE")
    ∷ (0x20, "SPACE")
    ∷ (0x27, "APOSTROPHE")
    ∷ (0x2C, "COMMA")
    ∷ (0x2D, "MINUS")
    ∷ (0x2E, "PERIOD")
    ∷ (0x2F, "SLASH")
    ∷ (0x30, "0")
    ∷ (0x31, "1")
    ∷ (0x32, "2")
    ∷ (0x33, "3")
    ∷ (0x34, "4")
    ∷ (0x35, "5")
    ∷ (0x36, "6")
    ∷ (0x37, "7")
    ∷ (0x38, "8")
    ∷ (0x39, "9")
    ∷ (0x3B, "SEMICOLON")
    ∷ (0x3D, "EQUAL")
    ∷ (0x41, "A")
    ∷ (0x42, "B")
    ∷ (0x43, "C")
    ∷ (0x44, "D")
    ∷ (0x45, "E")
    ∷ (0x46, "F")
    ∷ (0x47, "G")
    ∷ (0x48, "H")
    ∷ (0x49, "I")
    ∷ (0x4A, "J")
    ∷ (0x4B, "K")
    ∷ (0x4C, "L")
    ∷ (0x4D, "M")
    ∷ (0x4E, "N")
    ∷ (0x4F, "O")
    ∷ (0x50, "P")
    ∷ (0x51, "Q")
    ∷ (0x52, "R")
    ∷ (0x53, "S")
    ∷ (0x54, "T")
    ∷ (0x55, "U")
    ∷ (0x56, "V")
    ∷ (0x57, "W")
    ∷ (0x58, "X")
    ∷ (0x59, "Y")
    ∷ (0x5A, "Z")
    ∷ (0x5B, "LBRACKET")
    ∷ (0x5C, "BACKSLASH")
    ∷ (0x5D, "RBRACKET")
    ∷ (0x60, "BACKTICK")
    ∷ (0x70, "KP_0")
    ∷ (0x71, "KP_1")
    ∷ (0x72, "KP_2")
    ∷ (0x73, "KP_3")
    ∷ (0x74, "KP_4")
    ∷ (0x75, "KP_5")
    ∷ (0x76, "KP_6")
    ∷ (0x77, "KP_7")
    ∷ (0x78, "KP_8")
    ∷ (0x79, "KP_9")
    ∷ (0x7A, "KP_ENTER")
    ∷ (0x7B, "KP_ASTERISK")
    ∷ (0x7C, "KP_PLUS")
    ∷ (0x7D, "KP_MINUS")
    ∷ (0x7E, "KP_PERIOD")
    ∷ (0x7F, "KP_SLASH")
    ∷ (0x80, "LSHIFT")
    ∷ (0x81, "RSHIFT")
    ∷ (0x82, "LCTRL")
    ∷ (0x83, "RCTRL")
    ∷ (0x84, "LALT")
    ∷ (0x85, "RALT")
    ∷ (0x86, "LSUPER")
    ∷ (0x87, "RSUPER")
    ∷ (0x88, "APPS")
    ∷ (0x90, "NUM_LOCK")
    ∷ (0x91, "SCROLL_LOCK")
    ∷ (0x93, "HOME")
    ∷ (0x94, "END")
    ∷ (0x95, "PRINT_SCREEN")
    ∷ (0x96, "PAUSE")
    ∷ (0x97, "INSERT")
    ∷ (0x98, "PAGE_UP")
    ∷ (0x99, "PAGE_DOWN")
    ∷ (0x9A, "DELETE")
    ∷ (0xA1, "LARROW")
    ∷ (0xA2, "RARROW")
    ∷ (0xA4, "UARROW")
    ∷ (0xA8, "DARROW")
    ∷ (0xB0, "VOLMUTE")
    ∷ (0xB2, "VOLUP")
    ∷ (0xF1, "F1")
    ∷ (0xF2, "F2")
    ∷ (0xF3, "F3")
    ∷ (0xF4, "F4")
    ∷ (0xF5, "F5")
    ∷ (0xF7, "F7")
    ∷ (0xF8, "F8")
    ∷ (0xF9, "F9")
    ∷ (0xFA, "F10")
    ∷ (0xFB, "F11")
    ∷ (0xFC, "F12")
    ∷ []

-- `none` is the default, the text "INVALID".
unfoldable pub name_of : ℕ → List (ℕ × String) → Option String
name_of k [] = none
name_of k ((j, t) ∷ cases) = if j == k then some t else name_of k cases

unfoldable pub keycode_to_string : ℕ → String
unfolding name_of
keycode_to_string k = elim (name_of k name_cases) [ none ↦ "INVALID" | some t ↦ t ]

keycode_named : ℕ → Bool
keycode_named k =
    if is_some (keycode_to_scancode k)
    then Bool_eq (is_some (name_of k name_cases)) (not (k == 0xB1 || k == 0xF6))
    else true

keycode_named_table : all_below 256 keycode_named ≡ true
unfolding all_below keycode_named name_of keycode_to_scancode
keycode_named_table = refl

-- Every key code below 256 that a scancode stands for has a name in the switch, but two, 0xB1 ("volume
-- down") and 0xF6 (F6).
pub name_of-missing :
    (k : ℕ)
    → k < 256
    → is_some (keycode_to_scancode k) ≡ true
    → is_some (name_of k name_cases) ≡ not (k == 0xB1 || k == 0xF6)
unfolding keycode_named
name_of-missing k h c =
    Bool_eq_sound _ _ (rw c at (all_below_sound 256 keycode_named k keycode_named_table h))
