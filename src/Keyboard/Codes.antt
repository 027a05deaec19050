-- ===== src/Keyboard/Codes.antt =====
-- The key codes of Kernel/Include/HumanInterface/Keycodes.h, and the scancodes of set 2 that
-- Kernel/Source/Devdriv/Keyboard/PS2Scancodes.h names, as tables from names to numbers.
pub mod Named
use Prim.Native.String.{String}
use ych.Prelude.{ℕ, List, [], ◌∷◌}

abbrev pub keycodes : List (String × ℕ)
keycodes =
    ("INVALID", 0x00)
    ∷ ("BACKSPACE", 0x08)
    ∷ ("TAB", 0x09)
    ∷ ("ENTER", 0x0A)
    ∷ ("CAPS_LOCK", 0x14)
    ∷ ("ESCAPE", 0x1B)
    ∷ ("SPACE", 0x20)
    ∷ ("APOSTROPHE", 0x27)
    ∷ ("COMMA", 0x2C)
    ∷ ("MINUS", 0x2D)
    ∷ ("PERIOD", 0x2E)
    ∷ ("SLASH", 0x2F)
    ∷ ("0", 0x30)
    ∷ ("1", 0x31)
    ∷ ("2", 0x32)
    ∷ ("3", 0x33)
    ∷ ("4", 0x34)
    ∷ ("5", 0x35)
    ∷ ("6", 0x36)
    ∷ ("7", 0x37)
    ∷ ("8", 0x38)
    ∷ ("9", 0x39)
    ∷ ("SEMICOLON", 0x3B)
    ∷ ("EQUAL", 0x3D)
    ∷ ("A", 0x41)
    ∷ ("B", 0x42)
    ∷ ("C", 0x43)
    ∷ ("D", 0x44)
    ∷ ("E", 0x45)
    ∷ ("F", 0x46)
    ∷ ("G", 0x47)
    ∷ ("H", 0x48)
    ∷ ("I", 0x49)
    ∷ ("J", 0x4A)
    ∷ ("K", 0x4B)
    ∷ ("L", 0x4C)
    ∷ ("M", 0x4D)
    ∷ ("N", 0x4E)
    ∷ ("O", 0x4F)
    ∷ ("P", 0x50)
    ∷ ("Q", 0x51)
    ∷ ("R", 0x52)
    ∷ ("S", 0x53)
    ∷ ("T", 0x54)
    ∷ ("U", 0x55)
    ∷ ("V", 0x56)
    ∷ ("W", 0x57)
    ∷ ("X", 0x58)
    ∷ ("Y", 0x59)
    ∷ ("Z", 0x5A)
    ∷ ("LBRACKET", 0x5B)
    ∷ ("BACKSLASH", 0x5C)
    ∷ ("RBRACKET", 0x5D)
    ∷ ("BACKTICK", 0x60)
    ∷ ("KP_0", 0x70)
    ∷ ("KP_1", 0x71)
    ∷ ("KP_2", 0x72)
    ∷ ("KP_3", 0x73)
    ∷ ("KP_4", 0x74)
    ∷ ("KP_5", 0x75)
    ∷ ("KP_6", 0x76)
    ∷ ("KP_7", 0x77)
    ∷ ("KP_8", 0x78)
    ∷ ("KP_9", 0x79)
    ∷ ("KP_ENTER", 0x7A)
    ∷ ("KP_ASTERISK", 0x7B)
    ∷ ("KP_PLUS", 0x7C)
    ∷ ("KP_MINUS", 0x7D)
    ∷ ("KP_PERIOD", 0x7E)
    ∷ ("KP_SLASH", 0x7F)
    ∷ ("LSHIFT", 0x80)
    ∷ ("RSHIFT", 0x81)
    ∷ ("LCTRL", 0x82)
    ∷ ("RCTRL", 0x83)
    ∷ ("LALT", 0x84)
    ∷ ("RALT", 0x85)
    ∷ ("LSUPER", 0x86)
    ∷ ("RSUPER", 0x87)
    ∷ ("APPS", 0x88)
    ∷ ("NUM_LOCK", 0x90)
    ∷ ("SCROLL_LOCK", 0x91)
    ∷ ("HOME", 0x93)
    ∷ ("END", 0x94)
    ∷ ("PRINT_SCREEN", 0x95)
    ∷ ("PAUSE", 0x96)
    ∷ ("INSERT", 0x97)
    ∷ ("PAGE_UP", 0x98)
    ∷ ("PAGE_DOWN", 0x99)
    ∷ ("DELETE", 0x9A)
    ∷ ("LARROW", 0xA1)
    ∷ ("RARROW", 0xA2)
    ∷ ("UARROW", 0xA4)
    ∷ ("DARROW", 0xA8)
    ∷ ("VOLMUTE", 0xB0)
    ∷ ("VOLDOWN", 0xB1)
    ∷ ("VOLUP", 0xB2)
    ∷ ("F0", 0xF0)
    ∷ ("F1", 0xF1)
    ∷ ("F2", 0xF2)
    ∷ ("F3", 0xF3)
    ∷ ("F4", 0xF4)
    ∷ ("F5", 0xF5)
    ∷ ("F6", 0xF6)
    ∷ ("F7", 0xF7)
    ∷ ("F8", 0xF8)
    ∷ ("F9", 0xF9)
    ∷ ("F10", 0xFA)
    ∷ ("F11", 0xFB)
    ∷ ("F12", 0xFC)
    ∷ []

-- after no prefix
abbrev pub standard_scancodes : List (String × ℕ)
standard_scancodes =
    ("F9", 0x01)
    ∷ ("F5", 0x03)
    ∷ ("F3", 0x04)
    ∷ ("F1", 0x05)
    ∷ ("F2", 0x06)
    ∷ ("F12", 0x07)
    ∷ ("F10", 0x09)
    ∷ ("F8", 0x0A)
    ∷ ("F6", 0x0B)
    ∷ ("F4", 0x0C)
    ∷ ("TAB", 0x0D)
    ∷ ("BACKTICK", 0x0E)
    ∷ ("LALT", 0x11)
    ∷ ("LSHIFT", 0x12)
    ∷ ("LCTRL", 0x14)
    ∷ ("Q", 0x15)
    ∷ ("1", 0x16)
    ∷ ("Z", 0x1A)
    ∷ ("S", 0x1B)
    ∷ ("A", 0x1C)
    ∷ ("W", 0x1D)
    ∷ ("2", 0x1E)
    ∷ ("C", 0x21)
    ∷ ("X", 0x22)
    ∷ ("D", 0x23)
    ∷ ("E", 0x24)
    ∷ ("4", 0x25)
    ∷ ("3", 0x26)
    ∷ ("SPACE", 0x29)
    ∷ ("V", 0x2A)
    ∷ ("F", 0x2B)
    ∷ ("T", 0x2C)
    ∷ ("R", 0x2D)
    ∷ ("5", 0x2E)
    ∷ ("N", 0x31)
    ∷ ("B", 0x32)
    ∷ ("H", 0x33)
    ∷ ("G", 0x34)
    ∷ ("Y", 0x35)
    ∷ ("6", 0x36)
    ∷ ("M", 0x3A)
    ∷ ("J", 0x3B)
    ∷ ("U", 0x3C)
    ∷ ("7", 0x3D)
    ∷ ("8", 0x3E)
    ∷ ("COMMA", 0x41)
    ∷ ("K", 0x42)
    ∷ ("I", 0x43)
    ∷ ("O", 0x44)
    ∷ ("0", 0x45)
    ∷ ("9", 0x46)
    ∷ ("PERIOD", 0x49)
    ∷ ("SLASH", 0x4A)
    ∷ ("L", 0x4B)
    ∷ ("SEMICOLON", 0x4C)
    ∷ ("P", 0x4D)
    ∷ ("MINUS", 0x4E)
    ∷ ("APOSTROPHE", 0x52)
    ∷ ("LBRACKET", 0x54)
    ∷ ("EQUAL", 0x55)
    ∷ ("CAPS_LOCK", 0x58)
    ∷ ("RSHIFT", 0x59)
    ∷ ("ENTER", 0x5A)
    ∷ ("RBRACKET", 0x5B)
    ∷ ("BACKSLASH", 0x5D)
    ∷ ("BACKSPACE", 0x66)
    ∷ ("KP_1", 0x69)
    ∷ ("KP_4", 0x6B)
    ∷ ("KP_7", 0x6C)
    ∷ ("KP_0", 0x70)
    ∷ ("KP_PERIOD", 0x71)
    ∷ ("KP_2", 0x72)
    ∷ ("KP_5", 0x73)
    ∷ ("KP_6", 0x74)
    ∷ ("KP_8", 0x75)
    ∷ ("ESCAPE", 0x76)
    ∷ ("NUM_LOCK", 0x77)
    ∷ ("F11", 0x78)
    ∷ ("KP_PLUS", 0x79)
    ∷ ("KP_3", 0x7A)
    ∷ ("KP_MINUS", 0x7B)
    ∷ ("KP_ASTERISK", 0x7C)
    ∷ ("KP_9", 0x7D)
    ∷ ("SCROLL_LOCK", 0x7E)
    ∷ ("F7", 0x83)
    ∷ []

-- after the prefix 0xE0
abbrev pub extended_scancodes : List (String × ℕ)
extended_scancodes =
    ("SEARCH", 0x10)
    ∷ ("RALT", 0x11)
    ∷ ("RCTRL", 0x14)
    ∷ ("PREV_TRACK", 0x15)
    ∷ ("FAVORITES", 0x18)
    ∷ ("LGUI", 0x1F)
    ∷ ("REFRESH", 0x20)
    ∷ ("VOLDOWN", 0x21)
    ∷ ("VOLMUTE", 0x23)
    ∷ ("RGUI", 0x27)
    ∷ ("STOP", 0x3B)
    ∷ ("CALC", 0x2B)
    ∷ ("FORWARD", 0x30)
    ∷ ("VOLUP", 0x32)
    ∷ ("PLAYPAUSE", 0x34)
    ∷ ("POWER", 0x37)
    ∷ ("BACK", 0x38)
    ∷ ("HOME", 0x6C)
    ∷ ("SLEEP", 0x3F)
    ∷ ("MY_COMP", 0x40)
    ∷ ("EMAIL", 0x48)
    ∷ ("KP_SLASH", 0x4A)
    ∷ ("NEXT_TRACK", 0x4D)
    ∷ ("MEDIASEL", 0x50)
    ∷ ("KP_ENTER", 0x5A)
    ∷ ("WAKE", 0x5E)
    ∷ ("END", 0x69)
    ∷ ("LEFT", 0x6B)
    ∷ ("INSERT", 0x70)
    ∷ ("DELETE", 0x71)
    ∷ ("DOWN", 0x72)
    ∷ ("RIGHT", 0x74)
    ∷ ("UP", 0x75)
    ∷ ("PAGE_DOWN", 0x7A)
    ∷ ("PAGE_UP", 0x7D)
    ∷ []
