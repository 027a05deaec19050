-- ===== src/Tests/Screen.antt =====
-- The display of Kernel/Source/Earlyvideo, the texts of Kernel/Source/KRTL, on small inputs.
use ych.Prelude.{
  ℕ, ◌-◌, ◌%◌, ◌^◌, ◌≡◌, refl, true, false, some, [], ◌∷◌, arith, ◌==◌, if◌then◌else◌, min, length,
}
use ych.Krtl.Mem.{Memory, write, move_buffer}
use ych.Krtl.Mem.Copy.{moved, move_buffer_lem}
use ych.Krtl.Text.{signed_to_string, string_size, string_size_from}
use ych.Krtl.Text.Signed.{NegativeNumeral, signed_to_string-NegativeNumeral, string_size_lem}
use ych.Krtl.Text.Format.{Format, format_string, format_loop, put_char, put_spec, spec_of, blank}
use ych.Krtl.Text.Format.Plain.{IsPlain, with_text, format_string-plain}
use ych.Display.{Font, Display, out_char_unlocked}
use ych.Display.Cursor.{IsPlaced, Moved, leaves_screen, out_char_unlocked-Moved}

abbrev letters : Memory
letters x = x % 256

move_buffer_lem_example : move_buffer letters 0x12 0x10 8 0x15 ≡ moved letters 0x12 0x10 8 0x15
move_buffer_lem_example = move_buffer_lem letters 0x12 0x10 8 0x15

signed_to_string-NegativeNumeral_example :
    (n : ℕ) × NegativeNumeral blank 0x100
      (2 ^ 64 - (2 ^ 64 - 42))
      10
      false
      n
      (signed_to_string blank 0x100 (2 ^ 64 - 42) 10 false)
signed_to_string-NegativeNumeral_example =
    signed_to_string-NegativeNumeral blank 0x100 (2 ^ 64 - 42) 10 false (omega arith) (omega arith)
      (omega arith) (omega arith)

-- "Hi" at 0x200
abbrev hello : Memory
hello x = if x == 0x200 then 72 else (if x == 0x201 then 105 else 0)

string_size_lem_run : string_size 100 hello 0x200 ≡ 2
string_size_lem_run =
    string_size_lem 100 hello 0x200 2 (omega arith) (omega arith) (λ k lo hi e. ground arith) refl

-- The size of the empty text is at least 1.
empty_size : string_size 100 blank 0x200 ≡ 1
unfolding string_size string_size_from
empty_size = refl

abbrev greeting : Format
greeting = 72 ∷ 105 ∷ 33 ∷ []

greeting-IsPlain : IsPlain greeting
unfolding IsPlain
greeting-IsPlain =
    (omega arith, omega arith, (omega arith, omega arith, (omega arith, omega arith, tt)))

format_string-plain_example :
    ((format_string 2 blank 0x100 greeting []).1 ≡ some (min 2 (length greeting)))
    × ((x : ℕ)
        → (format_string 2 blank 0x100 greeting []).0 x
          ≡ with_text blank 0x100 greeting (min 2 (length greeting)) x)
format_string-plain_example =
    format_string-plain 2 blank 0x100 greeting [] greeting-IsPlain (omega arith)

-- `%%b` writes the letter twice and no percent sign.
percent_lost : (format_string (2 ^ 32 - 1) blank 0 (37 ∷ 37 ∷ 98 ∷ []) []).0 0 ≡ 98
unfolding format_string format_loop spec_of put_char write put_spec
percent_lost = refl

abbrev font : Font
font = record {
  character_set = 0x7000;
  glyphs = λ i. i % 256;
  number_of_entries = 0;
  columns = 8;
  rows = 8;
  scale = 1;
  direction_bit = false;
}

-- Two rows of two characters
abbrev screen : Display
screen = record {
  frame_buffer_size = 0x400;
  width = 16;
  height = 16;
  pixels_per_line = 16;
  cursor_x = 1;
  cursor_y = 1;
  frame_buffer = 0x10000;
  ram_buffer = 0x20000;
  bytes_per_pixel = 4;
  font = font;
  uppercase = false;
  locked = true;
  in_meltdown = false;
  pixels = λ a. 0;
}

screen-IsPlaced : IsPlaced screen
screen-IsPlaced = record {
  column = omega arith;
  row = omega arith;
  narrow = omega arith;
  low = omega arith;
  held = refl;
}

out_char_unlocked-Moved_example : Moved false 2 4 (out_char_unlocked screen 65 1 0)
out_char_unlocked-Moved_example = out_char_unlocked-Moved screen 65 1 0 screen-IsPlaced

-- The row behind the last is drawn on, and its last column stops the processor.
below_last : leaves_screen (record screen { cursor_y = 2 }) 65 ≡ true
below_last = refl
