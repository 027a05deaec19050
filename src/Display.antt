-- ===== src/Display.antt =====
-- Kernel/Source/Earlyvideo/DisplaywideTextProtocol.c: text on the frame buffer.
pub mod Cursor
pub mod Formatted
pub mod Kept
use ych.Prelude.{
  ℕ, zero, suc, ◌+◌, ◌-◌, ◌*◌, ◌/◌, ◌%◌, ◌^◌, bit_and, Bool, true, false, ◌&&◌, ◌||◌, not, leb, ltb,
  ◌==◌, if◌then◌else◌, Option, none, some, List, [], ◌∷◌,
}
use ych.Krtl.Mem.{Memory, move_buffer, copy_buffer, zero_buffer}
use ych.Arena.{Arena, arena_acquire}

-- `KrDisplaywideTextProtocolFont`; `glyphs` is what `CharacterSet` points at, which 0 stands for no
-- character set.
pub record Font : Type 0 where
  pub character_set : ℕ
  pub glyphs : ℕ → ℕ
  pub number_of_entries : ℕ
  pub columns : ℕ
  pub rows : ℕ
  pub scale : ℕ
  pub direction_bit : Bool

-- `sg_ProtocolState`, whether `sg_DwtpSpinlock` is held by this processor, `bMeltdown` of the kernel's
-- state, and the memory of both frame buffers: `pixels` by the address of each DWORD.
pub record Display : Type 0 where
  pub frame_buffer_size : ℕ
  pub width : ℕ
  pub height : ℕ
  pub pixels_per_line : ℕ
  pub cursor_x : ℕ
  pub cursor_y : ℕ
  pub frame_buffer : ℕ
  pub ram_buffer : ℕ
  pub bytes_per_pixel : ℕ
  pub font : Font
  pub uppercase : Bool
  pub locked : Bool
  pub in_meltdown : Bool
  pub pixels : Memory

-- `AcquireOrWaitSpinlock`: `none` is the meltdown of a processor that waits for its own lock.
unfoldable pub acquire_lock : Display → Option Display
acquire_lock d = if d.locked then none else some (record d { locked = true })

unfoldable pub release_lock : Display → Display
release_lock d = record d { locked = false }

unfoldable pub scale_font : Font → ℕ → Font
scale_font f factor = record f { scale = f.scale * factor % 2 ^ 32 }

-- `KrdwtpInitialize` inside the lock, which was acquired before.
unfoldable pub initialize : Display → Arena → Font → ℕ → ℕ → ℕ → ℕ → ℕ → Display × Arena
initialize d arena font frame size width height line =
    let (arena', ram) = arena_acquire arena (size * 2 % 2 ^ 32) in
    (
      record d {
        frame_buffer_size = size;
        width = width;
        height = height;
        pixels_per_line = line;
        cursor_x = 0;
        cursor_y = 0;
        frame_buffer = frame;
        ram_buffer = ram;
        bytes_per_pixel = 4;
        font = font;
        uppercase = false;
        locked = false;
        pixels = zero_buffer d.pixels ram (size * 2 % 2 ^ 32);
      },
      arena',
    )

unfoldable pub reload_frame_buffer : Display → ℕ → Display
reload_frame_buffer d frame = record d { frame_buffer = frame }

unfoldable pub set_uppercase_mode : Display → Bool → Display
set_uppercase_mode d enabled = record d { uppercase = enabled }

-- `for (i = 0; i < n; i++) s = body(i, s)`
abbrev pub for_up {ℓ} : {S : Type ℓ} → ℕ → (ℕ → S → S) → S → S
for_up zero body s = s
for_up (suc n) body s = body n (for_up n body s)

unfoldable pub store_pixel : Memory → ℕ → ℕ → Memory
store_pixel m a value x = if x == a then value else m x

-- `((DWORD*) Addr)[index]`
abbrev pub dword_at : ℕ → ℕ → ℕ
dword_at start index = start + index * 4

abbrev pub store_both : Display → ℕ → ℕ → Memory → Memory
store_both d index value m =
    store_pixel (store_pixel m (dword_at d.frame_buffer index) value) (dword_at d.ram_buffer index)
      value

unfoldable pub reset_state : Display → ℕ → Display
reset_state d color = record d {
  cursor_x = 0;
  cursor_y = 0;
  pixels =
      for_up d.height
        (λ y. for_up d.width (λ x. store_both d ((y * d.pixels_per_line + x) % 2 ^ 32) color))
        d.pixels;
}

-- `DwtpReplicateRamFrbufToVram`
unfoldable pub replicate : Display → Display
replicate d = record d {
  pixels = copy_buffer d.pixels d.frame_buffer d.ram_buffer d.frame_buffer_size;
}

-- The pixels that a row of the text and a column take: products of 32 bits.
abbrev pub row_height : Display → ℕ
row_height d = d.font.rows * d.font.scale % 2 ^ 32

abbrev pub column_width : Display → ℕ
column_width d = d.font.columns * d.font.scale % 2 ^ 32

-- The rows of the text that the frame buffer has room for, and the columns, for a divisor that is
-- not 0.
abbrev pub text_rows : Display → ℕ
text_rows d = d.height / row_height d

abbrev pub text_columns : Display → ℕ
text_columns d = d.width / column_width d

-- The bytes of one row of the text.
abbrev pub logical_stride : Display → ℕ
logical_stride d =
    d.font.rows * d.font.scale % 2 ^ 32 * (d.pixels_per_line * d.bytes_per_pixel % 2 ^ 32) % 2 ^ 32

-- `KrdwtpScroll_NoSpin`
unfoldable pub scroll_unlocked : Display → Display
unfolding replicate
scroll_unlocked d =
    let stride = logical_stride d in
    let size = d.cursor_y * stride % 2 ^ 32 in
    let moved = move_buffer d.pixels d.ram_buffer (d.ram_buffer + stride) size in
    let cleared = zero_buffer moved (d.ram_buffer + size) stride in
    let shown = replicate (record d { pixels = cleared }) in
    if d.cursor_y == 0 then d else record shown { cursor_y = d.cursor_y - 1; cursor_x = 0 }

-- `KrdwtpScroll`
unfoldable pub scroll : Display → Option Display
unfolding acquire_lock release_lock
scroll d = elim (acquire_lock d) [
  | none ↦ none
  | some d' ↦ some (release_lock (scroll_unlocked d'))
]

-- `BYTE iBit`: `7 - bit` on 8 bits
abbrev pub glyph_bit : Font → ℕ → ℕ
glyph_bit f bit = if f.direction_bit then (7 + 2 ^ 8 - bit) % 2 ^ 8 else bit % 8

abbrev pub bytes_per_row : Font → ℕ
bytes_per_row f = (f.columns + 7) / 8

-- `pRow[bit / 8] & (1 << iBit)`
unfoldable pub is_lit : Font → ℕ → ℕ → ℕ → Bool
is_lit f char row bit =
    let glyph = char * (f.rows * bytes_per_row f) in
    not (bit_and (f.glyphs (glyph + row * bytes_per_row f + bit / 8)) (2 ^ glyph_bit f bit) == 0)

-- `KRDWTP_COLOR_DARK_PURPLE` stands in for the background during a meltdown.
abbrev pub dark_purple : ℕ
dark_purple = 0xFF4B_006E

unfoldable pub pixel_color : Display → ℕ → ℕ → ℕ → ℕ → ℕ → ℕ
unfolding is_lit
pixel_color d char fore back row bit =
    if is_lit d.font char row bit then fore else (if d.in_meltdown then dark_purple else back)

-- The four loops over a glyph and its magnified pixels.
unfoldable pub draw_glyph : Display → ℕ → ℕ → ℕ → Memory
unfolding store_pixel pixel_color
draw_glyph d char fore back =
    let f = d.font in
    let left = d.cursor_x * f.columns * f.scale in
    let top = d.cursor_y * f.rows * f.scale in
    for_up f.rows
      (λ row. for_up f.columns (λ bit. for_up f.scale (λ sy. for_up f.scale (λ sx.
        store_both d
          (((top + row * f.scale + sy) * d.pixels_per_line + (left + bit * f.scale + sx)) % 2 ^ 32)
          (pixel_color d char fore back row bit)))))
      d.pixels

-- `++CursorY > rows`, and what is done then. `none` is the fault of a division by 0.
abbrev pub next_row : Display → (Display → Option Display) → Option Display
next_row d overflow =
    let d' = record d { cursor_x = 0; cursor_y = (d.cursor_y + 1) % 2 ^ 32 } in
    if row_height d == 0
    then none
    else (if ltb (text_rows d) ((d.cursor_y + 1) % 2 ^ 32) then overflow d' else some d')

-- Uppercase mode, for the letters from 'a' to 'z'.
abbrev pub shown_char : Display → ℕ → ℕ
shown_char d char = if d.uppercase && (leb 97 char && leb char 122) then char - 32 else char

-- `KrdwtpOutColoredCharacter_NoSpin`, called with the lock held. At the end of a row the locking
-- scroll is called. A division by 0 is a fault, `none`.
unfoldable pub out_char_unlocked : Display → ℕ → ℕ → ℕ → Option Display
out_char_unlocked d char fore back =
    let drawn = record d { pixels = draw_glyph d (shown_char d char) fore back } in
    let x = (d.cursor_x + 1) % 2 ^ 32 in
    if d.frame_buffer == 0 || (d.font.character_set == 0 || leb char d.font.number_of_entries)
    then some d
    else (if char == 10
        then next_row d (λ e. some (scroll_unlocked e))
        else (if column_width d == 0
            then none
            else (if leb (text_columns d) x
                then next_row drawn scroll
                else some (record drawn { cursor_x = x }))))

-- `KrdwtpOutColoredCharacter`
unfoldable pub out_char : Display → ℕ → ℕ → ℕ → Option Display
out_char d char fore back = elim (acquire_lock d) [
  | none ↦ none
  | some d1 ↦ elim (out_char_unlocked d1 char fore back) [
    | none ↦ none
    | some d2 ↦ some (release_lock d2)
  ]
]

-- `KrdwtpOutColoredText_NoSpin`: `none` as soon as a character is one; the number of characters is
-- the text's length.
unfoldable pub out_text_unlocked : Display → List ℕ → ℕ → ℕ → Option Display
out_text_unlocked d [] fore back = some d
out_text_unlocked d (c ∷ cs) fore back = elim (out_char_unlocked d c fore back) [
  | none ↦ none
  | some d' ↦ out_text_unlocked d' cs fore back
]

unfoldable pub out_text : Display → List ℕ → ℕ → ℕ → Option Display
out_text d text fore back = elim (acquire_lock d) [
  | none ↦ none
  | some d1 ↦ elim (out_text_unlocked d1 text fore back) [
    | none ↦ none
    | some d2 ↦ some (release_lock d2)
  ]
]
