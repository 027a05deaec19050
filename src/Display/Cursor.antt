-- ===== src/Display/Cursor.antt =====
-- Where the cursor is after a character, and which character stops the processor.
use ych.Prelude.{
  ℕ, ◌-◌, ◌*◌, ◌/◌, ◌||◌, ◌∙◌, ap, sym, min, beq→eq, ◌+◌, ◌%◌, ◌^◌, ◌<◌, ◌≤◌, ◌≡◌, refl, Bool, true,
  false, ◌&&◌, not, leb, ltb, ◌==◌, if◌then◌else◌, Option, none, some, arith, Bool-cases, inl, inr,
  ne→beq,
}
use native.Mathlib.Nat.{div-zero}
use ych.Display.{
  Display, row_height, column_width, text_rows, text_columns, out_char_unlocked, next_row, scroll,
  scroll_unlocked, shown_char, draw_glyph, acquire_lock, replicate,
}

-- The cursor is in one of the columns, and in one of the rows or the one below them.
pub record IsPlaced (d : Display) : Type 0 where
  pub column : d.cursor_x < text_columns d
  pub row : d.cursor_y ≤ text_rows d
  pub narrow : text_columns d < 2 ^ 32
  pub low : text_rows d + 1 < 2 ^ 32
  pub held : d.locked ≡ true

-- Whether a character is one that the font shows: the source's test is for numbers above that of
-- the entries.
abbrev pub is_shown : Display → ℕ → Bool
is_shown d char =
    not (d.frame_buffer == 0)
    && (not (d.font.character_set == 0) && ltb d.font.number_of_entries char)

-- Whether a character stops the processor: a division by 0, or a cursor that drawing moves below the
-- row under the last.
abbrev pub leaves_screen : Display → ℕ → Bool
leaves_screen d char =
    is_shown d char
    && (if char == 10
        then row_height d == 0
        else leb (text_columns d) (d.cursor_x + 1)
          && (row_height d == 0 || ltb (text_rows d) (d.cursor_y + 1)))

-- The places of the text, counted along its rows.
abbrev pub position : Display → ℕ
position d = d.cursor_y * text_columns d + d.cursor_x

-- The place after a character: the next one, and for a newline the start of the next row, where the
-- row under the last is not left.
abbrev pub next_position : Display → ℕ → ℕ
next_position d char =
    if not (is_shown d char)
    then position d
    else (if char == 10
        then min (d.cursor_y + 1) (text_rows d) * text_columns d
        else position d + 1)

-- What a character comes to.
abbrev pub Moved : Bool → ℕ → ℕ → Option Display → Type 0
Moved stops columns place none = stops ≡ true
Moved stops columns place (some d) =
    (stops ≡ false) × IsPlaced d × (text_columns d ≡ columns) × (position d ≡ place)

scrolled-IsPlaced :
    (d : Display)
    → 0 < text_columns d
    → text_columns d < 2 ^ 32
    → d.cursor_y ≤ text_rows d + 1
    → 0 < d.cursor_y
    → text_rows d + 1 < 2 ^ 32
    → d.locked ≡ true
    → IsPlaced (scroll_unlocked d)
      × (text_columns (scroll_unlocked d) ≡ text_columns d)
      × (position (scroll_unlocked d) ≡ (d.cursor_y - 1) * text_columns d)
unfolding scroll_unlocked replicate
scrolled-IsPlaced d cols narrow y pos low held = rw (ne→beq d.cursor_y 0 (omega arith)) (
  record { column = omega arith; row = omega arith; narrow = narrow; low = low; held = held },
  refl,
  omega arith,
)

scroll_locked : (d : Display) → d.locked ≡ true → scroll d ≡ none
unfolding scroll acquire_lock
scroll_locked d held = rw held refl

-- A place in a column means that columns have a width.
width_positive : (d : Display) → d.cursor_x < text_columns d → (column_width d == 0) ≡ false
width_positive d h = elim (Bool-cases (column_width d == 0)) [
  | inl zero_width ↦
      let e : text_columns d ≡ d.width / 0 =
        ap (λ t. d.width / t) (beq→eq (column_width d) 0 zero_width) in
      let none_left = div-zero d.width in absurd (omega arith)
  | inr wide ↦ wide
]

module _ (d : Display) (char fore back : ℕ) (w : IsPlaced d) where
  abbrev drawn : Display
  drawn = record d { pixels = draw_glyph d (shown_char d char) fore back }

  newline :
      Moved
        (row_height d == 0)
        (text_columns d)
        (min (d.cursor_y + 1) (text_rows d) * text_columns d)
        (next_row d (λ e. some (scroll_unlocked e)))
  newline =
      let c = w.column in
      let n = w.narrow in
      let r = w.row in
      let l = w.low in
      let y : (d.cursor_y + 1) % 2 ^ 32 ≡ d.cursor_y + 1 = omega arith in
      let below = record d { cursor_x = 0; cursor_y = d.cursor_y + 1 } in
      elim (Bool-cases (row_height d == 0)) [
        | inl fault ↦ rw fault refl
        | inr high ↦
            rw (high, y)
              (elim (Bool-cases (ltb (text_rows d) (d.cursor_y + 1))) [
                | inl over ↦
                    let (placed, columns, place) =
                      scrolled-IsPlaced below (omega arith) (omega arith) (omega arith)
                        (omega arith) (omega arith) w.held in
                    let last : min (d.cursor_y + 1) (text_rows d) ≡ d.cursor_y + 1 - 1 =
                      ground arith in
                    rw over (refl, placed, columns, place ∙ ap (λ t. t * text_columns d) (sym last))
                | inr inside ↦
                    let next : min (d.cursor_y + 1) (text_rows d) ≡ d.cursor_y + 1 = ground arith in
                    rw (inside, next)
                      (
                        refl,
                        record {
                          column = omega arith;
                          row = ground arith;
                          narrow = w.narrow;
                          low = w.low;
                          held = w.held;
                        },
                        refl,
                        omega arith,
                      )
              ])
      ]

  wrapped :
      d.cursor_x + 1 ≡ text_columns d
      → Moved
          (row_height d == 0 || ltb (text_rows d) (d.cursor_y + 1))
          (text_columns d)
          (position d + 1)
          (next_row drawn scroll)
  wrapped full =
      let c = w.column in
      let n = w.narrow in
      let r = w.row in
      let l = w.low in
      let y : (d.cursor_y + 1) % 2 ^ 32 ≡ d.cursor_y + 1 = omega arith in
      let locked =
        scroll_locked (record drawn { cursor_x = 0; cursor_y = d.cursor_y + 1 }) w.held in
      elim (Bool-cases (row_height d == 0)) [
        | inl fault ↦ rw fault refl
        | inr high ↦
            rw (high, y)
              (elim (Bool-cases (ltb (text_rows d) (d.cursor_y + 1))) [
                | inl over ↦ rw (over, locked) refl
                | inr inside ↦ rw inside (
                  refl,
                  record {
                    column = omega arith;
                    row = ground arith;
                    narrow = w.narrow;
                    low = w.low;
                    held = w.held;
                  },
                  refl,
                  omega arith,
                )
              ])
      ]

  after :
      Moved
        (if char == 10
          then row_height d == 0
          else leb (text_columns d) (d.cursor_x + 1)
            && (row_height d == 0 || ltb (text_rows d) (d.cursor_y + 1)))
        (text_columns d)
        (if char == 10 then min (d.cursor_y + 1) (text_rows d) * text_columns d else position d + 1)
        (if char == 10
          then next_row d (λ e. some (scroll_unlocked e))
          else (if leb (text_columns d) (d.cursor_x + 1)
              then next_row drawn scroll
              else some (record drawn { cursor_x = d.cursor_x + 1 })))
  after = elim (Bool-cases (char == 10)) [
    | inl e ↦ rw e newline
    | inr other ↦ rw other (elim (Bool-cases (leb (text_columns d) (d.cursor_x + 1))) [
      | inl end ↦ let c = w.column in rw end (wrapped (ground arith))
      | inr inside ↦ rw inside (
        refl,
        record {
          column = ground arith;
          row = w.row;
          narrow = w.narrow;
          low = w.low;
          held = w.held;
        },
        refl,
        omega arith,
      )
    ])
  ]

  -- From a place in a column of the text, in one of its rows or the one under the last, a character
  -- that the font does not show leaves the cursor where it is, a newline takes it to the start of the
  -- next row, but not below the one under the last, and any other character takes it on by one place
  -- along the rows, the lock still held. The processor stops exactly at a division by 0, and where a
  -- character is drawn in the last column of the row under the last.
  pub out_char_unlocked-Moved :
      Moved
        (leaves_screen d char)
        (text_columns d)
        (next_position d char)
        (out_char_unlocked d char fore back)
  unfolding out_char_unlocked
  out_char_unlocked-Moved =
      let c = w.column in
      let n = w.narrow in
      let x : (d.cursor_x + 1) % 2 ^ 32 ≡ d.cursor_x + 1 = omega arith in
      let wide = width_positive d w.column in
      rw x (elim (Bool-cases (d.frame_buffer == 0)) [
        | inl no_buffer ↦ rw no_buffer (refl, w, refl, refl)
        | inr buffer ↦ rw buffer (elim (Bool-cases (d.font.character_set == 0)) [
          | inl no_set ↦ rw no_set (refl, w, refl, refl)
          | inr set ↦ rw set (elim (Bool-cases (leb char d.font.number_of_entries)) [
            | inl hidden ↦
                let gone : ltb d.font.number_of_entries char ≡ false = ground arith in
                rw (gone, hidden) (refl, w, refl, refl)
            | inr shown ↦
                let there : ltb d.font.number_of_entries char ≡ true = ground arith in
                rw (there, shown, wide) after
          ])
        ])
      ])
