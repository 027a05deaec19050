-- ===== src/Keyboard/Handler.antt =====
-- The interrupt handler of the PS/2 keyboard, Kernel/Source/Devdriv/Keyboard/PS2Keyboard.c, as a
-- function of the byte read from the data port.
use ych.Prelude.{
  ℕ, ◌+◌, ◌%◌, ◌^◌, bit_or, Bool, true, false, ◌&&◌, ◌||◌, ◌==◌, if◌then◌else◌, Option, none, some,
  List, [], ◌∷◌,
}
use ych.Keyboard.Tables.{scancode_to_keycode, keycode_to_scancode}
use ych.Keyboard.Hub.{Hub, push_keyboard_event}
pub mod Messages
pub mod States

abbrev pub released : ℕ
released = 0

abbrev pub pressed : ℕ
pressed = 1

-- The flags of `Listen`, one field each, the index of the next byte of the message, the two arrays
-- of key states, and the hub that the events go to.
pub record Keyboard : Type 0 where
  pub standard_key_states : ℕ → ℕ
  pub extended_key_states : ℕ → ℕ
  pub listen_extended : Bool
  pub listen_broken : Bool
  pub listen_prtscas : Bool
  pub listen_prtscdeas : Bool
  pub listen_pause : Bool
  pub listen_idx : ℕ
  pub hub : Hub

abbrev pub set_state : (ℕ → ℕ) → ℕ → ℕ → ℕ → ℕ
set_state states code state i = if i == code then state else states i

-- No message is being received: `Listen = ListenIdx = 0`.
abbrev pub quiet : (ℕ → ℕ) → (ℕ → ℕ) → Hub → Keyboard
quiet standard extended hub = record {
  standard_key_states = standard;
  extended_key_states = extended;
  listen_extended = false;
  listen_broken = false;
  listen_prtscas = false;
  listen_prtscdeas = false;
  listen_pause = false;
  listen_idx = 0;
  hub = hub;
}

abbrev pub next_idx : Keyboard → ℕ
next_idx kb = (kb.listen_idx + 1) % 2 ^ 32

-- The next byte of a message that is recognized by its length alone.
abbrev pub advance : Keyboard → Keyboard
advance kb = record kb { listen_idx = next_idx kb }

unfoldable pub sample_keymod : (ℕ → ℕ) → (ℕ → ℕ) → ℕ
sample_keymod standard extended =
    let ctrl = if standard 0x14 == pressed || extended 0x14 == pressed then bit_or 0 1 else 0 in
    let alt =
      if standard 0x11 == pressed || extended 0x11 == pressed then bit_or ctrl 2 else ctrl in
    if standard 0x12 == pressed || standard 0x59 == pressed then bit_or alt 4 else alt

unfoldable pub print_screen : Keyboard → ℕ → ℕ → Keyboard
print_screen kb old new = quiet (set_state kb.standard_key_states 0xF7 new) kb.extended_key_states (
    push_keyboard_event kb.hub (record {
      old_state = old;
      new_state = new;
      keycode = 0x95;
      keymod = sample_keymod kb.standard_key_states kb.extended_key_states;
    }))

unfoldable pub pause_key : Keyboard → Keyboard
pause_key kb =
    let keymod = sample_keymod kb.standard_key_states kb.extended_key_states in
    let first =
      push_keyboard_event kb.hub
        (record { old_state = released; new_state = pressed; keycode = 0x96; keymod = keymod }) in
    let second =
      push_keyboard_event first
        (record { old_state = pressed; new_state = released; keycode = 0x96; keymod = keymod }) in
    quiet kb.standard_key_states kb.extended_key_states second

-- What follows the switch: the last byte of a key's message. `none` when the translation of the
-- scancode reads outside its array.
unfoldable pub finish_key : Keyboard → ℕ → Option Keyboard
finish_key kb code =
    let old = if kb.listen_broken then pressed else released in
    let new = if kb.listen_broken then released else pressed in
    let standard =
      if kb.listen_extended
      then kb.standard_key_states
      else set_state kb.standard_key_states code new in
    let extended =
      if kb.listen_extended
      then set_state kb.extended_key_states code new
      else kb.extended_key_states in
    elim (scancode_to_keycode kb.listen_extended code) [
      | none ↦ none
      | some keycode ↦ some (
          quiet standard extended (
            push_keyboard_event kb.hub (record {
              old_state = old;
              new_state = new;
              keycode = keycode;
              keymod = sample_keymod standard extended;
            })))
    ]

unfoldable pub receive_byte : Keyboard → ℕ → Option Keyboard
receive_byte kb byte =
    if byte == 0xE0
    then some (record kb { listen_extended = true; listen_idx = next_idx kb })
    else (if byte == 0xF0
        then some (record kb { listen_broken = true; listen_idx = next_idx kb })
        else (if byte == 0x12 && (kb.listen_idx == 1 && kb.listen_extended)
            then some (record kb { listen_prtscas = true; listen_idx = next_idx kb })
            else (if byte == 0x7C
                  && (kb.listen_idx == 2 && (kb.listen_extended && kb.listen_broken))
                then some (record kb { listen_prtscdeas = true; listen_idx = next_idx kb })
                else (if byte == 0xE1
                    then some (record kb { listen_pause = true; listen_idx = next_idx kb })
                    else finish_key kb byte))))

unfoldable pub keyboard_interrupt : Keyboard → ℕ → Option Keyboard
unfolding print_screen pause_key receive_byte
keyboard_interrupt kb byte =
    if kb.listen_prtscas
    then (if kb.listen_idx == 3 then some (print_screen kb released pressed) else some (advance kb))
    else (if kb.listen_prtscdeas
        then (if kb.listen_idx == 5
            then some (print_screen kb pressed released)
            else some (advance kb))
        else (if kb.listen_pause
            then (if kb.listen_idx == 7 then some (pause_key kb) else some (advance kb))
            else receive_byte kb byte))

-- The interrupts of a sequence of bytes.
unfoldable pub receive : Keyboard → List ℕ → Option Keyboard
receive kb [] = some kb
receive kb (byte ∷ bytes) = elim (keyboard_interrupt kb byte) [
  | none ↦ none
  | some kb' ↦ receive kb' bytes
]

-- `KC_INVALID`'s scancode 0 is the default of the switch.
unfoldable pub keyboard_get_key_state : Keyboard → ℕ → ℕ
keyboard_get_key_state kb keycode = elim (keycode_to_scancode keycode) [
  | none ↦ released
  | some (code, extended) ↦
      if code == 0
      then released
      else (if extended then kb.extended_key_states code else kb.standard_key_states code)
]
