-- ===== src/Keyboard/Handler/States.antt =====
-- `PS2_KeyboardGetKeyState` behind the message of a key.
use ych.Prelude.{
  ℕ, ◌<◌, ◌≡◌, ◌≢◌, refl, sym, ap, ◌∙◌, Bool, true, false, ◌==◌, if◌then◌else◌, Option, none, some,
  arith,
}
use ych.Keyboard.Tables.{scancode_to_keycode, keycode_to_scancode}
use ych.Keyboard.Tables.RoundTrip.{
  keycode_to_scancode-scancode_to_keycode, scancode_to_keycode-keycode_to_scancode,
}
use ych.Keyboard.Hub.{Hub}
use ych.Keyboard.Handler.{Keyboard, keyboard_get_key_state}
use ych.Keyboard.Handler.Messages.{Message, States, IsMessage, states_behind, idle}

zero_is_no_key : (ext : Bool) (k : ℕ) → scancode_to_keycode ext 0 ≡ some k → k ≡ 0
unfolding scancode_to_keycode
zero_is_no_key true k e = cc
zero_is_no_key false k e = cc

-- The scancode of the key that a message is about.
own_code :
    (extended broken : Bool) (code k : ℕ)
    → IsMessage (Message.key extended broken code k)
    → k ≢ 0
    → keycode_to_scancode k ≡ some (code, extended)
unfolding IsMessage
own_code extended broken code k (low, (table, rest)) key =
    keycode_to_scancode-scancode_to_keycode code k extended (omega arith) key table

code_not_zero :
    (extended broken : Bool) (code k : ℕ)
    → IsMessage (Message.key extended broken code k)
    → k ≢ 0
    → code ≢ 0
unfolding IsMessage
code_not_zero extended broken code k (low, (table, rest)) key zero =
    key (zero_is_no_key extended k (sym (ap (scancode_to_keycode extended) zero) ∙ table))

-- What the function reads: the stored state of the scancode that stands for the key.
stored : Keyboard → Option (ℕ × Bool) → ℕ
stored kb none = 0
stored kb (some (code, true)) = if code == 0 then 0 else kb.extended_key_states code
stored kb (some (code, false)) = if code == 0 then 0 else kb.standard_key_states code

get-stored :
    (kb : Keyboard) (k : ℕ) (o : Option (ℕ × Bool))
    → keycode_to_scancode k ≡ o
    → keyboard_get_key_state kb k ≡ stored kb o
unfolding keyboard_get_key_state stored
get-stored kb k none e = ground (arith, e)
get-stored kb k (some (code, true)) e = ground (arith, e)
get-stored kb k (some (code, false)) e = ground (arith, e)

stored-own :
    (extended broken : Bool) (code k : ℕ) (s : States) (hub : Hub)
    → code ≢ 0
    → stored
        (idle (states_behind (Message.key extended broken code k) s) hub)
        (some (code, extended))
      ≡ (if broken then 0 else 1)
unfolding stored idle states_behind
stored-own false broken code k s hub h = ground arith
stored-own true broken code k s hub h = ground arith

-- Behind the whole message of a key other than code 0, a press makes the key count as pressed, a
-- release as released.
pub keyboard_get_key_state-own :
    (extended broken : Bool) (code k : ℕ) (s : States) (hub : Hub)
    → IsMessage (Message.key extended broken code k)
    → k ≢ 0
    → keyboard_get_key_state (idle (states_behind (Message.key extended broken code k) s) hub) k
      ≡ (if broken then 0 else 1)
keyboard_get_key_state-own extended broken code k s hub valid key =
    get-stored _ k (some (code, extended)) (own_code extended broken code k valid key)
    ∙ stored-own extended broken code k s hub (code_not_zero extended broken code k valid key)

-- Another key's scancode, or the other array.
IsApart : Bool → ℕ → Option (ℕ × Bool) → Type 0
IsApart extended code none = Unit
IsApart extended code (some (c, e)) = (e ≡ extended) → c ≢ code

stored-other :
    (extended broken : Bool) (code k : ℕ) (s : States) (hub : Hub) (o : Option (ℕ × Bool))
    → IsApart extended code o
    → stored (idle (states_behind (Message.key extended broken code k) s) hub) o
      ≡ stored (idle s hub) o
unfolding stored idle states_behind IsApart
stored-other false broken code k s hub none apart = refl
stored-other true broken code k s hub none apart = refl
stored-other false broken code k s hub (some (c, true)) apart = refl
stored-other true broken code k s hub (some (c, false)) apart = refl
stored-other false broken code k s hub (some (c, false)) apart = ground (arith, apart refl)
stored-other true broken code k s hub (some (c, true)) apart = ground (arith, apart refl)

print_screen_code : keycode_to_scancode 0x95 ≡ some (0xF7, false)
unfolding keycode_to_scancode
print_screen_code = refl

pause_code : keycode_to_scancode 0x96 ≡ some (0xF8, false)
unfolding keycode_to_scancode
pause_code = refl

code_of : Option (ℕ × Bool) → ℕ
code_of none = 0
code_of (some (code, ext)) = code

special_code :
    (k c : ℕ) (e : Bool) → keycode_to_scancode k ≡ some (c, e) → c < 0xE0 → (k ≢ 0x95) × (k ≢ 0x96)
unfolding code_of
special_code k c e found low =
    let print : keycode_to_scancode 0x95 ≡ some (0xF7, false) = print_screen_code in
    let pause : keycode_to_scancode 0x96 ≡ some (0xF8, false) = pause_code in
    (
      (λ p.
          let t : some (0xF7, false) ≡ some (c, e) =
            sym print ∙ ap keycode_to_scancode (sym p) ∙ found in
          let u : 0xF7 ≡ c = ap code_of t in omega (arith, u, low)),
      (λ p.
          let t : some (0xF8, false) ≡ some (c, e) =
            sym pause ∙ ap keycode_to_scancode (sym p) ∙ found in
          let u : 0xF8 ≡ c = ap code_of t in omega (arith, u, low)),
    )

apart_lem :
    (extended broken : Bool) (code k j : ℕ) (o : Option (ℕ × Bool))
    → IsMessage (Message.key extended broken code k)
    → j < 256
    → j ≢ k
    → keycode_to_scancode j ≡ o
    → IsApart extended code o
unfolding IsMessage IsApart
apart_lem extended broken code k j none valid h other found = tt
apart_lem extended broken code k j (some (c, e)) (low, (table, rest)) h other found = λ ext same.
    let (print, pause) = special_code j c e found (omega (arith, same, low)) in
    let back = scancode_to_keycode-keycode_to_scancode j c e h print pause found in
    let moved : scancode_to_keycode e c ≡ some k = rw (ext, same) table in other cc

-- The whole message of a key changes the state of no other key, for key codes below 256.
pub keyboard_get_key_state-other :
    (extended broken : Bool) (code k j : ℕ) (s : States) (hub : Hub)
    → IsMessage (Message.key extended broken code k)
    → j < 256
    → j ≢ k
    → keyboard_get_key_state (idle (states_behind (Message.key extended broken code k) s) hub) j
      ≡ keyboard_get_key_state (idle s hub) j
keyboard_get_key_state-other extended broken code k j s hub valid h other =
    get-stored _ j _ refl
    ∙ stored-other extended broken code k s hub (keycode_to_scancode j)
        (apart_lem extended broken code k j _ valid h other refl)
    ∙ sym (get-stored _ j _ refl)
