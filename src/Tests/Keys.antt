-- ===== src/Tests/Keys.antt =====
-- The PS/2 keyboard, Kernel/Source/Devdriv/Keyboard, and the event queue.
use ych.Prelude.{
  ℕ, zero, suc, ◌-◌, ◌^◌, ◌<◌, ◌≡◌, refl, true, false, ◌||◌, not, arith, ltb, ◌==◌, if◌then◌else◌,
  some, is_some, List, [], ◌∷◌, ◌++◌, length,
}
use ych.Keyboard.Tables.{scancode_to_keycode, keycode_to_scancode}
use ych.Keyboard.Codes.{keycodes}
use ych.Keyboard.Codes.Named.{name_in, code_in, scancodes, scancode_to_keycode-named}
use ych.Keyboard.Tables.RoundTrip.{
  scancode_to_keycode-keycode_to_scancode, keycode_to_scancode-scancode_to_keycode,
  scancode_to_keycode-inside,
}
use ych.Keyboard.Names.{name_of, name_cases, name_of-missing, keycode_to_string}
use ych.Keyboard.Hub.{Event, Hub, push_keyboard_event, pop_keyboard_event, keyboard_event_queue_num}
use ych.Keyboard.Hub.Queue.{Holds, nth, push_keyboard_event-Holds, pop_keyboard_event-Holds}
use ych.Keyboard.Hub.Overflow.{push_keyboard_event-full, pop_keyboard_event-empty}
use ych.Keyboard.Handler.{receive, keyboard_get_key_state}
use ych.Keyboard.Handler.Messages.{
  Message, States, IsMessage, AllMessages, all_bytes, all_reported, reported, states_behind,
  states_behind_all, idle, receive-messages,
}
use ych.Keyboard.Handler.States.{keyboard_get_key_state-own, keyboard_get_key_state-other}

a_code : keycode_to_scancode 0x41 ≡ some (0x1C, false)
unfolding keycode_to_scancode
a_code = refl

a_key : scancode_to_keycode false 0x1C ≡ some 0x41
unfolding scancode_to_keycode
a_key = refl

a_named : keycode_to_string 0x41 ≡ "A"
unfolding keycode_to_string name_of
a_named = refl

scancode_to_keycode-keycode_to_scancode_example : scancode_to_keycode false 0x1C ≡ some 0x41
scancode_to_keycode-keycode_to_scancode_example =
    scancode_to_keycode-keycode_to_scancode 0x41 0x1C false (omega arith) (λ e. omega arith)
      (λ e. omega arith) a_code

keycode_to_scancode-scancode_to_keycode_run : keycode_to_scancode 0x41 ≡ some (0x1C, false)
keycode_to_scancode-scancode_to_keycode_run =
    keycode_to_scancode-scancode_to_keycode 0x1C 0x41 false (omega arith) (λ e. omega arith) a_key

scancode_to_keycode-inside_run :
    is_some (scancode_to_keycode true 0x90) ≡ ltb 0x90 (if true then 126 else 132)
scancode_to_keycode-inside_run = scancode_to_keycode-inside 0x90 true (omega arith)

f6_has_code : is_some (keycode_to_scancode 0xF6) ≡ true
unfolding keycode_to_scancode
f6_has_code = refl

name_of-missing_run : is_some (name_of 0xF6 name_cases) ≡ not (0xF6 == 0xB1 || 0xF6 == 0xF6)
name_of-missing_run = name_of-missing 0xF6 (omega arith) f6_has_code

abbrev press : ℕ → Event
press k = record { old_state = 0; new_state = 1; keycode = k; keymod = 0 }

abbrev empty_hub : Hub
empty_hub = record { queue = λ i. press 0; head = 0; tail = 0; num = 0 }

empty-Holds : Holds empty_hub []
empty-Holds = record {
  fits = omega arith;
  starts = omega arith;
  ends = refl;
  counts = refl;
  slots = λ i h. absurd (omega arith);
}

push_keyboard_event-Holds_example :
    Holds (push_keyboard_event empty_hub (press 0x41)) (press 0x41 ∷ [])
push_keyboard_event-Holds_example =
    push_keyboard_event-Holds empty_hub [] (press 0x41) empty-Holds (omega arith)

abbrev one_pending : Hub
one_pending = record { queue = λ i. press 0x41; head = 127; tail = 0; num = 1 }

one-Holds : Holds one_pending (press 0x41 ∷ [])
unfolding nth
one-Holds = record {
  fits = omega arith;
  starts = omega arith;
  ends = refl;
  counts = refl;
  slots = one_slot;
}
  where
    one_slot : (i : ℕ) → i < 1 → nth (press 0x41 ∷ []) i ≡ some (press 0x41)
    one_slot zero h = refl
    one_slot (suc i) h = absurd (omega arith)

pop_keyboard_event-Holds_example :
    ((pop_keyboard_event one_pending).0 ≡ press 0x41)
    × (Holds (pop_keyboard_event one_pending).1 []
        × (keyboard_event_queue_num (pop_keyboard_event one_pending).1 ≡ length {A = Event} []))
pop_keyboard_event-Holds_example = pop_keyboard_event-Holds one_pending (press 0x41) [] one-Holds

pop_keyboard_event-empty_run :
    (keyboard_event_queue_num (pop_keyboard_event empty_hub).1 ≡ 2 ^ 32 - 1)
    × ¬ Holds (pop_keyboard_event empty_hub).1 []
pop_keyboard_event-empty_run = pop_keyboard_event-empty empty_hub [] empty-Holds

-- A ring of 128 equal events.
abbrev many : ℕ → List Event
many zero = []
many (suc n) = press 0x41 ∷ many n

length-many : (n : ℕ) → length (many n) ≡ n
length-many zero = refl
length-many (suc n) = omega (arith, length-many n)

nth-many : (n i : ℕ) → i < n → nth (many n) i ≡ some (press 0x41)
unfolding nth
nth-many zero i h = absurd (omega arith)
nth-many (suc n) zero h = refl
nth-many (suc n) (suc i) h = nth-many n i (omega arith)

abbrev full_hub : Hub
full_hub = record { queue = λ i. press 0x41; head = 0; tail = 0; num = 128 }

full-Holds : Holds full_hub (many 128)
full-Holds = record {
  fits = omega (arith, length-many 128);
  starts = omega arith;
  ends = refl;
  counts = refl;
  slots = λ i h. nth-many 128 i (omega (arith, length-many 128));
}

push_keyboard_event-full_run :
    (keyboard_event_queue_num (push_keyboard_event full_hub (press 0x42)) ≡ 128)
    × ((pop_keyboard_event (push_keyboard_event full_hub (press 0x42))).0 ≡ press 0x42)
push_keyboard_event-full_run =
    push_keyboard_event-full full_hub (many 128) (press 0x42) full-Holds (length-many 128)

abbrev all_released : States
all_released = record { standard = λ i. 0; extended = λ i. 0 }

-- Left shift and A are pressed, then "print screen".
abbrev typed : List Message
typed =
    Message.key false false 0x12 0x80
    ∷ Message.key false false 0x1C 0x41
    ∷ Message.print_screen_press
    ∷ []

shift_key : scancode_to_keycode false 0x12 ≡ some 0x80
unfolding scancode_to_keycode
shift_key = refl

a-IsMessage : IsMessage (Message.key false false 0x1C 0x41)
unfolding IsMessage
a-IsMessage = (omega arith, (a_key, (refl, refl)))

shift-IsMessage : IsMessage (Message.key false false 0x12 0x80)
unfolding IsMessage
shift-IsMessage = (omega arith, (shift_key, (refl, refl)))

typed-AllMessages : AllMessages typed
unfolding AllMessages IsMessage
typed-AllMessages = (shift-IsMessage, (a-IsMessage, (tt, tt)))

typed-length : length (all_reported typed all_released) ≡ 3
unfolding all_reported reported
typed-length = refl

receive-messages_example :
    (hub' : Hub) × ((receive (idle all_released empty_hub) (all_bytes typed)
        ≡ some (idle (states_behind_all typed all_released) hub'))
      × Holds hub' ([] ++ all_reported typed all_released))
receive-messages_example =
    receive-messages typed all_released empty_hub [] typed-AllMessages empty-Holds
      (omega (arith, typed-length))

keyboard_get_key_state-own_run :
    keyboard_get_key_state
      (idle (states_behind (Message.key false false 0x1C 0x41) all_released) empty_hub)
      0x41
    ≡ (if false then 0 else 1)
keyboard_get_key_state-own_run =
    keyboard_get_key_state-own false false 0x1C 0x41 all_released empty_hub a-IsMessage
      (λ e. omega arith)

keyboard_get_key_state-other_run :
    keyboard_get_key_state
      (idle (states_behind (Message.key false false 0x1C 0x41) all_released) empty_hub)
      0x42
    ≡ keyboard_get_key_state (idle all_released empty_hub) 0x42
keyboard_get_key_state-other_run =
    keyboard_get_key_state-other false false 0x1C 0x41 0x42 all_released empty_hub a-IsMessage
      (omega arith) (λ e. omega arith)

f1_name : name_in 0x05 (scancodes false) ≡ some "F1"
unfolding name_in
f1_name = refl

f1_code : code_in "F1" keycodes ≡ some 0xF1
unfolding code_in
f1_code = refl

scancode_to_keycode-named_run : scancode_to_keycode false 0x05 ≡ some 0xF1
scancode_to_keycode-named_run =
    scancode_to_keycode-named false 0x05 0xF1 "F1" (omega arith) f1_name f1_code
