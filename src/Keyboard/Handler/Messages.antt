-- ===== src/Keyboard/Handler/Messages.antt =====
-- Whole messages of scan code set 2: what the handler makes of the bytes of a key press, a key
-- release, "print screen" and "pause", and of a sequence of them.
use ych.Prelude.{
  ℕ, ◌+◌, ◌≤◌, ◌<◌, ◌≡◌, refl, sym, ap, ◌∙◌, Bool, true, false, not, ◌&&◌, ◌||◌, ◌==◌,
  if◌then◌else◌, none, some, List, [], ◌∷◌, ◌++◌, length, length-append, arith,
}
use mathlib.Core.Path.{subst}
use ych.Keyboard.Tables.{scancode_to_keycode}
use ych.Keyboard.Hub.{Event, Hub, push_keyboard_event}
use ych.Keyboard.Hub.Queue.{Holds, push_keyboard_event-Holds}
use ych.Keyboard.Handler.{
  Keyboard, quiet, set_state, sample_keymod, print_screen, pause_key, finish_key, receive_byte,
  keyboard_interrupt, receive,
}

pub data Message : Type 0 where
  key : (extended broken : Bool) (scancode keycode : ℕ) → Message
  print_screen_press : Message
  print_screen_release : Message
  pause : Message

key_bytes : Bool → Bool → ℕ → List ℕ
key_bytes false false code = code ∷ []
key_bytes false true code = 0xF0 ∷ code ∷ []
key_bytes true false code = 0xE0 ∷ code ∷ []
key_bytes true true code = 0xE0 ∷ 0xF0 ∷ code ∷ []

unfoldable pub message_bytes : Message → List ℕ
unfolding key_bytes
message_bytes (Message.key extended broken code k) = key_bytes extended broken code
message_bytes Message.print_screen_press = 0xE0 ∷ 0x12 ∷ 0xE0 ∷ 0x7C ∷ []
message_bytes Message.print_screen_release = 0xE0 ∷ 0xF0 ∷ 0x7C ∷ 0xE0 ∷ 0xF0 ∷ 0x12 ∷ []
message_bytes Message.pause = 0xE1 ∷ 0x14 ∷ 0x77 ∷ 0xE1 ∷ 0xF0 ∷ 0x14 ∷ 0xF0 ∷ 0x77 ∷ []

-- The message of a key: the keyboard's code of it is in the tables, and it does not begin as the
-- message of "print screen" does.
unfoldable pub IsMessage : Message → Type 0
IsMessage (Message.key extended broken code k) =
    (code < 0xE0)
    × ((scancode_to_keycode extended code ≡ some k)
        × (((extended && (not broken && (code == 0x12))) ≡ false)
            × ((extended && (broken && (code == 0x7C))) ≡ false)))
IsMessage Message.print_screen_press = Unit
IsMessage Message.print_screen_release = Unit
IsMessage Message.pause = Unit

pub record States : Type 0 where
  pub standard : ℕ → ℕ
  pub extended : ℕ → ℕ

-- The key states behind a message.
unfoldable pub states_behind : Message → States → States
states_behind (Message.key false broken code k) s = record s {
  standard = set_state s.standard code (if broken then 0 else 1);
}
states_behind (Message.key true broken code k) s = record s {
  extended = set_state s.extended code (if broken then 0 else 1);
}
states_behind Message.print_screen_press s = record s { standard = set_state s.standard 0xF7 1 }
states_behind Message.print_screen_release s = record s { standard = set_state s.standard 0xF7 0 }
states_behind Message.pause s = s

unfoldable pub modifiers : States → ℕ
unfolding sample_keymod
modifiers s = sample_keymod s.standard s.extended

-- The events that a message is reported as. A modifier key counts for its own event.
unfoldable pub reported : Message → States → List Event
unfolding states_behind
reported (Message.key extended broken code k) s =
    record {
      old_state = if broken then 1 else 0;
      new_state = if broken then 0 else 1;
      keycode = k;
      keymod = modifiers (states_behind (Message.key extended broken code k) s);
    }
    ∷ []
reported Message.print_screen_press s =
    record { old_state = 0; new_state = 1; keycode = 0x95; keymod = modifiers s } ∷ []
reported Message.print_screen_release s =
    record { old_state = 1; new_state = 0; keycode = 0x95; keymod = modifiers s } ∷ []
reported Message.pause s =
    record { old_state = 0; new_state = 1; keycode = 0x96; keymod = modifiers s }
    ∷ record { old_state = 1; new_state = 0; keycode = 0x96; keymod = modifiers s }
    ∷ []

push_all : Hub → List Event → Hub
push_all hub [] = hub
push_all hub (e ∷ es) = push_all (push_keyboard_event hub e) es

-- The keyboard between two messages.
unfoldable pub idle : States → Hub → Keyboard
idle s hub = quiet s.standard s.extended hub

-- A byte below the prefixes that begins no "print screen" ends the message.
last_byte :
    (kb : Keyboard) (code : ℕ)
    → (kb.listen_prtscas || (kb.listen_prtscdeas || kb.listen_pause)) ≡ false
    → code < 0xE0
    → (code == 0x12 && (kb.listen_idx == 1 && kb.listen_extended)) ≡ false
    → (code == 0x7C && (kb.listen_idx == 2 && (kb.listen_extended && kb.listen_broken))) ≡ false
    → keyboard_interrupt kb code ≡ finish_key kb code
unfolding keyboard_interrupt receive_byte
last_byte kb code plain low notp notr = ground arith

receive-last :
    (kb kb' : Keyboard) (code : ℕ)
    → keyboard_interrupt kb code ≡ finish_key kb code
    → finish_key kb code ≡ some kb'
    → receive kb (code ∷ []) ≡ some kb'
unfolding receive
receive-last kb kb' code e f = ap (λ o. elim o [ none ↦ none | some k ↦ some k ]) (e ∙ f)

-- What the keyboard has received of a key's message before its last byte.
listening : Bool → Bool → ℕ → States → Hub → Keyboard
listening extended broken idx s hub = record (quiet s.standard s.extended hub) {
  listen_extended = extended;
  listen_broken = broken;
  listen_idx = idx;
}

finish-key_lem :
    (extended broken : Bool) (idx code k : ℕ) (s : States) (hub : Hub)
    → scancode_to_keycode extended code ≡ some k
    → let m = Message.key extended broken code k in
      finish_key (listening extended broken idx s hub) code
      ≡ some (idle (states_behind m s) (push_all hub (reported m s)))
unfolding finish_key listening idle states_behind reported modifiers push_all
finish-key_lem false false idx code k s hub table = ground (arith, table)
finish-key_lem false true idx code k s hub table = ground (arith, table)
finish-key_lem true false idx code k s hub table = ground (arith, table)
finish-key_lem true true idx code k s hub table = ground (arith, table)

-- The bytes of one message, received by an idle keyboard, leave it idle, with the message's events
-- pushed and its key states stored.
receive-message :
    (m : Message) (s : States) (hub : Hub)
    → IsMessage m
    → receive (idle s hub) (message_bytes m)
      ≡ some (idle (states_behind m s) (push_all hub (reported m s)))
unfolding receive keyboard_interrupt receive_byte print_screen pause_key message_bytes states_behind
    reported modifiers idle push_all key_bytes IsMessage listening
receive-message (Message.key false false code k) s hub (low, (table, (notp, notr))) =
    receive-last (listening false false 0 s hub) _ code
      (last_byte _ code refl low (ground arith) (ground arith))
      (finish-key_lem false false 0 code k s hub table)
receive-message (Message.key false true code k) s hub (low, (table, (notp, notr))) =
    receive-last (listening false true 1 s hub) _ code
      (last_byte _ code refl low (ground arith) (ground arith))
      (finish-key_lem false true 1 code k s hub table)
receive-message (Message.key true false code k) s hub (low, (table, (notp, notr))) =
    receive-last (listening true false 1 s hub) _ code
      (last_byte _ code refl low (ground arith) (ground arith))
      (finish-key_lem true false 1 code k s hub table)
receive-message (Message.key true true code k) s hub (low, (table, (notp, notr))) =
    receive-last (listening true true 2 s hub) _ code
      (last_byte _ code refl low (ground arith) (ground arith))
      (finish-key_lem true true 2 code k s hub table)
receive-message Message.print_screen_press s hub valid = refl
receive-message Message.print_screen_release s hub valid = refl
receive-message Message.pause s hub valid = refl

receive-append :
    (kb kb' : Keyboard) (xs ys : List ℕ)
    → receive kb xs ≡ some kb'
    → receive kb (xs ++ ys) ≡ receive kb' ys
unfolding receive
receive-append kb kb' [] ys e = ap (λ o. elim o [ none ↦ none | some k ↦ receive k ys ]) e
receive-append kb kb' (x ∷ xs) ys e =
    elim (keyboard_interrupt kb x)
        as (λ o.
          elim o [ none ↦ none | some k ↦ receive k xs ] ≡ some kb'
          → elim o [ none ↦ none | some k ↦ receive k (xs ++ ys) ] ≡ receive kb' ys) [
            | none ↦ λ h. cc
            | some k ↦ λ h. receive-append k kb' xs ys h
          ]
      e

unfoldable pub all_bytes : List Message → List ℕ
all_bytes [] = []
all_bytes (m ∷ ms) = message_bytes m ++ all_bytes ms

unfoldable pub AllMessages : List Message → Type 0
AllMessages [] = Unit
AllMessages (m ∷ ms) = IsMessage m × AllMessages ms

unfoldable pub all_reported : List Message → States → List Event
all_reported [] s = []
all_reported (m ∷ ms) s = reported m s ++ all_reported ms (states_behind m s)

unfoldable pub states_behind_all : List Message → States → States
states_behind_all [] s = s
states_behind_all (m ∷ ms) s = states_behind_all ms (states_behind m s)

push_all-append :
    (hub : Hub) (es fs : List Event) → push_all hub (es ++ fs) ≡ push_all (push_all hub es) fs
unfolding push_all
push_all-append hub [] fs = refl
push_all-append hub (e ∷ es) fs = push_all-append (push_keyboard_event hub e) es fs

receive-all :
    (ms : List Message) (s : States) (hub : Hub)
    → AllMessages ms
    → receive (idle s hub) (all_bytes ms)
      ≡ some (idle (states_behind_all ms s) (push_all hub (all_reported ms s)))
unfolding all_bytes AllMessages all_reported states_behind_all receive push_all
receive-all [] s hub valid = refl
receive-all (m ∷ ms) s hub (valid, valids) =
    receive-append _ _ (message_bytes m) (all_bytes ms) (receive-message m s hub valid)
    ∙ receive-all ms (states_behind m s) (push_all hub (reported m s)) valids
    ∙ ap (λ h. some (idle (states_behind_all ms (states_behind m s)) h))
        (sym (push_all-append hub (reported m s) (all_reported ms (states_behind m s))))

++-nil : (es : List Event) → es ++ [] ≡ es
++-nil [] = refl
++-nil (x ∷ es) = ap (λ l. x ∷ l) (++-nil es)

append_assoc :
    (es : List Event) (e : Event) (fs : List Event) → (es ++ (e ∷ [])) ++ fs ≡ es ++ (e ∷ fs)
append_assoc [] e fs = refl
append_assoc (x ∷ es) e fs = ap (λ l. x ∷ l) (append_assoc es e fs)

push_all-Holds :
    (hub : Hub) (es fs : List Event)
    → Holds hub es
    → length es + length fs ≤ 128
    → Holds (push_all hub fs) (es ++ fs)
unfolding push_all
push_all-Holds hub es [] holds room = subst (Holds hub) (sym (++-nil es)) holds
push_all-Holds hub es (f ∷ fs) holds room =
    let n = length-append es (f ∷ []) in
    subst (Holds (push_all (push_keyboard_event hub f) fs)) (append_assoc es f fs) (
      push_all-Holds (push_keyboard_event hub f) (es ++ (f ∷ [])) fs
        (push_keyboard_event-Holds hub es f holds (omega arith)) (omega (arith, n)))

-- From an idle keyboard, the bytes of a sequence of messages, whose scancodes the tables translate,
-- are all received. They leave the keyboard idle with the key states of the messages, and the hub
-- holds the pending events, then those the messages report, in their order, as long as these are at
-- most 128 together.
pub receive-messages :
    (ms : List Message) (s : States) (hub : Hub) (es : List Event)
    → AllMessages ms
    → Holds hub es
    → length es + length (all_reported ms s) ≤ 128
    → (hub' : Hub) × ((receive (idle s hub) (all_bytes ms)
          ≡ some (idle (states_behind_all ms s) hub'))
        × Holds hub' (es ++ all_reported ms s))
receive-messages ms s hub es valid holds room = (
  push_all hub (all_reported ms s),
  (receive-all ms s hub valid, push_all-Holds hub es (all_reported ms s) holds room),
)
