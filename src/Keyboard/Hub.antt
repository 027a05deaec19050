-- ===== src/Keyboard/Hub.antt =====
-- The queue of keyboard events, Kernel/Source/HumanInterface/KeyboardHub.c: a ring of 128 slots.
use ych.Prelude.{ℕ, ◌+◌, ◌-◌, ◌%◌, ◌^◌, min, leb, ◌==◌, if◌then◌else◌}
pub mod Queue
pub mod Overflow

-- The source device is the keyboard in every event that the code builds.
pub record Event : Type 0 where
  pub old_state : ℕ
  pub new_state : ℕ
  pub keycode : ℕ
  pub keymod : ℕ

abbrev pub max_keyboard_events : ℕ
max_keyboard_events = 128

pub record Hub : Type 0 where
  pub queue : ℕ → Event
  pub head : ℕ
  pub tail : ℕ
  pub num : ℕ

abbrev pub store_event : (ℕ → Event) → ℕ → Event → ℕ → Event
store_event queue slot event i = if i == slot then event else queue i

-- The index behind a slot, with the wrap at the end of the ring.
abbrev pub next_slot : ℕ → ℕ
next_slot i = if leb max_keyboard_events (i + 1) then 0 else i + 1

unfoldable pub push_keyboard_event : Hub → Event → Hub
push_keyboard_event hub event = record {
  queue = store_event hub.queue hub.tail event;
  head = hub.head;
  tail = next_slot hub.tail;
  num = min max_keyboard_events ((hub.num + 1) % 2 ^ 32);
}

-- The counter is an unsigned 32-bit integer, which wraps below zero.
unfoldable pub pop_keyboard_event : Hub → Event × Hub
pop_keyboard_event hub = (
  hub.queue hub.head,
  record {
    queue = hub.queue;
    head = next_slot hub.head;
    tail = hub.tail;
    num = (hub.num + 2 ^ 32 - 1) % 2 ^ 32;
  },
)

unfoldable pub keyboard_event_queue_num : Hub → ℕ
keyboard_event_queue_num hub = hub.num
