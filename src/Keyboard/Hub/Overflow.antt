-- ===== src/Keyboard/Hub/Overflow.antt =====
-- The queue at its limits: a push on a full ring, and a pop on an empty one.
use ych.Prelude.{◌+◌, ◌-◌, ◌%◌, ◌^◌, ◌≡◌, refl, List, [], length, arith, eq→beq}
use ych.Keyboard.Hub.{Event, Hub, push_keyboard_event, pop_keyboard_event, keyboard_event_queue_num}
use ych.Keyboard.Hub.Queue.{Holds}

-- A push on a hub with 128 pending events leaves the head at the slot it overwrites: the number
-- stays 128 and the next pop returns the newest event, not the oldest that is left.
pub push_keyboard_event-full :
    (hub : Hub) (es : List Event) (event : Event)
    → Holds hub es
    → length es ≡ 128
    → let pushed = push_keyboard_event hub event in
      (keyboard_event_queue_num pushed ≡ 128) × ((pop_keyboard_event pushed).0 ≡ event)
unfolding push_keyboard_event pop_keyboard_event keyboard_event_queue_num
push_keyboard_event-full hub es event holds full =
    let wrapped : hub.head ≡ hub.tail = omega (arith, holds.ends, holds.starts) in
    (ground (arith, holds.counts), rw (eq→beq hub.head hub.tail wrapped) refl)

-- A pop on a hub without pending events wraps its number around to 2^32 - 1, so that the hub then
-- holds no list of events.
pub pop_keyboard_event-empty :
    (hub : Hub) (es : List Event)
    → Holds hub []
    → let (event, rest) = pop_keyboard_event hub in
      (keyboard_event_queue_num rest ≡ 2 ^ 32 - 1) × ¬ Holds rest es
unfolding pop_keyboard_event keyboard_event_queue_num
pop_keyboard_event-empty hub es holds =
    let wraps : (hub.num + 2 ^ 32 - 1) % 2 ^ 32 ≡ 2 ^ 32 - 1 = omega (arith, holds.counts) in
    (wraps, λ other. let fits = other.fits in omega (arith, wraps, other.counts, fits))
