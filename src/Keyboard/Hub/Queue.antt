-- ===== src/Keyboard/Hub/Queue.antt =====
-- The ring against a first-in first-out list of the pending events.
use ych.Prelude.{
  ℕ, zero, suc, ◌+◌, ◌-◌, ◌%◌, ◌^◌, ◌≤◌, ◌<◌, ◌≡◌, refl, sym, List, [], ◌∷◌, ◌++◌, length,
  length-append, Option, none, some, arith, ltb, ltb→lt, ne→beq, eq→beq, ap, ◌∙◌, Bool-cases, inl,
  inr,
}
use ych.Keyboard.Hub.{
  Event, Hub, store_event, next_slot, push_keyboard_event, pop_keyboard_event,
  keyboard_event_queue_num,
}

unfoldable pub nth : List Event → ℕ → Option Event
nth [] i = none
nth (e ∷ es) zero = some e
nth (e ∷ es) (suc i) = nth es i

nth-append : (es fs : List Event) (i : ℕ) → i < length es → nth (es ++ fs) i ≡ nth es i
unfolding nth
nth-append [] fs i h = absurd (omega arith)
nth-append (e ∷ es) fs zero h = refl
nth-append (e ∷ es) fs (suc i) h = nth-append es fs i (omega arith)

nth-last : (es : List Event) (e : Event) → nth (es ++ (e ∷ [])) (length es) ≡ some e
unfolding nth
nth-last [] e = refl
nth-last (f ∷ es) e = nth-last es e

-- The hub holds exactly the events of the list, the oldest at the head.
pub record Holds (hub : Hub) (es : List Event) : Type 0 where
  pub fits : length es ≤ 128
  pub starts : hub.head < 128
  pub ends : hub.tail ≡ (hub.head + length es) % 128
  pub counts : hub.num ≡ length es
  pub slots : (i : ℕ) → i < length es → nth es i ≡ some (hub.queue ((hub.head + i) % 128))

next_slot-mod : (i : ℕ) → i < 128 → next_slot i ≡ (i + 1) % 128
next_slot-mod i h = ground arith

-- A slot in front of the tail keeps its event.
slot-kept :
    (hub : Hub) (n i : ℕ) (event : Event)
    → hub.head < 128
    → hub.tail ≡ (hub.head + n) % 128
    → i < n
    → n < 128
    → store_event hub.queue hub.tail event ((hub.head + i) % 128) ≡ hub.queue ((hub.head + i) % 128)
slot-kept hub n i event start e h room =
    rw (ne→beq ((hub.head + i) % 128) hub.tail (λ eq. omega (arith, eq, e))) refl

slot-stored :
    (hub : Hub) (n : ℕ) (event : Event)
    → hub.tail ≡ (hub.head + n) % 128
    → store_event hub.queue hub.tail event ((hub.head + n) % 128) ≡ event
slot-stored hub n event e = rw (eq→beq ((hub.head + n) % 128) hub.tail (sym e)) refl

slots-push :
    (hub : Hub) (es : List Event) (event : Event)
    → Holds hub es
    → length es < 128
    → (i : ℕ) → i < length (es ++ (event ∷ []))
    → nth (es ++ (event ∷ [])) i
      ≡ some (store_event hub.queue hub.tail event ((hub.head + i) % 128))
slots-push hub es event holds room i h = elim (Bool-cases (ltb i (length es))) [
  | inl t ↦
      nth-append es (event ∷ []) i (ltb→lt _ _ t)
      ∙ holds.slots i (ltb→lt _ _ t)
      ∙ ap some
          (sym (slot-kept hub (length es) i event holds.starts holds.ends (ltb→lt _ _ t) room))
  | inr f ↦
      let same : i ≡ length es = ground (arith, length-append es (event ∷ [])) in
      ap (nth (es ++ (event ∷ []))) same
      ∙ nth-last es event
      ∙ ap some (sym (slot-stored hub (length es) event holds.ends))
      ∙ ap (λ j. some (store_event hub.queue hub.tail event ((hub.head + j) % 128))) (sym same)
]

-- While fewer than 128 events are pending, a pushed event goes behind the pending ones.
pub push_keyboard_event-Holds :
    (hub : Hub) (es : List Event) (event : Event)
    → Holds hub es
    → length es < 128
    → Holds (push_keyboard_event hub event) (es ++ (event ∷ []))
unfolding push_keyboard_event
push_keyboard_event-Holds hub es event holds room =
    let n = length-append es (event ∷ []) in
    record {
      fits = omega (arith, n);
      starts = holds.starts;
      ends = next_slot-mod hub.tail (omega (arith, holds.ends)) ∙ omega (arith, holds.ends, n);
      counts = omega (arith, holds.counts, n);
      slots = slots-push hub es event holds room;
    }

-- The pop of a hub with pending events returns the oldest of them and keeps the rest, and the
-- number of the queue is the number of pending events.
pub pop_keyboard_event-Holds :
    (hub : Hub) (event : Event) (es : List Event)
    → Holds hub (event ∷ es)
    → let (oldest, rest) = pop_keyboard_event hub in
      (oldest ≡ event) × (Holds rest es × (keyboard_event_queue_num rest ≡ length es))
unfolding pop_keyboard_event keyboard_event_queue_num nth
pop_keyboard_event-Holds hub event es holds =
    let here : (hub.head + 0) % 128 ≡ hub.head = omega (arith, holds.starts) in
    let first : some event ≡ some (hub.queue hub.head) =
      holds.slots 0 (omega arith) ∙ ap (λ j. some (hub.queue j)) here in
    let next : next_slot hub.head ≡ (hub.head + 1) % 128 = next_slot-mod hub.head holds.starts in
    let fits = holds.fits in
    let counts : (hub.num + 2 ^ 32 - 1) % 2 ^ 32 ≡ length es = omega (arith, holds.counts, fits) in
    (
      cc,
      (
        record {
          fits = omega (arith, fits);
          starts = omega (arith, next);
          ends = omega (arith, holds.ends, next);
          counts = counts;
          slots = λ i h.
              let moved : (hub.head + suc i) % 128 ≡ (next_slot hub.head + i) % 128 =
                omega (arith, next) in
              holds.slots (suc i) (omega arith) ∙ ap (λ j. some (hub.queue j)) moved;
        },
        counts,
      ),
    )
