-- ===== src/Timers/Pending.antt =====
-- The events that a timer interrupt leaves in the queue, the first two loops of
-- `IntmgmtTimerInterrupt` in Kernel/Source/Intmgmt/Timer.c.
use ych.Prelude.{
  ℕ, ◌+◌, ◌-◌, ◌%◌, ◌^◌, ◌<◌, ◌≡◌, refl, false, List, [], ◌∷◌, arith, leb, if◌then◌else◌,
  Bool-cases, inl, inr,
}
use ych.Timers.{TimerEvent, TimerInfo, run_expired, lower}
use ych.Timers.Queue.{NoneBefore, IsSorted}

-- The events that are not due within `ticks`, and what is then left of their time.
unfoldable pub pending : ℕ → List TimerEvent → List TimerEvent
pending ticks [] = []
pending ticks (e ∷ es) =
    let rest = pending ticks es in
    if leb e.last_tick_count ticks
    then rest
    else record e { last_tick_count = e.last_tick_count - ticks } ∷ rest

-- The ticks of 64 bits.
unfoldable pub AllWords : List TimerEvent → Type 0
AllWords [] = Unit {0}
AllWords (e ∷ es) = (e.last_tick_count < 2 ^ 64) × AllWords es

lower-pending :
    (n m : ℕ) (es : List TimerEvent)
    → n < m
    → NoneBefore m es
    → AllWords es
    → lower n es ≡ pending n es
unfolding lower pending NoneBefore AllWords
lower-pending n m [] l w words = refl
lower-pending n m (e ∷ es) l (a, w) (word, words) =
    let later : leb e.last_tick_count n ≡ false = ground arith in
    let ticks : (e.last_tick_count + 2 ^ 64 - n) % 2 ^ 64 ≡ e.last_tick_count - n = omega arith in
    simp (later, ticks, lower-pending n m es l w words) refl

-- The first two loops leave the events that are not due, with the time that is left.
pub run_expired-pending :
    (call : ℕ → ℕ → TimerInfo → TimerInfo) (n : ℕ) (es : List TimerEvent) (s : TimerInfo)
    → s.timer_root ≡ es
    → IsSorted es
    → AllWords es
    → lower n (run_expired call n es s).timer_root ≡ pending n es
unfolding run_expired pending lower IsSorted AllWords
run_expired-pending call n [] s root w words = rw root refl
run_expired-pending call n (e ∷ es) s root (low, w) (word, words) =
    elim (Bool-cases (leb e.last_tick_count n)) [
      | inl due ↦ simp due (run_expired-pending call n es _ refl w words)
      | inr later ↦
          let ticks : (e.last_tick_count + 2 ^ 64 - n) % 2 ^ 64 ≡ e.last_tick_count - n =
            ground arith in
          let rest = lower-pending n e.last_tick_count es (ground arith) low words in
          simp (later, root, ticks, rest) refl
    ]

pending-NoneBefore :
    (n m : ℕ) (es : List TimerEvent) → NoneBefore m es → NoneBefore (m - n) (pending n es)
unfolding pending NoneBefore
pending-NoneBefore n m [] w = tt
pending-NoneBefore n m (e ∷ es) (a, w) = elim (Bool-cases (leb e.last_tick_count n)) [
  | inl due ↦ simp due (pending-NoneBefore n m es w)
  | inr later ↦ simp later (omega arith, pending-NoneBefore n m es w)
]

pub pending-IsSorted : (n : ℕ) (es : List TimerEvent) → IsSorted es → IsSorted (pending n es)
unfolding pending IsSorted
pending-IsSorted n [] w = tt
pending-IsSorted n (e ∷ es) (low, w) = elim (Bool-cases (leb e.last_tick_count n)) [
  | inl due ↦ simp due (pending-IsSorted n es w)
  | inr later ↦ simp later (pending-NoneBefore n e.last_tick_count es low, pending-IsSorted n es w)
]
