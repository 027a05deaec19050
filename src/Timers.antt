-- ===== src/Timers.antt =====
-- The timers of one processor: Kernel/Source/CPU/PerCpu.c and Kernel/Source/Intmgmt/Timer.c.
pub mod Queue
pub mod Pending
pub mod Deferred
pub mod Expiry
use ych.Prelude.{
  ℕ, zero, suc, ◌+◌, ◌-◌, ◌*◌, ◌/◌, ◌%◌, ◌^◌, min, bit_and, bit_or, Bool, true, false, not, leb,
  ltb, ◌==◌, if◌then◌else◌, Option, none, some, List, [], ◌∷◌,
}
use ych.Krtl.Mem.{not64}

-- `TimerEvent` without its link: a queue is a list. A callback of 0 is `NULLPTR`.
pub record TimerEvent : Type 0 where
  pub last_tick_count : ℕ
  pub callback : ℕ
  pub user_param : ℕ
  pub flags : ℕ

-- `TimerInfo`, with the initial count register of the local APIC's timer.
pub record TimerInfo : Type 0 where
  pub calibration_value : ℕ
  pub timer_root : List TimerEvent
  pub timer_deferred_root : List TimerEvent
  pub in_timer_int : Bool
  pub sleep_counter : ℕ
  pub initial_count : ℕ

-- The list with the event behind the last one that is due earlier: `FindTimerEventInsertPoint` and
-- the two ways to link the event at its answer.
unfoldable pub insert_event : List TimerEvent → TimerEvent → List TimerEvent
insert_event [] e = e ∷ []
insert_event (x ∷ xs) e =
    let rest = insert_event xs e in
    if leb e.last_tick_count x.last_tick_count then e ∷ x ∷ xs else x ∷ rest

-- `ApicSetTimerCount(MACROMIN(DWORD_MAX, TimerRoot->LastTickCount))` where there is a root.
unfoldable pub arm : TimerInfo → TimerInfo
arm s = elim s.timer_root [
  | [] ↦ s
  | e ∷ es ↦ record s { initial_count = min (2 ^ 32 - 1) e.last_tick_count }
]

-- The queue that an event goes to: the deferred one inside the timer interrupt.
unfoldable pub enqueue : TimerInfo → TimerEvent → TimerInfo
enqueue s e =
    if s.in_timer_int
    then record s { timer_deferred_root = insert_event s.timer_deferred_root e }
    else arm (record s { timer_root = insert_event s.timer_root e })

-- `TIMER_EVENT_FLAGS_USECONDS_AS_TICKS`
abbrev pub useconds_as_ticks : ℕ
useconds_as_ticks = 2 ^ 31

abbrev pub counts_ticks : ℕ → Bool
counts_ticks flags = not (bit_and flags useconds_as_ticks == 0)

-- The event that a request stands for.
unfoldable pub event_of : TimerInfo → ℕ → ℕ → ℕ → ℕ → TimerEvent
event_of s useconds callback user_param flags =
    if counts_ticks flags
    then record {
      last_tick_count = useconds;
      callback = callback;
      user_param = user_param;
      flags = bit_and flags (2 ^ 32 - 1 - useconds_as_ticks);
    }
    else record {
      last_tick_count = useconds * s.calibration_value % 2 ^ 64;
      callback = callback;
      user_param = user_param;
      flags = flags;
    }

-- `SetTimer`; `has_node` is whether the heap has room for the event. The count is stopped first,
-- and where there is no room it is set to what it then is.
unfoldable pub set_timer : Bool → TimerInfo → ℕ → ℕ → ℕ → ℕ → TimerInfo × Bool
set_timer has_node s useconds callback user_param flags =
    let stopped : TimerInfo = record s { initial_count = 0 } in
    let e = event_of s useconds callback user_param flags in
    if not has_node then (stopped, false) else (enqueue stopped e, true)

-- The first loop of `IntmgmtTimerInterrupt` over the queue `es`: what `call` makes of the state for
-- the callback and the parameter of an expired event, which then leaves the queue.
unfoldable pub run_expired :
    (ℕ → ℕ → TimerInfo → TimerInfo) → ℕ → List TimerEvent → TimerInfo → TimerInfo
run_expired call ticks [] s = s
run_expired call ticks (e ∷ es) s =
    let called = if e.callback == 0 then s else call e.callback e.user_param s in
    let rest = run_expired call ticks es (record called { timer_root = es }) in
    if leb e.last_tick_count ticks then rest else s

-- The second loop: the ticks that have passed are taken off the events that are left.
unfoldable pub lower : ℕ → List TimerEvent → List TimerEvent
lower ticks [] = []
lower ticks (e ∷ es) =
    record e { last_tick_count = (e.last_tick_count + 2 ^ 64 - ticks) % 2 ^ 64 } ∷ lower ticks es

-- The third loop: each deferred event is set again, now in the regular queue.
unfoldable pub integrate : (TimerEvent → Bool) → List TimerEvent → TimerInfo → TimerInfo
integrate has_node [] s = s
integrate has_node (e ∷ es) s =
    integrate has_node es
      (set_timer (has_node e) s e.last_tick_count e.callback e.user_param
        (bit_or e.flags useconds_as_ticks)).0

-- `IntmgmtTimerInterrupt`
unfoldable pub timer_interrupt :
    (ℕ → ℕ → TimerInfo → TimerInfo) → (TimerEvent → Bool) → TimerInfo → TimerInfo
timer_interrupt call has_node s =
    let ticks = s.initial_count in
    let s1 = run_expired call ticks s.timer_root (record s { in_timer_int = true }) in
    let s2 : TimerInfo = record s1 {
      timer_root = lower ticks s1.timer_root;
      in_timer_int = false;
    } in
    let s3 = integrate has_node s2.timer_deferred_root s2 in
    arm (record s3 { timer_deferred_root = [] })

-- `__builtin_ctz`, for a number with a bit set within `fuel`.
unfoldable pub trailing_zeros : ℕ → ℕ → ℕ
trailing_zeros zero x = 0
trailing_zeros (suc fuel) x =
    let rest = trailing_zeros fuel (x / 2) in if x % 2 == 1 then 0 else suc rest

-- The ballot that `Sleep` takes.
unfoldable pub ballot_of : TimerInfo → ℕ
ballot_of s = if s.sleep_counter == 0 then 0 else trailing_zeros 8 s.sleep_counter

-- `SleepDoneCallback`, whose address is `sleep_done_callback`. The counter is a byte.
unfoldable pub sleep_done : ℕ → TimerInfo → TimerInfo
sleep_done ballot s = record s {
  sleep_counter = bit_and s.sleep_counter (not64 (2 ^ (ballot % 2 ^ 8))) % 2 ^ 8;
}

-- `Sleep` up to its loop: `none` is a meltdown, inside of a timer interrupt or for want of a ballot.
unfoldable pub fall_asleep : Bool → TimerInfo → ℕ → ℕ → Option TimerInfo
fall_asleep has_node s sleep_done_callback useconds =
    let ballot = ballot_of s in
    let voted : TimerInfo = record s {
      sleep_counter = bit_or s.sleep_counter (2 ^ ballot) % 2 ^ 8;
    } in
    if s.in_timer_int
    then none
    else (if not (ltb ballot 8)
        then none
        else some (set_timer has_node voted useconds sleep_done_callback ballot 0).0)

-- The loop's test: whether the sleeper of a ballot is awake.
unfoldable pub is_awake : TimerInfo → ℕ → Bool
is_awake s ballot = bit_and s.sleep_counter (2 ^ ballot) == 0
