-- ===== src/Tests/Clock.antt =====
-- Timers at concrete times, and vectors of two processors.
use ych.Prelude.{
  ℕ, ◌^◌, ◌≡◌, refl, true, false, none, some, [], ◌∷◌, map, arith, ◌||◌, ltb, ◌==◌, if◌then◌else◌,
  ◌+◌,
}
use ych.Vectors.{
  Vectors, Dispatch, offer_setup_for_irq, offer_from, free_vector, dispatch_interrupt, end_dispatch,
  set_hardware_interrupt, set_interrupt, put_interrupt,
}
use ych.Vectors.Offer.{IsOffer, offer_setup_for_irq-IsOffer}
use ych.Timers.{
  TimerEvent, TimerInfo, set_timer, timer_interrupt, run_expired, event_of, fall_asleep,
  insert_event, arm, integrate, enqueue, lower, ballot_of, trailing_zeros,
}
use ych.Timers.Queue.{IsPlaced, IsSorted, IsArmed, NoneBefore, set_timer-IsPlaced}
use ych.Timers.Pending.{pending, AllWords}
use ych.Timers.Deferred.{AllPlain, KeepsPlain, merged, set_timer-AllPlain}
use ych.Timers.Expiry.{IsArmedIfAny, timer_interrupt-IsArmedIfAny}

abbrev event : ℕ → ℕ → TimerEvent
event ticks callback = record {
  last_tick_count = ticks;
  callback = callback;
  user_param = 7;
  flags = 0;
}

-- Three timers, the last two of which are left after 100 ticks.
abbrev clock : TimerInfo
clock = record {
  calibration_value = 10;
  timer_root = event 100 1 ∷ event 250 0 ∷ event 400 1 ∷ [];
  timer_deferred_root = [];
  in_timer_int = false;
  sleep_counter = 0;
  initial_count = 100;
}

clock-IsSorted : IsSorted clock.timer_root
unfolding IsSorted NoneBefore
clock-IsSorted = ((omega arith, (omega arith, tt)), ((omega arith, tt), (tt, tt)))

set_timer-IsPlaced_example :
    let (s', done) = set_timer true clock 30 2 9 0 in
    (done ≡ true)
    × IsPlaced clock.timer_root (event_of clock 30 2 9 0) s'.timer_root
    × IsSorted s'.timer_root
    × IsArmed s'
set_timer-IsPlaced_example = set_timer-IsPlaced clock 30 2 9 0 refl clock-IsSorted

-- A callback that sets its timer again, for 200 ticks from now on.
abbrev repeat : ℕ → ℕ → TimerInfo → TimerInfo
repeat callback user_param s = (set_timer true s 200 callback user_param (2 ^ 31)).0

repeat-KeepsPlain : KeepsPlain repeat
repeat-KeepsPlain callback user_param s =
    set_timer-AllPlain true s 200 callback user_param (2 ^ 31) (omega arith)

clock-AllWords : AllWords clock.timer_root
unfolding AllWords
clock-AllWords = (omega arith, (omega arith, (omega arith, tt)))

clock-AllPlain : AllPlain clock.timer_deferred_root
unfolding AllPlain
clock-AllPlain = tt

timer_interrupt-IsArmedIfAny_example :
    let s1 = run_expired repeat 100 clock.timer_root (record clock { in_timer_int = true }) in
    let s' = timer_interrupt repeat (λ e. true) clock in
    (s'.timer_root ≡ merged (λ e. true) s1.timer_deferred_root (pending 100 clock.timer_root))
    × IsSorted s'.timer_root
    × (s'.timer_deferred_root ≡ [])
    × (s'.in_timer_int ≡ false)
    × IsArmedIfAny s'
timer_interrupt-IsArmedIfAny_example =
    timer_interrupt-IsArmedIfAny repeat (λ e. true) clock repeat-KeepsPlain clock-AllPlain
      clock-IsSorted clock-AllWords

-- The repeated timer stands between the other two, and the count is that of the first.
after_interrupt :
    (map (λ e. e.last_tick_count) (timer_interrupt repeat (λ e. true) clock).timer_root
      ≡ 150 ∷ 200 ∷ 300 ∷ [])
    × ((timer_interrupt repeat (λ e. true) clock).initial_count ≡ 150)
unfolding timer_interrupt arm integrate run_expired set_timer enqueue insert_event lower event_of
after_interrupt = (refl, refl)

-- The second sleeper of a processor takes the ballot of the first, so that the callback of one of
-- them wakes both.
shared_ballot :
    elim (fall_asleep true clock 5 100) [
      | none ↦ none
      | some s ↦ elim (fall_asleep true s 5 100) [ none ↦ none | some t ↦ some t.sleep_counter ]
    ]
    ≡ some 1
unfolding fall_asleep ballot_of trailing_zeros set_timer enqueue arm insert_event event_of
shared_ballot = refl

-- A timer that finds no room leaves the count of the others stopped.
count_stopped : (set_timer false clock 30 2 9 0).0.initial_count ≡ 0
unfolding set_timer
count_stopped = refl

-- Two processors, the first of which has all its vectors in use.
abbrev busy : Vectors
busy = record {
  interrupt = λ cpu i. record {
    handler = 0;
    hw_device = 0;
    irq = 0;
    vector = if cpu == 4 || ltb i 40 then i else 0;
  };
  cpu_ids = λ j. j + 4;
  active_processor_count = 2;
  idx = 0;
}

offer_setup_for_irq-IsOffer_example : IsOffer busy (λ j. Unit {0}) (offer_setup_for_irq busy).1
offer_setup_for_irq-IsOffer_example = offer_setup_for_irq-IsOffer busy (omega arith)

-- The other processor's first empty vector is offered, and is handled once it is set.
offered :
    ((offer_setup_for_irq busy).1 ≡ some (5, 40))
    × (dispatch_interrupt (set_hardware_interrupt busy 5 40 0 1 0x99) 5 40
        ≡ Dispatch.handle 0x99 ∷ Dispatch.end_of_interrupt ∷ [])
unfolding offer_setup_for_irq offer_from free_vector dispatch_interrupt end_dispatch
    set_hardware_interrupt set_interrupt put_interrupt
offered = (refl, refl)
