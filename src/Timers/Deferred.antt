-- ===== src/Timers/Deferred.antt =====
-- The events that are set inside of a timer interrupt, and the loop of `IntmgmtTimerInterrupt` in
-- Kernel/Source/Intmgmt/Timer.c that sets them again.
use ych.Prelude.{
  ℕ, ◌-◌, ◌*◌, ◌/◌, ◌%◌, ◌^◌, ◌<◌, ◌≡◌, refl, ap, sym, ◌∙◌, bit_and, bit_or, Bool, true, false,
  List, [], ◌∷◌, arith, leb, if◌then◌else◌, Bool-cases, inl, inr, ◌==◌,
}
use ych.Prelude.Masks.{and_low, and_high, or-zero}
use ych.Prelude.Bits.{and-or, zero-or}
use mathlib.Core.Path.{subst}
use ych.Timers.{
  TimerEvent, TimerInfo, insert_event, enqueue, event_of, set_timer, counts_ticks,
  useconds_as_ticks, run_expired, integrate,
}
use ych.Timers.Queue.{IsSorted, insert_event-IsSorted, arm_kept}

-- The queue with every event that the heap has room for.
unfoldable pub merged : (TimerEvent → Bool) → List TimerEvent → List TimerEvent → List TimerEvent
merged has_node [] q = q
merged has_node (e ∷ es) q = merged has_node es (if has_node e then insert_event q e else q)

-- The flags of a queued event, in which the highest bit is clear.
unfoldable pub AllPlain : List TimerEvent → Type 0
AllPlain [] = Unit {0}
AllPlain (e ∷ es) = (e.flags < 2 ^ 31) × AllPlain es

flags_again : (f : ℕ) → f < 2 ^ 31 → bit_and (bit_or f (2 ^ 31)) (2 ^ 31 - 1) ≡ f
flags_again f h =
    rw (and-or f (2 ^ 31) (2 ^ 31 - 1), and_low 31 f, and_low 31 (2 ^ 31), or-zero (f % 2 ^ 31))
      (omega arith)

flag_set : (f : ℕ) → f < 2 ^ 31 → bit_and (bit_or f (2 ^ 31)) (2 ^ 31) ≡ 2 ^ 31
flag_set f h =
    let low : f / 2 ^ 31 % 2 * 2 ^ 31 ≡ 0 = omega arith in
    let clear : bit_and f (2 ^ 31) ≡ 0 = and_high 1 31 f ∙ low in
    rw (and-or f (2 ^ 31) (2 ^ 31), clear, zero-or (2 ^ 31)) refl

-- An event that is set again with its ticks as its time is the same event.
event_again :
    (s : TimerInfo) (e : TimerEvent)
    → e.flags < 2 ^ 31
    → event_of s e.last_tick_count e.callback e.user_param (bit_or e.flags useconds_as_ticks) ≡ e
unfolding event_of
event_again s e h =
    rw (flag_set e.flags h) (ap (λ f. record e { flags = f }) (flags_again e.flags h))

-- A callback that only sets timers, or that keeps the flags of the deferred events otherwise.
abbrev pub KeepsPlain : (ℕ → ℕ → TimerInfo → TimerInfo) → Type 0
KeepsPlain call =
    (callback user_param : ℕ) (s : TimerInfo)
    → AllPlain s.timer_deferred_root
    → AllPlain (call callback user_param s).timer_deferred_root

pub run_expired-AllPlain :
    (call : ℕ → ℕ → TimerInfo → TimerInfo) (n : ℕ) (es : List TimerEvent) (s : TimerInfo)
    → KeepsPlain call
    → AllPlain s.timer_deferred_root
    → AllPlain (run_expired call n es s).timer_deferred_root
unfolding run_expired
run_expired-AllPlain call n [] s keeps plain = plain
run_expired-AllPlain call n (e ∷ es) s keeps plain = elim (Bool-cases (leb e.last_tick_count n)) [
  | inr later ↦ simp later plain
  | inl due ↦ elim (Bool-cases (e.callback == 0)) [
    | inl silent ↦ simp (due, silent) (run_expired-AllPlain call n es _ keeps plain)
    | inr called ↦
        simp (due, called)
          (run_expired-AllPlain call n es _ keeps (keeps e.callback e.user_param s plain))
  ]
]

pub merged-IsSorted :
    (has_node : TimerEvent → Bool) (es q : List TimerEvent)
    → IsSorted q
    → IsSorted (merged has_node es q)
unfolding merged
merged-IsSorted has_node [] q w = w
merged-IsSorted has_node (e ∷ es) q w = elim (Bool-cases (has_node e)) [
  | inl room ↦ simp room (merged-IsSorted has_node es _ (insert_event-IsSorted q e w))
  | inr full ↦ simp full (merged-IsSorted has_node es q w)
]

-- What setting a deferred event again does to the regular queue.
set_again :
    (room : Bool) (s : TimerInfo) (e : TimerEvent)
    → s.in_timer_int ≡ false
    → e.flags < 2 ^ 31
    → let s' =
        (set_timer room s e.last_tick_count e.callback e.user_param
          (bit_or e.flags useconds_as_ticks)).0 in
      (s'.timer_root ≡ (if room then insert_event s.timer_root e else s.timer_root))
      × (s'.in_timer_int ≡ false)
unfolding set_timer enqueue
set_again false s e outside h = (refl, outside)
set_again true s e outside h =
    let queued : TimerInfo = record s {
      initial_count = 0;
      in_timer_int = false;
      timer_root = insert_event s.timer_root e;
    } in
    let kept = arm_kept queued in simp (event_again s e h, outside) (kept.0, kept.1)

pub integrate-merged :
    (has_node : TimerEvent → Bool) (es : List TimerEvent) (s : TimerInfo)
    → s.in_timer_int ≡ false
    → AllPlain es
    → ((integrate has_node es s).timer_root ≡ merged has_node es s.timer_root)
      × ((integrate has_node es s).in_timer_int ≡ false)
unfolding integrate merged AllPlain
integrate-merged has_node [] s outside plain = (refl, outside)
integrate-merged has_node (e ∷ es) s outside (h, plain) =
    let (root, off) = set_again (has_node e) s e outside h in
    let ih = integrate-merged has_node es _ off plain in (ih.0 ∙ ap (merged has_node es) root, ih.1)

insert_event-AllPlain :
    (es : List TimerEvent) (e : TimerEvent)
    → e.flags < 2 ^ 31
    → AllPlain es
    → AllPlain (insert_event es e)
unfolding insert_event AllPlain
insert_event-AllPlain [] e h w = (h, tt)
insert_event-AllPlain (x ∷ xs) e h (a, w) =
    elim (Bool-cases (leb e.last_tick_count x.last_tick_count)) [
      | inl here ↦ simp here (h, (a, w))
      | inr on ↦ simp on (a, insert_event-AllPlain xs e h w)
    ]

event_of-flags :
    (s : TimerInfo) (useconds callback user_param flags : ℕ)
    → flags < 2 ^ 32
    → (event_of s useconds callback user_param flags).flags < 2 ^ 31
unfolding event_of
event_of-flags s useconds callback user_param flags h =
    let high = and_high 1 31 flags in
    let low = and_low 31 flags in
    elim (Bool-cases (counts_ticks flags)) [
      | inl ticks ↦ simp ticks (omega arith)
      | inr time ↦ simp time (ground arith)
    ]

-- Setting a timer keeps the highest bit of every deferred event's flags clear.
pub set_timer-AllPlain :
    (room : Bool) (s : TimerInfo) (useconds callback user_param flags : ℕ)
    → flags < 2 ^ 32
    → AllPlain s.timer_deferred_root
    → AllPlain (set_timer room s useconds callback user_param flags).0.timer_deferred_root
unfolding set_timer enqueue
set_timer-AllPlain false s useconds callback user_param flags h w = w
set_timer-AllPlain true s useconds callback user_param flags h w =
    let e = event_of s useconds callback user_param flags in
    elim (Bool-cases s.in_timer_int) [
      | inl inside ↦ simp inside (
          insert_event-AllPlain s.timer_deferred_root e
            (event_of-flags s useconds callback user_param flags h) w)
      | inr outside ↦
          let queued : TimerInfo = record s {
            initial_count = 0;
            in_timer_int = false;
            timer_root = insert_event s.timer_root e;
          } in
          simp outside (subst AllPlain (sym (arm_kept queued).2) w)
    ]
