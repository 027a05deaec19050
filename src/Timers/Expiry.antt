-- ===== src/Timers/Expiry.antt =====
-- What a timer interrupt leaves in the queue, `IntmgmtTimerInterrupt` of
-- Kernel/Source/Intmgmt/Timer.c.
use ych.Prelude.{ℕ, ◌≡◌, refl, ap, sym, ◌∙◌, Bool, true, false, [], inl, inr, ◌⊎◌}
use mathlib.Core.Path.{subst}
use ych.Timers.{TimerEvent, TimerInfo, arm, run_expired, lower, integrate, timer_interrupt}
use ych.Timers.Queue.{IsSorted, IsArmed, arm_kept, queue_cases, arm-IsArmed}
use ych.Timers.Pending.{pending, AllWords, run_expired-pending, pending-IsSorted}
use ych.Timers.Deferred.{
  AllPlain, KeepsPlain, merged, run_expired-AllPlain, merged-IsSorted, integrate-merged,
}

-- The first event of the queue is the one that the timer counts down to, if there is any.
abbrev pub IsArmedIfAny : TimerInfo → Type 0
IsArmedIfAny s = (s.timer_root ≡ []) ⊎ IsArmed s

arm-IsArmedIfAny : (s : TimerInfo) → IsSorted s.timer_root → IsArmedIfAny (arm s)
arm-IsArmedIfAny s w = elim (queue_cases s.timer_root) [
  | inl empty ↦ inl ((arm_kept s).0 ∙ empty)
  | inr (x, xs, split) ↦ inr (arm-IsArmed s x xs split w)
]

-- From a sorted queue, and with callbacks that keep the highest bit of the deferred events' flags
-- clear, a timer interrupt takes exactly the events that are due out of the queue, lowers the time
-- of the others, and merges the deferred events that the callbacks left, as far as the heap has
-- room; the queue stays sorted, nothing stays deferred, and the timer is armed for the first event,
-- if any.
pub timer_interrupt-IsArmedIfAny :
    (call : ℕ → ℕ → TimerInfo → TimerInfo) (has_node : TimerEvent → Bool) (s : TimerInfo)
    → KeepsPlain call
    → AllPlain s.timer_deferred_root
    → IsSorted s.timer_root
    → AllWords s.timer_root
    → let s1 = run_expired call s.initial_count s.timer_root (record s { in_timer_int = true }) in
      let s' = timer_interrupt call has_node s in
      (s'.timer_root
        ≡ merged has_node s1.timer_deferred_root (pending s.initial_count s.timer_root))
      × IsSorted s'.timer_root
      × (s'.timer_deferred_root ≡ [])
      × (s'.in_timer_int ≡ false)
      × IsArmedIfAny s'
unfolding timer_interrupt
timer_interrupt-IsArmedIfAny call has_node s keeps plain w words =
    let n = s.initial_count in
    let s1 = run_expired call n s.timer_root (record s { in_timer_int = true }) in
    let left =
      run_expired-pending call n s.timer_root (record s { in_timer_int = true }) refl w words in
    let plain1 =
      run_expired-AllPlain call n s.timer_root (record s { in_timer_int = true }) keeps plain in
    let s2 : TimerInfo = record s1 { timer_root = lower n s1.timer_root; in_timer_int = false } in
    let (root, off) = integrate-merged has_node s1.timer_deferred_root s2 refl plain1 in
    let s3 : TimerInfo = record (integrate has_node s1.timer_deferred_root s2) {
      timer_deferred_root = [];
    } in
    let split = root ∙ ap (merged has_node s1.timer_deferred_root) left in
    let sorted : IsSorted s3.timer_root =
      subst IsSorted (sym split)
        (merged-IsSorted has_node s1.timer_deferred_root _ (pending-IsSorted n s.timer_root w)) in
    let kept = arm_kept s3 in
    (
      kept.0 ∙ split,
      subst IsSorted (sym kept.0) sorted,
      kept.2,
      kept.1 ∙ off,
      arm-IsArmedIfAny s3 sorted,
    )
