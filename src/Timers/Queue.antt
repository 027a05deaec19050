-- ===== src/Timers/Queue.antt =====
-- The queues of timers and their order, `FindTimerEventInsertPoint` and `SetTimer` of
-- Kernel/Source/CPU/PerCpu.c.
use ych.Prelude.{
  ℕ, ◌-◌, ◌^◌, ◌≤◌, ◌<◌, ◌≡◌, refl, ap, sym, min, true, false, List, [], ◌∷◌, ◌++◌, arith, leb,
  Bool-cases, inl, inr, ◌⊎◌, leb→le,
}
use mathlib.Core.Path.{subst}
use ych.Timers.{TimerEvent, TimerInfo, insert_event, arm, enqueue, event_of, set_timer}

-- No event of the queue is due before `n`.
unfoldable pub NoneBefore : ℕ → List TimerEvent → Type 0
NoneBefore n [] = Unit {0}
NoneBefore n (e ∷ es) = (n ≤ e.last_tick_count) × NoneBefore n es

-- Every event of the queue is due before `n`.
unfoldable pub AllBefore : ℕ → List TimerEvent → Type 0
AllBefore n [] = Unit {0}
AllBefore n (e ∷ es) = (e.last_tick_count < n) × AllBefore n es

unfoldable pub IsSorted : List TimerEvent → Type 0
IsSorted [] = Unit {0}
IsSorted (e ∷ es) = NoneBefore e.last_tick_count es × IsSorted es

-- The ticks until the first event that is due, in any order; `limit` where there is none.
unfoldable pub least : ℕ → List TimerEvent → ℕ
least limit [] = limit
least limit (e ∷ es) = min e.last_tick_count (least limit es)

pub NoneBefore-le : (m n : ℕ) (es : List TimerEvent) → m ≤ n → NoneBefore n es → NoneBefore m es
unfolding NoneBefore
NoneBefore-le m n [] l w = tt
NoneBefore-le m n (e ∷ es) l (a, w) = (omega arith, NoneBefore-le m n es l w)

-- A queue that holds `e` between the events that are due earlier and the others.
pub record IsPlaced (es : List TimerEvent) (e : TimerEvent) (r : List TimerEvent) : Type 0 where
  pub before : List TimerEvent
  pub behind : List TimerEvent
  pub split : es ≡ before ++ behind
  pub joined : r ≡ before ++ e ∷ behind
  pub earlier : AllBefore e.last_tick_count before
  pub later : NoneBefore e.last_tick_count behind

pub insert_event-IsPlaced :
    (es : List TimerEvent) (e : TimerEvent) → IsSorted es → IsPlaced es e (insert_event es e)
unfolding insert_event IsSorted AllBefore NoneBefore
insert_event-IsPlaced [] e w = record {
  before = [];
  behind = [];
  split = refl;
  joined = refl;
  earlier = tt;
  later = tt;
}
insert_event-IsPlaced (x ∷ xs) e (low, w) =
    elim (Bool-cases (leb e.last_tick_count x.last_tick_count)) [
      | inl here ↦ rw here (
          let l = leb→le e.last_tick_count x.last_tick_count here in
          record {
            before = [];
            behind = x ∷ xs;
            split = refl;
            joined = refl;
            earlier = tt;
            later = (l, NoneBefore-le e.last_tick_count x.last_tick_count xs l low);
          })
      | inr on ↦ rw on (
          let p = insert_event-IsPlaced xs e w in
          record {
            before = x ∷ p.before;
            behind = p.behind;
            split = ap (λ t. x ∷ t) p.split;
            joined = ap (λ t. x ∷ t) p.joined;
            earlier = (ground arith, p.earlier);
            later = p.later;
          })
    ]

insert_event-NoneBefore :
    (n : ℕ) (es : List TimerEvent) (e : TimerEvent)
    → n ≤ e.last_tick_count
    → NoneBefore n es
    → NoneBefore n (insert_event es e)
unfolding insert_event NoneBefore
insert_event-NoneBefore n [] e l w = (l, tt)
insert_event-NoneBefore n (x ∷ xs) e l (a, w) =
    elim (Bool-cases (leb e.last_tick_count x.last_tick_count)) [
      | inl here ↦ rw here (l, (a, w))
      | inr on ↦ rw on (a, insert_event-NoneBefore n xs e l w)
    ]

pub insert_event-IsSorted :
    (es : List TimerEvent) (e : TimerEvent) → IsSorted es → IsSorted (insert_event es e)
unfolding insert_event IsSorted NoneBefore
insert_event-IsSorted [] e w = (tt, tt)
insert_event-IsSorted (x ∷ xs) e (low, w) =
    elim (Bool-cases (leb e.last_tick_count x.last_tick_count)) [
      | inl here ↦
          let l = leb→le e.last_tick_count x.last_tick_count here in
          rw here ((l, NoneBefore-le e.last_tick_count x.last_tick_count xs l low), (low, w))
      | inr on ↦ rw on (
        insert_event-NoneBefore x.last_tick_count xs e (ground arith) low,
        insert_event-IsSorted xs e w,
      )
    ]

least_first :
    (limit n : ℕ) (es : List TimerEvent) → NoneBefore n es → min n limit ≡ min n (least limit es)
unfolding NoneBefore least
least_first limit n [] w = refl
least_first limit n (e ∷ es) (a, w) = let ih = least_first limit n es w in omega arith

-- The timer counts down to the first event that is due, or as far as its register of 32 bits goes.
abbrev pub IsArmed : TimerInfo → Type 0
IsArmed s = s.initial_count ≡ least (2 ^ 32 - 1) s.timer_root

pub queue_cases :
    (es : List TimerEvent) → (es ≡ []) ⊎ ((x : TimerEvent) × (xs : List TimerEvent) × (es ≡ x ∷ xs))
queue_cases [] = inl refl
queue_cases (x ∷ xs) = inr (x, xs, refl)

-- Arming the timer changes nothing but the count.
pub arm_kept :
    (s : TimerInfo)
    → ((arm s).timer_root ≡ s.timer_root)
      × ((arm s).in_timer_int ≡ s.in_timer_int)
      × ((arm s).timer_deferred_root ≡ s.timer_deferred_root)
unfolding arm
arm_kept s = elim (queue_cases s.timer_root) [
  | inl split ↦ rw split (refl, refl, refl)
  | inr (x, xs, split) ↦ rw split (refl, refl, refl)
]

pub arm-IsArmed :
    (s : TimerInfo) (e : TimerEvent) (es : List TimerEvent)
    → s.timer_root ≡ e ∷ es
    → IsSorted s.timer_root
    → IsArmed (arm s)
unfolding arm IsSorted least
arm-IsArmed s e es split w =
    let sorted : IsSorted (e ∷ es) = subst IsSorted split w in
    let first = least_first (2 ^ 32 - 1) e.last_tick_count es sorted.0 in rw split (omega arith)

pub insert_event-cons :
    (es : List TimerEvent) (e : TimerEvent)
    → (x : TimerEvent) × (xs : List TimerEvent) × (insert_event es e ≡ x ∷ xs)
unfolding insert_event
insert_event-cons [] e = (e, [], refl)
insert_event-cons (x ∷ xs) e = elim (Bool-cases (leb e.last_tick_count x.last_tick_count)) [
  | inl here ↦ rw here (e, x ∷ xs, refl)
  | inr on ↦ rw on (x, insert_event xs e, refl)
]

-- Outside of the timer interrupt, and where the heap has room, a timer is placed in a sorted queue by
-- its ticks, the queue stays sorted, and the count is that of the first event due.
pub set_timer-IsPlaced :
    (s : TimerInfo) (useconds callback user_param flags : ℕ)
    → s.in_timer_int ≡ false
    → IsSorted s.timer_root
    → let (s', done) = set_timer true s useconds callback user_param flags in
      (done ≡ true)
      × IsPlaced s.timer_root (event_of s useconds callback user_param flags) s'.timer_root
      × IsSorted s'.timer_root
      × IsArmed s'
unfolding set_timer enqueue
set_timer-IsPlaced s useconds callback user_param flags outside w =
    let e = event_of s useconds callback user_param flags in
    let (x, xs, split) = insert_event-cons s.timer_root e in
    let sorted = insert_event-IsSorted s.timer_root e w in
    let placed = insert_event-IsPlaced s.timer_root e w in
    let queued : TimerInfo = record s {
      initial_count = 0;
      in_timer_int = false;
      timer_root = insert_event s.timer_root e;
    } in
    let root = (arm_kept queued).0 in
    simp outside (
      refl,
      subst (IsPlaced s.timer_root e) (sym root) placed,
      subst IsSorted (sym root) sorted,
      arm-IsArmed queued x xs split sorted,
    )
