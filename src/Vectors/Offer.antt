-- ===== src/Vectors/Offer.antt =====
-- The distribution of IRQs over the processors, `AldistOfferSetupForIRQ` of
-- Kernel/Source/Intmgmt/IRQAldist.c.
use ych.Prelude.{
  ℕ, zero, suc, ◌+◌, ◌≤◌, ◌<◌, ◌≡◌, ◌≢◌, ◌⊎◌, refl, leb, ltb, ◌==◌, Option, none, some, arith,
  Bool-cases, inl, inr, beq→eq,
}
use mathlib.Core.Path.{subst}
use ych.Vectors.{
  PerCpuInterrupt, Vectors, free_vector, next_processor, offer_from, offer_setup_for_irq,
}

-- What the search of `n` entries from `i` on finds: the first empty entry, or none where all are in
-- use.
abbrev pub Found : (ℕ → PerCpuInterrupt) → ℕ → ℕ → Option ℕ → Type 0
Found table i n none = (j : ℕ) → i ≤ j → j < i + n → (table j).vector ≢ 0
Found table i n (some k) =
    (i ≤ k)
    × (k < i + n)
    × ((table k).vector ≡ 0)
    × ((j : ℕ) → i ≤ j → j < k → (table j).vector ≢ 0)

later_entry :
    (table : ℕ → PerCpuInterrupt) (i n : ℕ) (r : Option ℕ)
    → (table i).vector ≢ 0
    → Found table (suc i) n r
    → Found table i (suc n) r
later_entry table i n none used rest = λ j low high. elim (Bool-cases (i == j)) [
  | inl e ↦ subst (λ x. (table x).vector ≢ 0) (beq→eq i j e) used
  | inr e ↦ rest j (ground arith) (omega arith)
]
later_entry table i n (some k) used (low, high, free, before) = (
  omega arith,
  omega arith,
  free,
  λ j l h. elim (Bool-cases (i == j)) [
    | inl e ↦ subst (λ x. (table x).vector ≢ 0) (beq→eq i j e) used
    | inr e ↦ before j (ground arith) h
  ],
)

pub free_vector-Found :
    (n : ℕ) (table : ℕ → PerCpuInterrupt) (i : ℕ) → Found table i n (free_vector n table i)
unfolding free_vector
free_vector-Found zero table i = λ j low high. absurd (omega arith)
free_vector-Found (suc n) table i = elim (Bool-cases ((table i).vector == 0)) [
  | inl empty ↦ rw empty (
    omega arith,
    omega arith,
    beq→eq (table i).vector 0 empty,
    λ j low high. absurd (omega arith),
  )
  | inr used ↦ rw used (later_entry table i n _ (ground arith) (free_vector-Found n table (suc i)))
]

-- Every vector for IRQs of a processor is in use.
abbrev pub IsFull : Vectors → ℕ → Type 0
IsFull s cpu = (i : ℕ) → 32 ≤ i → i < 0x100 → (s.interrupt cpu i).vector ≢ 0

-- The processors that the rounds with `retries` left come to, from `idx` on and around.
abbrev pub IsReached : Vectors → ℕ → ℕ → Type 0
IsReached s retries j =
    ((s.idx ≤ j) × (j ≤ s.idx + retries)) ⊎ (j + s.active_processor_count ≤ s.idx + retries)

-- An offer is the first empty vector for IRQs of an active processor; there is none where the
-- processors that the rounds come to are full.
abbrev pub IsOffer : Vectors → (ℕ → Type 0) → Option (ℕ × ℕ) → Type 0
IsOffer s reached none = (j : ℕ) → j < s.active_processor_count → reached j → IsFull s (s.cpu_ids j)
IsOffer s reached (some r) =
    ((j : ℕ) × (j < s.active_processor_count) × (r.0 ≡ s.cpu_ids j))
    × (32 ≤ r.1)
    × (r.1 < 0x100)
    × ((s.interrupt r.0 r.1).vector ≡ 0)
    × ((i : ℕ) → 32 ≤ i → i < r.1 → (s.interrupt r.0 i).vector ≢ 0)

Found-IsOffer :
    (s : Vectors) (reached : ℕ → Type 0) (i : ℕ)
    → s.idx < s.active_processor_count
    → Found (s.interrupt (s.cpu_ids s.idx)) 32 224 (some i)
    → IsOffer s reached (some (s.cpu_ids s.idx, i))
Found-IsOffer s reached i small (low, high, free, before) =
    ((s.idx, small, refl), low, omega arith, free, before)

next_small :
    (s : Vectors)
    → s.idx < s.active_processor_count
    → (next_processor s).idx < s.active_processor_count
next_small s small = ground arith

-- The full processor of a round is none that the later rounds have to come to.
next-IsReached :
    (s : Vectors) (retries j : ℕ)
    → s.idx < s.active_processor_count
    → j < s.active_processor_count
    → s.idx ≢ j
    → IsReached s (suc retries) j
    → IsReached (next_processor s) retries j
next-IsReached s retries j small inside other (inl r) =
    elim (Bool-cases (leb s.active_processor_count (s.idx + 1))) [
      | inl around ↦ absurd (ground arith)
      | inr on ↦ simp on (inl (omega arith, omega arith))
    ]
next-IsReached s retries j small inside other (inr r) =
    elim (Bool-cases (leb s.active_processor_count (s.idx + 1))) [
      | inl around ↦ simp around (inl (omega arith, ground arith))
      | inr on ↦ simp on (inr (omega arith))
    ]

round-IsOffer :
    (s : Vectors) (retries : ℕ) (r : Option (ℕ × ℕ))
    → s.idx < s.active_processor_count
    → IsFull s (s.cpu_ids s.idx)
    → IsOffer (next_processor s) (IsReached (next_processor s) retries) r
    → IsOffer s (IsReached s (suc retries)) r
round-IsOffer s retries none small full rest = λ j inside reached. elim (Bool-cases (s.idx == j)) [
  | inl e ↦ subst (λ x. IsFull s (s.cpu_ids x)) (beq→eq s.idx j e) full
  | inr e ↦ rest j inside (next-IsReached s retries j small inside (ground arith) reached)
]
round-IsOffer s retries (some x) small full rest = rest

-- Without retries only one processor is looked at.
only_here :
    (s : Vectors) (j : ℕ)
    → j < s.active_processor_count
    → s.idx < s.active_processor_count
    → s.idx ≢ j
    → ¬ IsReached s 0 j
only_here s j inside small other (inl r) = omega arith
only_here s j inside small other (inr r) = omega arith

-- One round, by what the search of its processor finds; `x` is what follows where that is nothing.
round :
    (s : Vectors) (reached : ℕ → Type 0) (x : Vectors × Option (ℕ × ℕ)) (o : Option ℕ)
    → s.idx < s.active_processor_count
    → Found (s.interrupt (s.cpu_ids s.idx)) 32 224 o
    → (IsFull s (s.cpu_ids s.idx) → IsOffer s reached x.1)
    → IsOffer s reached
        (elim o as (λ t. Vectors × Option (ℕ × ℕ)) [
          | none ↦ x
          | some i ↦ (next_processor s, some (s.cpu_ids s.idx, i))
        ]).1
round s reached x none small found rest = rest found
round s reached x (some i) small found rest = Found-IsOffer s reached i small found

offer_from-IsOffer :
    (retries : ℕ) (s : Vectors)
    → s.idx < s.active_processor_count
    → IsOffer s (IsReached s retries) (offer_from retries s).1
unfolding offer_from
offer_from-IsOffer zero s small =
    round s (IsReached s 0) (next_processor s, none) _ small
      (free_vector-Found 224 (s.interrupt (s.cpu_ids s.idx)) 32)
      (λ full j inside reached. elim (Bool-cases (s.idx == j)) [
        | inl e ↦ subst (λ t. IsFull s (s.cpu_ids t)) (beq→eq s.idx j e) full
        | inr e ↦ absurd (only_here s j inside small (ground arith) reached)
      ])
offer_from-IsOffer (suc n) s small =
    round s (IsReached s (suc n)) (offer_from n (next_processor s)) _ small
      (free_vector-Found 224 (s.interrupt (s.cpu_ids s.idx)) 32)
      (λ full.
        round-IsOffer s n _ small full
          (offer_from-IsOffer n (next_processor s) (next_small s small)))

-- As many retries as there are processors come to all of them.
all_reached :
    (s : Vectors) (r : Option (ℕ × ℕ))
    → s.idx < s.active_processor_count
    → IsOffer s (IsReached s s.active_processor_count) r
    → IsOffer s (λ j. Unit {0}) r
all_reached s none small w = λ j inside t. w j inside (elim (Bool-cases (ltb j s.idx)) [
  | inl before ↦ inr (ground arith)
  | inr from ↦ inl (ground arith, ground arith)
])
all_reached s (some x) small w = w

-- Where the index is one of an active processor, the offer for an IRQ is the first vector from 32 on that is empty in the table of an active
-- processor, and no offer is made only where every active processor has all of them in use.
pub offer_setup_for_irq-IsOffer :
    (s : Vectors)
    → s.idx < s.active_processor_count
    → IsOffer s (λ j. Unit {0}) (offer_setup_for_irq s).1
unfolding offer_setup_for_irq
offer_setup_for_irq-IsOffer s small =
    all_reached s _ small (offer_from-IsOffer s.active_processor_count s small)
