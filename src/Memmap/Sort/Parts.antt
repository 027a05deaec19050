-- ===== src/Memmap/Sort/Parts.antt =====
-- The two parts that a pivot divides a map into, `KrPartDescarray` of
-- Kernel/Source/Init/KrInitMemmap.c.
use ych.Prelude.{
  ℕ, zero, suc, ◌+◌, ◌-◌, ◌≤◌, ◌<◌, ◌≡◌, ◌≢◌, refl, ap, sym, ◌∙◌, ltb, ◌==◌, arith, Bool-cases, inl,
  inr, beq→eq, ltb→lt, lt→ltb,
}
use mathlib.Core.Path.{subst}
use ych.Physmem.Init.{MemoryDescriptor}
use ych.Memmap.Sort.{swap, part_loop, part_descarray}
use ych.Memmap.Sort.Swaps.{Swaps, same, exchanged, swap_first, swap_second, kept, Swaps-trans}

-- The address that the map is sorted by.
abbrev pub key : (ℕ → MemoryDescriptor) → ℕ → ℕ
key a x = (a x).physical_base

-- What the loop leaves of `a`, with `low` a bound on what it exchanges.
pub record Divided (low start limit next pivot : ℕ) (a b : ℕ → MemoryDescriptor) (p : ℕ)
    : Type 0 where
  pub moved : Swaps low limit a b
  pub from : next ≤ p
  pub inside : p ≤ limit
  pub smaller : (x : ℕ) → start ≤ x → x < p → key b x < pivot
  pub others : (x : ℕ) → p ≤ x → x < limit → pivot ≤ key b x
  pub last : b limit ≡ a limit

swap_smaller :
    (start pivot j next : ℕ) (a : ℕ → MemoryDescriptor)
    → next ≤ j
    → key a j < pivot
    → ((x : ℕ) → start ≤ x → x < next → key a x < pivot)
    → (x : ℕ) → start ≤ x
    → x < suc next
    → key (swap a next j) x < pivot
swap_smaller start pivot j next a o hit smaller x l h = elim (Bool-cases (x == next)) [
  | inl e ↦
      let here : key (swap a next j) x ≡ key a j =
        ap (key (swap a next j)) (beq→eq x next e)
        ∙ ap (λ t. t.physical_base) (swap_first a next j) in
      omega arith
  | inr e ↦
      let other : x ≢ next = ground arith in
      let here : key (swap a next j) x ≡ key a x =
        ap (λ t. t.physical_base) (kept a next j x other (omega arith)) in
      omega (arith, smaller x l (omega arith))
]

swap_others :
    (pivot j next : ℕ) (a : ℕ → MemoryDescriptor)
    → ((x : ℕ) → next ≤ x → x < j → pivot ≤ key a x)
    → (x : ℕ) → suc next ≤ x
    → x < suc j
    → pivot ≤ key (swap a next j) x
swap_others pivot j next a others x l h = elim (Bool-cases (x == j)) [
  | inl e ↦
      let here : key (swap a next j) x ≡ key a next =
        ap (key (swap a next j)) (beq→eq x j e)
        ∙ ap (λ t. t.physical_base) (swap_second a next j) in
      omega (arith, others next (omega arith) (omega arith))
  | inr e ↦
      let other : x ≢ j = ground arith in
      let here : key (swap a next j) x ≡ key a x =
        ap (λ t. t.physical_base) (kept a next j x (omega arith) other) in
      omega (arith, others x (omega arith) (omega arith))
]

one_more :
    (pivot j next : ℕ) (a : ℕ → MemoryDescriptor)
    → pivot ≤ key a j
    → ((x : ℕ) → next ≤ x → x < j → pivot ≤ key a x)
    → (x : ℕ) → next ≤ x
    → x < suc j
    → pivot ≤ key a x
one_more pivot j next a here others x l h = elim (Bool-cases (x == j)) [
  | inl e ↦ subst (λ t. pivot ≤ key a t) (sym (beq→eq x j e)) here
  | inr e ↦ let other : x ≢ j = ground arith in others x l (omega arith)
]

pub part_loop-Divided :
    (low start limit n pivot j next : ℕ) (a : ℕ → MemoryDescriptor)
    → n + j ≡ limit
    → low ≤ next
    → next ≤ j
    → ((x : ℕ) → start ≤ x → x < next → key a x < pivot)
    → ((x : ℕ) → next ≤ x → x < j → pivot ≤ key a x)
    → Divided low start limit next pivot a
        (part_loop n pivot j next a).0
        (part_loop n pivot j next a).1
unfolding part_loop
part_loop-Divided low start limit zero pivot j next a e l o smaller others = record {
  moved = same;
  from = omega arith;
  inside = omega arith;
  smaller = smaller;
  others = λ x h k. others x h (omega arith);
  last = refl;
}
part_loop-Divided low start limit (suc n) pivot j next a e l o smaller others =
    elim (Bool-cases (ltb (a j).physical_base pivot)) [
      | inl hit ↦ rw hit (
          let d =
            part_loop-Divided low start limit n pivot (suc j) (suc next) (swap a next j)
              (omega arith) (omega arith) (omega arith)
              (swap_smaller start pivot j next a o (ltb→lt (a j).physical_base pivot hit) smaller)
              (swap_others pivot j next a others) in
          record {
            moved =
                Swaps-trans (exchanged next j l (omega arith) (omega arith) (omega arith) same)
                  d.moved;
            from = omega (arith, d.from);
            inside = d.inside;
            smaller = d.smaller;
            others = d.others;
            last = d.last ∙ kept a next j limit (omega arith) (omega arith);
          })
      | inr miss ↦ rw miss (
          part_loop-Divided low start limit n pivot (suc j) next a (omega arith) l (omega arith)
            smaller (one_more pivot j next a (ground arith) others))
    ]

-- The map `b` that `KrPartDescarray` leaves of `a`: the pivot at `p`, the lesser addresses before it
-- and the others behind it.
pub record Parted (low start limit : ℕ) (a b : ℕ → MemoryDescriptor) (p : ℕ) : Type 0 where
  pub moved : Swaps low limit a b
  pub from : start ≤ p
  pub inside : p ≤ limit
  pub smaller : (x : ℕ) → start ≤ x → x < p → key b x < key b p
  pub others : (x : ℕ) → p < x → x ≤ limit → key b p ≤ key b x

-- The exchange behind the loop.
Divided-Parted :
    (low start limit next : ℕ) (a b : ℕ → MemoryDescriptor) (p : ℕ)
    → low ≤ next
    → start ≤ next
    → Divided low start limit next (key a limit) a b p
    → Parted low start limit a (swap b p limit) p
Divided-Parted low start limit next a b p l s d =
    let pivot : key (swap b p limit) p ≡ key a limit =
      ap (λ t. t.physical_base) (swap_first b p limit ∙ d.last) in
    record {
      moved =
          exchanged p limit (omega (arith, d.from)) d.inside (omega (arith, d.from, d.inside))
            (omega arith) d.moved;
      from = omega (arith, d.from);
      inside = d.inside;
      smaller = λ x m h.
          let here : key (swap b p limit) x ≡ key b x =
            ap (λ t. t.physical_base) (kept b p limit x (omega arith) (omega (arith, d.inside))) in
          omega (arith, d.smaller x m h);
      others = λ x m h. elim (Bool-cases (x == limit)) [
        | inl e ↦
            let here : key (swap b p limit) x ≡ key b p =
              ap (key (swap b p limit)) (beq→eq x limit e)
              ∙ ap (λ t. t.physical_base) (swap_second b p limit) in
            omega (arith, d.others p (omega arith) (omega arith))
        | inr e ↦
            let other : x ≢ limit = ground arith in
            let here : key (swap b p limit) x ≡ key b x =
              ap (λ t. t.physical_base) (kept b p limit x (omega arith) other) in
            omega (arith, d.others x (omega arith) (omega arith))
      ];
    }

pub part_descarray-Parted :
    (a : ℕ → MemoryDescriptor) (start limit : ℕ)
    → start ≤ limit
    → Parted start start limit a (part_descarray a start limit).0 (part_descarray a start limit).1
unfolding part_descarray
part_descarray-Parted a start limit o =
    Divided-Parted start start limit start a _ _ (omega arith) (omega arith) (
      part_loop-Divided start start limit (limit - start) (key a limit) start start a (omega arith)
        (omega arith) (omega arith) (λ x l h. absurd (omega arith)) (λ x l h. absurd (omega arith)))

-- Where the first element is less than the pivot, it keeps its place, and the pivot goes behind it.
pub part_descarray-first :
    (a : ℕ → MemoryDescriptor) (start limit : ℕ)
    → start < limit
    → key a start < key a limit
    → Parted
        (suc start)
        (suc start)
        limit
        (swap a start start)
        (part_descarray a start limit).0
        (part_descarray a start limit).1
unfolding part_descarray part_loop
part_descarray-first a start limit o first =
    let e : limit - start ≡ suc (limit - start - 1) = omega arith in
    let a' = swap a start start in
    let pivot : key a limit ≡ key a' limit =
      ap (λ t. t.physical_base) (sym (kept a start start limit (omega arith) (omega arith))) in
    rw (e, lt→ltb (key a start) (key a limit) first, pivot)
      (Divided-Parted (suc start) (suc start) limit (suc start) a' _ _ (omega arith) (omega arith) (
        part_loop-Divided (suc start) (suc start) limit (limit - start - 1) (key a' limit)
          (suc start) (suc start) a' (omega arith) (omega arith) (omega arith)
          (λ x l h. absurd (omega arith)) (λ x l h. absurd (omega arith))))
