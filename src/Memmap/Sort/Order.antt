-- ===== src/Memmap/Sort/Order.antt =====
-- The order of the sorted memory map, `KrQuicksortMemmap` of Kernel/Source/Init/KrInitMemmap.c.
use ych.Prelude.{
  ℕ, zero, suc, ◌+◌, ◌-◌, ◌%◌, ◌^◌, ◌≤◌, ◌<◌, ◌≡◌, ◌⊎◌, refl, ap, ◌∙◌, ltb, ◌==◌, arith, Bool-cases,
  inl, inr, beq→eq, ltb→lt,
}
use ych.Physmem.Init.{MemoryDescriptor}
use ych.Memmap.Sort.{swap, part_descarray, quicksort_memmap, sort_memmap}
use ych.Memmap.Sort.Swaps.{
  Swaps, same, swap_first, kept, Swaps-trans, Swaps-wider, Swaps-outside, Swaps-all,
}
use ych.Memmap.Sort.Parts.{key, Parted, part_descarray-Parted, part_descarray-first}

-- The addresses do not fall from `low` to `high`.
abbrev pub IsSorted : (ℕ → MemoryDescriptor) → ℕ → ℕ → Type 0
IsSorted a low high = (x y : ℕ) → low ≤ x → x ≤ y → y ≤ high → key a x ≤ key a y

-- The first descriptor of the map has the least address, and alone.
abbrev pub Leads : ℕ → (ℕ → MemoryDescriptor) → Type 0
Leads high a = (x : ℕ) → 0 < x → x ≤ high → key a 0 < key a x

-- Two sorted parts on the sides of `p` make a sorted whole.
joined :
    (r : ℕ → MemoryDescriptor) (low p high k : ℕ)
    → key r p ≡ k
    → ((x : ℕ) → low ≤ x → x < p → key r x ≤ k)
    → ((x : ℕ) → p < x → x ≤ high → k ≤ key r x)
    → ((x y : ℕ) → low ≤ x → x ≤ y → y < p → key r x ≤ key r y)
    → IsSorted r (suc p) high
    → IsSorted r low high
joined r low p high k at before behind left right x y l o h = elim (Bool-cases (ltb x p)) [
  | inl x_before ↦
      let x_small = before x l (ltb→lt x p x_before) in
      elim (Bool-cases (ltb y p)) [
        | inl y_before ↦ left x y l o (ltb→lt y p y_before)
        | inr y_behind ↦ elim (Bool-cases (y == p)) [
          | inl e ↦ let same_key : key r y ≡ k = ap (key r) (beq→eq y p e) ∙ at in omega arith
          | inr e ↦ omega (arith, behind y (ground arith) h)
        ]
      ]
  | inr x_behind ↦ elim (Bool-cases (x == p)) [
    | inl e ↦
        let x_key : key r x ≡ k = ap (key r) (beq→eq x p e) ∙ at in
        elim (Bool-cases (y == p)) [
          | inl f ↦ let y_key : key r y ≡ k = ap (key r) (beq→eq y p f) ∙ at in omega arith
          | inr f ↦ omega (arith, behind y (ground arith) h)
        ]
    | inr e ↦ right x y (ground arith) o h
  ]
]

-- What the sorting of a range does.
pub record Sorts (low high : ℕ) (a r : ℕ → MemoryDescriptor) : Type 0 where
  pub moved : Swaps low high a r
  pub sorted : IsSorted r low high

-- The two parts sorted, in whichever order, with the pivot between them left alone.
Sorts-parts :
    (low high p : ℕ) (a b r : ℕ → MemoryDescriptor)
    → Parted low low high a b p
    → Swaps low high b r
    → r p ≡ b p
    → ((x : ℕ) → low ≤ x → x < p → key r x ≤ key b p)
    → ((x : ℕ) → p < x → x ≤ high → key b p ≤ key r x)
    → ((x y : ℕ) → low ≤ x → x ≤ y → y < p → key r x ≤ key r y)
    → IsSorted r (suc p) high
    → Sorts low high a r
Sorts-parts low high p a b r d m at before behind left right = record {
  moved = Swaps-trans d.moved m;
  sorted = joined r low p high (key b p) (ap (λ t. t.physical_base) at) before behind left right;
}

-- A field of an element that an exchange elsewhere leaves alone.
same_key :
    {low high : ℕ} {a b : ℕ → MemoryDescriptor} (x : ℕ)
    → (x < low) ⊎ (high < x)
    → Swaps low high a b
    → key b x ≡ key a x
same_key x out m = ap (λ t. t.physical_base) (Swaps-outside x out m)

-- The part before the pivot is sorted first.
Sorts-left_first :
    (low high p : ℕ) (a b c r : ℕ → MemoryDescriptor)
    → 0 < p
    → Parted low low high a b p
    → Sorts low (p - 1) b c
    → Sorts (suc p) high c r
    → Sorts low high a r
Sorts-left_first low high p a b c r pos d f g =
    let least =
      Swaps-all (λ t. t.physical_base ≤ key b p)
        (λ x l h. omega (arith, d.smaller x l (omega arith))) f.moved in
    let greatest =
      Swaps-all (λ t. key b p ≤ t.physical_base)
        (λ x l h. let e = same_key x (inr (omega arith)) f.moved in omega (arith, d.others x l h))
        g.moved in
    Sorts-parts low high p a b r d
      (Swaps-trans (Swaps-wider (omega arith) (omega (arith, d.inside)) f.moved)
        (Swaps-wider (omega (arith, d.from)) (omega arith) g.moved))
      (Swaps-outside p (inl (omega arith)) g.moved ∙ Swaps-outside p (inr (omega arith)) f.moved)
      (λ x l h.
        let e = same_key x (inl (omega arith)) g.moved in omega (arith, least x l (omega arith)))
      greatest
      (λ x y l o h.
        let e = same_key x (inl (omega arith)) g.moved in
        let e' = same_key y (inl (omega arith)) g.moved in
        omega (arith, f.sorted x y l o (omega arith)))
      g.sorted

-- The part behind the pivot is sorted first.
Sorts-right_first :
    (low high p : ℕ) (a b c r : ℕ → MemoryDescriptor)
    → 0 < p
    → Parted low low high a b p
    → Sorts (suc p) high b c
    → Sorts low (p - 1) c r
    → Sorts low high a r
Sorts-right_first low high p a b c r pos d g f =
    let greatest = Swaps-all (λ t. key b p ≤ t.physical_base) (λ x l h. d.others x l h) g.moved in
    let least =
      Swaps-all (λ t. t.physical_base ≤ key b p)
        (λ x l h.
          let e = same_key x (inl (omega arith)) g.moved in
          omega (arith, d.smaller x l (omega arith)))
        f.moved in
    Sorts-parts low high p a b r d
      (Swaps-trans (Swaps-wider (omega (arith, d.from)) (omega arith) g.moved)
        (Swaps-wider (omega arith) (omega (arith, d.inside)) f.moved))
      (Swaps-outside p (inr (omega arith)) f.moved ∙ Swaps-outside p (inl (omega arith)) g.moved)
      (λ x l h. least x l (omega arith))
      (λ x l h. let e = same_key x (inr (omega arith)) f.moved in omega (arith, greatest x l h))
      (λ x y l o h. f.sorted x y l o (omega arith))
      (λ x y l o h.
        let e = same_key x (inr (omega arith)) f.moved in
        let e' = same_key y (inr (omega arith)) f.moved in omega (arith, g.sorted x y l o h))

-- A range that starts at the map's first descriptor is led by it.
abbrev pub LeadsIfFirst : ℕ → ℕ → (ℕ → MemoryDescriptor) → Type 0
LeadsIfFirst low high a = low ≡ 0 → Leads high a

-- The pivot is not put at the start of the map, and the first descriptor still leads.
pivot_behind :
    (a : ℕ → MemoryDescriptor) (low high : ℕ)
    → low < high
    → LeadsIfFirst low high a
    → (0 < (part_descarray a low high).1) × LeadsIfFirst low high (part_descarray a low high).0
pivot_behind a zero high o leads =
    let first = leads refl in
    let d = part_descarray-first a 0 high o (first high (omega arith) (omega arith)) in
    let start = same_key 0 (inl (omega arith)) d.moved in
    let unmoved : key (swap a 0 0) 0 ≡ key a 0 = ap (λ t. t.physical_base) (swap_first a 0 0) in
    let greater =
      Swaps-all (λ t. key a 0 < t.physical_base)
        (λ x l h.
          let e : key (swap a 0 0) x ≡ key a x =
            ap (λ t. t.physical_base) (kept a 0 0 x (omega arith) (omega arith)) in
          omega (arith, first x (omega arith) h))
        d.moved in
    (omega (arith, d.from), λ e x l h. omega (arith, greater x (omega arith) h))
pivot_behind a (suc low) high o leads =
    let d = part_descarray-Parted a (suc low) high (omega arith) in
    (omega (arith, d.from), λ e. absurd (omega arith))

one_element : (a : ℕ → MemoryDescriptor) (low high : ℕ) → high ≤ low → IsSorted a low high
one_element a low high o x y l m h = let e : x ≡ y = omega arith in omega (arith, ap (key a) e)

pub quicksort_memmap-Sorts :
    (fuel : ℕ) (a : ℕ → MemoryDescriptor) (low high : ℕ)
    → high < low + fuel
    → 0 < fuel
    → high < 2 ^ 32
    → LeadsIfFirst low high a
    → Sorts low high a (quicksort_memmap fuel a low high)
unfolding quicksort_memmap
quicksort_memmap-Sorts zero a low high enough some_fuel word leads = absurd (omega arith)
quicksort_memmap-Sorts (suc fuel) a low high enough some_fuel word leads =
    elim (Bool-cases (ltb low high)) [
      | inr done ↦ rw done (record { moved = same; sorted = one_element a low high (ground arith) })
      | inl more ↦
          let o = ltb→lt low high more in
          let (b, p) = part_descarray a low high in
          let d = part_descarray-Parted a low high (omega arith) in
          let (pos, leads') = pivot_behind a low high o leads in
          let e : (p + (2 ^ 32 - 1)) % 2 ^ 32 ≡ p - 1 = omega (arith, d.inside) in
          rw (more, e)
            (elim (Bool-cases (ltb (p - low) (high - p))) [
              | inl left ↦
                  let f =
                    quicksort_memmap-Sorts fuel b low (p - 1) (omega (arith, d.inside))
                      (omega arith) (omega (arith, d.inside))
                      (λ z x l h. leads' z x l (omega (arith, d.inside))) in
                  let g =
                    quicksort_memmap-Sorts fuel (quicksort_memmap fuel b low (p - 1)) (suc p) high
                      (omega (arith, d.from)) (omega arith) word (λ z. absurd (omega arith)) in
                  rw left (Sorts-left_first low high p a b _ _ pos d f g)
              | inr right ↦
                  let g =
                    quicksort_memmap-Sorts fuel b (suc p) high (omega (arith, d.from)) (omega arith)
                      word (λ z. absurd (omega arith)) in
                  let f =
                    quicksort_memmap-Sorts fuel (quicksort_memmap fuel b (suc p) high) low (p - 1)
                      (omega (arith, d.inside)) (omega arith) (omega (arith, d.inside))
                      (λ z x l h.
                        let e0 = same_key 0 (inl (omega arith)) g.moved in
                        let ex = same_key x (inl (omega arith)) g.moved in
                        omega (arith, leads' z x l (omega (arith, d.inside)))) in
                  rw right (Sorts-right_first low high p a b _ _ pos d g f)
            ])
    ]

-- A map whose first descriptor has the least address, and alone, is sorted by the addresses, by
-- exchanges of its descriptors only; as many rounds as descriptors are enough.
pub sort_memmap-Sorts :
    (count : ℕ) (a : ℕ → MemoryDescriptor)
    → 0 < count
    → count < 2 ^ 32
    → Leads (count - 1) a
    → Sorts 0 (count - 1) a (sort_memmap count a)
unfolding sort_memmap
sort_memmap-Sorts count a some_count word leads =
    let e : (count + (2 ^ 32 - 1)) % 2 ^ 32 ≡ count - 1 = omega arith in
    rw e (
      quicksort_memmap-Sorts count a 0 (count - 1) (omega arith) some_count (omega arith)
        (λ z. leads))
