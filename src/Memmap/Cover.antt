-- ===== src/Memmap/Cover.antt =====
-- The canonical map against the usable regions of the firmware's map, by the addresses in them.
use ych.Prelude.{
  ℕ, zero, suc, ◌+◌, ◌*◌, ◌%◌, ◌^◌, ◌≤◌, ◌<◌, ◌≡◌, refl, Bool, false, ◌||◌, ◌&&◌, not, List, [],
  ◌∷◌, length, leb, ltb, ◌==◌, arith, Bool-cases, inl, inr, ap, ◌∙◌, sym,
}
use native.Mathlib.Nat.{add-mul, le-mul_of_pos_right}
use ych.Physmem.Init.{MemoryDescriptor, is_usable_memory_region_type}
use ych.Memmap.{peek_ahead, build_canonical}

-- Whether an address lies in a region.
abbrev pub holds_address : ℕ → ℕ → ℕ → ℕ → Bool
holds_address size base count a = leb base a && ltb a (base + count * size)

-- Whether an address lies in a usable region of the map.
unfoldable pub usable_at : ℕ → List MemoryDescriptor → ℕ → Bool
usable_at size [] a = false
usable_at size (d ∷ ds) a =
    (is_usable_memory_region_type d.region_type
      && holds_address size d.physical_base d.page_count a)
    || usable_at size ds a

-- Whether an address lies in a region of the map.
unfoldable pub covered_at : ℕ → List MemoryDescriptor → ℕ → Bool
covered_at size [] a = false
covered_at size (d ∷ ds) a =
    holds_address size d.physical_base d.page_count a || covered_at size ds a

-- Every region ends inside the address space.
unfoldable pub AllInside : ℕ → List MemoryDescriptor → Type 0
AllInside size [] = Unit
AllInside size (d ∷ ds) = (d.physical_base + d.page_count * size < 2 ^ 64) × AllInside size ds

record Peeked (size base count : ℕ) (ds : List MemoryDescriptor) (r : ℕ × List MemoryDescriptor)
    : Type 0 where
  shorter : length r.1 ≤ length ds
  inside : AllInside size r.1
  covers :
      (a : ℕ)
      → (holds_address size base count a || usable_at size ds a)
        ≡ (holds_address size base r.0 a || usable_at size r.1 a)

peek_ahead-Peeked :
    (size base count : ℕ) (ds : List MemoryDescriptor)
    → 0 < size
    → base + count * size < 2 ^ 64
    → AllInside size ds
    → Peeked size base count ds (peek_ahead size base count ds)
unfolding peek_ahead AllInside usable_at
peek_ahead-Peeked size base count [] pos fits all = record {
  shorter = omega arith;
  inside = tt;
  covers = λ a. refl;
}
peek_ahead-Peeked size base count (d ∷ ds) pos fits (here, all) =
    elim (Bool-cases (
      not (is_usable_memory_region_type d.region_type)
      || not ((base + count * size) % 2 ^ 64 == d.physical_base))) [
        | inl stop ↦
            simp (stop) (record { shorter = omega arith; inside = (here, all); covers = λ a. refl })
        | inr on ↦
            let joined : base + count * size ≡ d.physical_base = ground arith in
            let split : (count + d.page_count) * size ≡ count * size + d.page_count * size =
              add-mul count d.page_count size in
            let narrow : count + d.page_count < 2 ^ 64 =
              omega (arith, le-mul_of_pos_right (count + d.page_count) pos) in
            let whole : (count + d.page_count) % 2 ^ 64 ≡ count + d.page_count = omega arith in
            let r =
              peek_ahead-Peeked size base (count + d.page_count) ds pos (omega (arith, split))
                all in
            simp (on, whole)
              (record {
                shorter = omega (arith, r.shorter);
                inside = r.inside;
                covers = λ a. ground (arith, r.covers a, split);
              })
      ]

-- Where every region of the firmware's map ends below 2 ^ 64 and the page size is not 0, an address
-- lies in a region of the canonical map exactly where it lies in a usable region of the firmware's
-- map. The fuel is any number from the number of descriptors on.
pub build_canonical-covered :
    (size fuel : ℕ) (ds : List MemoryDescriptor) (a : ℕ)
    → 0 < size
    → length ds ≤ fuel
    → AllInside size ds
    → covered_at size (build_canonical size fuel ds) a ≡ usable_at size ds a
unfolding build_canonical covered_at usable_at AllInside
build_canonical-covered size zero [] a pos enough all = refl
build_canonical-covered size zero (d ∷ ds) a pos enough all = absurd (omega arith)
build_canonical-covered size (suc fuel) [] a pos enough all = refl
build_canonical-covered size (suc fuel) (d ∷ ds) a pos enough (here, all) =
    let ahead = peek_ahead size d.physical_base d.page_count ds in
    let r = peek_ahead-Peeked size d.physical_base d.page_count ds pos here all in
    elim (Bool-cases (is_usable_memory_region_type d.region_type)) [
      | inl usable ↦ simp (usable) (
          ap (λ b. holds_address size d.physical_base ahead.0 a || b)
            (build_canonical-covered size fuel ahead.1 a pos (omega (arith, r.shorter)) r.inside)
          ∙ sym (r.covers a))
      | inr not_usable ↦
          simp (not_usable) (build_canonical-covered size fuel ds a pos (omega arith) all)
    ]
