-- ===== src/Memmap/Sort/Swaps.antt =====
-- Maps that exchanges within a range lead to, for `KrSwapMemdescs` of
-- Kernel/Source/Init/KrInitMemmap.c.
use ych.Prelude.{
  ℕ, ◌≤◌, ◌<◌, ◌≡◌, ◌≢◌, ◌⊎◌, refl, ap, ◌∙◌, eq→beq, ◌==◌, arith, Bool-cases, inl, inr, beq→eq,
  ne→beq,
}
use ych.Physmem.Init.{MemoryDescriptor}
use ych.Memmap.Sort.{swap}

-- The maps that exchanges of elements from `low` to `high` lead to.
pub data Swaps (low high : ℕ) (a : ℕ → MemoryDescriptor) : (ℕ → MemoryDescriptor) → Type 0 where
  same : Swaps low high a a
  exchanged :
      {b : ℕ → MemoryDescriptor}
      → (i j : ℕ) → low ≤ i
      → i ≤ high
      → low ≤ j
      → j ≤ high
      → Swaps low high a b
      → Swaps low high a (swap b i j)

pub Swaps-trans :
    {low high : ℕ} {a b c : ℕ → MemoryDescriptor}
    → Swaps low high a b
    → Swaps low high b c
    → Swaps low high a c
Swaps-trans u same = u
Swaps-trans u (exchanged i j l1 h1 l2 h2 v) = exchanged i j l1 h1 l2 h2 (Swaps-trans u v)

-- Exchanges within a range are exchanges within a larger one.
pub Swaps-wider :
    {low high low' high' : ℕ} {a b : ℕ → MemoryDescriptor}
    → low' ≤ low
    → high ≤ high'
    → Swaps low high a b
    → Swaps low' high' a b
Swaps-wider l h same = same
Swaps-wider l h (exchanged i j l1 h1 l2 h2 v) =
    exchanged i j (omega arith) (omega arith) (omega arith) (omega arith) (Swaps-wider l h v)

pub swap_first : (a : ℕ → MemoryDescriptor) (i j : ℕ) → swap a i j i ≡ a j
unfolding swap
swap_first a i j = rw (eq→beq i i refl) refl

pub swap_second : (a : ℕ → MemoryDescriptor) (i j : ℕ) → swap a i j j ≡ a i
unfolding swap
swap_second a i j = elim (Bool-cases (j == i)) [
  | inl e ↦ simp e (ap a (beq→eq j i e))
  | inr e ↦ simp (e, eq→beq j j refl) refl
]

pub kept : (a : ℕ → MemoryDescriptor) (i j x : ℕ) → x ≢ i → x ≢ j → swap a i j x ≡ a x
unfolding swap
kept a i j x other further = rw (ne→beq x i other, ne→beq x j further) refl

swap_all :
    (a : ℕ → MemoryDescriptor) (i j x : ℕ) (P : MemoryDescriptor → Type 0)
    → P (a i)
    → P (a j)
    → P (a x)
    → P (swap a i j x)
unfolding swap
swap_all a i j x P first second here = elim (Bool-cases (x == i)) [
  | inl e ↦ simp e second
  | inr e ↦ simp e (elim (Bool-cases (x == j)) [ inl f ↦ simp f first | inr f ↦ simp f here ])
]

-- Nothing outside of the range is changed.
pub Swaps-outside :
    {low high : ℕ} {a b : ℕ → MemoryDescriptor} (x : ℕ)
    → (x < low) ⊎ (high < x)
    → Swaps low high a b
    → b x ≡ a x
Swaps-outside x out same = refl
Swaps-outside {low} {high} x out (exchanged {b} i j l1 h1 l2 h2 v) =
    let other : (k : ℕ) → low ≤ k → k ≤ high → x ≢ k =
      λ k l h. elim out [ inl before ↦ omega arith | inr behind ↦ omega arith ] in
    kept b i j x (other i l1 h1) (other j l2 h2) ∙ Swaps-outside x out v

-- What holds of every element of the range holds of every one afterwards.
pub Swaps-all :
    {low high : ℕ} {a b : ℕ → MemoryDescriptor} (P : MemoryDescriptor → Type 0)
    → ((x : ℕ) → low ≤ x → x ≤ high → P (a x))
    → Swaps low high a b
    → (x : ℕ) → low ≤ x
    → x ≤ high
    → P (b x)
Swaps-all P all same = all
Swaps-all P all (exchanged {b} i j l1 h1 l2 h2 v) =
    let before = Swaps-all P all v in
    λ x l h. swap_all b i j x P (before i l1 h1) (before j l2 h2) (before x l h)
