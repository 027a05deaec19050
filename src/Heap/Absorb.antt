-- ===== src/Heap/Absorb.antt =====
-- One block of the heap swallowing the one behind it, as `HeapRelinquish` does.
use ych.Prelude.{
  ℕ, ◌+◌, ◌%◌, ◌^◌, ◌<◌, ◌≡◌, ◌≢◌, refl, ap, ◌∙◌, List, [], ◌∷◌, ◌⊎◌, inl, inr, arith,
  if◌then◌else◌, ne→beq, Bool-cases,
}
use ych.Heap.{Header, put_header, link_back, resize, swallow_next}
use ych.Heap.Chain.{
  Block, block_size, stop_of, link_to, header_of, IsChain, IsChain-cons, le-stop_of,
  put_header-same, put_header-other, put_header-IsChain, link_back-IsChain, link_back-other,
  IsRoomy,
}

abbrev pub absorb : Block → Block → Block
absorb x y = record x { payload_size = x.payload_size + block_size y }

-- What the writes are: the block's new size and link, and the link back of the block behind.
abbrev pub absorbed : (ℕ → Header) → ℕ → ℕ → ℕ → ℕ → Header
absorbed h a size n = link_back (resize h a size n) n a

module _ (h : ℕ → Header) (prev a : ℕ) (x y : Block) (ys : List Block) (size n : ℕ)
    (c : IsChain h prev a (x ∷ y ∷ ys) 0) (bounded : stop_of a (x ∷ y ∷ ys) < 2 ^ 64) (pos : 0 < a)
    (e : size ≡ x.payload_size + block_size y)
    (to : n ≡ link_to (a + block_size x + block_size y) ys 0) where
  n_apart : (z : ℕ) → z < a + block_size x → (n ≡ 0) ⊎ (z ≢ n)
  n_apart z lt =
      rw to
        (elim ys
          as (λ zs.
            (link_to (a + block_size x + block_size y) zs 0 ≡ 0)
            ⊎ (z ≢ link_to (a + block_size x + block_size y) zs 0)) [
              | [] ↦ inl refl
              | z ∷ zs ↦ inr (ground arith)
            ])

  resized : resize h a size n ≡ put_header h a (header_of prev n (absorb x y))
  unfolding resize
  resized = rw ((IsChain-cons h prev a 0 x (y ∷ ys)).0 c).0 (rw e refl)

  pub absorbed-IsChain : IsChain (absorbed h a size n) prev a (absorb x y ∷ ys) 0
  absorbed-IsChain =
      let a3 = a + block_size x + block_size y in
      let tail =
        ((IsChain-cons h a (a + block_size x) 0 y ys).0
          ((IsChain-cons h prev a 0 x (y ∷ ys)).0 c).1).1 in
      let v = header_of prev n (absorb x y) in
      let h1 = put_header h a v in
      let same : a + block_size (absorb x y) ≡ a3 = omega arith in
      let c1 = put_header-IsChain h a v (a + block_size x) a3 ys 0 (inl (omega arith)) tail in
      rw resized (
        (IsChain-cons (link_back h1 n a) prev a 0 (absorb x y) ys).1 (
          link_back-other h1 n a a (n_apart a (omega arith))
              ∙ put_header-same h a v
              ∙ rw (same, to),
          rw same (link_back-IsChain h1 (a + block_size x) a a3 n ys (omega arith) to c1),
        ))

  pub absorbed-below : (z : ℕ) → z < a → absorbed h a size n z ≡ h z
  unfolding resize
  absorbed-below z lt =
      link_back-other _ n a z (n_apart z (omega arith)) ∙ put_header-other h a _ z (omega arith)

-- The block and the ones behind it after it has looked at the next.
abbrev pub merge_next : Block → List Block → List Block
merge_next b [] = b ∷ []
merge_next b (y ∷ ys) = if y.free then absorb b y ∷ ys else b ∷ y ∷ ys

pub merge_next-stop :
    (a : ℕ) (b : Block) (ys : List Block) → stop_of a (merge_next b ys) ≡ stop_of a (b ∷ ys)
merge_next-stop a b [] = refl
merge_next-stop a b (y ∷ ys) = elim (Bool-cases y.free) [
  | inl free ↦ rw free (ap (λ t. stop_of t ys) (omega arith))
  | inr used ↦ rw used
]

pub merge_next-link : (a : ℕ) (b : Block) (ys : List Block) → link_to a (merge_next b ys) 0 ≡ a
merge_next-link a b [] = refl
merge_next-link a b (y ∷ ys) = elim (Bool-cases y.free) [ inl free ↦ rw free | inr used ↦ rw used ]

pub merge_next-IsRoomy :
    (b : Block) (ys : List Block) → IsRoomy (b ∷ ys) → IsRoomy (merge_next b ys)
unfolding IsRoomy
merge_next-IsRoomy b [] r = r
merge_next-IsRoomy b (y ∷ ys) r = elim (Bool-cases y.free) [
  | inl free ↦ rw free (omega arith, r.1.1)
  | inr used ↦ rw used r
]

module _ (h : ℕ → Header) (prev a : ℕ) (b : Block) (pos : 0 < a) where
  swallow_next_lem :
      (y : Block) (ys : List Block)
      → IsChain h prev a (b ∷ y ∷ ys) 0
      → stop_of a (b ∷ y ∷ ys) < 2 ^ 64
      → swallow_next h a (a + block_size b) ≡ (
          if y.free
          then absorbed h a
              (b.payload_size + block_size y)
              (link_to (a + block_size b + block_size y) ys 0)
          else h)
  unfolding swallow_next
  swallow_next_lem y ys c bounded =
      let (at, rest) = (IsChain-cons h prev a 0 b (y ∷ ys)).0 c in
      let next = ((IsChain-cons h a (a + block_size b) 0 y ys).0 rest).0 in
      let behind = le-stop_of (a + block_size b + block_size y) ys in
      let size : (b.payload_size + (y.payload_size + 25)) % 2 ^ 64 ≡ b.payload_size + block_size y =
        omega arith in
      rw (next, at, ne→beq (a + block_size b) 0 (omega arith), size)

  swallow_next_zero : swallow_next h a 0 ≡ h
  unfolding swallow_next
  swallow_next_zero = refl

  pub swallow_next-IsChain :
      (n : ℕ) (ys : List Block)
      → n ≡ link_to (a + block_size b) ys 0
      → IsChain h prev a (b ∷ ys) 0
      → stop_of a (b ∷ ys) < 2 ^ 64
      → IsChain (swallow_next h a n) prev a (merge_next b ys) 0
        × ((z : ℕ) → z < a → swallow_next h a n z ≡ h z)
  swallow_next-IsChain n [] to c bounded = rw (to, swallow_next_zero) (c, λ z lt. refl)
  swallow_next-IsChain n (y ∷ ys) to c bounded =
      let l = link_to (a + block_size b + block_size y) ys 0 in
      let size = b.payload_size + block_size y in
      rw (to, swallow_next_lem y ys c bounded)
        (elim (Bool-cases y.free) [
          | inl free ↦ rw free (
            absorbed-IsChain h prev a b y ys size l c bounded pos refl refl,
            absorbed-below h prev a b y ys size l c bounded pos refl refl,
          )
          | inr used ↦ simp used (c, λ z lt. refl)
        ])
