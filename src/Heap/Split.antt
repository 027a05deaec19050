-- ===== src/Heap/Split.antt =====
-- Splitting a block of the heap, `HeapCanSplitAt` and `HeapTrySplitAt`.
use ych.Prelude.{
  ℕ, ◌+◌, ◌-◌, ◌%◌, ◌^◌, ◌<◌, ◌≤◌, ◌≡◌, ◌≢◌, refl, true, false, List, [], ◌∷◌, leb, arith,
  if◌then◌else◌, Bool-cases, inl, inr, ◌⊎◌, ◌∙◌, ap,
}
use ych.Heap.{Header, put_header, sub64, block_stop, resize, link_back, can_split_at, try_split_at}
use ych.Heap.Chain.{
  Block, block_size, stop_of, link_to, header_of, IsChain, IsChain-cons, le-stop_of,
  put_header-same, put_header-other, put_header-IsChain, put_header-cons, link_back-IsChain,
  link_back-other,
}

-- What a split at `offset` makes of a block: the part before it and a free block behind, unless
-- that would be too small.
abbrev pub split_blocks : Block → ℕ → List Block → List Block
split_blocks b offset ys =
    if leb 57 (block_size b - offset)
    then (record b { payload_size = offset - 25 }
        ∷ record { payload_size = block_size b - offset - 25; free = true }
        ∷ ys)
    else b ∷ ys

pub sub64-sub : (a b : ℕ) → b ≤ a → a < 2 ^ 64 → sub64 a b ≡ a - b
sub64-sub a b h l = omega arith

module _ (h : ℕ → Header) (prev a : ℕ) (b : Block) (ys : List Block)
    (c : IsChain h prev a (b ∷ ys) 0) (bounded : stop_of a (b ∷ ys) < 2 ^ 64) where
  block_stop_lem : block_stop h a ≡ a + block_size b
  unfolding IsChain
  block_stop_lem = rw c.0 (omega (arith, le-stop_of (a + block_size b) ys))

  can_split_at_lem :
      (offset : ℕ)
      → offset ≤ block_size b
      → can_split_at h a offset ≡ leb 57 (block_size b - offset)
  unfolding can_split_at
  can_split_at_lem offset le =
      let after = le-stop_of (a + block_size b) ys in rw block_stop_lem (ground arith)

  try_split_at-full :
      (offset : ℕ)
      → offset ≤ block_size b
      → leb 57 (block_size b - offset) ≡ false
      → (try_split_at h a offset).0 ≡ h
  unfolding try_split_at
  try_split_at-full offset le full = rw (can_split_at_lem offset le, full)

  next_lem : (h a).next ≡ link_to (a + block_size b) ys 0
  unfolding IsChain
  next_lem = rw c.0

  -- `after` is 0 or the address behind the block.
  after_apart : (x : ℕ) → x < a + block_size b → ((h a).next ≡ 0) ⊎ (x ≢ (h a).next)
  after_apart x lt =
      rw next_lem
        (elim ys
          as (λ zs. (link_to (a + block_size b) zs 0 ≡ 0) ⊎ (x ≢ link_to (a + block_size b) zs 0)) [
            | [] ↦ inl refl
            | y ∷ ys' ↦ inr (ground arith)
          ])

  abbrev split_off : ℕ → Block
  split_off offset = record { payload_size = block_size b - offset - 25; free = true }

  -- The headers behind the block's own, with the new one and the link back to it.
  inserted : ℕ → ℕ → Header
  inserted offset =
      link_back (put_header h (a + offset) (header_of a (h a).next (split_off offset))) (h a).next
        (a + offset)

  module _ (offset : ℕ) (low : 25 ≤ offset) (le : offset + 57 ≤ block_size b) where
    try_split_at_lem :
        (try_split_at h a offset).0
        ≡ resize
            (inserted offset)
            a
            (sub64 (inserted offset a).payload_size (block_size b - offset))
            (a + offset)
    unfolding try_split_at inserted
    try_split_at_lem =
        let after = le-stop_of (a + block_size b) ys in
        let fits : leb 57 (block_size b - offset) ≡ true = ground arith in
        let wrap : (a + offset) % 2 ^ 64 ≡ a + offset = omega arith in
        let cut : sub64 (a + block_size b) (a + offset) ≡ block_size b - offset = omega arith in
        let rest : sub64 (block_size b - offset) 25 ≡ block_size b - offset - 25 = omega arith in
        rw (can_split_at_lem offset (omega arith), fits, block_stop_lem, wrap, cut, rest)

    inserted_own : inserted offset a ≡ h a
    unfolding inserted
    inserted_own =
        link_back-other _ (h a).next (a + offset) a (after_apart a (omega arith))
        ∙ put_header-other h (a + offset) _ a (omega arith)

    inserted-IsChain : 0 < a → IsChain (inserted offset) a (a + offset) (split_off offset ∷ ys) 0
    unfolding inserted
    inserted-IsChain pos =
        let v = header_of a (h a).next (split_off offset) in
        let h1 = put_header h (a + offset) v in
        let e : a + offset + block_size (split_off offset) ≡ a + block_size b = omega arith in
        let c1 =
          put_header-IsChain h (a + offset) v a (a + block_size b) ys 0 (inl (omega arith))
            ((IsChain-cons h prev a 0 b ys).0 c).1 in
        (IsChain-cons (inserted offset) a (a + offset) 0 (split_off offset) ys).1 (
          link_back-other h1 (h a).next (a + offset) (a + offset)
                (after_apart (a + offset) (omega arith))
              ∙ put_header-same h (a + offset) v
              ∙ rw (next_lem, e),
          rw e (
              link_back-IsChain h1 a (a + offset) (a + block_size b) (h a).next ys (omega arith)
                next_lem c1),
        )

    resized :
        resize
          (inserted offset)
          a
          (sub64 (inserted offset a).payload_size (block_size b - offset))
          (a + offset)
        ≡ put_header
            (inserted offset)
            a
            (header_of prev (a + offset) (record b { payload_size = offset - 25 }))
    unfolding resize
    resized =
        let after = le-stop_of (a + block_size b) ys in
        let e : sub64 b.payload_size (block_size b - offset) ≡ offset - 25 = omega arith in
        rw (inserted_own, ((IsChain-cons h prev a 0 b ys).0 c).0, e)

  pub try_split_at-IsChain :
      (offset : ℕ)
      → 0 < a
      → 25 ≤ offset
      → offset ≤ block_size b
      → IsChain (try_split_at h a offset).0 prev a (split_blocks b offset ys) 0
  try_split_at-IsChain offset pos low le = elim (Bool-cases (leb 57 (block_size b - offset))) [
    | inl fits ↦
        let room : offset + 57 ≤ block_size b = ground arith in
        rw (fits, try_split_at_lem offset low room, resized offset low room)
          (put_header-cons (inserted offset) prev a (a + offset)
            (record b { payload_size = offset - 25 }) (split_off offset ∷ ys) 0
            (inserted-IsChain offset low room pos) (omega arith))
    | inr full ↦ rw (full, try_split_at-full offset le full) c
  ]

  pub try_split_at-below :
      (offset x : ℕ)
      → 25 ≤ offset
      → offset ≤ block_size b
      → x < a
      → (try_split_at h a offset).0 x ≡ h x
  unfolding inserted resize
  try_split_at-below offset x low le lt = elim (Bool-cases (leb 57 (block_size b - offset))) [
    | inl fits ↦
        ap (λ g. g x) (try_split_at_lem offset low (ground arith))
        ∙ put_header-other _ a _ x (omega arith)
        ∙ link_back-other _ (h a).next (a + offset) x (after_apart x (omega arith))
        ∙ put_header-other h (a + offset) _ x (omega arith)
    | inr full ↦ ap (λ g. g x) (try_split_at-full offset le full)
  ]
