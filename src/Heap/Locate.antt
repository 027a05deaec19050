-- ===== src/Heap/Locate.antt =====
-- The search of the heap for a free block, `HeapLocateAlignedFreeOfSizeFrom` and its two simpler kin.
use ych.Prelude.{
  ℕ, zero, suc, ◌+◌, ◌^◌, ◌<◌, ◌≤◌, ◌≡◌, refl, ap, Bool, true, false, ◌&&◌, List, [], ◌∷◌, ◌++◌,
  arith, leb, if◌then◌else◌, Bool-cases, inl, inr, ◌⊎◌, length, ne→beq,
}
use ych.Heap.{Header, aligned_payload, locate_aligned_free_of_size_from}
use ych.Heap.Chain.{Block, block_size, stop_of, link_to, IsChain, IsChain-cons, IsRoomy, le-stop_of}
use ych.Heap.Place.{block_serves_lem}

-- Whether the block at `a` is free and has room for `n` bytes at its aligned payload address.
abbrev pub serves : ℕ → ℕ → ℕ → Block → Bool
serves n alignment a b = b.free && leb (aligned_payload a alignment + n) (a + block_size b)

-- The first block at or behind `a` that serves, with the payload's address; 0 where none does.
unfoldable pub first_fit : ℕ → ℕ → ℕ → List Block → ℕ × ℕ
first_fit n alignment a [] = (0, 0)
first_fit n alignment a (b ∷ bs) =
    if serves n alignment a b
    then (a, aligned_payload a alignment)
    else first_fit n alignment (a + block_size b) bs

module _ (h : ℕ → Header) (n j k : ℕ) (e : j + k ≡ 64) (small : 2 ^ k < 32) where
  -- The loop over the links is the walk along the blocks, with a round for each of them and one more.
  pub locate-first_fit :
      (fuel prev a x : ℕ) (bs : List Block)
      → length bs < fuel
      → 0 < a
      → x ≡ link_to a bs 0
      → stop_of a bs + 2 ^ 33 ≤ 2 ^ 64
      → IsRoomy bs
      → IsChain h prev a bs 0
      → locate_aligned_free_of_size_from h fuel x n (2 ^ k) ≡ first_fit n (2 ^ k) a bs
  unfolding locate_aligned_free_of_size_from first_fit IsRoomy
  locate-first_fit zero prev a x bs enough pos l bounded roomy c = absurd (omega arith)
  locate-first_fit (suc fuel) prev a x [] enough pos l bounded roomy c = rw l
  locate-first_fit (suc fuel) prev a x (b ∷ bs) enough pos l bounded (large, roomy) c =
      let (at, rest) = (IsChain-cons h prev a 0 b bs).0 c in
      let after = le-stop_of (a + block_size b) bs in
      let ih =
        locate-first_fit fuel a (a + block_size b) (h a).next bs (omega arith) (omega arith)
          (rw at refl) bounded roomy rest in
      let test =
        block_serves_lem j k a e (omega arith) (omega arith) h n small (rw at large)
          (rw at (omega arith)) in
      rw (l, ne→beq a 0 (omega arith), test, ih, at)

-- No block of the run at `a` serves.
unfoldable pub NoneServes : ℕ → ℕ → ℕ → List Block → Type 0
NoneServes n alignment a [] = Unit {0}
NoneServes n alignment a (b ∷ bs) =
    (serves n alignment a b ≡ false) × NoneServes n alignment (a + block_size b) bs

-- The block and the payload `r` of a search: the first one that serves.
pub record IsFirst (n alignment a : ℕ) (bs : List Block) (r : ℕ × ℕ) : Type 0 where
  pub before : List Block
  pub block : Block
  pub behind : List Block
  pub split : bs ≡ before ++ block ∷ behind
  pub skipped : NoneServes n alignment a before
  pub at : r.0 ≡ stop_of a before
  pub payload : r.1 ≡ aligned_payload r.0 alignment
  pub serving : serves n alignment (stop_of a before) block ≡ true

pub first_fit_finds :
    (n alignment a : ℕ) (bs : List Block)
    → ((first_fit n alignment a bs ≡ (0, 0)) × NoneServes n alignment a bs)
      ⊎ IsFirst n alignment a bs (first_fit n alignment a bs)
unfolding first_fit NoneServes
first_fit_finds n alignment a [] = inl (refl, tt)
first_fit_finds n alignment a (b ∷ bs) = elim (Bool-cases (serves n alignment a b)) [
  | inl hit ↦ rw hit (
      inr (record {
        before = [];
        block = b;
        behind = bs;
        split = refl;
        skipped = tt;
        at = refl;
        payload = refl;
        serving = hit;
      }))
  | inr miss ↦ rw miss (elim (first_fit_finds n alignment (a + block_size b) bs) [
    | inl (z, rest) ↦ inl (z, (refl, rest))
    | inr f ↦ inr (record {
      before = b ∷ f.before;
      block = f.block;
      behind = f.behind;
      split = ap (λ t. b ∷ t) f.split;
      skipped = (miss, f.skipped);
      at = f.at;
      payload = f.payload;
      serving = f.serving;
    })
  ])
]
