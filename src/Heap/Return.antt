-- ===== src/Heap/Return.antt =====
-- A whole call of `HeapRelinquish` on a pointer that an acquisition returned.
use mathlib.Core.Path.{subst}
use mathlib.Core.List.{append_assoc}
use ych.Prelude.{
  ℕ, ◌+◌, ◌-◌, ◌^◌, ◌<◌, ◌≤◌, ◌≡◌, refl, ap, sym, ◌∙◌, Bool, true, false, List, [], ◌∷◌, ◌++◌,
  arith, Option, none, some, leb, le→ltb, Bool-cases, inl, inr,
}
use ych.Heap.{Heap, Header, relinquish_block, heap_relinquish, sub64}
use ych.Heap.Chain.{
  Block, block_size, stop_of, last_of, link_to, IsChain, IsChain-append, IsChain-cons,
  stop_of-append, below-IsChain, link_to-append, IsRoomy, IsRoomy-append, IsHeap,
}
use ych.Heap.Acquire.{IsHeap-Around}
use ych.Heap.Absorb.{merge_next, merge_next-stop, merge_next-link, merge_next-IsRoomy, absorb}
use ych.Heap.Release.{
  Relinquished, released, at_end, between, freed, optional, relinquish_first, relinquish_later,
}

-- The blocks `bs` with their headers: what a block in the middle is given back among.
pub splice-IsHeap :
    (s : Heap) (front mid mid' : List Block) (h' : ℕ → Header)
    → IsHeap s (front ++ mid)
    → link_to (stop_of s.start front) mid' 0 ≡ link_to (stop_of s.start front) mid 0
    → stop_of (stop_of s.start front) mid' ≡ stop_of (stop_of s.start front) mid
    → IsRoomy mid'
    → ((x : ℕ) → x < stop_of s.start front → h' x ≡ s.headers x)
    → IsChain h' (last_of 0 s.start front) (stop_of s.start front) mid' 0
    → IsHeap (record s { headers = h' }) (front ++ mid')
splice-IsHeap s front mid mid' h' w l t roomy below c =
    let parts = (IsChain-append s.headers 0 s.start front mid 0).0 w.chain in
    record {
      rooted = w.rooted ∙ link_to-append s.start front mid mid' (sym l);
      positive = w.positive;
      bounded = w.bounded;
      chain = (IsChain-append h' 0 s.start front mid' 0).1 (
        subst (λ n. IsChain h' 0 s.start front n) (sym l)
            (below-IsChain s.headers h' 0 s.start front _ below parts.0),
        c,
      );
      tiles =
          stop_of-append s.start front mid' ∙ t ∙ sym (stop_of-append s.start front mid) ∙ w.tiles;
      roomy = (IsRoomy-append front mid').1 (((IsRoomy-append front mid).0 w.roomy).0, roomy);
    }

-- What merging keeps: the room of the blocks, the link to them, and the least size.
abbrev Keeps : ℕ → List Block → Option (List Block) → Type 0
Keeps a mid none = Unit {0}
Keeps a mid (some zs) =
    (stop_of a zs ≡ stop_of a mid) × (link_to a zs 0 ≡ link_to a mid 0) × (IsRoomy mid → IsRoomy zs)

later-Keeps :
    (a : ℕ) (x b : Block) (ys : List Block)
    → Keeps a (x ∷ b ∷ ys) (some (x ∷ merge_next (freed b) ys))
unfolding IsRoomy
later-Keeps a x b ys = (
  merge_next-stop (a + block_size x) (freed b) ys,
  refl,
  λ r. (r.0, merge_next-IsRoomy (freed b) ys r.1),
)

merged-Keeps :
    (a : ℕ) (x b : Block) (ys : List Block)
    → Keeps a (x ∷ b ∷ ys) (some (merge_next (absorb x b) ys))
unfolding IsRoomy
merged-Keeps a x b ys =
    let join : a + block_size (absorb x b) ≡ a + block_size x + block_size b = omega arith in
    (
      merge_next-stop a (absorb x b) ys ∙ ap (λ t. stop_of t ys) join,
      merge_next-link a (absorb x b) ys,
      λ r. merge_next-IsRoomy (absorb x b) ys (omega arith, r.1.1),
    )

released-Keeps :
    (a : ℕ) (o : Option Block) (b : Block) (ys : List Block)
    → Keeps a (optional o ++ b ∷ ys) (released o b ys)
unfolding IsRoomy
released-Keeps a none b ys = (
  merge_next-stop a (freed b) ys,
  merge_next-link a (freed b) ys,
  merge_next-IsRoomy (freed b) ys,
)
released-Keeps a (some x) b [] = elim (Bool-cases x.free) [
  | inl free ↦ subst (λ t. Keeps a (x ∷ b ∷ []) (at_end x b t)) (sym free) tt
  | inr used ↦ subst (λ t. Keeps a (x ∷ b ∷ []) (at_end x b t)) (sym used) (later-Keeps a x b [])
]
released-Keeps a (some x) b (y ∷ ys) =
    let kept : Bool → Type 0 = λ t. Keeps a (x ∷ b ∷ y ∷ ys) (between x b (y ∷ ys) t) in
    elim (Bool-cases x.free) [
      | inl free ↦ subst kept (sym free) (merged-Keeps a x b (y ∷ ys))
      | inr used ↦ subst kept (sym used) (later-Keeps a x b (y ∷ ys))
    ]

-- The blocks in front of the last one, and that one.
abbrev pub all_but_last : List Block → List Block
all_but_last [] = []
all_but_last (x ∷ []) = []
all_but_last (x ∷ x' ∷ xs) = x ∷ all_but_last (x' ∷ xs)

abbrev pub last : List Block → Option Block
last [] = none
last (x ∷ []) = some x
last (x ∷ x' ∷ xs) = last (x' ∷ xs)

-- What a call comes to: the fault, or the heap with the blocks merged.
abbrev pub Returned : Heap → List Block → Option (List Block) → Option (Heap × Bool) → Type 0
Returned s front none r = r ≡ none
Returned s front (some zs) r =
    (s' : Heap) × (r ≡ some (s', true))
    × IsHeap s' (front ++ zs)
    × ((x : ℕ) → s'.words x ≡ s.words x)

pub last_view :
    (x : Block) (xs : List Block)
    → (z : Block) × (last (x ∷ xs) ≡ some z) × (x ∷ xs ≡ all_but_last (x ∷ xs) ++ z ∷ [])
last_view x [] = (x, refl, refl)
last_view x (x' ∷ xs) = let (z, e, t) = last_view x' xs in (z, e, ap (λ u. x ∷ u) t)

-- The call on the pointer `p` into the block at `a` that the offset word leads to.
heap_relinquish_lem :
    (s : Heap) (a p : ℕ)
    → s.start ≤ p
    → p < s.stop
    → s.stop < 2 ^ 64
    → a + 27 ≤ p
    → s.words (p - 2) ≡ p - a
    → (s.headers a).free ≡ false
    → heap_relinquish s p ≡ elim (relinquish_block s.headers a) [
      | none ↦ none
      | some h ↦ some (record s { headers = h }, true)
    ]
unfolding heap_relinquish
heap_relinquish_lem s a p low high bounded own word used =
    let before : sub64 p 2 ≡ p - 2 = omega arith in
    let found : sub64 p (p - a) ≡ a = omega arith in
    let inside : leb s.stop p ≡ false = ground arith in
    rw (le→ltb p s.start low, inside, before, word, found, used)

-- The headers with the merged blocks are a heap again.
finish :
    (s : Heap) (front mid : List Block) (r : Option (List Block)) (t : Option (ℕ → Header))
    → IsHeap s (front ++ mid)
    → Keeps (stop_of s.start front) mid r
    → Relinquished s.headers (last_of 0 s.start front) (stop_of s.start front) r t
    → Returned s front r (elim t [ none ↦ none | some h ↦ some (record s { headers = h }, true) ])
finish s front mid none t w keeps e = rw e refl
finish s front mid (some zs) t w (stop, link, roomy) (h', e, chain, below) = rw e (
  record s { headers = h' },
  refl,
  splice-IsHeap s front mid zs h' w link stop (roomy ((IsRoomy-append front mid).0 w.roomy).1) below
      chain,
  λ x. refl,
)

module _ (s : Heap) (bs before : List Block) (b : Block) (ys : List Block) (w : IsHeap s bs)
    (split : bs ≡ before ++ b ∷ ys) where
  -- The header that the pointer leads to, and the bounds that the pointer has.
  relinquish_at :
      (p : ℕ)
      → b.free ≡ false
      → stop_of s.start before + 27 ≤ p
      → p < stop_of s.start before + block_size b
      → s.words (p - 2) ≡ p - stop_of s.start before
      → heap_relinquish s p ≡ elim (relinquish_block s.headers (stop_of s.start before)) [
        | none ↦ none
        | some h ↦ some (record s { headers = h }, true)
      ]
  relinquish_at p used own inside word =
      let parts = IsHeap-Around s bs before b ys w split in
      let own_stop = parts.own_stop in
      let starts = parts.starts in
      let bounded = w.bounded in
      heap_relinquish_lem s (stop_of s.start before) p (omega arith) (omega arith) (omega arith) own
        word (rw ((IsChain-cons s.headers _ (stop_of s.start before) 0 b ys).0 parts.chain).0 used)

Returned-later :
    (s : Heap) (bs front : List Block) (z b : Block) (ys : List Block)
    → IsHeap s bs
    → bs ≡ front ++ z ∷ b ∷ ys
    → Returned s front
        (released (some z) b ys)
        (elim (relinquish_block s.headers (stop_of s.start front + block_size z)) [
          | none ↦ none
          | some h ↦ some (record s { headers = h }, true)
        ])
Returned-later s bs front z b ys w split =
    let parts = IsHeap-Around s bs front z (b ∷ ys) w split in
    let ends = parts.ends in
    let starts = parts.starts in
    let bounded = w.bounded in
    let positive = w.positive in
    finish s front (z ∷ b ∷ ys) (released (some z) b ys) _ (subst (IsHeap s) split w)
      (released-Keeps (stop_of s.start front) (some z) b ys)
      (relinquish_later s.headers (last_of 0 s.start front) (stop_of s.start front) z b
        (omega arith) ys (omega arith) parts.chain)

-- Giving back a pointer into a block in use, whose offset word leads to the block's header, merges
-- the block with its free neighbours, and the headers are the list of the blocks again; the last
-- block with a free one before it is a fault.
pub heap_relinquish-Returned :
    (s : Heap) (bs before : List Block) (b : Block) (ys : List Block) (p : ℕ)
    → IsHeap s bs
    → bs ≡ before ++ b ∷ ys
    → b.free ≡ false
    → stop_of s.start before + 27 ≤ p
    → p < stop_of s.start before + block_size b
    → s.words (p - 2) ≡ p - stop_of s.start before
    → Returned s (all_but_last before) (released (last before) b ys) (heap_relinquish s p)
heap_relinquish-Returned s bs [] b ys p w split used own inside word =
    let parts = IsHeap-Around s bs [] b ys w split in
    let ends = parts.ends in
    let bounded = w.bounded in
    rw (relinquish_at s bs [] b ys w split p used own inside word) (
      finish s [] (b ∷ ys) (released none b ys) (relinquish_block s.headers s.start)
        (subst (IsHeap s) split w) (released-Keeps s.start none b ys)
        (relinquish_first s.headers s.start b ys w.positive (omega arith) parts.chain))
heap_relinquish-Returned s bs (x ∷ xs) b ys p w split used own inside word =
    let (z, e, t) = last_view x xs in
    let front = all_but_last (x ∷ xs) in
    let whole : bs ≡ front ++ z ∷ b ∷ ys =
      split ∙ ap (λ u. u ++ b ∷ ys) t ∙ append_assoc front (z ∷ []) (b ∷ ys) in
    let at : stop_of s.start (x ∷ xs) ≡ stop_of s.start front + block_size z =
      ap (stop_of s.start) t ∙ stop_of-append s.start front (z ∷ []) in
    rw (e, relinquish_at s bs (x ∷ xs) b ys w split p used own inside word, at)
      (Returned-later s bs front z b ys w whole)
