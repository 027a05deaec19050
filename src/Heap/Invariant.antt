-- ===== src/Heap/Invariant.antt =====
-- What every operation of the heap keeps: whole blocks, no two free ones side by side.
use mathlib.Core.Path.{subst}
use mathlib.Core.List.{append_assoc}
use ych.Prelude.{
  ℕ, ◌+◌, ◌-◌, ◌^◌, ◌<◌, ◌≤◌, ◌≡◌, ◌⊎◌, refl, ap, sym, ◌∙◌, Bool, true, false, List, [], ◌∷◌, ◌++◌,
  arith, Option, none, some, leb, Bool-cases, inl, inr,
}
use ych.Vmm.{AddressSpace, Region, acquire_region}
use ych.Heap.{
  Heap, Header, heap_start, heap_stop, heap_init, put_header, sub64, aligned_acquire,
  heap_relinquish,
}
use ych.Heap.Chain.{Block, block_size, stop_of, IsHeap, IsChain, IsRoomy, put_header-same}
use ych.Heap.Acquire.{requested, taken_blocks, aligned_acquire-Outcome}
use ych.Heap.Absorb.{absorb, merge_next}
use ych.Heap.Release.{released, freed, at_end, between}
use ych.Heap.Return.{Returned, heap_relinquish-Returned, last, all_but_last, last_view}
use ych.Heap.Cycle.{IsCoalesced, IsCoalesced-behind}

abbrev head_free : List Block → Bool
head_free [] = false
head_free (x ∷ xs) = x.free

-- What stands behind may change as long as it does not come to start with a free block.
front-IsCoalesced :
    (xs ys ys' : List Block)
    → (head_free ys' ≡ false) ⊎ (head_free ys' ≡ head_free ys)
    → IsCoalesced (xs ++ ys)
    → IsCoalesced ys'
    → IsCoalesced (xs ++ ys')
unfolding IsCoalesced
front-IsCoalesced [] ys ys' g c c' = c'
front-IsCoalesced (x ∷ []) ys [] g c c' = tt
front-IsCoalesced (x ∷ []) [] (y' ∷ ys') g c c' = (ground arith, c')
front-IsCoalesced (x ∷ []) (y ∷ ys) (y' ∷ ys') g c c' = (ground arith, c')
front-IsCoalesced (x ∷ x' ∷ xs) ys ys' g c c' = (c.0, front-IsCoalesced (x' ∷ xs) ys ys' g c.1 c')

used-IsCoalesced :
    (b : Block) (ys : List Block) → b.free ≡ false → IsCoalesced ys → IsCoalesced (b ∷ ys)
unfolding IsCoalesced
used-IsCoalesced b [] used c = tt
used-IsCoalesced b (y ∷ ys) used c = (rw used refl, c)

-- Behind a free block nothing is free, so that any block may stand in its place.
above-IsCoalesced :
    (b b' : Block) (ys : List Block) → b.free ≡ true → IsCoalesced (b ∷ ys) → IsCoalesced (b' ∷ ys)
unfolding IsCoalesced
above-IsCoalesced b b' [] free c = tt
above-IsCoalesced b b' (y ∷ ys) free c = (ground arith, c.1)

split :
    (b : Block) (offset : ℕ) (ys : List Block)
    → b.free ≡ true
    → IsCoalesced (b ∷ ys)
    → IsCoalesced (
        record { payload_size = offset - 25; free = false }
        ∷ record { payload_size = block_size b - offset - 25; free = true }
        ∷ ys)
unfolding IsCoalesced
split b offset ys free c = (
  refl,
  above-IsCoalesced b (record { payload_size = block_size b - offset - 25; free = true }) ys free c,
)

-- Handing out a part of a free block.
pub taken_blocks-IsCoalesced :
    (before : List Block) (b : Block) (offset : ℕ) (ys : List Block)
    → b.free ≡ true
    → IsCoalesced (before ++ b ∷ ys)
    → IsCoalesced (before ++ taken_blocks b offset ys)
taken_blocks-IsCoalesced before b offset ys free c =
    let mine = IsCoalesced-behind before (b ∷ ys) c in
    let tail = IsCoalesced-behind (b ∷ []) ys mine in
    elim (Bool-cases (leb 57 (block_size b - offset))) [
      | inl fits ↦
          rw fits (front-IsCoalesced before (b ∷ ys) _ (inl refl) c (split b offset ys free mine))
      | inr full ↦ rw full (
          front-IsCoalesced before (b ∷ ys) _ (inl refl) c
            (used-IsCoalesced (record b { free = false }) ys refl tail))
    ]

merge_next-IsCoalesced :
    (b : Block) (ys : List Block) → IsCoalesced ys → IsCoalesced (merge_next b ys)
unfolding IsCoalesced
merge_next-IsCoalesced b [] c = tt
merge_next-IsCoalesced b (y ∷ ys) c = elim (Bool-cases y.free) [
  | inl free ↦ rw free (above-IsCoalesced y (absorb b y) ys free c)
  | inr used ↦ simp used (ground arith, c)
]

head-merge_next : (b : Block) (ys : List Block) → head_free (merge_next b ys) ≡ b.free
head-merge_next b [] = refl
head-merge_next b (y ∷ ys) = elim (Bool-cases y.free) [ inl free ↦ rw free | inr used ↦ rw used ]

abbrev pub Coalesced : List Block → Option (List Block) → Type 0
Coalesced front none = Unit {0}
Coalesced front (some zs) = IsCoalesced (front ++ zs)

module _ (front : List Block) (x b : Block) (ys : List Block)
    (c : IsCoalesced (front ++ x ∷ b ∷ ys)) where
  tail : IsCoalesced ys
  tail = IsCoalesced-behind (x ∷ b ∷ []) ys (IsCoalesced-behind front (x ∷ b ∷ ys) c)

  merged : Coalesced front (some (merge_next (absorb x b) ys))
  merged =
      front-IsCoalesced front (x ∷ b ∷ ys) _ (inr (head-merge_next (absorb x b) ys)) c
        (merge_next-IsCoalesced (absorb x b) ys tail)

  beside : x.free ≡ false → Coalesced front (some (x ∷ merge_next (freed b) ys))
  beside used =
      front-IsCoalesced front (x ∷ b ∷ ys) _ (inr refl) c (
        used-IsCoalesced x (merge_next (freed b) ys) used
          (merge_next-IsCoalesced (freed b) ys tail))

-- Giving a block back, in front of the ones behind it.
released-IsCoalesced :
    (front : List Block) (x b : Block) (ys : List Block)
    → IsCoalesced (front ++ x ∷ b ∷ ys)
    → Coalesced front (released (some x) b ys)
released-IsCoalesced front x b [] c = elim (Bool-cases x.free) [
  | inl free ↦ subst (λ t. Coalesced front (at_end x b t)) (sym free) tt
  | inr used ↦ subst (λ t. Coalesced front (at_end x b t)) (sym used) (beside front x b [] c used)
]
released-IsCoalesced front x b (y ∷ ys) c =
    let kept : Bool → Type 0 = λ t. Coalesced front (between x b (y ∷ ys) t) in
    elim (Bool-cases x.free) [
      | inl free ↦ subst kept (sym free) (merged front x b (y ∷ ys) c)
      | inr used ↦ subst kept (sym used) (beside front x b (y ∷ ys) c used)
    ]

-- Merging a block in use with its free neighbours leaves no two free ones side by side.
pub released-Keeps_Coalesced :
    (before : List Block) (b : Block) (ys : List Block)
    → IsCoalesced (before ++ b ∷ ys)
    → Coalesced (all_but_last before) (released (last before) b ys)
released-Keeps_Coalesced [] b ys c =
    merge_next-IsCoalesced (freed b) ys (IsCoalesced-behind (b ∷ []) ys c)
released-Keeps_Coalesced (x ∷ xs) b ys c =
    let (z, l, whole) = last_view x xs in
    let front = all_but_last (x ∷ xs) in
    let split : x ∷ (xs ++ b ∷ ys) ≡ front ++ z ∷ b ∷ ys =
      ap (λ u. u ++ b ∷ ys) whole ∙ append_assoc front (z ∷ []) (b ∷ ys) in
    subst (λ o. Coalesced front (released o b ys)) (sym l)
      (released-IsCoalesced front z b ys (subst IsCoalesced split c))

-- A heap of whole blocks, no two free ones side by side.
unfoldable pub IsWhole : Heap → Type 0
IsWhole s = (bs : List Block) × IsHeap s bs × IsCoalesced bs

one_block :
    (h : ℕ → Header)
    → IsChain
        (put_header h heap_start (record {
          prev = 0;
          next = 0;
          payload_size = sub64 (sub64 heap_stop heap_start) 25;
          free = true;
        }))
        0
        heap_start
        (record { payload_size = heap_stop - heap_start - 25; free = true } ∷ [])
        0
unfolding IsChain
one_block h = (put_header-same h heap_start _, tt)

one-IsRoomy : IsRoomy (record { payload_size = heap_stop - heap_start - 25; free = true } ∷ [])
unfolding IsRoomy
one-IsRoomy = (omega arith, tt)

-- A heap right after a successful `HeapInit` is one free block.
pub heap_init-IsWhole :
    (address : Option ℕ) (space : AddressSpace) (s : Heap) (r : Region)
    → s.initialized ≡ false
    → (acquire_region address space heap_start heap_stop (2 ^ 4 + 2 ^ 5)).1 ≡ some r
    → ((heap_init address space s).1.1 ≡ true) × IsWhole (heap_init address space s).1.0
unfolding heap_init IsWhole IsCoalesced
heap_init-IsWhole address space s r fresh e =
    rw (fresh, e)
      (
        refl,
        (
          record { payload_size = heap_stop - heap_start - 25; free = true } ∷ [],
          record {
            rooted = refl;
            positive = omega arith;
            bounded = omega arith;
            chain = one_block s.headers;
            tiles = refl;
            roomy = one-IsRoomy;
          },
          tt,
        ),
      )

-- An acquisition by an alignment of at most 16 keeps the heap whole, for a size that is not 0 and does
-- not wrap: the headers are a list of blocks that fill it, without neighbouring free ones.
pub aligned_acquire-IsWhole :
    (s : Heap) (j k n : ℕ)
    → IsWhole s
    → j + k ≡ 64
    → 2 ^ k < 32
    → 0 < n
    → n + 2 ^ 33 ≤ 2 ^ 64
    → IsWhole (aligned_acquire s n (2 ^ k)).0
unfolding IsWhole
aligned_acquire-IsWhole s j k n (bs, w, c) e small pos bound =
    elim (aligned_acquire-Outcome s bs j k w e small n pos bound) [
      | inl (failed, rest) ↦ rw failed (bs, w, c)
      | inr d ↦ (
        d.before ++ taken_blocks d.block (_ + requested n k - stop_of s.start d.before) d.behind,
        d.blocks,
        taken_blocks-IsCoalesced d.before d.block _ d.behind d.was_free
            (subst IsCoalesced d.split c),
      )
    ]

-- Whether giving back a block faults: it is the last one, behind a free one.
abbrev pub faults : Option Block → List Block → Bool
faults none ys = false
faults (some x) [] = x.free
faults (some x) (y ∷ ys) = false

-- A result that is a fault exactly where `fault` says so, and else a whole heap.
abbrev pub KeepsWhole : Bool → Option (Heap × Bool) → Type 0
KeepsWhole fault none = fault ≡ true
KeepsWhole fault (some (s, done)) = (fault ≡ false) × IsWhole s × (done ≡ true)

abbrev Merges : Bool → Option (List Block) → Type 0
Merges fault none = fault ≡ true
Merges fault (some zs) = fault ≡ false

at_end-Merges : (x b : Block) (free : Bool) → Merges free (at_end x b free)
at_end-Merges x b true = refl
at_end-Merges x b false = refl

between-Merges : (x b : Block) (ys : List Block) (free : Bool) → Merges false (between x b ys free)
between-Merges x b ys true = refl
between-Merges x b ys false = refl

released-Merges :
    (o : Option Block) (b : Block) (ys : List Block) → Merges (faults o ys) (released o b ys)
released-Merges none b ys = refl
released-Merges (some x) b [] = at_end-Merges x b x.free
released-Merges (some x) b (y ∷ ys) = between-Merges x b (y ∷ ys) x.free

whole_result :
    (s : Heap) (front : List Block) (fault : Bool) (r : Option (List Block))
    (t : Option (Heap × Bool))
    → Merges fault r
    → Coalesced front r
    → Returned s front r t
    → KeepsWhole fault t
unfolding IsWhole
whole_result s front fault none t g c e = rw e g
whole_result s front fault (some zs) t g c (s', e, w, words) = rw e (g, (front ++ zs, w, c), refl)

-- A pointer that an acquisition returned and that is still in use.
pub record IsHeld (s : Heap) (bs : List Block) (p : ℕ) : Type 0 where
  pub before : List Block
  pub block : Block
  pub behind : List Block
  pub split : bs ≡ before ++ block ∷ behind
  pub used : block.free ≡ false
  pub own : stop_of s.start before + 27 ≤ p
  pub inside : p < stop_of s.start before + block_size block
  pub word : s.words (p - 2) ≡ p - stop_of s.start before

-- On a whole heap, giving back a pointer that is in use succeeds and keeps the heap whole, unless its
-- block is the last one and stands behind a free one; then, and only then, it is a fault.
pub heap_relinquish-KeepsWhole :
    (s : Heap) (bs : List Block) (p : ℕ)
    → IsHeap s bs
    → IsCoalesced bs
    → (d : IsHeld s bs p) → KeepsWhole (faults (last d.before) d.behind) (heap_relinquish s p)
heap_relinquish-KeepsWhole s bs p w c d =
    whole_result s (all_but_last d.before) (faults (last d.before) d.behind)
      (released (last d.before) d.block d.behind) _
      (released-Merges (last d.before) d.block d.behind)
      (released-Keeps_Coalesced d.before d.block d.behind (subst IsCoalesced d.split c))
      (heap_relinquish-Returned s bs d.before d.block d.behind p w d.split d.used d.own d.inside
        d.word)
