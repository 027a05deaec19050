-- ===== src/Heap/Cycle.antt =====
-- An acquisition from the heap and the call that gives it back.
use mathlib.Core.List.{append_assoc}
use mathlib.Core.Path.{subst}
use ych.Prelude.{
  ℕ, ◌+◌, ◌-◌, ◌^◌, ◌<◌, ◌≤◌, ◌≡◌, ◌≢◌, refl, ap, sym, ◌∙◌, Bool, true, false, List, [], ◌∷◌, ◌++◌,
  arith, Option, none, some, leb, ◌&&◌, if◌then◌else◌, inl, inr,
}
use ych.Heap.{Heap, aligned_acquire, heap_relinquish}
use ych.Heap.Chain.{Block, block_size, stop_of, IsHeap}
use ych.Heap.Acquire.{Acquired, requested, requested_bounds, taken_blocks, aligned_acquire-Outcome}
use ych.Heap.Absorb.{absorb, merge_next}
use ych.Heap.Release.{released, freed, at_end, between}
use ych.Heap.Return.{Returned, heap_relinquish-Returned, last, all_but_last, last_view}

-- No free block stands beside another one.
unfoldable pub IsCoalesced : List Block → Type 0
IsCoalesced [] = Unit {0}
IsCoalesced (x ∷ []) = Unit {0}
IsCoalesced (x ∷ y ∷ ys) = ((x.free && y.free) ≡ false) × IsCoalesced (y ∷ ys)

pub IsCoalesced-behind : (xs ys : List Block) → IsCoalesced (xs ++ ys) → IsCoalesced ys
unfolding IsCoalesced
IsCoalesced-behind [] ys c = c
IsCoalesced-behind (x ∷ []) [] c = tt
IsCoalesced-behind (x ∷ []) (y ∷ ys) c = c.1
IsCoalesced-behind (x ∷ x' ∷ xs) ys c = IsCoalesced-behind (x' ∷ xs) ys c.1

-- The block that is handed out, and what stands behind it.
abbrev handed : Block → ℕ → Bool → Block
handed b offset true = record { payload_size = offset - 25; free = false }
handed b offset false = record b { free = false }

abbrev left_over : Block → ℕ → List Block → Bool → List Block
left_over b offset ys true = record { payload_size = block_size b - offset - 25; free = true } ∷ ys
left_over b offset ys false = ys

-- Merging what a split made gives the block back.
merge_back :
    (b : Block) (offset : ℕ) (ys : List Block) (t : Bool)
    → leb 57 (block_size b - offset) ≡ t
    → 25 ≤ offset
    → b.free ≡ true
    → IsCoalesced (b ∷ ys)
    → merge_next (freed (handed b offset t)) (left_over b offset ys t) ≡ b ∷ ys
unfolding IsCoalesced
merge_back b offset ys true fits low free c =
    let e : offset - 25 + (25 + (block_size b - offset - 25)) ≡ b.payload_size = ground arith in
    rw (e, sym free) refl
merge_back b offset [] false full low free c = ap (λ t. record b { free = t } ∷ []) (sym free)
merge_back b offset (y ∷ ys) false full low free c =
    let used : y.free ≡ false = ground arith in
    ap (λ t. if t then absorb (freed b) y ∷ ys else freed b ∷ y ∷ ys) used
    ∙ ap (λ t. record b { free = t } ∷ y ∷ ys) (sym free)

taken_blocks_lem :
    (b : Block) (offset : ℕ) (ys : List Block) (t : Bool)
    → leb 57 (block_size b - offset) ≡ t
    → taken_blocks b offset ys ≡ handed b offset t ∷ left_over b offset ys t
taken_blocks_lem b offset ys true fits = rw fits refl
taken_blocks_lem b offset ys false full = rw full refl

-- Behind a block that is not free nothing but the blocks themselves changes.
released_used :
    (x b : Block) (ys zs : List Block)
    → x.free ≡ false
    → merge_next (freed b) ys ≡ zs
    → released (some x) b ys ≡ some (x ∷ zs)
released_used x b [] zs used e = ap (at_end x b) used ∙ ap (λ t. some (x ∷ t)) e
released_used x b (y ∷ ys) zs used e = ap (between x b (y ∷ ys)) used ∙ ap (λ t. some (x ∷ t)) e

-- A block in front of a free one is in use.
front_used :
    (x b : Block) (ys : List Block) → b.free ≡ true → IsCoalesced (x ∷ b ∷ ys) → x.free ≡ false
unfolding IsCoalesced
front_used x b ys free c = ground arith

-- The blocks that merging gives back, with the front, are those from before.
restored :
    (before : List Block) (b t : Block) (ys rest : List Block)
    → b.free ≡ true
    → IsCoalesced (before ++ b ∷ ys)
    → merge_next (freed t) rest ≡ b ∷ ys
    → (zs : List Block) × (released (last before) t rest ≡ some zs)
      × (all_but_last before ++ zs ≡ before ++ b ∷ ys)
restored [] b t ys rest free c e = (b ∷ ys, ap some e, refl)
restored (x ∷ xs) b t ys rest free c e =
    let (z, l, whole) = last_view x xs in
    let front = all_but_last (x ∷ xs) in
    let split : x ∷ (xs ++ b ∷ ys) ≡ front ++ z ∷ b ∷ ys =
      ap (λ u. u ++ b ∷ ys) whole ∙ append_assoc front (z ∷ []) (b ∷ ys) in
    let used = front_used z b ys free (IsCoalesced-behind front _ (subst IsCoalesced split c)) in
    (z ∷ b ∷ ys, ap (λ o. released o t rest) l ∙ released_used z t rest (b ∷ ys) used e, sym split)

handed-size :
    (b : Block) (offset : ℕ) (t : Bool)
    → leb 57 (block_size b - offset) ≡ t
    → 57 ≤ offset
    → offset ≤ block_size b
    → offset ≤ block_size (handed b offset t)
handed-size b offset true fits low le = omega arith
handed-size b offset false full low le = le

handed-free : (b : Block) (offset : ℕ) (t : Bool) → (handed b offset t).free ≡ false
handed-free b offset true = refl
handed-free b offset false = refl

from_some :
    (s : Heap) (front zs bs : List Block) (r : Option (List Block)) (result : Option (Heap × Bool))
    → r ≡ some zs
    → front ++ zs ≡ bs
    → Returned s front r result
    → (s' : Heap) × (result ≡ some (s', true)) × IsHeap s' bs
from_some s front zs bs none result e whole got = cc e
from_some s front zs bs (some zs') result e whole got =
    let (s', run, heap, words) = subst (λ o. Returned s front o result) e got in
    (s', run, subst (IsHeap s') whole heap)

module _ (s : Heap) (bs : List Block) (n k : ℕ) (large : 32 ≤ n) (coalesced : IsCoalesced bs) where
  -- What an acquisition took, its pointer gives back.
  acquired_returns :
      (s' : Heap) (p : ℕ)
      → Acquired s s' bs n k p
      → (s'' : Heap) × (heap_relinquish s' p ≡ some (s'', true)) × IsHeap s'' bs
  acquired_returns s' p d =
      let a = stop_of s.start d.before in
      let offset = p + n - a in
      let t = leb 57 (block_size d.block - offset) in
      let own = d.own in
      let inside = d.inside in
      let c = subst IsCoalesced d.split coalesced in
      let back =
        merge_back d.block offset d.behind t refl (omega arith) d.was_free
          (IsCoalesced-behind d.before _ c) in
      let mine = handed d.block offset t in
      let rest = left_over d.block offset d.behind t in
      let (zs, e, whole) = restored d.before d.block mine d.behind rest d.was_free c back in
      let size = handed-size d.block offset t refl (omega arith) (omega arith) in
      let got =
        heap_relinquish-Returned s' _ d.before mine rest p d.blocks
          (ap (λ u. d.before ++ u) (taken_blocks_lem d.block offset d.behind t refl))
          (handed-free d.block offset t) (rw d.same_start own) (rw d.same_start (omega arith))
          (rw d.same_start d.offset) in
      from_some s' (all_but_last d.before) zs bs (released (last d.before) mine rest) _ e
        (whole ∙ sym d.split) got

-- On a heap without neighbouring free blocks, giving back what `HeapAlignedAcquire` returned, by an
-- alignment of at most 16, leads back to the blocks from before.
pub aligned_acquire-heap_relinquish :
    (s : Heap) (bs : List Block) (j k n : ℕ)
    → IsHeap s bs
    → IsCoalesced bs
    → j + k ≡ 64
    → 2 ^ k < 32
    → 0 < n
    → n + 2 ^ 33 ≤ 2 ^ 64
    → let (s1, p) = aligned_acquire s n (2 ^ k) in
      p ≢ 0 → (s2 : Heap) × (heap_relinquish s1 p ≡ some (s2, true)) × IsHeap s2 bs
aligned_acquire-heap_relinquish s bs j k n w c e small pos bound served =
    elim (aligned_acquire-Outcome s bs j k w e small n pos bound) [
      | inl (failed, rest) ↦ absurd (served (ap (λ r. r.1) failed))
      | inr d ↦
          acquired_returns s bs (requested n k) k (requested_bounds s bs j k w e small n bound).0 c
            _ _ d
    ]
