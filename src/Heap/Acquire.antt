-- ===== src/Heap/Acquire.antt =====
-- What an acquisition from the heap promises, `HeapAlignedAcquire`.
use native.Mathlib.Nat.{mod_self}
use ych.Prelude.{
  ℕ, ◌+◌, ◌-◌, ◌%◌, ◌^◌, ◌<◌, ◌≤◌, ◌≡◌, ◌≢◌, refl, ap, sym, ◌∙◌, true, false, List, ◌∷◌, ◌++◌,
  arith, ltb, leb, ◌==◌, if◌then◌else◌, Bool-cases, inl, inr, ◌⊎◌, length, bit_and, ne→beq, eq→beq,
}
use ych.Prelude.Masks.{pow_pos, and_low}
use ych.Krtl.Mem.{align_up_to_power_of_two}
use ych.Krtl.Mem.Align.{align_up_least}
use ych.Heap.{
  Heap, Header, aligned_payload, take_block, try_split_at, set_free, heap_rounds,
  locate_aligned_free_of_size_from, sub64, at_least_minimum, aligned_acquire,
}
use ych.Heap.Chain.{
  Block, block_size, stop_of, last_of, link_to, IsChain, IsChain-append, IsRoomy, IsHeap,
  le-stop_of, length-stop_of, stop_of-append, set_free-IsChain, set_free-below, below-IsChain,
  IsRoomy-append, link_to-append,
}
use ych.Heap.Split.{try_split_at-IsChain, try_split_at-below}
use ych.Heap.Place.{aligned_payload-IsPlaced}
use ych.Heap.Locate.{first_fit, locate-first_fit, NoneServes, IsFirst, first_fit_finds}

-- The block that is handed out, cut behind `offset` bytes where the rest can be a block.
abbrev pub taken_blocks : Block → ℕ → List Block → List Block
taken_blocks b offset ys =
    if leb 57 (block_size b - offset)
    then (record { payload_size = offset - 25; free = false }
        ∷ record { payload_size = block_size b - offset - 25; free = true }
        ∷ ys)
    else record b { free = false } ∷ ys

-- An acquisition of `n` bytes aligned to `2 ^ k` from the blocks `bs`, which returns `p`.
pub record Acquired (s s' : Heap) (bs : List Block) (n k p : ℕ) : Type 0 where
  pub before : List Block
  pub block : Block
  pub behind : List Block
  pub split : bs ≡ before ++ block ∷ behind
  pub was_free : block.free ≡ true
  pub first : NoneServes n (2 ^ k) s.start before
  pub aligned : p % 2 ^ k ≡ 0
  pub own : stop_of s.start before + 27 ≤ p
  pub inside : p + n ≤ stop_of s.start before + block_size block
  pub offset : s'.words (p - 2) ≡ p - stop_of s.start before
  pub other_words : (x : ℕ) → x ≢ p - 2 → s'.words x ≡ s.words x
  pub same_start : s'.start ≡ s.start
  pub blocks : IsHeap s' (before ++ taken_blocks block (p + n - stop_of s.start before) behind)

module _ (h : ℕ → Header) (prev a : ℕ) (b : Block) (ys : List Block)
    (c : IsChain h prev a (b ∷ ys) 0) (bounded : stop_of a (b ∷ ys) < 2 ^ 64) (offset : ℕ)
    (pos : 0 < a) (low : 57 ≤ offset) (le : offset ≤ block_size b) where
  take_header : ℕ → Header
  take_header = set_free (try_split_at h a offset).0 a false

  take_header-IsChain : IsChain take_header prev a (taken_blocks b offset ys) 0
  unfolding take_header
  take_header-IsChain =
      let split = try_split_at-IsChain h prev a b ys c bounded offset pos (omega arith) le in
      elim (Bool-cases (leb 57 (block_size b - offset))) [
        | inl fits ↦ rw fits (set_free-IsChain _ prev a _ _ 0 false (rw fits at split))
        | inr full ↦ rw full (set_free-IsChain _ prev a b ys 0 false (rw full at split))
      ]

  take_header-below : (x : ℕ) → x < a → take_header x ≡ h x
  unfolding take_header
  take_header-below x lt =
      set_free-below _ a false x lt
      ∙ try_split_at-below h prev a b ys c bounded offset x (omega arith) le lt

  taken-stop : stop_of a (taken_blocks b offset ys) ≡ stop_of a (b ∷ ys)
  taken-stop = elim (Bool-cases (leb 57 (block_size b - offset))) [
    | inl fits ↦
        let e : a + (25 + (offset - 25)) + (25 + (block_size b - offset - 25)) ≡ a + block_size b =
          ground arith in
        rw fits (ap (λ t. stop_of t ys) e)
    | inr full ↦ rw full
  ]

  taken-link : (x : ℕ) → link_to x (taken_blocks b offset ys) 0 ≡ x
  taken-link x = elim (Bool-cases (leb 57 (block_size b - offset))) [
    | inl fits ↦ rw fits
    | inr full ↦ rw full
  ]

  taken-IsRoomy : 32 ≤ b.payload_size → IsRoomy ys → IsRoomy (taken_blocks b offset ys)
  unfolding IsRoomy
  taken-IsRoomy large roomy = elim (Bool-cases (leb 57 (block_size b - offset))) [
    | inl fits ↦ rw fits (omega arith, (ground arith, roomy))
    | inr full ↦ rw full (large, roomy)
  ]

-- The parts of a heap around one of its blocks.
pub record Around (s : Heap) (before : List Block) (b : Block) (ys : List Block) : Type 0 where
  pub starts : s.start ≤ stop_of s.start before
  pub ends : stop_of (stop_of s.start before) (b ∷ ys) ≡ s.stop
  pub own_stop : stop_of s.start before + block_size b ≤ s.stop
  pub front : IsChain s.headers 0 s.start before (stop_of s.start before)
  pub chain : IsChain s.headers (last_of 0 s.start before) (stop_of s.start before) (b ∷ ys) 0
  pub front_roomy : IsRoomy before
  pub large : 32 ≤ b.payload_size
  pub roomy : IsRoomy ys

pub IsHeap-Around :
    (s : Heap) (bs before : List Block) (b : Block) (ys : List Block)
    → IsHeap s bs
    → bs ≡ before ++ b ∷ ys
    → Around s before b ys
unfolding IsRoomy
IsHeap-Around s bs before b ys w split =
    let a = stop_of s.start before in
    let chains =
      (IsChain-append s.headers 0 s.start before (b ∷ ys) 0).0 (rw (sym split) w.chain) in
    let rooms = (IsRoomy-append before (b ∷ ys)).0 (rw (sym split) w.roomy) in
    let tiles : stop_of a (b ∷ ys) ≡ s.stop =
      sym (stop_of-append s.start before (b ∷ ys)) ∙ ap (stop_of s.start) (sym split) ∙ w.tiles in
    record {
      starts = le-stop_of s.start before;
      ends = tiles;
      own_stop = omega (arith, le-stop_of (a + block_size b) ys);
      front = chains.0;
      chain = chains.1;
      front_roomy = rooms.0;
      large = rooms.1.0;
      roomy = rooms.1.1;
    }

module _ (s : Heap) (n a p : ℕ) where
  taken_heap : Heap
  taken_heap = record s {
    headers = set_free (try_split_at s.headers a (p + n - a)).0 a false;
    words = λ x. if x == p - 2 then p - a else s.words x;
  }

  take_block_lem :
      0 < a → a + 2 ≤ p → p < a + 2 ^ 16 → p + n < 2 ^ 64 → take_block s n a p ≡ (taken_heap, p)
  unfolding take_block taken_heap
  take_block_lem pos behind near bounded =
      let dist : sub64 p a ≡ p - a = omega arith in
      let before : sub64 p 2 ≡ p - 2 = omega arith in
      let stop : sub64 ((p + n) % 2 ^ 64) a ≡ p + n - a = omega arith in
      let short : (p - a) % 2 ^ 16 ≡ p - a = omega arith in
      let fits : ltb (2 ^ 64 - 1) (p - a) ≡ false = ground arith in
      rw (ne→beq a 0 (omega arith), dist, fits, before, stop, short)

module _ (s : Heap) (bs before : List Block) (b : Block) (ys : List Block) (w : IsHeap s bs)
    (split : bs ≡ before ++ b ∷ ys) where
  taken_heap-IsHeap :
      (n p : ℕ)
      → 32 ≤ n
      → stop_of s.start before + 27 ≤ p
      → p + n ≤ stop_of s.start before + block_size b
      → IsHeap
          (taken_heap s n (stop_of s.start before) p)
          (before ++ taken_blocks b (p + n - stop_of s.start before) ys)
  unfolding taken_heap take_header
  taken_heap-IsHeap n p large own inside =
      let a = stop_of s.start before in
      let offset = p + n - a in
      let parts = IsHeap-Around s bs before b ys w split in
      let positive = w.positive in
      let starts = parts.starts in
      let bounded = w.bounded in
      let own_stop = parts.own_stop in
      let ends = parts.ends in
      let c = parts.chain in
      let fits : stop_of a (b ∷ ys) < 2 ^ 64 = omega arith in
      let pos : 0 < a = omega arith in
      let low : 57 ≤ offset = omega arith in
      let le : offset ≤ block_size b = omega arith in
      let h' = set_free (try_split_at s.headers a offset).0 a false in
      let prev = last_of 0 s.start before in
      record {
        rooted =
            w.rooted
            ∙ ap (λ t. link_to s.start t 0) split
            ∙ link_to-append s.start before (b ∷ ys) (taken_blocks b offset ys)
                (sym (taken-link s.headers prev a b ys c fits offset pos low le a));
        positive = w.positive;
        bounded = w.bounded;
        chain = (IsChain-append h' 0 s.start before (taken_blocks b offset ys) 0).1 (
          rw (taken-link s.headers prev a b ys c fits offset pos low le a) (
              below-IsChain s.headers h' 0 s.start before a
                (take_header-below s.headers prev a b ys c fits offset pos low le) parts.front),
          take_header-IsChain s.headers prev a b ys c fits offset pos low le,
        );
        tiles =
            stop_of-append s.start before (taken_blocks b offset ys)
            ∙ taken-stop s.headers prev a b ys c fits offset pos low le
            ∙ parts.ends;
        roomy = (IsRoomy-append before (taken_blocks b offset ys)).1 (
          parts.front_roomy,
          taken-IsRoomy s.headers prev a b ys c fits offset pos low le parts.large parts.roomy,
        );
      }

-- The size that is searched for.
abbrev pub requested : ℕ → ℕ → ℕ
requested n k = align_up_to_power_of_two (at_least_minimum n) (2 ^ k)

-- What an acquisition returns: a block of the heap, or nothing where no free block serves.
abbrev pub Outcome : Heap → List Block → ℕ → ℕ → Heap × ℕ → Type 0
Outcome s bs n k r = ((r ≡ (s, 0)) × NoneServes n (2 ^ k) s.start bs) ⊎ Acquired s r.0 bs n k r.1

module _ (s : Heap) (bs : List Block) (j k : ℕ) (w : IsHeap s bs) (e : j + k ≡ 64)
    (small : 2 ^ k < 32) where
  take_block-Acquired :
      (n : ℕ) (r : ℕ × ℕ)
      → 32 ≤ n
      → n < 2 ^ 64
      → IsFirst n (2 ^ k) s.start bs r
      → Acquired s (take_block s n r.0 r.1).0 bs n k (take_block s n r.0 r.1).1
  unfolding taken_heap
  take_block-Acquired n r large bound f =
      let a = stop_of s.start f.before in
      let parts = IsHeap-Around s bs f.before f.block f.behind w f.split in
      let positive = w.positive in
      let starts = parts.starts in
      let bounded = w.bounded in
      let own_stop = parts.own_stop in
      let p = aligned_payload a (2 ^ k) in
      let placed = aligned_payload-IsPlaced j k a e (omega arith) (omega arith) in
      let own = placed.behind in
      let near = placed.near in
      let serving = f.serving in
      let free : f.block.free ≡ true = ground arith in
      let inside : p + n ≤ a + block_size f.block = ground arith in
      let taken = take_block_lem s n a p (omega arith) (omega arith) (omega arith) (omega arith) in
      rw (f.payload, f.at, taken)
        (record {
          before = f.before;
          block = f.block;
          behind = f.behind;
          split = f.split;
          was_free = free;
          first = f.skipped;
          aligned = placed.aligned;
          own = placed.behind;
          inside = inside;
          offset = rw (eq→beq (p - 2) (p - 2) refl);
          other_words = λ x ne. rw (ne→beq x (p - 2) ne);
          same_start = refl;
          blocks = taken_heap-IsHeap s bs f.before f.block f.behind w f.split n p large own inside;
        })

  no_block : (n : ℕ) → take_block s n 0 0 ≡ (s, 0)
  unfolding take_block
  no_block n = refl

  -- The rounds are enough for the blocks that the heap holds.
  rounds_enough : length bs < heap_rounds s
  unfolding heap_rounds
  rounds_enough = let size = length-stop_of s.start bs in let tiles = w.tiles in omega arith

  search-first_fit :
      (n : ℕ)
      → locate_aligned_free_of_size_from s.headers (heap_rounds s) s.root n (2 ^ k)
        ≡ first_fit n (2 ^ k) s.start bs
  search-first_fit n =
      let tiles = w.tiles in
      let bounded = w.bounded in
      locate-first_fit s.headers n j k e small (heap_rounds s) 0 s.start s.root bs rounds_enough
        w.positive w.rooted (omega arith) w.roomy w.chain

  pub requested_bounds :
      (n : ℕ)
      → n + 2 ^ 33 ≤ 2 ^ 64
      → (32 ≤ requested n k)
        × (n ≤ requested n k)
        × (requested n k < 2 ^ 64)
        × (requested n k % 2 ^ k ≡ 0)
  requested_bounds n bound =
      let (m, ge, lt) = align_up_least j k (at_least_minimum n) e (ground arith) in
      (ground arith, ground arith, ground arith, m)

  -- On a heap whose headers are its list of blocks, for a size that is not 0 and whose sum with the
  -- alignment does not wrap, an acquisition aligned to at most 16 bytes takes the first free block
  -- that has room, and returns `NULLPTR` where none has, the heap left as it was.
  pub aligned_acquire-Outcome :
      (n : ℕ)
      → 0 < n
      → n + 2 ^ 33 ≤ 2 ^ 64
      → Outcome s bs (requested n k) k (aligned_acquire s n (2 ^ k))
  unfolding aligned_acquire
  aligned_acquire-Outcome n pos bound =
      let (large, least, limit, m) = requested_bounds n bound in
      let power : bit_and (2 ^ k) (2 ^ k - 1) ≡ 0 =
        omega (arith, and_low k (2 ^ k), mod_self (2 ^ k)) in
      rw
        (
          ne→beq n 0 (omega arith),
          ne→beq (2 ^ k) 0 (omega (arith, pow_pos k)),
          power,
          search-first_fit (requested n k),
        )
        (elim (first_fit_finds (requested n k) (2 ^ k) s.start bs) [
          | inl (z, rest) ↦ inl (rw z (no_block (requested n k)), rest)
          | inr f ↦ inr (take_block-Acquired (requested n k) _ large limit f)
        ])
