-- ===== src/Heap/Release.antt =====
-- What giving a block back to the heap promises, `HeapRelinquish`.
use mathlib.Core.Path.{subst}
use ych.Prelude.{
  ℕ, ◌+◌, ◌%◌, ◌^◌, ◌<◌, ◌≡◌, refl, ap, sym, ◌∙◌, Bool, true, false, List, [], ◌∷◌, inl, inr, arith,
  if◌then◌else◌, ◌==◌, ne→beq, Bool-cases, Option, none, some,
}
use ych.Heap.{Header, set_free, swallow_into_previous, swallow_next, relinquish_block}
use ych.Heap.Chain.{
  Block, block_size, stop_of, link_to, header_of, IsChain, IsChain-cons, le-stop_of,
  set_free-IsChain, set_free-below,
}
use ych.Heap.Absorb.{
  absorb, absorbed, absorbed-IsChain, absorbed-below, merge_next, merge_next-link,
  swallow_next-IsChain,
}

-- The block given back is free.
abbrev pub freed : Block → Block
freed b = record b { free = true }

-- The two ways of the block `b` behind `x`, by whether `x` is free.
abbrev pub at_end : Block → Block → Bool → Option (List Block)
at_end x b true = none
at_end x b false = some (x ∷ freed b ∷ [])

abbrev pub between : Block → Block → List Block → Bool → Option (List Block)
between x b ys true = some (merge_next (absorb x b) ys)
between x b ys false = some (x ∷ merge_next (freed b) ys)

-- The blocks without the front, after the block `b` is given back: the previous block swallows it
-- where it is free, and what comes of that swallows the next one where that is free. `none` is the
-- fault, a free block before the last one.
abbrev pub released : Option Block → Block → List Block → Option (List Block)
released none b ys = some (merge_next (freed b) ys)
released (some x) b [] = at_end x b x.free
released (some x) b (y ∷ ys) = between x b (y ∷ ys) x.free

abbrev pub optional : Option Block → List Block
optional none = []
optional (some x) = x ∷ []

-- What the operation on the headers comes to for the blocks `o`, `b`, `ys` at `a`.
abbrev pub Relinquished : (ℕ → Header) → ℕ → ℕ → Option (List Block) → Option (ℕ → Header) → Type 0
Relinquished h prev a none r = r ≡ none
Relinquished h prev a (some zs) r =
    (h' : ℕ → Header) × (r ≡ some h') × IsChain h' prev a zs 0 × ((x : ℕ) → x < a → h' x ≡ h x)

-- The three ways in which the block looks at the one before it.
alone : (h : ℕ → Header) (a : ℕ) → (h a).prev ≡ 0 → swallow_into_previous h a ≡ some (h, a)
unfolding swallow_into_previous
alone h a e = rw e

beside_used :
    (h : ℕ → Header) (a q : ℕ)
    → (h a).prev ≡ q
    → (h q).free ≡ false
    → swallow_into_previous h a ≡ some (h, a)
unfolding swallow_into_previous
beside_used h a q e used =
    rw (e, used) (elim (Bool-cases (q == 0)) [ inl z ↦ rw z | inr nz ↦ rw nz ])

beside_free :
    (h : ℕ → Header) (a q n size : ℕ)
    → (h a).prev ≡ q
    → 0 < q
    → (h q).free ≡ true
    → (h a).next ≡ n
    → ((h q).payload_size + ((h a).payload_size + 25)) % 2 ^ 64 ≡ size
    → swallow_into_previous h a ≡ (if n == 0 then none else some (absorbed h q size n, q))
unfolding swallow_into_previous
beside_free h a q n size e pos free to sum = rw (e, to, free, ne→beq q 0 (omega arith), sum)

module _ (h : ℕ → Header) (prev a : ℕ) (b : Block) (ys : List Block) (pos : 0 < a)
    (bounded : stop_of a (b ∷ ys) < 2 ^ 64) (c : IsChain h prev a (b ∷ ys) 0) where
  freed_chain : IsChain (set_free h a true) prev a (freed b ∷ ys) 0
  freed_chain = set_free-IsChain h prev a b ys 0 true c

  own_header : set_free h a true a ≡ header_of prev (link_to (a + block_size b) ys 0) (freed b)
  own_header = ((IsChain-cons (set_free h a true) prev a 0 (freed b) ys).0 freed_chain).0

  stays :
      swallow_into_previous (set_free h a true) a ≡ some (set_free h a true, a)
      → Relinquished h prev a (some (merge_next (freed b) ys)) (relinquish_block h a)
  unfolding relinquish_block
  stays e =
      let h1 = set_free h a true in
      let to : (h a).next ≡ link_to (a + block_size b) ys 0 =
        rw ((IsChain-cons h prev a 0 b ys).0 c).0 refl in
      let (chain, below) =
        swallow_next-IsChain h1 prev a (freed b) pos (h a).next ys to freed_chain bounded in
      rw (relinquish_block, e)
        (
          swallow_next h1 a (h a).next,
          refl,
          chain,
          λ x lt. below x lt ∙ set_free-below h a true x lt,
        )

-- The first block has nothing before it.
pub relinquish_first :
    (h : ℕ → Header) (a : ℕ) (b : Block) (ys : List Block)
    → 0 < a
    → stop_of a (b ∷ ys) < 2 ^ 64
    → IsChain h 0 a (b ∷ ys) 0
    → Relinquished h 0 a (released none b ys) (relinquish_block h a)
relinquish_first h a b ys pos bounded c =
    stays h 0 a b ys pos bounded c
      (alone (set_free h a true) a (rw (own_header h 0 a b ys pos bounded c) refl))

-- A block before others that link to the same address.
prepend :
    (h h' : ℕ → Header) (prev q : ℕ) (x : Block) (zs zs' : List Block)
    → IsChain h prev q (x ∷ zs) 0
    → link_to (q + block_size x) zs' 0 ≡ link_to (q + block_size x) zs 0
    → h' q ≡ h q
    → IsChain h' q (q + block_size x) zs' 0
    → IsChain h' prev q (x ∷ zs') 0
prepend h h' prev q x zs zs' c l same c' =
    (IsChain-cons h' prev q 0 x zs').1
      (same ∙ ((IsChain-cons h prev q 0 x zs).0 c).0 ∙ ap (λ t. header_of prev t x) (sym l), c')

module _ (h : ℕ → Header) (prev q : ℕ) (x b : Block) (pos : 0 < q) where
  module _ (ys : List Block) (bounded : stop_of q (x ∷ b ∷ ys) < 2 ^ 64)
      (c : IsChain h prev q (x ∷ b ∷ ys) 0) where
    tail : IsChain h q (q + block_size x) (b ∷ ys) 0
    tail = ((IsChain-cons h prev q 0 x (b ∷ ys)).0 c).1

    head_free : h q ≡ header_of prev (q + block_size x) x
    head_free = ((IsChain-cons h prev q 0 x (b ∷ ys)).0 c).0

    kept_head : set_free h (q + block_size x) true q ≡ h q
    kept_head = set_free-below h (q + block_size x) true q (omega arith)

    mine :
        set_free h (q + block_size x) true (q + block_size x)
        ≡ header_of q (link_to (q + block_size x + block_size b) ys 0) (freed b)
    mine = own_header h q (q + block_size x) b ys (omega arith) bounded tail

    later_used :
        x.free ≡ false
        → Relinquished h prev q
            (some (x ∷ merge_next (freed b) ys))
            (relinquish_block h (q + block_size x))
    later_used used =
        let a = q + block_size x in
        let (h', e, chain, below) =
          stays h q a b ys (omega arith) bounded tail
            (beside_used (set_free h a true) a q (rw mine refl) (rw (kept_head, head_free) used)) in
        (
          h',
          e,
          prepend h h' prev q x (b ∷ ys) (merge_next (freed b) ys) c
              (merge_next-link a (freed b) ys) (below q (omega arith)) chain,
          λ z lt. below z (omega arith),
        )

    swallowed :
        x.free ≡ true
        → swallow_into_previous (set_free h (q + block_size x) true) (q + block_size x) ≡ (
            if link_to (q + block_size x + block_size b) ys 0 == 0
            then none
            else some (
              absorbed
                  (set_free h (q + block_size x) true)
                  q
                  (x.payload_size + block_size b)
                  (link_to (q + block_size x + block_size b) ys 0),
              q,
            ))
    swallowed free =
        let a = q + block_size x in
        let behind = le-stop_of (a + block_size b) ys in
        let sum : (x.payload_size + (b.payload_size + 25)) % 2 ^ 64
            ≡ x.payload_size + block_size b =
          omega arith in
        beside_free (set_free h a true) a q (link_to (a + block_size b) ys 0)
          (x.payload_size + block_size b) (rw mine refl) pos (rw (kept_head, head_free) free)
          (rw mine refl) (rw (kept_head, head_free, mine) sum)

  relinquish_last :
      x.free ≡ true
      → stop_of q (x ∷ b ∷ []) < 2 ^ 64
      → IsChain h prev q (x ∷ b ∷ []) 0
      → relinquish_block h (q + block_size x) ≡ none
  unfolding relinquish_block
  relinquish_last free bounded c = rw (relinquish_block, swallowed [] bounded c free)

  relinquish_between :
      (y : Block) (ys : List Block)
      → x.free ≡ true
      → stop_of q (x ∷ b ∷ y ∷ ys) < 2 ^ 64
      → IsChain h prev q (x ∷ b ∷ y ∷ ys) 0
      → Relinquished h prev q
          (some (merge_next (absorb x b) (y ∷ ys)))
          (relinquish_block h (q + block_size x))
  unfolding relinquish_block
  relinquish_between y ys free bounded c =
      let a = q + block_size x in
      let h1 = set_free h a true in
      let a3 = a + block_size b in
      let size = x.payload_size + block_size b in
      let c1 =
        prepend h h1 prev q x (b ∷ y ∷ ys) (freed b ∷ y ∷ ys) c refl (kept_head (y ∷ ys) bounded c)
          (freed_chain h q a b (y ∷ ys) (omega arith) bounded (tail (y ∷ ys) bounded c)) in
      let join : q + block_size (absorb x b) ≡ a3 = omega arith in
      let to : (h a).next ≡ a3 =
        rw ((IsChain-cons h q a 0 b (y ∷ ys)).0 (tail (y ∷ ys) bounded c)).0 refl in
      let h2 = absorbed h1 q size a3 in
      let c2 = absorbed-IsChain h1 prev q x (freed b) (y ∷ ys) size a3 c1 bounded pos refl refl in
      let (chain, below) =
        swallow_next-IsChain h2 prev q (absorb x b) pos (h a).next (y ∷ ys) (to ∙ sym join) c2
          (rw join bounded) in
      rw (relinquish_block, swallowed (y ∷ ys) bounded c free, ne→beq a3 0 (omega arith))
        (
          swallow_next h2 q (h a).next,
          refl,
          chain,
          λ z lt.
              below z lt
              ∙ absorbed-below h1 prev q x (freed b) (y ∷ ys) size a3 c1 bounded pos refl refl z lt
              ∙ set_free-below h a true z (omega arith),
        )

  -- The block behind another one.
  pub relinquish_later :
      (ys : List Block)
      → stop_of q (x ∷ b ∷ ys) < 2 ^ 64
      → IsChain h prev q (x ∷ b ∷ ys) 0
      → Relinquished h prev q (released (some x) b ys) (relinquish_block h (q + block_size x))
  relinquish_later [] bounded c = elim (Bool-cases x.free) [
    | inl free ↦ rw free (relinquish_last free bounded c)
    | inr used ↦
        subst (λ t. Relinquished h prev q (at_end x b t) (relinquish_block h (q + block_size x)))
          (sym used) (later_used [] bounded c used)
  ]
  relinquish_later (y ∷ ys) bounded c =
      let result : Bool → Type 0 = λ t.
        Relinquished h prev q (between x b (y ∷ ys) t) (relinquish_block h (q + block_size x)) in
      elim (Bool-cases x.free) [
        | inl free ↦ subst result (sym free) (relinquish_between y ys free bounded c)
        | inr used ↦ subst result (sym used) (later_used (y ∷ ys) bounded c used)
      ]
