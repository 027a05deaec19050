-- ===== src/Heap/Chain.antt =====
-- The blocks of the heap as a list, in the order of their addresses: what the doubly linked headers
-- stand for.
use ych.Prelude.{
  ℕ, ◌+◌, ◌*◌, ◌^◌, ◌<◌, ◌≤◌, ◌≡◌, ◌≢◌, ◌↔◌, ◌⊎◌, inl, inr, refl, Bool, ◌==◌, List, [], ◌∷◌, ◌++◌,
  arith, length, Bool-cases, ◌∙◌, sym, ap, eq→beq, ne→beq,
}
use ych.Heap.{Heap, Header, header_size, put_header, link_back, set_free}

pub record Block : Type 0 where
  pub payload_size : ℕ
  pub free : Bool

abbrev pub block_size : Block → ℕ
block_size b = header_size + b.payload_size

-- The address behind blocks that start at `a`, and the last block's address.
abbrev pub stop_of : ℕ → List Block → ℕ
stop_of a [] = a
stop_of a (b ∷ bs) = stop_of (a + block_size b) bs

abbrev pub last_of : ℕ → ℕ → List Block → ℕ
last_of prev a [] = prev
last_of prev a (b ∷ bs) = last_of a (a + block_size b) bs

-- The link to the blocks `bs` at `a`, or `last` where there are none.
abbrev pub link_to : ℕ → List Block → ℕ → ℕ
link_to a [] last = last
link_to a (b ∷ bs) last = a

abbrev pub header_of : ℕ → ℕ → Block → Header
header_of prev next b = record {
  prev = prev;
  next = next;
  payload_size = b.payload_size;
  free = b.free;
}

-- The headers from `a` on are those of the blocks, each right behind the one before it.
unfoldable pub IsChain : (ℕ → Header) → ℕ → ℕ → List Block → ℕ → Type 0
IsChain h prev a [] last = Unit {0}
IsChain h prev a (b ∷ bs) last =
    (h a ≡ header_of prev (link_to (a + block_size b) bs last) b)
    × IsChain h a (a + block_size b) bs last

pub le-stop_of : (a : ℕ) (bs : List Block) → a ≤ stop_of a bs
le-stop_of a [] = omega arith
le-stop_of a (b ∷ bs) = omega (arith, le-stop_of (a + block_size b) bs)

pub stop_of-append : (a : ℕ) (xs ys : List Block) → stop_of a (xs ++ ys) ≡ stop_of (stop_of a xs) ys
stop_of-append a [] ys = refl
stop_of-append a (x ∷ xs) ys = stop_of-append (a + block_size x) xs ys

pub length-stop_of : (a : ℕ) (bs : List Block) → a + length bs * 25 ≤ stop_of a bs
length-stop_of a [] = omega arith
length-stop_of a (b ∷ bs) = omega (arith, length-stop_of (a + block_size b) bs)

pub put_header-same : (h : ℕ → Header) (a : ℕ) (v : Header) → put_header h a v a ≡ v
unfolding put_header
put_header-same h a v = rw (eq→beq a a refl)

pub put_header-other :
    (h : ℕ → Header) (a : ℕ) (v : Header) (x : ℕ) → x ≢ a → put_header h a v x ≡ h x
unfolding put_header
put_header-other h a v x ne = rw (ne→beq x a ne)

-- A write outside the blocks leaves them.
pub put_header-IsChain :
    (h : ℕ → Header) (x : ℕ) (v : Header) (prev a : ℕ) (bs : List Block) (last : ℕ)
    → (x < a) ⊎ (stop_of a bs ≤ x)
    → IsChain h prev a bs last
    → IsChain (put_header h x v) prev a bs last
unfolding IsChain
put_header-IsChain h x v prev a [] last out c = tt
put_header-IsChain h x v prev a (b ∷ bs) last out (at, c) =
    let below = le-stop_of (a + block_size b) bs in
    let ne : a ≢ x = ground arith in
    let out' : (x < a + block_size b) ⊎ (stop_of (a + block_size b) bs ≤ x) = ground arith in
    (
      rw (put_header-other h x v a ne, at),
      put_header-IsChain h x v a (a + block_size b) bs last out' c,
    )

-- Blocks with more behind them are two runs of blocks that link to each other.
pub IsChain-append :
    (h : ℕ → Header) (prev a : ℕ) (xs ys : List Block) (last : ℕ)
    → IsChain h prev a (xs ++ ys) last ↔ (
        IsChain h prev a xs (link_to (stop_of a xs) ys last)
        × IsChain h (last_of prev a xs) (stop_of a xs) ys last)
unfolding IsChain
IsChain-append h prev a [] ys last = (λ c. (tt, c), λ c. c.1)
IsChain-append h prev a (x ∷ []) ys last = (λ c. ((c.0, tt), c.1), λ c. (c.0.0, c.1))
IsChain-append h prev a (x ∷ (x' ∷ xs)) ys last =
    let ih = IsChain-append h a (a + block_size x) (x' ∷ xs) ys last in
    (λ c. ((c.0, (ih.0 c.1).0), (ih.0 c.1).1), λ c. (c.0.0, ih.1 (c.0.1, c.1)))

pub link_back_lem :
    (h : ℕ → Header) (a prev : ℕ)
    → 0 < a
    → link_back h a prev ≡ put_header h a (record (h a) { prev = prev })
unfolding link_back
link_back_lem h a prev pos = rw (ne→beq a 0 (omega arith))

relink-IsChain :
    (h : ℕ → Header) (prev prev' a : ℕ) (b : Block) (bs : List Block)
    → IsChain h prev a (b ∷ bs) 0
    → IsChain (put_header h a (record (h a) { prev = prev' })) prev' a (b ∷ bs) 0
unfolding IsChain
relink-IsChain h prev prev' a b bs (at, c) =
    let v = record (h a) { prev = prev' } in
    (
      rw (put_header-same h a v, at),
      put_header-IsChain h a v a (a + block_size b) bs 0 (inl (omega arith)) c,
    )

pub IsChain-nil : (h : ℕ → Header) (prev a last : ℕ) → IsChain h prev a [] last
unfolding IsChain
IsChain-nil h prev a last = tt

-- The first block's link back is the only one that depends on what stands before.
pub link_back-IsChain :
    (h : ℕ → Header) (prev prev' a n : ℕ) (bs : List Block)
    → 0 < a
    → n ≡ link_to a bs 0
    → IsChain h prev a bs 0
    → IsChain (link_back h n prev') prev' a bs 0
link_back-IsChain h prev prev' a n [] pos e c = IsChain-nil _ prev' a 0
link_back-IsChain h prev prev' a n (b ∷ bs) pos e c =
    rw (e, link_back_lem h a prev' pos) (relink-IsChain h prev prev' a b bs c)

pub link_back-other :
    (h : ℕ → Header) (a prev x : ℕ) → (a ≡ 0) ⊎ (x ≢ a) → link_back h a prev x ≡ h x
unfolding link_back
link_back-other h a prev x (inl z) = rw (eq→beq a 0 z)
link_back-other h a prev x (inr ne) = elim (Bool-cases (a == 0)) [
  | inl z ↦ rw z
  | inr nz ↦ rw nz (put_header-other h a (record (h a) { prev = prev }) x ne)
]

-- A block whose own header is replaced, with what is behind it.
pub put_header-cons :
    (h : ℕ → Header) (prev a a' : ℕ) (b : Block) (bs : List Block) (last : ℕ)
    → IsChain h a a' bs last
    → a' ≡ a + block_size b
    → IsChain (put_header h a (header_of prev (link_to a' bs last) b)) prev a (b ∷ bs) last
unfolding IsChain
put_header-cons h prev a a' b bs last c e =
    let v = header_of prev (link_to a' bs last) b in
    (
      put_header-same h a v ∙ ap (λ t. header_of prev (link_to t bs last) b) e,
      rw (sym e) (put_header-IsChain h a v a a' bs last (inl (omega arith)) c),
    )

-- Blocks depend on the headers below their end only.
pub below-IsChain :
    (h h' : ℕ → Header) (prev a : ℕ) (bs : List Block) (last : ℕ)
    → ((x : ℕ) → x < stop_of a bs → h' x ≡ h x)
    → IsChain h prev a bs last
    → IsChain h' prev a bs last
unfolding IsChain
below-IsChain h h' prev a [] last same c = tt
below-IsChain h h' prev a (b ∷ bs) last same (at, c) =
    let after = le-stop_of (a + block_size b) bs in
    (same a (omega arith) ∙ at, below-IsChain h h' a (a + block_size b) bs last same c)

pub IsChain-cons :
    (h : ℕ → Header) (prev a last : ℕ) (b : Block) (bs : List Block)
    → IsChain h prev a (b ∷ bs) last ↔ (
        (h a ≡ header_of prev (link_to (a + block_size b) bs last) b)
        × IsChain h a (a + block_size b) bs last)
unfolding IsChain
IsChain-cons h prev a last b bs = (λ c. c, λ c. c)

pub set_free-IsChain :
    (h : ℕ → Header) (prev a : ℕ) (b : Block) (bs : List Block) (last : ℕ) (f : Bool)
    → IsChain h prev a (b ∷ bs) last
    → IsChain (set_free h a f) prev a (record b { free = f } ∷ bs) last
unfolding IsChain set_free
set_free-IsChain h prev a b bs last f (at, c) =
    let v = record (h a) { free = f } in
    (
      rw (put_header-same h a v, at),
      put_header-IsChain h a v a (a + block_size b) bs last (inl (omega arith)) c,
    )

-- Every payload has at least the least size.
unfoldable pub IsRoomy : List Block → Type 0
IsRoomy [] = Unit {0}
IsRoomy (b ∷ bs) = (32 ≤ b.payload_size) × IsRoomy bs

pub IsRoomy-append : (xs ys : List Block) → IsRoomy (xs ++ ys) ↔ (IsRoomy xs × IsRoomy ys)
unfolding IsRoomy
IsRoomy-append [] ys = (λ r. (tt, r), λ r. r.1)
IsRoomy-append (x ∷ xs) ys =
    let ih = IsRoomy-append xs ys in
    (λ r. ((r.0, (ih.0 r.1).0), (ih.0 r.1).1), λ r. (r.0.0, ih.1 (r.0.1, r.1)))

pub set_free-below : (h : ℕ → Header) (a : ℕ) (f : Bool) (x : ℕ) → x < a → set_free h a f x ≡ h x
unfolding set_free
set_free-below h a f x lt = put_header-other h a (record (h a) { free = f }) x (omega arith)

-- Two lists that link to the same address still do behind others.
pub link_to-append :
    (a : ℕ) (xs ys zs : List Block)
    → link_to (stop_of a xs) ys 0 ≡ link_to (stop_of a xs) zs 0
    → link_to a (xs ++ ys) 0 ≡ link_to a (xs ++ zs) 0
link_to-append a [] ys zs e = e
link_to-append a (x ∷ xs) ys zs e = refl

-- The heap's blocks are `bs`: they fill it from its start to its end, which is far enough below
-- 2 ^ 64 for sums of an address and an alignment.
pub record IsHeap (s : Heap) (bs : List Block) : Type 0 where
  pub rooted : s.root ≡ link_to s.start bs 0
  pub positive : 0 < s.start
  pub bounded : s.stop + 2 ^ 33 ≤ 2 ^ 64
  pub chain : IsChain s.headers 0 s.start bs 0
  pub tiles : stop_of s.start bs ≡ s.stop
  pub roomy : IsRoomy bs
