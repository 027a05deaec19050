-- ===== src/Vmm/Linked.antt =====
-- The writes of `VmAcquireRegion` to the links of the nodes, Kernel/Source/Memory/Virtmemmgmt.c: a new
-- node in the doubly linked list is an insertion in the list of the nodes.
use ych.Prelude.{
  ℕ, zero, suc, ◌≡◌, ◌≢◌, refl, sym, ◌∙◌, ◌==◌, if◌then◌else◌, List, [], ◌∷◌, eq→beq, ne→beq,
  Bool-cases, inl, inr,
}
use ych.Vmm.{Links, link_node, node_before, node_after, insert_at}

unfoldable pub Avoids : ℕ → List ℕ → Type 0
Avoids a [] = Unit
Avoids a (n ∷ ns) = (n ≢ a) × Avoids a ns

unfoldable pub IsDistinct : List ℕ → Type 0
unfolding Avoids
IsDistinct [] = Unit
IsDistinct (n ∷ ns) = Avoids n ns × IsDistinct ns

abbrev pub first_of : List ℕ → ℕ
first_of [] = 0
first_of (n ∷ ns) = n

unfoldable pub last_of : ℕ → List ℕ → ℕ
last_of p [] = p
last_of p (n ∷ ns) = last_of n ns

-- The nodes are linked one to the next, the first back to `p` and the last on to `NULLPTR`.
unfoldable pub IsRun : Links → ℕ → List ℕ → Type 0
IsRun l p [] = Unit
IsRun l p (n ∷ ns) = (n ≢ 0) × ((l.prev n ≡ p) × ((l.next n ≡ first_of ns) × IsRun l n ns))

-- The links are the list of these nodes.
pub record IsChain (l : Links) (ns : List ℕ) : Type 0 where
  pub run : IsRun l 0 ns
  pub distinct : IsDistinct ns
  pub root : l.root ≡ first_of ns
  pub tail : l.tail ≡ last_of 0 ns

not-before : (n i : ℕ) (ns : List ℕ) → n ≢ 0 → Avoids n ns → node_before i ns ≢ n
unfolding Avoids node_before
not-before n i [] h a = λ e. h (sym e)
not-before n zero (m ∷ ms) h (x, a) = x
not-before n (suc i) (m ∷ ms) h (x, a) = not-before n i ms h a

not-after : (n p i : ℕ) (ns : List ℕ) → p ≢ n → Avoids n ns → node_after p i ns ≢ n
unfolding Avoids node_after
not-after n p zero ns h a = h
not-after n p (suc i) [] h a = h
not-after n p (suc i) (m ∷ ms) h (x, a) = not-after n m i ms x a

not-last : (n p : ℕ) (ns : List ℕ) → p ≢ n → Avoids n ns → last_of p ns ≢ n
unfolding Avoids last_of
not-last n p [] h a = h
not-last n p (m ∷ ms) h (x, a) = not-last n m ms x a

run-Avoids : (l : Links) (p : ℕ) (ns : List ℕ) → IsRun l p ns → Avoids 0 ns
unfolding Avoids IsRun
run-Avoids l p [] r = tt
run-Avoids l p (n ∷ ns) (h, (x, (y, r))) = (h, run-Avoids l n ns r)

insert-Avoids :
    (a i node : ℕ) (ns : List ℕ) → node ≢ a → Avoids a ns → Avoids a (insert_at i node ns)
unfolding Avoids insert_at
insert-Avoids a zero node ns h v = (h, v)
insert-Avoids a (suc i) node [] h v = (h, tt)
insert-Avoids a (suc i) node (n ∷ ns) h (x, v) = (x, insert-Avoids a i node ns h v)

insert-IsDistinct :
    (i node : ℕ) (ns : List ℕ) → Avoids node ns → IsDistinct ns → IsDistinct (insert_at i node ns)
unfolding Avoids IsDistinct insert_at
insert-IsDistinct zero node ns v d = (v, d)
insert-IsDistinct (suc i) node [] v d = (tt, tt)
insert-IsDistinct (suc i) node (n ∷ ns) (x, v) (w, d) =
    (insert-Avoids n i node ns (λ e. x (sym e)) w, insert-IsDistinct i node ns v d)

module _ (l : Links) (node b a : ℕ) where
  kept_prev : (m : ℕ) → m ≢ node → m ≢ b → (link_node l node b a).prev m ≡ l.prev m
  unfolding link_node
  kept_prev m x y = elim (Bool-cases (b == 0)) [
    | inl e ↦ rw (ne→beq m node x, e) refl
    | inr e ↦ rw (ne→beq m node x, e, ne→beq m b y) refl
  ]

  kept_next : (m : ℕ) → m ≢ node → m ≢ a → (link_node l node b a).next m ≡ l.next m
  unfolding link_node
  kept_next m x y = elim (Bool-cases (a == 0)) [
    | inl e ↦ rw (ne→beq m node x, e) refl
    | inr e ↦ rw (ne→beq m node x, e, ne→beq m a y) refl
  ]

  own_prev : (link_node l node b a).prev node ≡ a
  unfolding link_node
  own_prev = rw (eq→beq node node refl) refl

  own_next : (link_node l node b a).next node ≡ b
  unfolding link_node
  own_next = rw (eq→beq node node refl) refl

  set_prev : b ≢ 0 → b ≢ node → (link_node l node b a).prev b ≡ node
  unfolding link_node
  set_prev x y = rw (ne→beq b node y, ne→beq b 0 x, eq→beq b b refl) refl

  set_next : a ≢ 0 → a ≢ node → (link_node l node b a).next a ≡ node
  unfolding link_node
  set_next x y = rw (ne→beq a node y, ne→beq a 0 x, eq→beq a a refl) refl

  kept-IsRun :
      (p : ℕ) (ns : List ℕ)
      → IsRun l p ns
      → Avoids node ns
      → Avoids b ns
      → Avoids a ns
      → IsRun (link_node l node b a) p ns
  unfolding IsRun Avoids
  kept-IsRun p [] r x y z = tt
  kept-IsRun p (n ∷ ns) (h, (back, (on, r))) (x, xs) (y, ys) (z, zs) =
      (h, (kept_prev n x y ∙ back, (kept_next n x z ∙ on, kept-IsRun n ns r xs ys zs)))

-- What the first node of a run is linked on to, once the new one is at its place.
first-next :
    (l : Links) (node n i : ℕ) (ns : List ℕ)
    → n ≢ 0
    → n ≢ node
    → Avoids n ns
    → l.next n ≡ first_of ns
    → (link_node l node (node_before i ns) (node_after n i ns)).next n
      ≡ first_of (insert_at i node ns)
unfolding Avoids insert_at node_after
first-next l node n zero ns h x v on = set_next l node _ n h x
first-next l node n (suc i) [] h x v on = set_next l node _ n h x
first-next l node n (suc i) (m ∷ ms) h x (y, v) on =
    kept_next l node _ _ n x (λ e. not-after n m i ms y v (sym e)) ∙ on

insert-IsRun :
    (l : Links) (node p i : ℕ) (ns : List ℕ)
    → node ≢ 0
    → IsRun l p ns
    → IsDistinct ns
    → Avoids p ns
    → Avoids node ns
    → IsRun (link_node l node (node_before i ns) (node_after p i ns)) p (insert_at i node ns)
unfolding IsRun IsDistinct Avoids insert_at node_before node_after
insert-IsRun l node p zero [] h r d v w = (h, (own_prev l node 0 p, (own_next l node 0 p, tt)))
insert-IsRun l node p (suc i) [] h r d v w = (h, (own_prev l node 0 p, (own_next l node 0 p, tt)))
insert-IsRun l node p zero (n ∷ ns) h (g, (back, (on, r))) (u, d) (x, v) (y, w) = (
  h,
  (
    own_prev l node n p,
    (
      own_next l node n p,
      (
        g,
        (
          set_prev l node n p g y,
          (kept_next l node n p n y x ∙ on, kept-IsRun l node n p n ns r w u v),
        ),
      ),
    ),
  ),
)
insert-IsRun l node p (suc i) (n ∷ ns) h (g, (back, (on, r))) (u, d) (x, v) (y, w) = (
  g,
  (
    kept_prev l node _ _ n y (λ e. not-before n i ns g u (sym e)) ∙ back,
    (first-next l node n i ns g y u on, insert-IsRun l node n i ns h r d u w),
  ),
)

-- The new node is the last one exactly where the node in front of it was.
insert-last :
    (node p i : ℕ) (ns : List ℕ)
    → IsDistinct ns
    → Avoids p ns
    → last_of p (insert_at i node ns)
      ≡ (if node_after p i ns == last_of p ns then node else last_of p ns)
unfolding IsDistinct Avoids insert_at node_after last_of
insert-last node p zero [] d v = rw (eq→beq p p refl) refl
insert-last node p (suc i) [] d v = rw (eq→beq p p refl) refl
insert-last node p zero (n ∷ ns) (u, d) (x, v) =
    rw (ne→beq p (last_of n ns) (λ e. not-last p n ns x v (sym e))) refl
insert-last node p (suc i) (n ∷ ns) (u, d) (x, v) = insert-last node n i ns d u

insert-root :
    (node i : ℕ) (ns : List ℕ)
    → IsDistinct ns
    → Avoids 0 ns
    → (if node_before i ns == first_of ns then node else first_of ns)
      ≡ first_of (insert_at i node ns)
unfolding IsDistinct Avoids insert_at node_before
insert-root node zero [] d v = refl
insert-root node (suc i) [] d v = refl
insert-root node zero (n ∷ ns) d v = rw (eq→beq n n refl) refl
insert-root node (suc i) (n ∷ ns) (u, d) (x, v) =
    rw (ne→beq (node_before i ns) n (not-before n i ns x u)) refl

-- A new node that is linked at any place of a doubly linked list makes it the list with this node at
-- that place, linked in both directions and from both ends.
pub link_node-IsChain :
    (l : Links) (node i : ℕ) (ns : List ℕ)
    → IsChain l ns
    → node ≢ 0
    → Avoids node ns
    → IsChain (link_node l node (node_before i ns) (node_after 0 i ns)) (insert_at i node ns)
unfolding link_node
link_node-IsChain l node i ns c h v =
    let inside = run-Avoids l 0 ns c.run in
    record {
      run = insert-IsRun l node 0 i ns h c.run c.distinct inside v;
      distinct = insert-IsDistinct i node ns v c.distinct;
      root = rw c.root (insert-root node i ns c.distinct inside);
      tail = rw c.tail (sym (insert-last node 0 i ns c.distinct inside));
    }
