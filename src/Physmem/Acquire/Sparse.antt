-- ===== src/Physmem/Acquire/Sparse.antt =====
-- `PmAcquirePages` for scattered pages, and `PmAcquirePage`.
use ych.Prelude.{
  ℕ, ◌+◌, ◌-◌, ◌*◌, ◌%◌, ◌^◌, ◌≤◌, ◌<◌, ◌≡◌, ◌⊎◌, inl, inr, true, false, ◌||◌, arith, ◌==◌,
  Bool-cases, ltb, ltb→lt, beq→eq, refl,
}
use ych.Physmem.{Pmm, PageType, invalid_page_id, is_valid_page_id}
use ych.Physmem.Bitmap.{bit}
use ych.Physmem.Hunt.{Method, Search, hunt}
use ych.Physmem.Hunt.Sound.{IsFree, Scattered, hunt-Scattered}
use ych.Physmem.Hunt.Order.{Ordered, Ordered-lt, IsOnce, hunt-Ordered}
use ych.Physmem.Hunt.Complete.{Listed, hunt_short}
use ych.Physmem.Acquire.{
  Acquired, start_page, is_refused, settle, fresh_meta, fill_rest, acquire_pages, acquire_page,
  sparse_only,
}
use ych.Physmem.Acquire.Claim.{IsAscending, listed, claim_runs_from, claim_runs-Kept}
use ych.Physmem.State.{IsWellFormed, IsFree-lt}

-- What a request for scattered pages promises.
pub record Granted (s : Pmm) (want : ℕ) (r : Acquired) : Type 0 where
  -- no more than asked for, and every id a page that was free
  pub bound : r.count ≤ want
  pub free : (k : ℕ) → k < r.count → IsFree s (r.out k)
  -- the ids are distinct, in increasing order
  pub distinct : (j k : ℕ) → j < k → k < r.count → r.out j < r.out k
  -- the slots that were not filled are marked, unless nothing was found
  pub rest : (r.count ≡ 0) ⊎ ((k : ℕ) → r.count ≤ k → k < want → r.out k ≡ invalid_page_id)
  -- exactly the listed pages become allocated, and the counter follows
  pub bits :
      (page : ℕ) → bit r.state.primary page ≡ (listed r.out 0 r.count page || bit s.primary page)
  pub counter : r.state.acquired_pages ≡ (s.acquired_pages + r.count) % 2 ^ 64
  -- all that was asked for, or no free page is left
  pub short : (want ≤ r.count) ⊎ ((q : ℕ) → IsFree s q → Listed r.out r.count q)

-- A request that is well formed and starts at a page.
pub record IsProper (s : Pmm) (m : Method) (want hint : ℕ) : Type 0 where
  pub wanted : 0 < want
  pub accepted : is_refused m ≡ false
  pub starts : is_valid_page_id s (start_page s hint) ≡ true

pub valid_inside :
    (s : Pmm) (page : ℕ)
    → IsWellFormed s
    → is_valid_page_id s page ≡ true
    → page < 8 * s.bitmap_size
unfolding is_valid_page_id
valid_inside s page v h = ground (arith, v.covers)

module _ (s : Pmm) (v : IsWellFormed s) (m : Method) (want : ℕ) (page_type : PageType)
    (base : m.base_out_only ≡ false) (dense : m.dense ≡ false) where
  settle-Granted :
      (h : Search)
      → 0 < h.count
      → Scattered s v.small want h
      → Ordered h
      → (h.count < want → (q : ℕ) → IsFree s q → Listed h.out h.count q)
      → Granted s want (settle s want page_type m h)
  unfolding settle fill_rest
  settle-Granted h pos sc ord short =
      let out = fill_rest h.out h.count want in
      let asc : IsAscending s.nr_pages out h.count = record {
        below = λ k hk. ground (arith, IsFree-lt v (sc.free k hk));
        ascends = λ k hk. ground (arith, ord.ascends k hk);
      } in
      let narrow : s.nr_pages < 2 ^ 32 = omega (arith, v.small, v.covers) in
      let all : h.count - 0 ≡ h.count = omega arith in
      simp (base, dense)
        (record {
          bound = sc.bound;
          free = λ k hk. ground (arith, sc.free k hk);
          distinct = λ j k less hk.
              let there = Ordered-lt h.count h.out ord.ascends j (k - j - 1) (omega arith) in
              let e : j + (k - j - 1) + 1 ≡ k = omega arith in
              let less_out : h.out j < h.out k = rw e at there in ground arith;
          rest = inr (λ k lo hi. ground arith);
          bits = λ page. rw all at (
              claim_runs_from s.nr_pages h.count out narrow asc h.count 0 page
                (fresh_meta page_type m.for_user) s refl (omega arith) (omega arith));
          counter = ground (
            arith,
            (claim_runs-Kept h.count h.count 0 out (fresh_meta page_type m.for_user) s).acquired,
          );
          short = elim (Bool-cases (ltb h.count want)) [
            | inl few ↦
                inr (λ q f. let (k, hk, e) = short (ltb→lt _ _ few) q f in (k, hk, ground arith))
            | inr all ↦ inl (ground arith)
          ];
        })

  -- A request for scattered pages, in a well-formed state, that is well formed itself and whose
  -- search goes over no page twice (it begins at page 0, one page is asked for, or its first pass
  -- finds enough), returns distinct pages that were free, at most as many as asked for; exactly these
  -- become allocated, the counter grows by their number, and if they are
  -- fewer than asked for, no other page is free.
  pub acquire_pages-Granted :
      (out : ℕ → ℕ) (hint : ℕ)
      → IsProper s m want hint
      → IsOnce s m want (start_page s hint) out
      → Granted s want (acquire_pages s out want page_type m hint)
  unfolding acquire_pages
  acquire_pages-Granted out hint proper once =
      let initial = start_page s hint in
      let h = hunt s m want initial out in
      let inside : initial < 8 * s.bitmap_size = valid_inside s initial v proper.starts in
      let sc = hunt-Scattered s v.small m want initial out base dense inside in
      let ord = hunt-Ordered s v.small m want base dense initial out inside once in
      let short = hunt_short s v.small m want base dense initial out inside in
      let some_wanted : (want == 0) ≡ false = ground (arith, proper.wanted) in
      simp (some_wanted, proper.accepted, proper.starts)
        (elim (Bool-cases (h.count == 0)) [
          | inr found ↦ rw found (settle-Granted h (ground arith) sc ord short)
          | inl nothing ↦ rw nothing (record {
            bound = omega arith;
            free = λ k hk. absurd (omega arith);
            distinct = λ j k less hk. absurd (omega arith);
            rest = inl refl;
            bits = λ page. refl;
            counter = omega (arith, v.counted);
            short = inr (λ q f. let (k, hk, e) = short (ground arith) q f in absurd (ground arith));
          })
        ])

accepts_sparse : is_refused sparse_only ≡ false
unfolding is_refused
accepts_sparse = refl

nothing-IsFree :
    (s : Pmm) (out : ℕ → ℕ) (count q : ℕ)
    → (1 ≤ count) ⊎ ((q : ℕ) → IsFree s q → Listed out count q)
    → count ≡ 0
    → ¬ IsFree s q
nothing-IsFree s out count q (inl some) e f = omega arith
nothing-IsFree s out count q (inr all) e f = let (k, hk, z) = all q f in omega arith

-- In a well-formed state, and where the search starts at a page, `PmAcquirePage` answers with a page
-- that was free, and that alone becomes allocated; or it answers `IVLDPGID` and changes no bit, and
-- no page is free.
pub acquire_page-Granted :
    (s : Pmm) (page_type : PageType) (hint : ℕ)
    → IsWellFormed s
    → is_valid_page_id s (start_page s hint) ≡ true
    → let r = acquire_page s page_type hint in
      (IsFree s r.1 × ((page : ℕ) → bit r.0.primary page ≡ ((r.1 == page) || bit s.primary page)))
      ⊎ ((r.1 ≡ invalid_page_id)
          × ((page : ℕ) → bit r.0.primary page ≡ bit s.primary page)
          × ((q : ℕ) → ¬ IsFree s q))
unfolding acquire_page
acquire_page-Granted s page_type hint v starts =
    let r = acquire_pages s (λ k. invalid_page_id) 1 page_type sparse_only hint in
    let g =
      acquire_pages-Granted s v sparse_only 1 page_type refl refl (λ k. invalid_page_id) hint
        (record { wanted = omega arith; accepted = accepts_sparse; starts = starts })
        (inl (inr refl)) in
    elim (Bool-cases (r.count == 0)) [
      | inl nothing ↦ inr (
        rw nothing refl,
        (λ page. rw (beq→eq _ _ nothing) at (g.bits page)),
        λ q f. nothing-IsFree s r.out r.count q g.short (beq→eq _ _ nothing) f,
      )
      | inr found ↦
          let one : r.count ≡ 1 = ground (arith, g.bound) in
          inl (
            rw found (g.free 0 (ground arith)),
            λ page. rw found (ground (arith, rw one at (g.bits page))),
          )
    ]
