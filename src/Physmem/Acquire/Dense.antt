-- ===== src/Physmem/Acquire/Dense.antt =====
-- `PmAcquirePages` for contiguous pages.
use ych.Prelude.{
  ℕ, ◌+◌, ◌-◌, ◌%◌, ◌^◌, ◌≤◌, ◌<◌, ◌≡◌, ◌⊎◌, inl, inr, true, false, ◌&&◌, ◌||◌, arith, leb, ltb,
  ◌==◌, Bool-cases,
}
use ych.Physmem.{Pmm, PageType, PageMeta}
use ych.Physmem.Bitmap.{bit}
use ych.Physmem.Hunt.{Method, Search, hunt}
use ych.Physmem.Hunt.Sound.{IsFree, Streak, hunt-Streak}
use ych.Physmem.Acquire.{Acquired, start_page, settle, fresh_meta, fill_rest, acquire_pages}
use ych.Physmem.Acquire.Claim.{claim_bits, claim-Kept}
use ych.Physmem.Acquire.Sparse.{IsProper, valid_inside}
use ych.Physmem.State.{IsWellFormed, IsFree-lt}

-- What a request for contiguous pages promises, `first` being the first id.
pub record GrantedRange (s : Pmm) (m : Method) (want : ℕ) (r : Acquired) : Type 0 where
  pub bound : r.count ≤ want
  pub free : (k : ℕ) → k < r.count → IsFree s (r.out 0 + k)
  pub listed : (m.base_out_only ≡ true) ⊎ ((k : ℕ) → k < r.count → r.out k ≡ r.out 0 + k)
  pub bits :
      (page : ℕ)
      → bit r.state.primary page
        ≡ ((leb (r.out 0) page && ltb page (r.out 0 + r.count)) || bit s.primary page)
  pub counter : r.state.acquired_pages ≡ (s.acquired_pages + r.count) % 2 ^ 64

module _ (s : Pmm) (v : IsWellFormed s) (m : Method) (want : ℕ) (page_type : PageType)
    (dense : m.dense ≡ true) where
  settle-GrantedRange :
      (h : Search)
      → 0 < h.count
      → Streak s v.small m want h
      → GrantedRange s m want (settle s want page_type m h)
  unfolding settle fill_rest
  settle-GrantedRange h pos st = elim (Bool-cases m.base_out_only) [
    | inl base ↦
        simp (dense, base)
          (record {
            bound = st.bound;
            free = st.free;
            listed = inl base;
            bits = λ page. claim_bits s value (h.out 0) h.count page within narrow;
            counter = ground (arith, (claim-Kept s value (h.out 0) h.count).acquired);
          })
    | inr list ↦
        let first = fill_rest h.out h.count want 0 in
        let same : first ≡ h.out 0 = ground arith in
        simp (dense, list)
          (record {
            bound = st.bound;
            free = λ k hk. rw same (st.free k hk);
            listed = inr (λ k hk. ground (arith, st.listed list k));
            bits =
                λ page. claim_bits s value first h.count page (omega (arith, same, within)) narrow;
            counter = ground (arith, (claim-Kept s value first h.count).acquired);
          })
  ]
    where
      value : PageMeta
      value = fresh_meta page_type m.for_user

      last : h.out 0 + (h.count - 1) < s.nr_pages
      last = IsFree-lt v (st.free (h.count - 1) (omega arith))

      within : h.out 0 + h.count ≤ s.nr_pages
      within = omega (arith, last)

      narrow : s.nr_pages < 2 ^ 32
      narrow = omega (arith, v.small, v.covers)

  -- In a well-formed state, the pages that a well-formed dense request returns, at most as many as
  -- asked for, follow one another from the first id on, all of them
  -- were free, exactly their bits are set, and the counter grows by their number; the array lists
  -- them unless only the first id was asked for.
  pub acquire_pages-GrantedRange :
      (out : ℕ → ℕ) (hint : ℕ)
      → IsProper s m want hint
      → GrantedRange s m want (acquire_pages s out want page_type m hint)
  unfolding acquire_pages
  acquire_pages-GrantedRange out hint proper =
      let initial = start_page s hint in
      let h = hunt s m want initial out in
      let inside = valid_inside s initial v proper.starts in
      let st = hunt-Streak s v.small m want initial out dense inside in
      let some_wanted : (want == 0) ≡ false = ground (arith, proper.wanted) in
      simp (some_wanted, proper.accepted, proper.starts)
        (elim (Bool-cases (h.count == 0)) [
          | inr found ↦ rw found (settle-GrantedRange h (ground arith) st)
          | inl nothing ↦ rw nothing (record {
            bound = omega arith;
            free = λ k hk. absurd (omega arith);
            listed = inr (λ k hk. absurd (omega arith));
            bits = λ page. ground arith;
            counter = omega (arith, v.counted);
          })
        ])
