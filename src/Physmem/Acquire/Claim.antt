-- ===== src/Physmem/Acquire/Claim.antt =====
-- Which bits the claims set.
use ych.Prelude.{
  ℕ, zero, suc, ◌+◌, ◌-◌, ◌%◌, ◌^◌, ◌≤◌, ◌<◌, ◌≡◌, refl, inl, inr, Bool, true, false, ◌&&◌, ◌||◌,
  arith, leb, ltb, ◌==◌, Bool-cases, ltb→lt, ◌∙◌,
}
use ych.Physmem.{Pmm, PageMeta}
use ych.Physmem.Bitmap.{bit, set_page_status}
use ych.Physmem.Bitmap.Status.{set_page_status_bits}
use ych.Physmem.Acquire.{claim, run_end, claim_runs}

-- A range within the physical pages.
pub claim_bits :
    (s : Pmm) (value : PageMeta) (start n page : ℕ)
    → start + n ≤ s.nr_pages
    → s.nr_pages < 2 ^ 32
    → bit (claim s value start n).primary page
      ≡ ((leb start page && ltb page (start + n)) || bit s.primary page)
unfolding claim
claim_bits s value start n page h w =
    let (bm, e, bits) = set_page_status_bits s.nr_pages s.primary start n true h (omega arith) in
    ground (arith, e, bits page)

-- A range outside them is refused, and the refusal goes unnoticed.
pub claim_outside :
    (s : Pmm) (value : PageMeta) (start n : ℕ)
    → s.nr_pages < start + n
    → start + n < 2 ^ 64
    → (claim s value start n).primary ≡ s.primary
unfolding claim set_page_status
claim_outside s value start n h w = ground arith

-- What a claim leaves alone.
pub record Kept (s t : Pmm) : Type 0 where
  pub nr_pages : t.nr_pages ≡ s.nr_pages
  pub bitmap_size : t.bitmap_size ≡ s.bitmap_size
  pub stage : t.init_stage ≡ s.init_stage
  pub advisory : t.advisory ≡ s.advisory
  pub acquired : t.acquired_pages ≡ s.acquired_pages

pub claim-Kept : (s : Pmm) (value : PageMeta) (start n : ℕ) → Kept s (claim s value start n)
unfolding claim
claim-Kept s value start n = ground arith

-- `page` is among the ids `out i, ..., out (i + n - 1)`.
abbrev pub listed : (ℕ → ℕ) → ℕ → ℕ → ℕ → Bool
listed out i zero page = false
listed out i (suc n) page = (out i == page) || listed out (i + 1) n page

-- Ids in increasing order, all of them pages.
pub record IsAscending (nr_pages : ℕ) (out : ℕ → ℕ) (count : ℕ) : Type 0 where
  pub below : (k : ℕ) → k < count → out k < nr_pages
  pub ascends : (k : ℕ) → k + 1 < count → out k < out (k + 1)

-- A run has one id, or two that follow one another.
pub data Run (out : ℕ → ℕ) (count i j : ℕ) : Type 0 where
  single : j ≡ i + 1 → Run out count i j
  double : j ≡ i + 2 → j ≤ count → out (i + 1) ≡ out i + 1 → Run out count i j

module _ (nr_pages count : ℕ) (out : ℕ → ℕ) (w : nr_pages < 2 ^ 32)
    (a : IsAscending nr_pages out count) where
  -- Behind the second id the comparison with the first one fails.
  run_end_stops :
      (i rounds : ℕ)
      → i + 2 ≤ count
      → out (i + 1) ≡ out i + 1
      → run_end out count i rounds (i + 2) ≡ i + 2
  unfolding run_end
  run_end_stops i zero h e = refl
  run_end_stops i (suc rounds) h e =
      let two : i + 1 + 1 ≡ i + 2 = omega arith in
      ground (arith, rw two at (a.ascends (i + 1)), a.below i)

  run_end_rounds :
      (i rounds : ℕ)
      → rounds ≡ count - (i + 1)
      → i < count
      → Run out count i (run_end out count i rounds (i + 1))
  unfolding run_end
  run_end_rounds i zero e h = single refl
  run_end_rounds i (suc rounds) e h =
      elim (Bool-cases (ltb (i + 1) count && (out i + 1) % 2 ^ 32 == out (i + 1))) [
        | inr stop ↦ rw stop (single refl)
        | inl go ↦
            let next : out (i + 1) ≡ out i + 1 = ground (arith, a.below i) in
            let two : i + 1 + 1 ≡ i + 2 = omega arith in
            rw (go, two, run_end_stops i rounds (omega arith) next) (double refl (omega arith) next)
      ]

  after-Run :
      (fuel i page : ℕ) (value : PageMeta) (s : Pmm)
      → s.nr_pages ≡ nr_pages
      → i < count
      → count ≤ i + suc fuel
      → (j : ℕ) → Run out count i j
      → ((i page : ℕ) (value : PageMeta) (s : Pmm)
          → s.nr_pages ≡ nr_pages
          → i ≤ count
          → count ≤ i + fuel
          → bit (claim_runs fuel value out count i s).primary page
            ≡ (listed out i (count - i) page || bit s.primary page))
      → bit (claim_runs fuel value out count j (claim s value (out i) (j - i))).primary page
        ≡ (listed out i (count - i) page || bit s.primary page)
  after-Run fuel i page value s n h f j (single e) ih =
      let one : j - i ≡ 1 = omega arith in
      let left : count - i ≡ suc (count - (i + 1)) = omega arith in
      let s' = claim s value (out i) 1 in
      let kept = (claim-Kept s value (out i) 1).nr_pages in
      rw (one, left, e)
        (ground (
          arith,
          ih (i + 1) page value s' (kept ∙ n) (omega arith) (omega arith),
          claim_bits s value (out i) 1 page (omega (arith, a.below i h)) (omega arith),
        ))
  after-Run fuel i page value s n h f j (double e c next) ih =
      let two : j - i ≡ 2 = omega arith in
      let left : count - i ≡ suc (suc (count - (i + 2))) = omega arith in
      let plus : i + 1 + 1 ≡ i + 2 = omega arith in
      let s' = claim s value (out i) 2 in
      let kept = (claim-Kept s value (out i) 2).nr_pages in
      rw (two, left, e, plus)
        (ground (
          arith,
          next,
          ih (i + 2) page value s' (kept ∙ n) (omega arith) (omega arith),
          claim_bits s value (out i) 2 page (omega (arith, a.below (i + 1) (omega arith)))
              (omega arith),
        ))

  -- Claiming the runs from slot `i` on sets the bits of exactly the listed pages.
  pub claim_runs_from :
      (fuel i page : ℕ) (value : PageMeta) (s : Pmm)
      → s.nr_pages ≡ nr_pages
      → i ≤ count
      → count ≤ i + fuel
      → bit (claim_runs fuel value out count i s).primary page
        ≡ (listed out i (count - i) page || bit s.primary page)
  unfolding claim_runs
  claim_runs_from zero i page value s n h f = let e : count - i ≡ 0 = omega arith in rw e
  claim_runs_from (suc fuel) i page value s n h f = elim (Bool-cases (ltb i count)) [
    | inr stop ↦ let e : count - i ≡ 0 = ground arith in rw (stop, e)
    | inl more ↦ rw more (
        after-Run fuel i page value s n (ltb→lt _ _ more) f _
          (run_end_rounds i (count - (i + 1)) refl (ltb→lt _ _ more)) (claim_runs_from fuel))
  ]

pub claim_runs-Kept :
    (fuel count i : ℕ) (out : ℕ → ℕ) (value : PageMeta) (s : Pmm)
    → Kept s (claim_runs fuel value out count i s)
unfolding claim_runs
claim_runs-Kept zero count i out value s = record {
  nr_pages = refl;
  bitmap_size = refl;
  stage = refl;
  advisory = refl;
  acquired = refl;
}
claim_runs-Kept (suc fuel) count i out value s =
    let j = run_end out count i (count - (i + 1)) (i + 1) in
    let first = claim-Kept s value (out i) (j - i) in
    let rest = claim_runs-Kept fuel count j out value (claim s value (out i) (j - i)) in
    elim (Bool-cases (ltb i count)) [
      | inr stop ↦ rw stop (record {
        nr_pages = refl;
        bitmap_size = refl;
        stage = refl;
        advisory = refl;
        acquired = refl;
      })
      | inl more ↦ rw more (record {
        nr_pages = rest.nr_pages ∙ first.nr_pages;
        bitmap_size = rest.bitmap_size ∙ first.bitmap_size;
        stage = rest.stage ∙ first.stage;
        advisory = rest.advisory ∙ first.advisory;
        acquired = rest.acquired ∙ first.acquired;
      })
    ]
