-- ===== src/Physmem/Acquire/Kept.antt =====
-- What `PmAcquirePages` leaves alone, whatever it is asked for.
use ych.Prelude.{
  ℕ, zero, suc, ◌+◌, ◌-◌, ltb, true, ◌^◌, ◌<◌, ◌≡◌, inl, inr, arith, if◌then◌else◌, Bool-cases,
  Option-cases,
}
use ych.Physmem.{Pmm, PageType, PageMeta, invalid_page_id}
use ych.Physmem.Bitmap.{bit, set_page_status}
use ych.Physmem.Bitmap.Status.{set_page_status_grows}
use ych.Physmem.Hunt.{Method, Search, hunt}
use ych.Physmem.Acquire.{
  start_page, claim, claim_runs, run_end, settle, fresh_meta, fill_rest, acquire_pages,
  acquire_page, sparse_only,
}
use ych.Physmem.Acquire.Claim.{claim-Kept, claim_runs-Kept}

pub record Same (s t : Pmm) : Type 0 where
  pub nr_pages : t.nr_pages ≡ s.nr_pages
  pub bitmap_size : t.bitmap_size ≡ s.bitmap_size
  pub stage : t.init_stage ≡ s.init_stage
  pub advisory : t.advisory ≡ s.advisory
  pub counted : s.acquired_pages < 2 ^ 64 → t.acquired_pages < 2 ^ 64

settle-Same :
    (s : Pmm) (want : ℕ) (page_type : PageType) (m : Method) (h : Search)
    → Same s (settle s want page_type m h).state
unfolding settle
settle-Same s want page_type m h =
    let value = fresh_meta page_type m.for_user in
    let out = if m.base_out_only then h.out else fill_rest h.out h.count want in
    let range = claim-Kept s value (out 0) h.count in
    let runs = claim_runs-Kept h.count h.count 0 out value s in
    elim (Bool-cases m.dense) [
      | inl dense ↦ simp dense (record {
        nr_pages = range.nr_pages;
        bitmap_size = range.bitmap_size;
        stage = range.stage;
        advisory = range.advisory;
        counted = λ z. omega arith;
      })
      | inr sparse ↦ simp sparse (record {
        nr_pages = runs.nr_pages;
        bitmap_size = runs.bitmap_size;
        stage = runs.stage;
        advisory = runs.advisory;
        counted = λ z. omega arith;
      })
    ]

pub acquire_pages-Same :
    (s : Pmm) (out : ℕ → ℕ) (want : ℕ) (page_type : PageType) (m : Method) (hint : ℕ)
    → Same s (acquire_pages s out want page_type m hint).state
unfolding acquire_pages
acquire_pages-Same s out want page_type m hint =
    ground (arith, settle-Same s want page_type m (hunt s m want (start_page s hint) out))

pub acquire_page-Same :
    (s : Pmm) (page_type : PageType) (hint : ℕ) → Same s (acquire_page s page_type hint).0
unfolding acquire_page
acquire_page-Same s page_type hint =
    acquire_pages-Same s (λ k. invalid_page_id) 1 page_type sparse_only hint

-- No claim gives a page back, whatever range it is for.
claim_grows :
    (s : Pmm) (value : PageMeta) (start n page : ℕ)
    → bit s.primary page ≡ true
    → bit (claim s value start n).primary page ≡ true
unfolding claim
claim_grows s value start n page b =
    elim (Option-cases (set_page_status s.nr_pages s.primary start n true)) [
      | inl refused ↦ ground (arith, refused)
      | inr (bm, e) ↦
          ground (arith, e, set_page_status_grows s.nr_pages s.primary bm start n page e b)
    ]

claim_runs_grows :
    (fuel : ℕ) (value : PageMeta) (out : ℕ → ℕ) (count i : ℕ) (s : Pmm) (page : ℕ)
    → bit s.primary page ≡ true
    → bit (claim_runs fuel value out count i s).primary page ≡ true
unfolding claim_runs
claim_runs_grows zero value out count i s page b = b
claim_runs_grows (suc fuel) value out count i s page b =
    let j = run_end out count i (count - (i + 1)) (i + 1) in
    elim (Bool-cases (ltb i count)) [
      | inl more ↦ rw more (
          claim_runs_grows fuel value out count j (claim s value (out i) (j - i)) page
            (claim_grows s value (out i) (j - i) page b))
      | inr done ↦ rw done b
    ]

settle_grows :
    (s : Pmm) (want : ℕ) (page_type : PageType) (m : Method) (h : Search) (page : ℕ)
    → bit s.primary page ≡ true
    → bit (settle s want page_type m h).state.primary page ≡ true
unfolding settle
settle_grows s want page_type m h page b =
    let value = fresh_meta page_type m.for_user in
    let out = if m.base_out_only then h.out else fill_rest h.out h.count want in
    elim (Bool-cases m.dense) [
      | inl dense ↦ simp dense (claim_grows s value (out 0) h.count page b)
      | inr sparse ↦ simp sparse (claim_runs_grows h.count value out h.count 0 s page b)
    ]

-- An allocated page stays so under every acquisition, whatever it asks for.
pub acquire_pages_grows :
    (s : Pmm) (out : ℕ → ℕ) (want : ℕ) (page_type : PageType) (m : Method) (hint page : ℕ)
    → bit s.primary page ≡ true
    → bit (acquire_pages s out want page_type m hint).state.primary page ≡ true
unfolding acquire_pages
acquire_pages_grows s out want page_type m hint page b =
    ground (arith, settle_grows s want page_type m (hunt s m want (start_page s hint) out) page b)
