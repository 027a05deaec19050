-- ===== src/Physmem/Init/Meta.antt =====
-- The metadata array and the stage that its construction leaves behind.
use ych.Prelude.{
  ℕ, zero, suc, ◌+◌, ◌-◌, ◌*◌, ◌/◌, ◌%◌, ◌^◌, ◌<◌, ◌≡◌, Bool, true, arith, ltb, Bool-cases, ◌∙◌,
  inl, inr, ap,
}
use ych.Physmem.{Pmm, InitStage, PageType, invalid_page_id}
use ych.Physmem.Bitmap.{bit}
use ych.Physmem.Acquire.{acquire_pages}
use ych.Physmem.Acquire.Kept.{acquire_pages-Same}
use ych.Physmem.Release.Laws.{relinquish_page-Relinquished}
use ych.Physmem.Init.{
  has_started, dense_base, metas_per_page, relinquish_range, init_phys_meta_array,
}

relinquish_range-stage :
    (n id : ℕ) (s : Pmm)
    → s.init_stage ≡ InitStage.basic
    → (relinquish_range n id s).init_stage ≡ InitStage.basic
unfolding relinquish_range
relinquish_range-stage zero id s b = b
relinquish_range-stage (suc n) id s b =
    let (t, a, e, r) = relinquish_page-Relinquished s id b in
    rw (relinquish_range, e) (relinquish_range-stage n (id + 1) t (r.stage ∙ b))

-- What the construction of the array promises.
record Recorded (s t : Pmm) (answer : Bool) : Type 0 where
  -- the stage is not moved on, whatever the answer
  pub stage : t.init_stage ≡ InitStage.basic
  -- with success, every allocated page has one reference and counts as reserved
  pub metas :
      answer ≡ true
      → (id : ℕ) → id < 8 * t.bitmap_size
      → bit t.primary id ≡ true
      → ((t.meta id).ref_count ≡ 1) × ((t.meta id).page_type ≡ PageType.reserved)

init_phys_meta_array-Recorded :
    (dmap_base : ℕ) (out : ℕ → ℕ) (s : Pmm)
    → s.init_stage ≡ InitStage.basic
    → let (t, answer) = init_phys_meta_array dmap_base out s in Recorded s t answer
unfolding init_phys_meta_array
init_phys_meta_array-Recorded dmap_base out s b =
    let needed = (s.total_pages + metas_per_page - 1) % 2 ^ 64 / metas_per_page % 2 ^ 32 in
    let r = acquire_pages s out needed PageType.bookkeeping dense_base invalid_page_id in
    let stage =
      (acquire_pages-Same s out needed PageType.bookkeeping dense_base invalid_page_id).stage ∙ b in
    let started : has_started s.init_stage ≡ true = ap has_started b in
    elim (Bool-cases (ltb r.count needed)) [
      | inl short ↦
          simp (started, short)
            (record {
              stage = relinquish_range-stage r.count (r.out 0) r.state stage;
              metas = λ z id h q. absurd (ground arith);
            })
      | inr enough ↦
          simp (started, enough) (record { stage = stage; metas = λ z id h q. ground arith })
    ]

-- Building the metadata array in the basic stage leaves the manager in that stage, whatever the
-- answer.
pub init_phys_meta_array-stage :
    (dmap_base : ℕ) (out : ℕ → ℕ) (s : Pmm)
    → s.init_stage ≡ InitStage.basic
    → (init_phys_meta_array dmap_base out s).0.init_stage ≡ InitStage.basic
init_phys_meta_array-stage dmap_base out s b =
    (init_phys_meta_array-Recorded dmap_base out s b).stage

-- Where the metadata array is built with success, in the basic stage, every allocated page of the
-- bitmap has one reference and the type "reserved".
pub init_phys_meta_array-metas :
    (dmap_base : ℕ) (out : ℕ → ℕ) (s : Pmm) (id : ℕ)
    → s.init_stage ≡ InitStage.basic
    → (init_phys_meta_array dmap_base out s).1 ≡ true
    → let t = (init_phys_meta_array dmap_base out s).0 in
      id < 8 * t.bitmap_size
      → bit t.primary id ≡ true
      → ((t.meta id).ref_count ≡ 1) × ((t.meta id).page_type ≡ PageType.reserved)
init_phys_meta_array-metas dmap_base out s id b success inside taken =
    (init_phys_meta_array-Recorded dmap_base out s b).metas success id inside taken
