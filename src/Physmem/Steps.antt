-- ===== src/Physmem/Steps.antt =====
-- Sequences of operations on the manager, in the stage that it runs in.
use ych.Prelude.{ℕ, ◌^◌, ◌≤◌, ◌<◌, ◌≡◌, Bool, true, arith, ◌∙◌, sym}
use ych.Physmem.{Pmm, PageType, InitStage, is_reserved, set_acquisition_hint, invalid_page_id}
use ych.Physmem.Bitmap.{bit}
use ych.Physmem.Hunt.{Method}
use ych.Physmem.Acquire.{acquire_pages, acquire_page, sparse_only}
use ych.Physmem.Acquire.Kept.{Same, acquire_page-Same, acquire_pages-Same, acquire_pages_grows}
use ych.Physmem.Release.{returned, relinquish_page, reserve_page}
use ych.Physmem.Release.Laws.{relinquish_page-Relinquished, set_page_bit_bits}
use ych.Physmem.State.{IsWellFormed}

-- One call of the manager by another part of the kernel, with any arguments, but that `may_return`
-- says which ids are given back.
pub data Step (may_return : Pmm → ℕ → Type 0) (s : Pmm) : Pmm → Type 0 where
  take_page :
      (page_type : PageType) (hint : ℕ) → Step may_return s (acquire_page s page_type hint).0
  take_pages :
      (m : Method) (want : ℕ) (page_type : PageType) (out : ℕ → ℕ) (hint : ℕ)
      → Step may_return s (acquire_pages s out want page_type m hint).state
  give_back :
      (page : ℕ) (answer : Bool) {t : Pmm}
      → may_return s page
      → relinquish_page s page ≡ returned t answer
      → Step may_return s t
  keep_page : (page : ℕ) → Step may_return s (reserve_page s page).0
  set_hint : (page : ℕ) → Step may_return s (set_acquisition_hint s page).0

pub data Reach (may_return : Pmm → ℕ → Type 0) (s : Pmm) : Pmm → Type 0 where
  here : Reach may_return s s
  next : {t u : Pmm} → Reach may_return s t → Step may_return t u → Reach may_return s u

-- The ids that are pages of the manager.
abbrev pub IsPage : Pmm → ℕ → Type 0
IsPage s page = page < s.nr_pages

-- Every id, also one behind the last page.
abbrev pub IsAnyId : Pmm → ℕ → Type 0
IsAnyId s page = Unit {0}

pub record Inv (s : Pmm) : Type 0 where
  pub valid : IsWellFormed s
  pub stage : s.init_stage ≡ InitStage.basic

-- What the invariant rests on beside the bits.
record Shape (s t : Pmm) : Type 0 where
  nr_pages : t.nr_pages ≡ s.nr_pages
  bitmap_size : t.bitmap_size ≡ s.bitmap_size
  stage : t.init_stage ≡ s.init_stage
  counted : s.acquired_pages < 2 ^ 64 → t.acquired_pages < 2 ^ 64

Shape-of_Same : {s t : Pmm} → Same s t → Shape s t
Shape-of_Same k = record {
  nr_pages = k.nr_pages;
  bitmap_size = k.bitmap_size;
  stage = k.stage;
  counted = k.counted;
}

-- The invariant from what an operation does to the padding bits.
Inv-of_Same :
    {s t : Pmm}
    → Inv s
    → Shape s t
    → ((page : ℕ) → s.nr_pages ≤ page → bit s.primary page ≡ true → bit t.primary page ≡ true)
    → Inv t
Inv-of_Same {s} {t} i same grows = record {
  valid = record {
    small = omega (arith, i.valid.small, same.bitmap_size);
    covers = omega (arith, i.valid.covers, same.bitmap_size, same.nr_pages);
    padding = λ page lo hi.
        grows page (omega (arith, same.nr_pages))
          (i.valid.padding page (omega (arith, same.nr_pages)) (omega (arith, same.bitmap_size)));
    counted = same.counted i.valid.counted;
  };
  stage = same.stage ∙ i.stage;
}

returned_state : {s t : Pmm} {a b : Bool} → returned s a ≡ returned t b → s ≡ t
returned_state e = cc

page_grows :
    (s : Pmm) (page_type : PageType) (hint page : ℕ)
    → bit s.primary page ≡ true
    → bit (acquire_page s page_type hint).0.primary page ≡ true
unfolding acquire_page
page_grows s page_type hint page b =
    acquire_pages_grows s (λ k. invalid_page_id) 1 page_type sparse_only hint page b

reserve-Inv : (s : Pmm) (page : ℕ) → Inv s → Inv (reserve_page s page).0
unfolding reserve_page
reserve-Inv s page i = Inv-of_Same i (ground arith) (λ q lo z. ground arith)

hint-Inv : (s : Pmm) (page : ℕ) → Inv s → Inv (set_acquisition_hint s page).0
unfolding set_acquisition_hint
hint-Inv s page i = Inv-of_Same i (ground arith) (λ q lo z. ground arith)

reserve-stage : (s : Pmm) (q : ℕ) → (reserve_page s q).0.init_stage ≡ s.init_stage
unfolding reserve_page
reserve-stage s q = ground arith

hint-stage : (s : Pmm) (q : ℕ) → (set_acquisition_hint s q).0.init_stage ≡ s.init_stage
unfolding set_acquisition_hint
hint-stage s q = ground arith

reserved_stays :
    (s t : Pmm) (page : ℕ)
    → t.nr_pages ≡ s.nr_pages
    → (bit s.advisory page ≡ true → bit t.advisory page ≡ true)
    → is_reserved s page ≡ true
    → is_reserved t page ≡ true
unfolding is_reserved
reserved_stays s t page n grows h = ground arith

reserve-stays :
    (s : Pmm) (q page : ℕ)
    → is_reserved s page ≡ true
    → is_reserved (reserve_page s q).0 page ≡ true
unfolding reserve_page is_reserved
reserve-stays s q page h = ground (arith, set_page_bit_bits s.advisory q true page)

hint-stays :
    (s : Pmm) (q page : ℕ)
    → is_reserved s page ≡ true
    → is_reserved (set_acquisition_hint s q).0 page ≡ true
unfolding set_acquisition_hint is_reserved
hint-stays s q page h = ground arith

-- Every operation keeps the state well formed, and none moves the initialisation stage on.
Step-Inv : {s t : Pmm} → Step IsPage s t → Inv s → Inv t
Step-Inv {s} (take_page page_type hint) i =
    Inv-of_Same i (Shape-of_Same (acquire_page-Same s page_type hint))
      (λ page lo b. page_grows s page_type hint page b)
Step-Inv {s} (take_pages m want page_type out hint) i =
    Inv-of_Same i (Shape-of_Same (acquire_pages-Same s out want page_type m hint))
      (λ page lo b. acquire_pages_grows s out want page_type m hint page b)
Step-Inv {s} (give_back page answer {t} b e) i =
    let (t', a, e', r) = relinquish_page-Relinquished s page i.stage in
    let same : t' ≡ t = returned_state (sym e' ∙ e) in
    rw (← same) (
      Inv-of_Same i
        (record {
          nr_pages = r.nr_pages;
          bitmap_size = r.bitmap_size;
          stage = r.stage;
          counted = λ z. ground (arith, r.counter);
        })
        (λ q lo z. ground (arith, r.bits q)))
Step-Inv {s} (keep_page page) i = reserve-Inv s page i
Step-Inv {s} (set_hint page) i = hint-Inv s page i

-- From a well-formed state of the basic stage, every sequence of acquisitions of any kind, of
-- reservations, hints, and returns of ids that are pages leads to a well-formed state of that stage.
pub Reach-Inv : {s t : Pmm} → Inv s → Reach IsPage s t → Inv t
Reach-Inv i here = i
Reach-Inv i (next r step) = Step-Inv step (Reach-Inv i r)

-- What a call does to the stage and to a page that is reserved before it.
Step-reserved :
    {s t : Pmm}
    → s.init_stage ≡ InitStage.basic
    → Step IsAnyId s t
    → (page : ℕ) → is_reserved s page ≡ true
    → (t.init_stage ≡ InitStage.basic) × (is_reserved t page ≡ true)
Step-reserved {s} stage (take_page page_type hint) page h =
    let k = acquire_page-Same s page_type hint in
    (k.stage ∙ stage, reserved_stays s _ page k.nr_pages (λ z. rw k.advisory z) h)
Step-reserved {s} stage (take_pages m want page_type out hint) page h =
    let k = acquire_pages-Same s out want page_type m hint in
    (k.stage ∙ stage, reserved_stays s _ page k.nr_pages (λ z. rw k.advisory z) h)
Step-reserved {s} stage (give_back q answer {t} b e) page h =
    let (t', a, e', r) = relinquish_page-Relinquished s q stage in
    let same : t' ≡ t = returned_state (sym e' ∙ e) in
    rw (← same) (r.stage ∙ stage, reserved_stays s t' page r.nr_pages (λ z. rw r.advisory z) h)
Step-reserved {s} stage (keep_page q) page h = (reserve-stage s q ∙ stage, reserve-stays s q page h)
Step-reserved {s} stage (set_hint q) page h = (hint-stage s q ∙ stage, hint-stays s q page h)

-- In the basic stage, a page that is reserved stays so through every sequence of calls, whatever
-- their arguments, ids behind the last page included.
pub Reach-reserved :
    {s t : Pmm}
    → s.init_stage ≡ InitStage.basic
    → Reach IsAnyId s t
    → (page : ℕ) → is_reserved s page ≡ true
    → (t.init_stage ≡ InitStage.basic) × (is_reserved t page ≡ true)
Reach-reserved stage here page h = (stage, h)
Reach-reserved stage (next r step) page h =
    let (stage', h') = Reach-reserved stage r page h in Step-reserved stage' step page h'
