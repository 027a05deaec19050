-- ===== src/Physmem/Init/Laws.antt =====
-- What holds once the manager is initialised.
use ych.Prelude.{
  ℕ, ◌+◌, ◌*◌, ◌/◌, ◌%◌, ◌^◌, ◌≤◌, ◌<◌, ◌≡◌, refl, ◌⊎◌, inl, inr, Bool, true, false, ◌&&◌, ◌||◌,
  List, [], ◌∷◌, arith, leb, ltb, ◌==◌, if◌then◌else◌, Bool-cases, ◌∙◌, ltb→lt,
}
use ych.Arena.{Arena, arena_acquire}
use ych.Physmem.{Pmm, InitStage, page_size, invalid_page_id}
use ych.Physmem.Bitmap.{bit, set_page_status}
use ych.Physmem.Bitmap.Status.{set_page_status_bits}
use ych.Physmem.State.{IsWellFormed}
use ych.Physmem.Init.{
  MemoryDescriptor, LoadInfo, has_started, note_region, discover, mark_advisory, mark_usable,
  lay_out, fill_advisory, mark_kernel, finish_init, init_physmemmgmt,
}

-- A write to the advisory bitmap is exact, or refused; pages from `nr_pages` on are never touched.
record Marked (s t : Pmm) : Type 0 where
  nr_pages : t.nr_pages ≡ s.nr_pages
  bitmap_size : t.bitmap_size ≡ s.bitmap_size
  acquired : t.acquired_pages ≡ s.acquired_pages
  beyond : (page : ℕ) → s.nr_pages ≤ page → bit t.advisory page ≡ bit s.advisory page

Marked-refl : (s : Pmm) → Marked s s
Marked-refl s = record {
  nr_pages = refl;
  bitmap_size = refl;
  acquired = refl;
  beyond = λ page h. refl;
}

Marked-trans : {s t u : Pmm} → Marked s t → Marked t u → Marked s u
Marked-trans p q = record {
  nr_pages = q.nr_pages ∙ p.nr_pages;
  bitmap_size = q.bitmap_size ∙ p.bitmap_size;
  acquired = q.acquired ∙ p.acquired;
  beyond = λ page h. q.beyond page (omega (arith, p.nr_pages)) ∙ p.beyond page h;
}

mark_advisory_refused :
    (s : Pmm) (start n : ℕ) (status : Bool)
    → s.nr_pages < start + n
    → start + n < 2 ^ 64
    → mark_advisory s start n status ≡ s
unfolding mark_advisory set_page_status
mark_advisory_refused s start n status h w = ground arith

mark_advisory_bits :
    (s : Pmm) (start n : ℕ) (status : Bool) (page : ℕ)
    → start + n ≤ s.nr_pages
    → start + n < 2 ^ 64
    → bit (mark_advisory s start n status).advisory page
      ≡ (if leb start page && ltb page (start + n) then status else bit s.advisory page)
unfolding mark_advisory
mark_advisory_bits s start n status page h w =
    let (bm, e, bits) = set_page_status_bits s.nr_pages s.advisory start n status h w in
    ground (arith, e, bits page)

mark_advisory_shape :
    (s : Pmm) (start n : ℕ) (status : Bool)
    → let t = mark_advisory s start n status in
      (t.nr_pages ≡ s.nr_pages)
      × (t.bitmap_size ≡ s.bitmap_size)
      × (t.acquired_pages ≡ s.acquired_pages)
unfolding mark_advisory
mark_advisory_shape s start n status = ground arith

mark_advisory-Marked :
    (s : Pmm) (start n : ℕ) (status : Bool)
    → start + n < 2 ^ 64
    → Marked s (mark_advisory s start n status)
mark_advisory-Marked s start n status w = elim (Bool-cases (ltb s.nr_pages (start + n))) [
  | inl out ↦ rw (mark_advisory_refused s start n status (ltb→lt _ _ out) w) (Marked-refl s)
  | inr within ↦ record {
    nr_pages = (mark_advisory_shape s start n status).0;
    bitmap_size = (mark_advisory_shape s start n status).1;
    acquired = (mark_advisory_shape s start n status).2;
    beyond = λ page h. ground (arith, mark_advisory_bits s start n status page);
  }
]

-- Page counts that cannot make the sum with a page id wrap.
abbrev pub AllSmall : List MemoryDescriptor → Type 0
AllSmall [] = Unit
AllSmall (d ∷ ds) = (d.page_count < 2 ^ 63) × AllSmall ds

mark_usable-Marked :
    (ds : List MemoryDescriptor) (s : Pmm) → AllSmall ds → Marked s (mark_usable ds s)
unfolding mark_usable
mark_usable-Marked [] s a = Marked-refl s
mark_usable-Marked (d ∷ ds) s a =
    let hint =
      if s.acquire_hint == 0 || s.acquire_hint == invalid_page_id
      then d.physical_base / page_size % 2 ^ 32
      else s.acquire_hint in
    let s' = record s { acquire_hint = hint } in
    let hinted : Marked s s' = record {
      nr_pages = refl;
      bitmap_size = refl;
      acquired = refl;
      beyond = λ page h. refl;
    } in
    let one =
      mark_advisory-Marked s' (d.physical_base / page_size % 2 ^ 32) d.page_count false
        (omega arith) in
    Marked-trans hinted (Marked-trans one (mark_usable-Marked ds _ a.1))

mark_kernel-Marked :
    (info : LoadInfo) (s : Pmm) → info.reserve_size < 2 ^ 64 → Marked s (mark_kernel info s)
unfolding mark_kernel
mark_kernel-Marked info s w =
    Marked-trans
      (mark_advisory-Marked s (info.addr_physical_base / page_size % 2 ^ 32)
        (info.reserve_size / page_size) true (omega arith))
      (mark_advisory-Marked _ 0 256 true (omega arith))

-- The pages that the kernel must never give out, as the advisory bitmap has them.
record Guarded (info : LoadInfo) (s : Pmm) : Type 0 where
  low : 256 ≤ s.nr_pages → (page : ℕ) → page < 256 → bit s.advisory page ≡ true
  own :
      let first = info.addr_physical_base / page_size % 2 ^ 32 in
      let n = info.reserve_size / page_size in
      first + n ≤ s.nr_pages
      → (page : ℕ) → first ≤ page
      → page < first + n
      → bit s.advisory page ≡ true

mark_kernel-Guarded :
    (info : LoadInfo) (s : Pmm) → info.reserve_size < 2 ^ 64 → Guarded info (mark_kernel info s)
unfolding mark_kernel
mark_kernel-Guarded info s w =
    let first = info.addr_physical_base / page_size % 2 ^ 32 in
    let n = info.reserve_size / page_size in
    let k = mark_advisory s first n true in
    let same : k.nr_pages ≡ s.nr_pages = (mark_advisory_shape s first n true).0 in
    let same' = (mark_advisory_shape k 0 256 true).0 in
    record {
      low = λ enough page h.
          ground (arith, mark_advisory_bits k 0 256 true page (omega arith) (omega arith));
      own = λ fits page lo hi.
          let mine : bit k.advisory page ≡ true =
            ground (arith, mark_advisory_bits s first n true page (omega arith) (omega arith)) in
          elim (Bool-cases (ltb k.nr_pages 256)) [
            | inl small ↦
                rw (mark_advisory_refused k 0 256 true (ltb→lt _ _ small) (omega arith)) mine
            | inr large ↦
                ground (arith, mark_advisory_bits k 0 256 true page (ground arith) (omega arith))
          ];
    }

-- The state behind a successful initialisation.
record Ready (info : LoadInfo) (t : Pmm) : Type 0 where
  pub valid : IsWellFormed t
  pub stage : t.init_stage ≡ InitStage.basic
  pub copied : (page : ℕ) → page < 8 * t.bitmap_size → bit t.primary page ≡ bit t.advisory page
  pub low : 256 ≤ t.nr_pages → (page : ℕ) → page < 256 → bit t.primary page ≡ true
  pub own :
      let first = info.addr_physical_base / page_size % 2 ^ 32 in
      let n = info.reserve_size / page_size in
      first + n ≤ t.nr_pages
      → (page : ℕ) → first ≤ page
      → page < first + n
      → bit t.primary page ≡ true

finish-Ready :
    (canonical : List MemoryDescriptor) (info : LoadInfo) (s : Pmm)
    → AllSmall canonical
    → info.reserve_size < 2 ^ 64
    → s.acquired_pages < 2 ^ 64
    → s.paddr_highest < 2 ^ 43
    → Ready info
        (finish_init (mark_kernel info (mark_usable canonical (fill_advisory (lay_out s)))))
unfolding finish_init lay_out fill_advisory
finish-Ready canonical info s a w c high =
    let s1 = fill_advisory (lay_out s) in
    let s2 = mark_kernel info (mark_usable canonical s1) in
    let marked =
      Marked-trans (mark_usable-Marked canonical s1 a)
        (mark_kernel-Marked info (mark_usable canonical s1) w) in
    let guarded = mark_kernel-Guarded info (mark_usable canonical s1) w in
    let same = (mark_kernel-Marked info (mark_usable canonical s1) w).nr_pages in
    record {
      valid = record {
        small = omega (arith, marked.bitmap_size);
        covers = omega (arith, marked.bitmap_size, marked.nr_pages);
        padding =
            λ page lo hi. ground (arith, marked.beyond page, marked.nr_pages, marked.bitmap_size);
        counted = omega (arith, marked.acquired);
      };
      stage = refl;
      copied = λ page h. ground arith;
      low = λ enough page h.
          ground (arith, guarded.low enough page h, marked.bitmap_size, marked.nr_pages);
      own = λ fits page lo hi.
          ground (arith, guarded.own fits page lo hi, marked.bitmap_size, marked.nr_pages);
    }

note_region_acquired :
    (d : MemoryDescriptor) (s : Pmm) → (note_region d s).acquired_pages ≡ s.acquired_pages
unfolding note_region
note_region_acquired d s = ground arith

discover_acquired :
    (ds : List MemoryDescriptor) (s : Pmm) → (discover ds s).acquired_pages ≡ s.acquired_pages
unfolding discover
discover_acquired [] s = refl
discover_acquired (d ∷ ds) s = discover_acquired ds (note_region d s) ∙ note_region_acquired d s

init_physmemmgmt-Ready :
    (memory_map canonical : List MemoryDescriptor) (info : LoadInfo) (s : Pmm) (arena : Arena)
    → AllSmall canonical
    → info.reserve_size < 2 ^ 64
    → s.acquired_pages < 2 ^ 64
    → (discover memory_map s).paddr_highest < 2 ^ 43
    → (init_physmemmgmt memory_map canonical info s arena).2 ≡ true
    → Ready info (init_physmemmgmt memory_map canonical info s arena).0
unfolding init_physmemmgmt
init_physmemmgmt-Ready memory_map canonical info s arena a w c high h =
    let s0 = discover memory_map s in
    let s1 = lay_out s0 in
    let ready =
      finish-Ready canonical info s0 a w (omega (arith, discover_acquired memory_map s)) high in
    let s2 = mark_kernel info (mark_usable canonical (fill_advisory s1)) in
    let one = arena_acquire arena s1.bitmap_size in
    let two = arena_acquire one.0 s2.bitmap_size in
    elim (Bool-cases (has_started s.init_stage)) [
      | inl started ↦ absurd (ground arith)
      | inr fresh ↦ elim (Bool-cases (one.1 == 0)) [
        | inl full ↦ absurd (ground arith)
        | inr first ↦ elim (Bool-cases (two.1 == 0)) [
          | inl full ↦ absurd (ground arith)
          | inr second ↦ simp (fresh, first, second) ready
        ]
      ]
    ]

-- After a successful initialisation the state is well formed and in the basic stage, and both
-- bitmaps agree on every page. The highest usable address is below 2 ^ 43, and the sizes do not
-- wrap.
pub init_physmemmgmt-IsWellFormed :
    (memory_map canonical : List MemoryDescriptor) (info : LoadInfo) (s : Pmm) (arena : Arena)
    → AllSmall canonical
    → info.reserve_size < 2 ^ 64
    → s.acquired_pages < 2 ^ 64
    → (discover memory_map s).paddr_highest < 2 ^ 43
    → (init_physmemmgmt memory_map canonical info s arena).2 ≡ true
    → let t = (init_physmemmgmt memory_map canonical info s arena).0 in
      IsWellFormed t
      × (t.init_stage ≡ InitStage.basic)
      × ((page : ℕ) → page < 8 * t.bitmap_size → bit t.primary page ≡ bit t.advisory page)
init_physmemmgmt-IsWellFormed memory_map canonical info s arena a w c high h =
    let r = init_physmemmgmt-Ready memory_map canonical info s arena a w c high h in
    (r.valid, r.stage, r.copied)

-- The area that the kernel reserved for itself, and the first MiB.
abbrev pub IsGuarded : LoadInfo → ℕ → Type 0
IsGuarded info page =
    let first = info.addr_physical_base / page_size % 2 ^ 32 in
    (page < 256) ⊎ ((first ≤ page) × (page < first + info.reserve_size / page_size))

-- After a successful initialisation no page of the first MiB and no page of the area that the
-- kernel reserved can be given out, as long as both lie inside the physical memory. The highest
-- usable address is below 2 ^ 43, and the sizes do not wrap.
pub init_physmemmgmt-guards :
    (memory_map canonical : List MemoryDescriptor) (info : LoadInfo) (s : Pmm) (arena : Arena)
    (page : ℕ)
    → AllSmall canonical
    → info.reserve_size < 2 ^ 64
    → s.acquired_pages < 2 ^ 64
    → (discover memory_map s).paddr_highest < 2 ^ 43
    → (init_physmemmgmt memory_map canonical info s arena).2 ≡ true
    → let t = (init_physmemmgmt memory_map canonical info s arena).0 in
      256 ≤ t.nr_pages
      → info.addr_physical_base / page_size % 2 ^ 32 + info.reserve_size / page_size ≤ t.nr_pages
      → IsGuarded info page
      → bit t.primary page ≡ true
init_physmemmgmt-guards memory_map canonical info s arena page a w c high h enough fits (inl low) =
    (init_physmemmgmt-Ready memory_map canonical info s arena a w c high h).low enough page low
init_physmemmgmt-guards memory_map canonical info s arena page a w c high h enough fits
      (inr (lo, hi)) =
    (init_physmemmgmt-Ready memory_map canonical info s arena a w c high h).own fits page lo hi
