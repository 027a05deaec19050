-- ===== src/Vmm/Nodes/Cycle.antt =====
-- A node that is taken from the first page and given back.
use ych.Prelude.{
  ℕ, suc, ◌+◌, ◌-◌, ◌*◌, ◌/◌, ◌%◌, ◌^◌, ◌<◌, ◌≤◌, ◌≡◌, ◌≢◌, refl, ap, sym, ◌∙◌, bit_or, true, false,
  ◌==◌, arith, ne→beq, eq→beq, some, Bool-cases, inl, inr,
}
use ych.Physmem.{is_reserved, page_address, invalid_page_id}
use ych.Physmem.Release.{relinquish_page, returned}
use ych.Vmm.Nodes.{
  Rna, MetaSlot, slot_vptr, meta_slot_vptr, lowest_clear, slot_mask, choose_page, take_slot,
  acquire_node, search_page, release_slot, relinquish_node, in_page, put_meta, set_next, set_prev,
  unlink_page, tidy_page, clear_slot,
}
use ych.Vmm.Nodes.Slots.{IsSlotMap, take-IsTaken}

-- The first page, with its description `m`: reserved, with a slot left, and at an address whose
-- page does not reach over the end of the address space.
pub record IsRoot (s : Rna) (m : MetaSlot) : Type 0 where
  pub meta : s.metas (meta_slot_vptr s s.root) ≡ m
  pub own : m.this ≡ s.root
  pub number : s.root ≢ invalid_page_id
  pub map : IsSlotMap m.bitmap
  pub not_full : m.bitmap ≢ 2 ^ 64 - 1
  pub counted : (0 < m.nr_slots) × (m.nr_slots < 64)
  pub reserved : is_reserved s.pmm s.root ≡ true
  pub room : s.dmap_base + page_address s.pmm s.root + 4096 ≤ 2 ^ 64

search_page-here :
    (t : Rna) (page node : ℕ)
    → in_page (meta_slot_vptr t page) node ≡ true
    → search_page (t.pmm.nr_pages + 1) t page node ≡ page
unfolding search_page
search_page-here t page node h =
    let e : t.pmm.nr_pages + 1 ≡ suc t.pmm.nr_pages = omega arith in rw (e, h)

-- What a change of links keeps at an address.
record Keeps (t t' : Rna) (a : ℕ) : Type 0 where
  bitmap : (t'.metas a).bitmap ≡ (t.metas a).bitmap
  nr_slots : (t'.metas a).nr_slots ≡ (t.metas a).nr_slots
  this : (t'.metas a).this ≡ (t.metas a).this
  pmm : t'.pmm ≡ t.pmm

put_meta-Keeps :
    (t : Rna) (b a : ℕ) (v : MetaSlot)
    → v.bitmap ≡ (t.metas b).bitmap
    → v.nr_slots ≡ (t.metas b).nr_slots
    → v.this ≡ (t.metas b).this
    → Keeps t (put_meta t b v) a
unfolding put_meta
put_meta-Keeps t b a v x y z = elim (Bool-cases (a == b)) [
  | inl same ↦
      let e : a ≡ b = ground arith in
      record {
        bitmap = rw same (x ∙ ap (λ u. (t.metas u).bitmap) (sym e));
        nr_slots = rw same (y ∙ ap (λ u. (t.metas u).nr_slots) (sym e));
        this = rw same (z ∙ ap (λ u. (t.metas u).this) (sym e));
        pmm = refl;
      }
  | inr other ↦ record { bitmap = rw other; nr_slots = rw other; this = rw other; pmm = refl }
]

same-Keeps : (t : Rna) (a : ℕ) → Keeps t t a
same-Keeps t a = record { bitmap = refl; nr_slots = refl; this = refl; pmm = refl }

set_next-Keeps : (t : Rna) (page next a : ℕ) → Keeps t (set_next t page next) a
unfolding set_next
set_next-Keeps t page next a = elim (Bool-cases (page == invalid_page_id)) [
  | inl gone ↦ rw gone (same-Keeps t a)
  | inr there ↦ rw there (put_meta-Keeps t (meta_slot_vptr t page) a _ refl refl refl)
]

set_prev-Keeps : (t : Rna) (page prev a : ℕ) → Keeps t (set_prev t page prev) a
unfolding set_prev
set_prev-Keeps t page prev a = elim (Bool-cases (page == invalid_page_id)) [
  | inl gone ↦ rw gone (same-Keeps t a)
  | inr there ↦ rw there (put_meta-Keeps t (meta_slot_vptr t page) a _ refl refl refl)
]

trans-Keeps : (t u v : Rna) (a : ℕ) → Keeps t u a → Keeps u v a → Keeps t v a
trans-Keeps t u v a x y = record {
  bitmap = y.bitmap ∙ x.bitmap;
  nr_slots = y.nr_slots ∙ x.nr_slots;
  this = y.this ∙ x.this;
  pmm = y.pmm ∙ x.pmm;
}

tidy_page-Keeps : (t : Rna) (at a : ℕ) → Keeps t (tidy_page t at) a
unfolding tidy_page unlink_page
tidy_page-Keeps t at a =
    let u = set_next t (t.metas at).prev (t.metas at).next in
    elim (Bool-cases ((t.metas at).nr_slots == 1)) [
      | inl last ↦ rw last (
          trans-Keeps t u _ a (set_next-Keeps t (t.metas at).prev (t.metas at).next a)
            (set_prev-Keeps u (u.metas at).next (u.metas at).prev a))
      | inr more ↦ rw more (same-Keeps t a)
    ]

module _ (s : Rna) (m : MetaSlot) (w : IsRoot s m) where
  at : ℕ
  at = s.dmap_base + page_address s.pmm s.root

  slot : ℕ
  slot = lowest_clear 64 m.bitmap

  root_vptr : meta_slot_vptr s s.root ≡ at
  unfolding meta_slot_vptr slot_vptr at
  root_vptr = let room = w.room in omega arith

  chosen :
      choose_page (s.pmm.nr_pages + 1) s (meta_slot_vptr s s.root)
      ≡ (s, some (meta_slot_vptr s s.root))
  unfolding choose_page
  chosen =
      let e : s.pmm.nr_pages + 1 ≡ suc s.pmm.nr_pages = omega arith in
      rw (e, w.meta, ne→beq m.bitmap (2 ^ 64 - 1) w.not_full)

  -- The first page's node is the one of the lowest clear bit.
  acquire_node-root : acquire_node s ≡ take_slot s (meta_slot_vptr s s.root)
  unfolding acquire_node
  acquire_node-root =
      rw (acquire_node, chosen) (ap (λ t. take_slot t.0 (meta_slot_vptr s s.root)) chosen)

  marked : MetaSlot
  marked = record m {
    bitmap = bit_or m.bitmap (slot_mask slot);
    nr_slots = (m.nr_slots + 1) % 2 ^ 8;
  }

  taken : Rna
  taken = (take_slot s (meta_slot_vptr s s.root)).0

  node_lem : (take_slot s (meta_slot_vptr s s.root)).1 ≡ at + slot * 64
  unfolding take_slot slot_vptr at slot
  node_lem =
      let room = w.room in
      let below = (take-IsTaken m.bitmap w.map w.not_full).below in rw (w.meta, w.own) (omega arith)

  taken_meta : taken.metas at ≡ marked
  unfolding take_slot put_meta taken marked slot
  taken_meta = rw (sym root_vptr, w.meta, eq→beq (meta_slot_vptr s s.root) _ refl)

  in_root : in_page at (at + slot * 64) ≡ true
  unfolding slot
  in_root = let below = (take-IsTaken m.bitmap w.map w.not_full).below in ground arith

  same_vptr : meta_slot_vptr taken s.root ≡ at
  unfolding taken take_slot put_meta meta_slot_vptr slot_vptr at
  same_vptr = let room = w.room in omega arith

  found : search_page (taken.pmm.nr_pages + 1) taken taken.root (at + slot * 64) ≡ s.root
  unfolding taken take_slot put_meta
  found = search_page-here taken s.root (at + slot * 64) (rw same_vptr in_root)

  reserved_returned : relinquish_page s.pmm s.root ≡ returned s.pmm false
  unfolding relinquish_page
  reserved_returned = rw w.reserved

  cleared : Rna
  cleared = clear_slot taken at ((at + slot * 64 - at) / 64)

  cleared_meta : cleared.metas at ≡ m
  unfolding cleared clear_slot put_meta slot marked
  cleared_meta =
      let taken_slot = take-IsTaken m.bitmap w.map w.not_full in
      let e : (at + slot * 64 - at) / 64 ≡ slot = omega arith in
      let (some_slots, few) = w.counted in
      let count : ((m.nr_slots + 1) % 2 ^ 8 + (2 ^ 8 - 1)) % 2 ^ 8 ≡ m.nr_slots = omega arith in
      rw (eq→beq at at refl, taken_meta, e, taken_slot.back, count)

  relinquish_lem : relinquish_node taken (at + slot * 64) ≡ release_slot taken at (at + slot * 64)
  unfolding relinquish_node
  relinquish_lem = rw (found, ne→beq s.root invalid_page_id w.number, same_vptr)

  cleared_pmm : cleared.pmm ≡ s.pmm
  unfolding cleared clear_slot put_meta taken take_slot
  cleared_pmm = refl

  tidied : Rna
  tidied = record (tidy_page cleared at) { pmm = s.pmm }

  release_lem : release_slot taken at (at + slot * 64) ≡ some (tidied, true)
  unfolding tidied cleared release_slot
  release_lem =
      let k = tidy_page-Keeps cleared at at in
      let own : ((tidy_page cleared at).metas at).this ≡ s.root =
        k.this ∙ ap (λ t. t.this) cleared_meta ∙ w.own in
      let same : (tidy_page cleared at).pmm ≡ s.pmm = k.pmm ∙ cleared_pmm in
      rw (release_slot, own, same, reserved_returned)

  returned_node : relinquish_node (acquire_node s).0 (acquire_node s).1 ≡ some (tidied, true)
  unfolding taken
  returned_node = rw (acquire_node-root, node_lem) (relinquish_lem ∙ release_lem)

-- A node that is acquired from the first page and given back leaves the bitmap and the number of
-- its slots as they were, for a reserved first page with a slot left.
pub acquire_node-relinquish_node :
    (s : Rna) (m : MetaSlot)
    → IsRoot s m
    → (s2 : Rna) × (relinquish_node (acquire_node s).0 (acquire_node s).1 ≡ some (s2, true))
      × ((s2.metas (meta_slot_vptr s s.root)).bitmap ≡ m.bitmap)
      × ((s2.metas (meta_slot_vptr s s.root)).nr_slots ≡ m.nr_slots)
unfolding tidied
acquire_node-relinquish_node s m w =
    let k = tidy_page-Keeps (cleared s m w) (at s m w) (at s m w) in
    (
      tidied s m w,
      returned_node s m w,
      rw (root_vptr s m w) (k.bitmap ∙ ap (λ t. t.bitmap) (cleared_meta s m w)),
      rw (root_vptr s m w) (k.nr_slots ∙ ap (λ t. t.nr_slots) (cleared_meta s m w)),
    )
