-- ===== src/Vmm/Mapping/Present.antt =====
-- Mapping a page whose page structures exist, against the walk that the processor does.
use ych.Prelude.{
  ℕ, ◌/◌, ◌%◌, ◌^◌, ◌≡◌, ◌≢◌, refl, ap, ◌∙◌, Bool, true, false, Option, none, some, eq→beq, ne→beq,
  Bool-cases, inl, inr,
}
use ych.Pte.{EntryType, AddressMode}
use ych.Pte.Addresses.{unmake-fields}
use ych.Pte.Structs.{
  Tables, entry_address, phys_to_virt, is_present, get_page_struct, get_or_acquire_page_struct,
}
use ych.Vmm.{Region, encode_entry_for}
use ych.Vmm.Mapping.{Context, store_leaf, default_select, through, map_page}

-- The nine bits of an address from bit `k` on, which choose an entry.
abbrev pub table_index : ℕ → ℕ → ℕ
table_index k vaddr = vaddr / 2 ^ k % 512

-- The page structures on the way to the entry of a page of 4096 bytes, by the present entries.
pub record Walk (s : Tables) (root vaddr : ℕ) : Type 0 where
  pub pdpt : ℕ
  pub pd : ℕ
  pub pt : ℕ
  pub first : get_page_struct s (phys_to_virt s root) (table_index 39 vaddr) ≡ some pdpt
  pub second : get_page_struct s pdpt (table_index 30 vaddr) ≡ some pd
  pub third : get_page_struct s pd (table_index 21 vaddr) ≡ some pt

-- What is present is not acquired.
acquired-present :
    (s : Tables) (container t : ℕ) (type : EntryType) (index flags : ℕ) (c : Context)
    → get_page_struct s container index ≡ some t
    → get_or_acquire_page_struct s container type index flags (default_select c) ≡ (s, some t)
unfolding get_page_struct get_or_acquire_page_struct
acquired-present s container t type index flags c h =
    let entry = s.words (entry_address container index) in
    elim (Bool-cases (is_present entry)) [
      | inl there ↦ rw there (ap (λ o. (s, o)) (rw there at h))
      | inr gone ↦ let contradiction : none ≡ some t = rw gone at h in cc contradiction
    ]

through-present :
    (c : Context) (s : Tables) (container t : ℕ) (type : EntryType) (index : ℕ)
    (next : Tables → ℕ → Tables × Bool)
    → get_page_struct s container index ≡ some t
    → through c s container type index next ≡ next s t
through-present c s container t type index next h =
    ap (λ (g : Tables × Option ℕ). elim g.1 [ none ↦ (g.0, false) | some t ↦ next g.0 t ])
      (acquired-present s container t type index 3 c h)

-- The processor's walk for `vaddr`: by the bits from 39, 30, 21 and 12 on, nine each, to the entry of its
-- page of 4096 bytes.
unfoldable pub leaf_of : Tables → ℕ → ℕ → Option ℕ
leaf_of s root vaddr = elim (get_page_struct s (phys_to_virt s root) (table_index 39 vaddr)) [
  | none ↦ none
  | some pdpt ↦ elim (get_page_struct s pdpt (table_index 30 vaddr)) [
    | none ↦ none
    | some pd ↦ elim (get_page_struct s pd (table_index 21 vaddr)) [
      | none ↦ none
      | some pt ↦ some (s.words (entry_address pt (table_index 12 vaddr)))
    ]
  ]
]

leaf_of-found :
    (t : Tables) (root vaddr : ℕ) (w : Walk t root vaddr)
    → leaf_of t root vaddr ≡ some (t.words (entry_address w.pt (table_index 12 vaddr)))
unfolding leaf_of
leaf_of-found t root vaddr w = rw (leaf_of, w.first) (rw w.second (rw w.third refl))

module _ (c : Context) (s : Tables) (r : Region) (vaddr paddr : ℕ)
    (w : Walk s c.paddr_root vaddr) where
  leaf : ℕ
  leaf = entry_address w.pt (table_index 12 vaddr)

  entry : ℕ
  entry = (encode_entry_for s.vmm s.num_failed c.pat c.is_kernel r EntryType.pt paddr).0

  map_page_present :
      map_page c s r AddressMode.small vaddr paddr
      ≡ store_leaf c s r EntryType.pt w.pt (table_index 12 vaddr) paddr
  unfolding map_page
  map_page_present =
      let last : Tables → ℕ → Tables × Bool =
        λ s3 pt. store_leaf c s3 r EntryType.pt pt (table_index 12 vaddr) paddr in
      let middle : Tables → ℕ → Tables × Bool =
        λ s2 pd. through c s2 pd EntryType.pd (table_index 21 vaddr) last in
      let first : Tables → ℕ → Tables × Bool =
        λ s1 pdpt. through c s1 pdpt EntryType.pdpt (table_index 30 vaddr) middle in
      rw (unmake-fields vaddr) (
        through-present c s (phys_to_virt s c.paddr_root) w.pdpt EntryType.pml4
          (table_index 39 vaddr) first w.first
        ∙ through-present c s w.pdpt w.pd EntryType.pdpt (table_index 30 vaddr) middle w.second
        ∙ through-present c s w.pd w.pt EntryType.pd (table_index 21 vaddr) last w.third)

  kept_base :
      phys_to_virt (store_leaf c s r EntryType.pt w.pt (table_index 12 vaddr) paddr).0 c.paddr_root
      ≡ phys_to_virt s c.paddr_root
  unfolding store_leaf
  kept_base = refl

  stored_done : (store_leaf c s r EntryType.pt w.pt (table_index 12 vaddr) paddr).1 ≡ true
  unfolding store_leaf
  stored_done = refl

  -- A table that does not lie where the leaf is stored is found as before.
  kept_struct :
      (container index : ℕ)
      → entry_address container index ≢ leaf
      → get_page_struct
          (store_leaf c s r EntryType.pt w.pt (table_index 12 vaddr) paddr).0
          container
          index
        ≡ get_page_struct s container index
  unfolding get_page_struct store_leaf leaf
  kept_struct container index apart =
      rw (ne→beq (entry_address container index) (entry_address w.pt (table_index 12 vaddr)) apart)

  stored_leaf :
      (store_leaf c s r EntryType.pt w.pt (table_index 12 vaddr) paddr).0.words leaf ≡ entry
  unfolding store_leaf leaf entry
  stored_leaf = rw (eq→beq (entry_address w.pt (table_index 12 vaddr)) _ refl)

-- Where the three page structures exist, mapping a page of 4096 bytes stores its entry at the index
-- that bits 12 to 20 of the address make, in the table to which the bits from 39, 30 and 21 on lead, where
-- the walk for its address finds it afterwards, provided that the entry does not lie in the way to itself.
pub map_page-leaf_of :
    (c : Context) (s : Tables) (r : Region) (vaddr paddr : ℕ) (w : Walk s c.paddr_root vaddr)
    → entry_address (phys_to_virt s c.paddr_root) (table_index 39 vaddr)
      ≢ entry_address w.pt (table_index 12 vaddr)
    → entry_address w.pdpt (table_index 30 vaddr) ≢ entry_address w.pt (table_index 12 vaddr)
    → entry_address w.pd (table_index 21 vaddr) ≢ entry_address w.pt (table_index 12 vaddr)
    → ((map_page c s r AddressMode.small vaddr paddr).1 ≡ true)
      × (leaf_of (map_page c s r AddressMode.small vaddr paddr).0 c.paddr_root vaddr
          ≡ some (encode_entry_for s.vmm s.num_failed c.pat c.is_kernel r EntryType.pt paddr).0)
unfolding leaf entry
map_page-leaf_of c s r vaddr paddr w x y z =
    let kept = kept_struct c s r vaddr paddr w in
    let u = (store_leaf c s r EntryType.pt w.pt (table_index 12 vaddr) paddr).0 in
    let way : Walk u c.paddr_root vaddr = record {
      pdpt = w.pdpt;
      pd = w.pd;
      pt = w.pt;
      first = rw (kept_base c s r vaddr paddr w) (kept _ _ x ∙ w.first);
      second = kept _ _ y ∙ w.second;
      third = kept _ _ z ∙ w.third;
    } in
    rw (map_page_present c s r vaddr paddr w) (
      stored_done c s r vaddr paddr w,
      leaf_of-found u c.paddr_root vaddr way ∙ ap some (stored_leaf c s r vaddr paddr w),
    )
