-- ===== src/Vmm/Insert.antt =====
-- Acquiring a region: where the node goes, and what the list is like behind it.
use ych.Prelude.{
  ◌≢◌, length, ℕ, zero, suc, ◌++◌, ◌+◌, ◌%◌, ◌^◌, ◌≤◌, ◌<◌, ◌≡◌, refl, Bool, true, false, ◌&&◌, not,
  leb, Option, some, List, [], ◌∷◌, arith, Bool-cases, inl, inr, ap, ◌∙◌, leb→le,
}
use ych.Krtl.Mem.{is_power_of_two_aligned}
use ych.Vmm.{
  Region, AddressSpace, find_insert_index, find_insert_point, insert_at, is_forbidden, link_node,
  node_before, node_after, region_page_size, acquire_region,
}
use ych.Vmm.Linked.{IsChain, Avoids, link_node-IsChain}
use ych.Vmm.Overlap.{IsSorted, meets}

-- The index counts from `i`.
record Placed (low i : ℕ) (node : Region) (rs : List Region) (o : Option ℕ) : Type 0 where
  at : ℕ
  found : o ≡ some (i + at)
  sorted : IsSorted low (insert_at at node rs)

find-Placed :
    (r : Region) (rs : List Region) (low i : ℕ) (node : Region)
    → IsSorted low (r ∷ rs)
    → node.vaddr_start < node.vaddr_end
    → low ≤ node.vaddr_start
    → meets (r ∷ rs) node.vaddr_start node.vaddr_end ≡ false
    → Placed low i node (r ∷ rs) (find_insert_index (r ∷ rs) node.vaddr_start node.vaddr_end i)
unfolding find_insert_index insert_at IsSorted meets
find-Placed r [] low i node (here, (filled, sorted)) h l free =
    elim (Bool-cases (leb node.vaddr_end r.vaddr_start)) [
      | inl front ↦ rw front (record {
        at = 0;
        found = ap some (omega arith);
        sorted = (l, (h, (leb→le _ _ front, (filled, tt))));
      })
      | inr back ↦
          let behind : leb r.vaddr_end node.vaddr_start ≡ true = ground arith in
          rw (back, behind)
            (record {
              at = 1;
              found = refl;
              sorted = (here, (filled, (leb→le _ _ behind, (h, tt))));
            })
    ]
find-Placed r (n ∷ rs) low i node (here, (filled, (next, (wide, sorted)))) h l free =
    elim (Bool-cases (leb node.vaddr_end r.vaddr_start)) [
      | inl front ↦ rw front (record {
        at = 0;
        found = ap some (omega arith);
        sorted = (l, (h, (leb→le _ _ front, (filled, (next, (wide, sorted))))));
      })
      | inr back ↦
          let behind : leb r.vaddr_end node.vaddr_start ≡ true = ground arith in
          elim (Bool-cases (leb n.vaddr_start node.vaddr_end)) [
            | inl on ↦
                let rest =
                  find-Placed n rs r.vaddr_end (i + 1) node (next, (wide, sorted)) h
                    (leb→le _ _ behind) (ground arith) in
                rw (back, behind, on)
                  (record {
                    at = suc rest.at;
                    found = rest.found ∙ ap some (omega arith);
                    sorted = (here, (filled, rest.sorted));
                  })
            | inr stop ↦
                rw (back, behind, stop)
                  (record {
                    at = 1;
                    found = refl;
                    sorted =
                        (here, (filled, (leb→le _ _ behind, (h, (ground arith, (wide, sorted))))));
                  })
          ]
    ]

-- What an acquisition is refused for before the list is looked at.
unfoldable pub is_acceptable : AddressSpace → ℕ → ℕ → ℕ → Bool
is_acceptable s start stop flags =
    not (is_forbidden s start flags)
    && (is_power_of_two_aligned start (region_page_size flags)
        && is_power_of_two_aligned stop (region_page_size flags))

acquire-found :
    (s : AddressSpace) (address start stop flags i : ℕ)
    → start < stop
    → is_acceptable s start stop flags ≡ true
    → find_insert_index s.regions start stop 0 ≡ some i
    → let node : Region = record { vaddr_start = start; vaddr_end = stop; flags = flags } in
      acquire_region (some address) s start stop flags ≡ (
        record s {
          regions = insert_at i node s.regions;
          nodes = insert_at i address s.nodes;
          links = link_node s.links address (node_before i s.nodes) (node_after 0 i s.nodes);
          nr_regions = (s.nr_regions + 1) % 2 ^ 32;
        },
        some node,
      )
unfolding acquire_region find_insert_point is_acceptable
acquire-found s address start stop flags i h fits found = ground (arith, found, fits)

-- One more region and its node stand at one place among the regions and nodes that were there.
pub record IsLinked (node : Region) (address : ℕ) (s t : AddressSpace) : Type 0 where
  pub before : List Region
  pub behind : List Region
  pub nodes_before : List ℕ
  pub nodes_behind : List ℕ
  pub split : s.regions ≡ before ++ behind
  pub nodes_split : s.nodes ≡ nodes_before ++ nodes_behind
  pub linked : t.regions ≡ before ++ node ∷ behind
  pub nodes_linked : t.nodes ≡ nodes_before ++ address ∷ nodes_behind
  pub place : length before ≡ length nodes_before

record Inserted (i : ℕ) (node : Region) (address : ℕ) (rs : List Region) (ns : List ℕ)
    : Type 0 where
  before : List Region
  behind : List Region
  nodes_before : List ℕ
  nodes_behind : List ℕ
  split : rs ≡ before ++ behind
  nodes_split : ns ≡ nodes_before ++ nodes_behind
  linked : insert_at i node rs ≡ before ++ node ∷ behind
  nodes_linked : insert_at i address ns ≡ nodes_before ++ address ∷ nodes_behind
  place : length before ≡ length nodes_before

insert_at-Inserted :
    (i : ℕ) (node : Region) (address : ℕ) (rs : List Region) (ns : List ℕ)
    → length rs ≡ length ns
    → Inserted i node address rs ns
unfolding insert_at
insert_at-Inserted zero node address rs ns e = record {
  before = [];
  behind = rs;
  nodes_before = [];
  nodes_behind = ns;
  split = refl;
  nodes_split = refl;
  linked = refl;
  nodes_linked = refl;
  place = refl;
}
insert_at-Inserted (suc i) node address [] [] e = record {
  before = [];
  behind = [];
  nodes_before = [];
  nodes_behind = [];
  split = refl;
  nodes_split = refl;
  linked = refl;
  nodes_linked = refl;
  place = refl;
}
insert_at-Inserted (suc i) node address [] (n ∷ ns) e = absurd (omega arith)
insert_at-Inserted (suc i) node address (r ∷ rs) [] e = absurd (omega arith)
insert_at-Inserted (suc i) node address (r ∷ rs) (n ∷ ns) e =
    let l = insert_at-Inserted i node address rs ns (omega arith) in
    record {
      before = r ∷ l.before;
      behind = l.behind;
      nodes_before = n ∷ l.nodes_before;
      nodes_behind = l.nodes_behind;
      split = ap (λ t. r ∷ t) l.split;
      nodes_split = ap (λ t. n ∷ t) l.nodes_split;
      linked = ap (λ t. r ∷ t) l.linked;
      nodes_linked = ap (λ t. n ∷ t) l.nodes_linked;
      place = ap suc l.place;
    }

-- Where the regions are sorted, at least one is there, each has its node in a doubly linked list, and the
-- range is not empty, is acceptable and meets none of them, the acquisition succeeds as soon as there is
-- a node, which is not `NULLPTR` and not in the list: it returns the new region, which stands with its
-- node at one place among the others, none of which is lost; the regions stay sorted, the nodes are a
-- doubly linked list with the new one, and the counter of regions grows by one.
pub acquire_region-IsSorted :
    (s : AddressSpace) (first : Region) (others : List Region) (address start stop flags : ℕ)
    → s.regions ≡ first ∷ others
    → IsSorted 0 (first ∷ others)
    → length s.regions ≡ length s.nodes
    → IsChain s.links s.nodes
    → address ≢ 0
    → Avoids address s.nodes
    → start < stop
    → is_acceptable s start stop flags ≡ true
    → meets (first ∷ others) start stop ≡ false
    → let (t, answer) = acquire_region (some address) s start stop flags in
      (answer ≡ some (record { vaddr_start = start; vaddr_end = stop; flags = flags }))
      × IsLinked (record { vaddr_start = start; vaddr_end = stop; flags = flags }) address s t
      × IsSorted 0 t.regions
      × IsChain t.links t.nodes
      × (t.nr_regions ≡ (s.nr_regions + 1) % 2 ^ 32)
acquire_region-IsSorted s first others address start stop flags e sorted count chain real fresh h
      fits free =
    let node : Region = record { vaddr_start = start; vaddr_end = stop; flags = flags } in
    let p = find-Placed first others 0 0 node sorted h (omega arith) free in
    let i = 0 + p.at in
    let found : find_insert_index s.regions start stop 0 ≡ some i =
      ap (λ rs. find_insert_index rs start stop 0) e ∙ p.found in
    let done = acquire-found s address start stop flags i h fits found in
    let zero_at : i ≡ p.at = omega arith in
    let l = insert_at-Inserted i node address s.regions s.nodes count in
    rw done (
      refl,
      record {
        before = l.before;
        behind = l.behind;
        nodes_before = l.nodes_before;
        nodes_behind = l.nodes_behind;
        split = l.split;
        nodes_split = l.nodes_split;
        linked = l.linked;
        nodes_linked = l.nodes_linked;
        place = l.place;
      },
      rw (zero_at, e) p.sorted,
      link_node-IsChain s.links address i s.nodes chain real fresh,
      refl,
    )

-- A range that meets the first region and ends in front of the second one is given an insert point
-- all the same, between the two, so that it can be acquired although it overlaps.
pub find_insert_point-overlap :
    (s : AddressSpace) (r n : Region) (rs : List Region) (start stop : ℕ)
    → s.regions ≡ r ∷ n ∷ rs
    → start < stop
    → start < r.vaddr_end
    → r.vaddr_start < stop
    → stop ≤ n.vaddr_start
    → (meets s.regions start stop ≡ true) × (find_insert_point s start stop ≡ some 1)
unfolding find_insert_point find_insert_index meets
find_insert_point-overlap s r n rs start stop e h low high gap = rw e (ground arith, ground arith)
