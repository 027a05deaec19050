-- ===== src/Physmem/Acquire.antt =====
-- `PmAcquirePages` and `PmAcquirePage`. The body of `PmAcquirePages` runs under the spinlock, so
-- one call is one step.
pub mod Claim
pub mod Kept
pub mod Sparse
pub mod Dense
use ych.Prelude.{
  ℕ, zero, suc, ◌+◌, ◌-◌, ◌%◌, ◌^◌, Bool, true, false, ◌&&◌, ◌||◌, not, Option, none, some, leb,
  ltb, ◌==◌, if◌then◌else◌,
}
use ych.Physmem.{Pmm, PageType, PageMeta, invalid_page_id, is_valid_page_id, has_bookkeeping}
use ych.Physmem.Bitmap.{PageBitmap, set_page_status}
use ych.Physmem.Hunt.{Method, Search, put, hunt}

-- The result of `KrSetPhysicalPageStatus` is not looked at.
unfoldable pub mark_pages : Pmm → ℕ → ℕ → Bool → Pmm
mark_pages s start n status = elim (set_page_status s.nr_pages s.primary start n status) [
  | none ↦ s
  | some bm ↦ record s { primary = bm }
]

-- `KrBulkSetPagesMeta`: the loop starts from page 0, and the sum is taken on 32 bits.
unfoldable pub bulk_set_meta : (ℕ → PageMeta) → ℕ → ℕ → PageMeta → ℕ → PageMeta
bulk_set_meta meta start n value id = if ltb id ((start + n) % 2 ^ 32) then value else meta id

-- One range of pages becomes allocated, and gets its metadata once there is an array for it.
unfoldable pub claim : Pmm → PageMeta → ℕ → ℕ → Pmm
unfolding mark_pages bulk_set_meta
claim s value start n =
    let marked = mark_pages s start n true in
    if has_bookkeeping marked.init_stage
    then record marked { meta = bulk_set_meta marked.meta start n value }
    else marked

-- `for (j = i + 1; j < uNoAcquired && pOutIDs[i] + 1 == pOutIDs[j]; j++);`
unfoldable pub run_end : (ℕ → ℕ) → ℕ → ℕ → ℕ → ℕ → ℕ
run_end out count i zero j = j
run_end out count i (suc rounds) j =
    let rest = run_end out count i rounds (j + 1) in
    if ltb j count && (out i + 1) % 2 ^ 32 == out j then rest else j

-- The loop over the ids of a request that is not dense, run by run.
unfoldable pub claim_runs : ℕ → PageMeta → (ℕ → ℕ) → ℕ → ℕ → Pmm → Pmm
claim_runs zero value out count i s = s
claim_runs (suc fuel) value out count i s =
    let j = run_end out count i (count - (i + 1)) (i + 1) in
    let rest = claim_runs fuel value out count j (claim s value (out i) (j - i)) in
    if ltb i count then rest else s

-- `pOutIDs[i] = IVLDPGID` for the slots that were asked for and not filled
unfoldable pub fill_rest : (ℕ → ℕ) → ℕ → ℕ → ℕ → ℕ
fill_rest out count want k = if leb count k && ltb k want then invalid_page_id else out k

pub record Acquired : Type 0 where
  pub state : Pmm
  pub out : ℕ → ℕ
  pub count : ℕ

-- The page that the search starts from.
unfoldable pub start_page : Pmm → ℕ → ℕ
start_page s hint =
    if hint == invalid_page_id
    then (if s.acquire_hint == invalid_page_id then 0 else s.acquire_hint)
    else hint

-- The two ill-formed combinations of flags.
unfoldable pub is_refused : Method → Bool
is_refused m = (m.sparse && m.dense) || (m.sparse && m.base_out_only)

-- `pMetaForAcquiredPages`
abbrev pub fresh_meta : PageType → Bool → PageMeta
fresh_meta page_type user = record {
  ref_count = 1;
  auxiliary = 0;
  pinned = false;
  user = user;
  page_type = page_type;
}

-- What happens once the search has found `h.count` pages, at least one.
unfoldable pub settle : Pmm → ℕ → PageType → Method → Search → Acquired
unfolding fill_rest
settle s want page_type m h =
    let out = if m.base_out_only then h.out else fill_rest h.out h.count want in
    let value = fresh_meta page_type m.for_user in
    let claimed =
      if m.dense then claim s value (out 0) h.count else claim_runs h.count value out h.count 0 s in
    record {
      state = record claimed {
        acquired_pages = (claimed.acquired_pages + h.count) % 2 ^ 64;
        acquire_hint =
            if m.base_out_only
            then (out 0 + h.count) % 2 ^ 32
            else (out (h.count - 1) + 1) % 2 ^ 32;
      };
      out = out;
      count = h.count;
    }

unfoldable pub acquire_pages : Pmm → (ℕ → ℕ) → ℕ → PageType → Method → ℕ → Acquired
unfolding is_refused start_page is_valid_page_id
acquire_pages s out want page_type m hint =
    if want == 0
    then record { state = s; out = out; count = 0 }
    else (if is_refused m
        then record { state = s; out = out; count = 0 }
        else (if not (is_valid_page_id s (start_page s hint))
            then record { state = s; out = out; count = 0 }
            else (let h = hunt s m want (start_page s hint) out in
                if h.count == 0
                then record { state = s; out = h.out; count = 0 }
                else settle s want page_type m h)))

abbrev pub sparse_only : Method
sparse_only = record { sparse = true; dense = false; base_out_only = false; for_user = false }

unfoldable pub acquire_page : Pmm → PageType → ℕ → Pmm × ℕ
acquire_page s page_type hint =
    let r = acquire_pages s (λ k. invalid_page_id) 1 page_type sparse_only hint in
    (r.state, if r.count == 0 then invalid_page_id else r.out 0)
