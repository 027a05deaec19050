-- ===== src/Physmem/Hunt/Order.antt =====
-- The order of the ids that a pass appends.
use ych.Prelude.{
  ℕ, zero, suc, ◌≤◌, ◌+◌, ◌*◌, ◌^◌, ◌<◌, ◌≡◌, ◌⊎◌, inl, inr, false, arith, Bool-cases,
}
use ych.Physmem.{Pmm}
use ych.Physmem.Hunt.{Method, Search, put, is_unavailable, visit, rewind, pass, hunt}
use ych.Physmem.Hunt.Rule.{hunt_keeps, hunt_once_keeps}

pub record Ordered (h : Search) : Type 0 where
  pub behind : (k : ℕ) → k < h.count → h.out k < h.page
  pub ascends : (k : ℕ) → k + 1 < h.count → h.out k < h.out (k + 1)

-- The search goes over no page twice: it begins at page 0, it ends with its first page, or its first
-- pass, up to the end of the bitmap, finds enough.
abbrev pub IsOnce : Pmm → Method → ℕ → ℕ → (ℕ → ℕ) → Type 0
IsOnce s m want initial out =
    ((initial ≡ 0) ⊎ (want ≡ 1))
    ⊎ (want ≤ (pass s m want false initial (record { count = 0; page = initial; out = out })).count)

-- Ids in increasing order are distinct.
pub Ordered-lt :
    (count : ℕ) (out : ℕ → ℕ)
    → ((k : ℕ) → k + 1 < count → out k < out (k + 1))
    → (j n : ℕ) → j + n + 1 < count
    → out j < out (j + n + 1)
Ordered-lt count out ascends j zero h =
    let e : j + 0 + 1 ≡ j + 1 = omega arith in rw e (ascends j (omega arith))
Ordered-lt count out ascends j (suc n) h =
    let ih = Ordered-lt count out ascends j n (omega arith) in
    let e : j + suc n + 1 ≡ j + n + 1 + 1 = omega arith in
    rw e (omega (arith, ascends (j + n + 1) (omega arith)))

module _ (s : Pmm) (fits : 8 * s.bitmap_size < 2 ^ 32) (m : Method) (want : ℕ)
    (base : m.base_out_only ≡ false) (dense : m.dense ≡ false) where
  visit-Ordered :
      (i offset : ℕ) (h : Search)
      → offset < 8
      → i < s.bitmap_size
      → h.page ≡ 8 * i + offset
      → h.count < want
      → Ordered h
      → Ordered (visit s m i offset h)
  unfolding visit put
  visit-Ordered i offset h o b e c p = elim (Bool-cases (is_unavailable s i offset h.page)) [
    | inl taken ↦
        rw (taken, dense)
          (record { behind = λ k hk. omega (arith, p.behind k hk); ascends = p.ascends })
    | inr avail ↦
        rw (avail, base)
          (record {
            behind = λ k hk. ground (arith, p.behind k);
            ascends = λ k hk. ground (arith, p.ascends k, p.behind k);
          })
  ]

  -- Where the search does not go on to the second pass with pages in hand, they are in order.
  pub hunt-Ordered :
      (initial : ℕ) (out : ℕ → ℕ)
      → initial < 8 * s.bitmap_size
      → IsOnce s m want initial out
      → Ordered (hunt s m want initial out)
  unfolding rewind
  hunt-Ordered initial out b (inr enough) =
      hunt_once_keeps s m want fits Ordered visit-Ordered initial out b enough
        (record { behind = λ k hk. absurd (omega arith); ascends = λ k hk. absurd (omega arith) })
  hunt-Ordered initial out b (inl once) =
      hunt_keeps s m want fits Ordered visit-Ordered initial out b
        (record { behind = λ k hk. absurd (omega arith); ascends = λ k hk. absurd (omega arith) })
        (λ h z c p. rw dense (record {
          behind = λ k hk. absurd (ground arith);
          ascends = λ k hk. absurd (ground arith);
        }))
