-- ===== src/Physmem/Hunt/Sound.antt =====
-- The pages that the search returns, scattered or dense.
use ych.Prelude.{
  ℕ, ◌+◌, ◌*◌, ◌/◌, ◌%◌, ◌^◌, ◌≤◌, ◌<◌, ◌≡◌, inl, inr, true, false, arith, ltb, ◌==◌, Bool-cases,
  ltb→lt,
}
use ych.Physmem.{Pmm, is_reserved}
use ych.Physmem.Bitmap.{bit}
use ych.Physmem.Hunt.{Method, Search, put, is_unavailable, visit, rewind, hunt}
use ych.Physmem.Hunt.Rule.{hunt_keeps}

-- A page that may be given out: inside the bitmap, its bit clear, and not reserved.
pub record IsFree (s : Pmm) (page : ℕ) : Type 0 where
  pub inside : page < 8 * s.bitmap_size
  pub clear : bit s.primary page ≡ false
  pub unreserved : is_reserved s page ≡ false

module _ (s : Pmm) (fits : 8 * s.bitmap_size < 2 ^ 32) where
  IsFree-of_available :
      (i offset page : ℕ)
      → offset < 8
      → i < s.bitmap_size
      → page ≡ 8 * i + offset
      → is_unavailable s i offset page ≡ false
      → IsFree s page
  unfolding is_unavailable
  IsFree-of_available i offset page o b e h =
      let ei : page / 8 ≡ i = omega arith in
      let eo : page % 8 ≡ offset = omega arith in
      record { inside = omega arith; clear = rw (ei, eo) (ground arith); unreserved = ground arith }

  -- A streak that reaches up to a free page takes it in.
  grow :
      (page count first : ℕ)
      → first + count ≡ page
      → IsFree s page
      → ((k : ℕ) → k < count → IsFree s (first + k))
      → (k : ℕ) → k < count + 1
      → IsFree s (first + k)
  grow page count first reach here old k hk = elim (Bool-cases (ltb k count)) [
    | inl less ↦ old k (ltb→lt _ _ less)
    | inr last ↦ let e : first + k ≡ page = ground arith in rw e here
  ]

  -- Every id in the array is free: the invariant of a request for scattered pages.
  pub record Scattered (want : ℕ) (h : Search) : Type 0 where
    pub bound : h.count ≤ want
    pub free : (k : ℕ) → k < h.count → IsFree s (h.out k)

  -- The streak that ends before the current page: the invariant of a dense request.
  pub record Streak (m : Method) (want : ℕ) (h : Search) : Type 0 where
    pub bound : h.count ≤ want
    pub ends : 0 < h.count → h.out 0 + h.count ≡ h.page
    pub free : (k : ℕ) → k < h.count → IsFree s (h.out 0 + k)
    pub listed : m.base_out_only ≡ false → (k : ℕ) → k < h.count → h.out k ≡ h.out 0 + k

  module _ (m : Method) (want : ℕ) where
    visit-Scattered :
        m.base_out_only ≡ false
        → m.dense ≡ false
        → (i offset : ℕ) (h : Search) → offset < 8
        → i < s.bitmap_size
        → h.page ≡ 8 * i + offset
        → h.count < want
        → Scattered want h
        → Scattered want (visit s m i offset h)
    unfolding visit put
    visit-Scattered base dense i offset h o b e c p =
        elim (Bool-cases (is_unavailable s i offset h.page)) [
          | inl taken ↦ rw (taken, dense) (record { bound = p.bound; free = p.free })
          | inr avail ↦
              rw (avail, base)
                (record {
                  bound = omega arith;
                  free = λ k hk. elim (Bool-cases (k == h.count)) [
                    | inl here ↦ rw here (IsFree-of_available i offset h.page o b e avail)
                    | inr old ↦ rw old (p.free k (ground arith))
                  ];
                })
        ]

    -- A sparse request returns free pages only, as many as were asked for at most.
    pub hunt-Scattered :
        (initial : ℕ) (out : ℕ → ℕ)
        → m.base_out_only ≡ false
        → m.dense ≡ false
        → initial < 8 * s.bitmap_size
        → Scattered want (hunt s m want initial out)
    unfolding rewind
    hunt-Scattered initial out base dense b =
        hunt_keeps s m want fits (Scattered want) (visit-Scattered base dense) initial out b
          (record { bound = omega arith; free = λ k hk. absurd (omega arith) })
          (λ h z c p. rw dense (record { bound = p.bound; free = p.free }))

    visit-Streak :
        m.dense ≡ true
        → (i offset : ℕ) (h : Search) → offset < 8
        → i < s.bitmap_size
        → h.page ≡ 8 * i + offset
        → h.count < want
        → Streak m want h
        → Streak m want (visit s m i offset h)
    unfolding visit put
    visit-Streak dense i offset h o b e c p = elim (Bool-cases (is_unavailable s i offset h.page)) [
      | inl taken ↦
          rw (taken, dense)
            (record {
              bound = omega arith;
              ends = λ z. absurd (omega arith);
              free = λ k hk. absurd (omega arith);
              listed = λ l k hk. absurd (omega arith);
            })
      | inr avail ↦
          let here = IsFree-of_available i offset h.page o b e avail in
          elim (Bool-cases m.base_out_only) [
            | inl base ↦
                rw (avail, base)
                  (record {
                    bound = omega arith;
                    ends = λ z. ground (arith, p.ends);
                    free =
                        grow h.page h.count _ (ground (arith, p.ends)) here
                          (λ k hk. ground (arith, p.free k));
                    listed = λ l k hk. cc;
                  })
            | inr list ↦
                rw (avail, list)
                  (record {
                    bound = omega arith;
                    ends = λ z. ground (arith, p.ends);
                    free =
                        grow h.page h.count _ (ground (arith, p.ends)) here
                          (λ k hk. ground (arith, p.free k));
                    listed = λ l k hk. ground (arith, p.listed list k, p.ends);
                  })
          ]
    ]

    -- A dense request returns one streak of free pages.
    pub hunt-Streak :
        (initial : ℕ) (out : ℕ → ℕ)
        → m.dense ≡ true
        → initial < 8 * s.bitmap_size
        → Streak m want (hunt s m want initial out)
    unfolding rewind
    hunt-Streak initial out dense b =
        hunt_keeps s m want fits (Streak m want) (visit-Streak dense) initial out b
          (record {
            bound = omega arith;
            ends = λ z. absurd (omega arith);
            free = λ k hk. absurd (omega arith);
            listed = λ l k hk. absurd (omega arith);
          })
          (λ h z c p. rw dense (record {
            bound = omega arith;
            ends = λ z. absurd (omega arith);
            free = λ k hk. absurd (omega arith);
            listed = λ l k hk. absurd (omega arith);
          }))
