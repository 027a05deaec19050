-- ===== src/Physmem/Hunt/Complete.antt =====
-- What a sparse search that falls short has gone over.
use ych.Prelude.{
  ℕ, zero, suc, ◌+◌, ◌-◌, ◌*◌, ◌/◌, ◌%◌, ◌^◌, ◌≤◌, ◌<◌, ◌≡◌, ◌⊎◌, inl, inr, Bool, true, false, ◌&&◌,
  ◌||◌, not, arith, ltb, ◌==◌, Bool-cases, beq→eq, refl,
}
use ych.Physmem.{Pmm}
use ych.Physmem.Hunt.{
  Method, Search, put, is_unavailable, visit, visit_byte, visit_bytes, pass, rewind, hunt,
}
use ych.Physmem.Hunt.Rule.{visit_page, pass_keeps, visit_byte_keeps}
use ych.Physmem.Hunt.Sound.{IsFree}

-- `page` is among the first `count` ids.
abbrev pub Listed : (ℕ → ℕ) → ℕ → ℕ → Type 0
Listed out count page = (k : ℕ) × (k < count) × (out k ≡ page)

module _ (s : Pmm) (fits : 8 * s.bitmap_size < 2 ^ 32) (m : Method) (want : ℕ)
    (base : m.base_out_only ≡ false) (dense : m.dense ≡ false) where
  -- What was listed when the pass began, and the free pages that it has gone over, are listed.
  record Covers (from : ℕ) (old : ℕ → Type 0) (h : Search) : Type 0 where
    passed : (q : ℕ) → from ≤ q → q < h.page → IsFree s q → Listed h.out h.count q
    kept : (q : ℕ) → old q → Listed h.out h.count q

  visit_keeps_Listed :
      (i offset : ℕ) (h : Search) (q : ℕ)
      → Listed h.out h.count q
      → Listed (visit s m i offset h).out (visit s m i offset h).count q
  unfolding visit put
  visit_keeps_Listed i offset h q (k, hk, e) =
      elim (Bool-cases (is_unavailable s i offset h.page)) [
        | inl taken ↦ rw (taken, dense) (k, hk, e)
        | inr avail ↦ rw (avail, base) (k, omega arith, ground arith)
      ]

  visit_lists_page :
      (i offset : ℕ) (h : Search)
      → offset < 8
      → h.page ≡ 8 * i + offset
      → IsFree s h.page
      → Listed (visit s m i offset h).out (visit s m i offset h).count h.page
  unfolding visit put is_unavailable
  visit_lists_page i offset h o e f =
      let ei : h.page / 8 ≡ i = omega arith in
      let eo : h.page % 8 ≡ offset = omega arith in
      let clear : s.primary i offset ≡ false = rw (ei, eo) at f.clear in
      rw (clear, f.unreserved, base) (h.count, omega arith, ground arith)

  visit-Covers :
      (from : ℕ) (old : ℕ → Type 0)
      → (i offset : ℕ) (h : Search) → offset < 8
      → i < s.bitmap_size
      → h.page ≡ 8 * i + offset
      → h.count < want
      → Covers from old h
      → Covers from old (visit s m i offset h)
  visit-Covers from old i offset h o b e c p = record {
    passed = λ q lo hi f. elim (Bool-cases (q == h.page)) [
      | inl here ↦
          let e' : q ≡ h.page = beq→eq _ _ here in
          rw e' (visit_lists_page i offset h o e (rw e' at f))
      | inr there ↦
          visit_keeps_Listed i offset h q
            (p.passed q lo (ground (arith, visit_page s m i offset h)) f)
    ];
    kept = λ q l. visit_keeps_Listed i offset h q (p.kept q l);
  }

  visit_bytes_stays :
      (reroll : Bool) (initial rounds i : ℕ) (h : Search)
      → ltb h.count want ≡ false
      → visit_bytes s m want reroll initial rounds i h ≡ h
  unfolding visit_bytes
  visit_bytes_stays reroll initial zero i h full = refl
  visit_bytes_stays reroll initial (suc rounds) i h full = rw full

  -- A pass that falls short has gone to the end of the bitmap, or in the second pass up to the
  -- page where the first one began.
  visit_bytes_end :
      (reroll : Bool) (initial rounds i : ℕ) (h : Search)
      → rounds + i ≡ s.bitmap_size
      → h.page / 8 ≡ i
      → let h' = visit_bytes s m want reroll initial rounds i h in
        h'.count < want → (8 * s.bitmap_size ≤ h'.page) ⊎ ((reroll ≡ true) × (initial ≤ h'.page))
  unfolding visit_bytes
  visit_bytes_end reroll initial zero i h r e c = inl (omega arith)
  visit_bytes_end reroll initial (suc rounds) i h r e c =
      let h1 = visit_byte s m want i (8 - h.page % 8) (h.page % 8) h in
      let byte =
        visit_byte_keeps s m want fits (λ g. Unit {0}) (λ i offset g o b p z t. tt) (8 - h.page % 8)
          i (h.page % 8) h (omega arith) (omega arith) (omega arith) tt in
      elim (Bool-cases (ltb h.count want && (not reroll || ltb h.page initial))) [
        | inr stop ↦ rw stop (ground (arith, rw stop at c))
        | inl more ↦ rw more (elim (Bool-cases (ltb h1.count want)) [
          | inl short ↦
              visit_bytes_end reroll initial rounds (i + 1) h1 (omega arith)
                (omega (arith, byte.1 short)) (rw more at c)
          | inr full ↦
              let same = visit_bytes_stays reroll initial rounds (i + 1) h1 full in
              absurd (ground (arith, rw (more, same) at c))
        ])
      ]

  pass-Covers :
      (reroll : Bool) (initial : ℕ) (h : Search) (old : ℕ → Type 0)
      → h.page < 8 * s.bitmap_size
      → ((q : ℕ) → old q → Listed h.out h.count q)
      → Covers h.page old (pass s m want reroll initial h)
  pass-Covers reroll initial h old b start =
      pass_keeps s m want fits (Covers h.page old) (visit-Covers h.page old) reroll initial h b
        (record { passed = λ q lo hi f. absurd (omega arith); kept = start })

  pass_end :
      (reroll : Bool) (initial : ℕ) (h : Search)
      → h.page < 8 * s.bitmap_size
      → (pass s m want reroll initial h).count < want
      → (8 * s.bitmap_size ≤ (pass s m want reroll initial h).page)
        ⊎ ((reroll ≡ true) × (initial ≤ (pass s m want reroll initial h).page))
  unfolding pass
  pass_end reroll initial h b c =
      visit_bytes_end reroll initial (s.bitmap_size - h.page / 8) (h.page / 8) h (omega arith) refl
        c

  rewind_keeps_Listed :
      (h : Search) (q : ℕ) → Listed h.out h.count q → Listed (rewind m h).out (rewind m h).count q
  unfolding rewind
  rewind_keeps_Listed h q (k, hk, e) = (k, ground arith, e)

  second_pass :
      (initial : ℕ) (first : Search)
      → 0 < s.bitmap_size
      → Covers 0 (λ q. Listed first.out first.count q) (pass s m want true initial (rewind m first))
  unfolding rewind
  second_pass initial first b =
      pass-Covers true initial (rewind m first) (λ q. Listed first.out first.count q) (omega arith)
        (rewind_keeps_Listed first)

  second_end :
      (initial : ℕ) (first : Search)
      → 0 < s.bitmap_size
      → (pass s m want true initial (rewind m first)).count < want
      → (8 * s.bitmap_size ≤ (pass s m want true initial (rewind m first)).page)
        ⊎ (initial ≤ (pass s m want true initial (rewind m first)).page)
  unfolding rewind
  second_end initial first b c =
      ground (arith, pass_end true initial (rewind m first) (omega arith) c)

  -- A sparse search that returns less than was asked for has listed every free page.
  pub hunt_short :
      (initial : ℕ) (out : ℕ → ℕ)
      → initial < 8 * s.bitmap_size
      → (hunt s m want initial out).count < want
      → (q : ℕ) → IsFree s q
      → Listed (hunt s m want initial out).out (hunt s m want initial out).count q
  unfolding hunt
  hunt_short initial out b c q f =
      let start : Search = record { count = 0; page = initial; out = out } in
      let first = pass s m want false initial start in
      let one = pass-Covers false initial start (λ q. ⊥) b (λ q z. absurd z) in
      let again = rewind m first in
      let two = second_pass initial first (omega arith) in
      let whole = λ (z : first.count < want) (lo : initial ≤ q).
        one.passed q lo (ground (arith, f.inside, pass_end false initial start b z)) f in
      elim (Bool-cases (not (initial == 0) && ltb first.count want)) [
        | inr stop ↦ let c' = rw stop at c in rw stop (whole c' (ground arith))
        | inl more ↦
            let c' = rw more at c in
            rw more (elim (Bool-cases (ltb q initial)) [
              | inl before ↦
                  two.passed q (omega arith)
                    (ground (arith, f.inside, second_end initial first (omega arith) c')) f
              | inr behind ↦ two.kept q (whole (ground arith) (ground arith))
            ])
      ]
