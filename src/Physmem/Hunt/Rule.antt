-- ===== src/Physmem/Hunt/Rule.antt =====
-- One invariant rule for the loops of the search.
use ych.Prelude.{
  ℕ, zero, suc, ◌+◌, ◌-◌, ◌*◌, ◌/◌, ◌%◌, ◌^◌, ◌<◌, ◌≤◌, ◌≡◌, ◌≢◌, refl, inl, inr, Bool, true, false,
  ◌&&◌, ◌||◌, not, arith, ltb, ◌==◌, Bool-cases, ltb→lt,
}
use ych.Physmem.{Pmm}
use ych.Physmem.Hunt.{Method, Search, visit, visit_byte, visit_bytes, pass, rewind, hunt}

pub visit_page :
    (s : Pmm) (m : Method) (i offset : ℕ) (h : Search)
    → (visit s m i offset h).page ≡ (h.page + 1) % 2 ^ 32
unfolding visit
visit_page s m i offset h = ground arith

module _ (s : Pmm) (m : Method) (want : ℕ) (fits : 8 * s.bitmap_size < 2 ^ 32) (P : Search → Type 0)
    (step : (i offset : ℕ) (h : Search)
      → offset < 8
      → i < s.bitmap_size
      → h.page ≡ 8 * i + offset
      → h.count < want
      → P h
      → P (visit s m i offset h)) where
  -- A byte is visited from bit `offset` on; unless the count is reached, the next byte comes.
  pub visit_byte_keeps :
      (rounds i offset : ℕ) (h : Search)
      → rounds + offset ≡ 8
      → i < s.bitmap_size
      → h.page ≡ 8 * i + offset
      → P h
      → P (visit_byte s m want i rounds offset h)
        × ((ltb (visit_byte s m want i rounds offset h).count want ≡ true)
            → (visit_byte s m want i rounds offset h).page ≡ 8 * (i + 1))
  unfolding visit_byte
  visit_byte_keeps zero i offset h r b e p = (p, λ c. omega arith)
  visit_byte_keeps (suc rounds) i offset h r b e p = elim (Bool-cases (ltb h.count want)) [
    | inr full ↦ rw full (p, λ c. cc)
    | inl more ↦ rw more (
        visit_byte_keeps rounds i (offset + 1) (visit s m i offset h) (omega arith) b
          (omega (arith, visit_page s m i offset h))
          (step i offset h (omega arith) b e (ltb→lt _ _ more) p))
  ]

  -- With the count reached no further byte is visited.
  visit_bytes_full :
      (reroll : Bool) (initial rounds i : ℕ) (h : Search)
      → ltb h.count want ≡ false
      → P h
      → P (visit_bytes s m want reroll initial rounds i h)
  unfolding visit_bytes
  visit_bytes_full reroll initial zero i h full p = p
  visit_bytes_full reroll initial (suc rounds) i h full p = rw full p

  visit_bytes_keeps :
      (reroll : Bool) (initial rounds i : ℕ) (h : Search)
      → rounds + i ≡ s.bitmap_size
      → h.page / 8 ≡ i
      → P h
      → P (visit_bytes s m want reroll initial rounds i h)
  unfolding visit_bytes
  visit_bytes_keeps reroll initial zero i h r e p = p
  visit_bytes_keeps reroll initial (suc rounds) i h r e p =
      elim (Bool-cases (ltb h.count want && (not reroll || ltb h.page initial))) [
        | inr stop ↦ rw stop p
        | inl more ↦
            let byte =
              visit_byte_keeps (8 - h.page % 8) i (h.page % 8) h (omega arith) (omega arith)
                (omega arith) p in
            let h' = visit_byte s m want i (8 - h.page % 8) (h.page % 8) h in
            rw more (elim (Bool-cases (ltb h'.count want)) [
              | inl short ↦
                  visit_bytes_keeps reroll initial rounds (i + 1) h' (omega arith)
                    (omega (arith, byte.1 short)) byte.0
              | inr full ↦ visit_bytes_full reroll initial rounds (i + 1) h' full byte.0
            ])
      ]

  pub pass_keeps :
      (reroll : Bool) (initial : ℕ) (h : Search)
      → h.page < 8 * s.bitmap_size
      → P h
      → P (pass s m want reroll initial h)
  unfolding pass
  pass_keeps reroll initial h b p =
      visit_bytes_keeps reroll initial (s.bitmap_size - h.page / 8) (h.page / 8) h (omega arith)
        refl p

  -- An invariant that also survives the rewind holds of what the whole search returns.
  pub hunt_keeps :
      (initial : ℕ) (out : ℕ → ℕ)
      → initial < 8 * s.bitmap_size
      → P (record { count = 0; page = initial; out = out })
      → ((h : Search) → initial ≢ 0 → h.count < want → P h → P (rewind m h))
      → P (hunt s m want initial out)
  unfolding hunt rewind
  hunt_keeps initial out b p back =
      let start : Search = record { count = 0; page = initial; out = out } in
      let first = pass s m want false initial start in
      let done : P first = pass_keeps false initial start b p in
      elim (Bool-cases (not (initial == 0) && ltb first.count want)) [
        | inr stop ↦ rw stop done
        | inl again ↦ rw again (
            pass_keeps true initial (rewind m first) (omega arith)
              (back first (ground arith) (ground arith) done))
      ]

  -- A first pass that finds enough is the whole search.
  pub hunt_once_keeps :
      (initial : ℕ) (out : ℕ → ℕ)
      → initial < 8 * s.bitmap_size
      → want ≤ (pass s m want false initial (record { count = 0; page = initial; out = out })).count
      → P (record { count = 0; page = initial; out = out })
      → P (hunt s m want initial out)
  unfolding hunt
  hunt_once_keeps initial out b enough p =
      let start : Search = record { count = 0; page = initial; out = out } in
      let stop : ltb (pass s m want false initial start).count want ≡ false = ground arith in
      let done = pass_keeps false initial start b p in
      elim (Bool-cases (initial == 0)) [
        | inl front ↦ simp front done
        | inr later ↦ simp (later, stop) done
      ]
