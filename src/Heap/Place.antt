-- ===== src/Heap/Place.antt =====
-- Where `HeapLocateAlignedFreeOfSizeFrom` puts the payload in a block.
use ych.Prelude.{ℕ, ◌+◌, ◌-◌, ◌%◌, ◌^◌, ◌<◌, ◌≤◌, ◌≡◌, arith, ltb, leb, Bool-cases, inl, inr}
use ych.Prelude.Masks.{pow_pos}
use ych.Krtl.Mem.{align_up_to_power_of_two}
use ych.Krtl.Mem.Align.{align_up_least}
use ych.Heap.{Header, header_payload_address, aligned_payload, block_serves, sub64}

-- The payload's address `p` in a block at `a`, for an alignment of `2 ^ k`.
pub record IsPlaced (k a p : ℕ) : Type 0 where
  pub aligned : p % 2 ^ k ≡ 0
  pub behind : a + 27 ≤ p
  pub near : p ≤ a + 26 + 2 ^ k

module _ (j k a : ℕ) (e : j + k ≡ 64) (low : 2 ^ k ≤ 2 ^ 32) (room : a + 2 ^ 33 ≤ 2 ^ 64) where
  payload_address_lem : header_payload_address a ≡ a + 25
  unfolding header_payload_address
  payload_address_lem = omega arith

  pub aligned_payload-IsPlaced : IsPlaced k a (aligned_payload a (2 ^ k))
  unfolding aligned_payload
  aligned_payload-IsPlaced =
      let (m, ge, lt) = align_up_least j k (a + 25) e (omega arith) in
      let (m', ge', lt') = align_up_least j k (a + 27) e (omega arith) in
      let r = align_up_to_power_of_two (a + 25) (2 ^ k) in
      let pos = pow_pos k in
      let tolerance : sub64 r (a + 25) ≡ r - (a + 25) = omega arith in
      rw (payload_address_lem, tolerance)
        (elim (Bool-cases (ltb (r - (a + 25)) 2)) [
          | inl near ↦
              let eq : (r + (2 - (r - (a + 25)))) % 2 ^ 64 ≡ a + 27 = ground arith in
              rw (near, eq) (record { aligned = m'; behind = ge'; near = omega arith })
          | inr far ↦ rw far (record { aligned = m; behind = ground arith; near = omega arith })
        ])

  -- In a block whose payload is as large as the tolerance, the test is whether the aligned payload
  -- fits.
  pub block_serves_lem :
      (h : ℕ → Header) (n : ℕ)
      → 2 ^ k < 32
      → 32 ≤ (h a).payload_size
      → a + 25 + (h a).payload_size < 2 ^ 64
      → block_serves h a n (2 ^ k)
        ≡ leb (aligned_payload a (2 ^ k) + n) (a + (25 + (h a).payload_size))
  unfolding block_serves
  block_serves_lem h n small roomy bounded =
      let placed = aligned_payload-IsPlaced in
      let behind = placed.behind in let near = placed.near in rw payload_address_lem (ground arith)
