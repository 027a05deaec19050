-- ===== src/Krtl/Mem/Buffers.antt =====
-- What the buffer loops do, against pointwise descriptions.
use ych.Prelude.{
  ℕ, zero, suc, ◌+◌, ◌^◌, ◌<◌, ◌≡◌, ◌≢◌, ◌↔◌, inl, inr, true, ◌&&◌, arith, ltb, leb, ◌==◌,
  if◌then◌else◌, Bool-cases, beq→eq,
}
use native.Mathlib.Nat.{add-zero}
use ych.Krtl.Mem.{Memory, write, set_buffer, buffer_equal}

-- After filling a range, exactly the bytes of the range hold the value, and every other byte is as
-- before.
pub set_buffer_lem :
    (n : ℕ) (m : Memory) (dest value x : ℕ)
    → set_buffer m dest value n x ≡ (if leb dest x && ltb x (dest + n) then value else m x)
unfolding set_buffer
set_buffer_lem zero m dest value x = ground arith
set_buffer_lem (suc n) m dest value x =
    ground (arith, set_buffer_lem n (write m dest value) (dest + 1) value x)

-- The two ranges of `n` bytes agree.
abbrev pub Agree : Memory → ℕ → ℕ → ℕ → Type 0
Agree m l r n = (i : ℕ) → i < n → m (l + i) ≡ m (r + i)

Agree-cons : (m : Memory) (l r n : ℕ) → m l ≡ m r → Agree m (l + 1) (r + 1) n → Agree m l r (suc n)
Agree-cons m l r n e rest zero h = rw (add-zero l, add-zero r) e
Agree-cons m l r n e rest (suc i) h =
    let el : l + suc i ≡ l + 1 + i = omega arith in
    let er : r + suc i ≡ r + 1 + i = omega arith in rw (el, er) (rest i (omega arith))

Agree-tail : (m : Memory) (l r n : ℕ) → Agree m l r (suc n) → Agree m (l + 1) (r + 1) n
Agree-tail m l r n all i h =
    let el : l + 1 + i ≡ l + suc i = omega arith in
    let er : r + 1 + i ≡ r + suc i = omega arith in rw (el, er) (all (suc i) (omega arith))

Agree-head : (m : Memory) (l r n : ℕ) → Agree m l r (suc n) → m l ≡ m r
Agree-head m l r n all = rw (add-zero l, add-zero r) at (all 0 (omega arith))

-- For fewer than 2 ^ 64 bytes, the answer is "equal" exactly where the ranges agree and the bytes
-- behind them differ.
pub buffer_equal_iff :
    (n : ℕ) (m : Memory) (l r : ℕ)
    → n < 2 ^ 64
    → (buffer_equal m l r n ≡ true) ↔ (Agree m l r n × (m (l + n) ≢ m (r + n)))
unfolding buffer_equal
buffer_equal_iff zero m l r h =
    rw (add-zero l, add-zero r)
      ((λ e. (λ i hi. absurd (omega arith), ground arith)), λ p. ground arith)
buffer_equal_iff (suc n) m l r h =
    let el : l + suc n ≡ l + 1 + n = omega arith in
    let er : r + suc n ≡ r + 1 + n = omega arith in
    let ih = buffer_equal_iff n m (l + 1) (r + 1) (omega arith) in
    rw (el, er)
      (elim (Bool-cases (m l == m r)) [
        | inl same ↦ rw same (
          (λ e. (Agree-cons m l r n (beq→eq _ _ same) (ih.0 e).0, (ih.0 e).1)),
          λ p. ih.1 (Agree-tail m l r n p.0, p.1),
        )
        | inr differ ↦
            rw differ ((λ e. absurd (ground arith)), λ p. ground (arith, Agree-head m l r n p.0))
      ])
