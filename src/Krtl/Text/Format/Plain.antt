-- ===== src/Krtl/Text/Format/Plain.antt =====
-- A format without conversions.
use ych.Prelude.{
  ℕ, false, zero, suc, ◌+◌, ◌-◌, ◌%◌, ◌^◌, ◌≤◌, ◌<◌, ◌≡◌, ◌≢◌, refl, ap, sym, ◌∙◌, ◌&&◌, leb, ltb,
  ◌==◌, if◌then◌else◌, Option, some, List, [], ◌∷◌, arith, min, length, get_or, ne→beq, Bool-cases,
  inl, inr,
}
use ych.Krtl.Mem.{Memory, write}
use ych.Krtl.Text.Format.{
  Format, Output, put_char, is_at_limit, written_size, format_loop, format_string,
}

-- Every character is one of a byte, and none is `%`.
unfoldable pub IsPlain : Format → Type 0
IsPlain [] = Unit {0}
IsPlain (c ∷ cs) = (c ≢ 37) × (c < 256) × IsPlain cs

plain_step :
    (limit start c : ℕ) (cs : Format) (args : List ℕ) (o : Output)
    → c ≢ 37
    → format_loop limit start (c ∷ cs) args o ≡ (
        if is_at_limit limit start o.tail
        then (o, some (written_size start o.tail))
        else format_loop limit start cs args (put_char o c))
unfolding format_loop
plain_step limit start c [] args o ne = rw (ne→beq c 37 ne) refl
plain_step limit start c (d ∷ []) args o ne = rw (ne→beq c 37 ne) refl
plain_step limit start c (d ∷ e ∷ es) args o ne = rw (ne→beq c 37 ne) refl

-- The bytes of a text at an address, at most `n` of them.
abbrev pub with_text : Memory → ℕ → Format → ℕ → Memory
with_text m dest format n x =
    if leb dest x && ltb x (dest + n) then get_or format (x - dest) 0 else m x

-- What `n` characters of the format leave.
record Written (m : Memory) (tail : ℕ) (format : Format) (n : ℕ) (start : ℕ) (r : Output × Option ℕ)
    : Type 0 where
  count : r.1 ≡ some (written_size start (tail + n))
  bytes : (x : ℕ) → r.0.memory x ≡ with_text m tail format n x

get_or-behind : (c : ℕ) (cs : Format) (k : ℕ) → 0 < k → get_or (c ∷ cs) k 0 ≡ get_or cs (k - 1) 0
get_or-behind c cs zero h = absurd (omega arith)
get_or-behind c cs (suc k) h = let e : suc k - 1 ≡ k = omega arith in rw e refl

-- One more character in front of a text.
with_text-cons :
    (m : Memory) (tail c : ℕ) (cs : Format) (n x : ℕ)
    → with_text (write m tail c) (tail + 1) cs n x ≡ with_text m tail (c ∷ cs) (suc n) x
unfolding write
with_text-cons m tail c cs n x = elim (Bool-cases (x == tail)) [
  | inl here ↦ let e : x - tail ≡ 0 = ground arith in rw e (ground arith)
  | inr other ↦ elim (Bool-cases (ltb tail x)) [
    | inl above ↦
        let k : x - tail - 1 ≡ x - (tail + 1) = omega arith in
        let e = get_or-behind c cs (x - tail) (ground arith) in rw (e, k) (ground arith)
    | inr below ↦ ground arith
  ]
]

nil-Written :
    (limit start : ℕ) (args : List ℕ) (o : Output)
    → Written o.memory o.tail [] 0 start (format_loop limit start [] args o)
unfolding format_loop
nil-Written limit start args o = record { count = ap some (omega arith); bytes = λ x. ground arith }

stopped-Written :
    (start : ℕ) (cs : Format) (o : Output)
    → Written o.memory o.tail cs 0 start (o, some (written_size start o.tail))
stopped-Written start cs o = record { count = ap some (omega arith); bytes = λ x. ground arith }

cons-Written :
    (start c : ℕ) (cs : Format) (n : ℕ) (o : Output) (r : Output × Option ℕ)
    → c < 256
    → Written (put_char o c).memory (put_char o c).tail cs n start r
    → Written o.memory o.tail (c ∷ cs) (suc n) start r
unfolding put_char
cons-Written start c cs n o r byte w =
    let e : c % 2 ^ 8 ≡ c = omega arith in
    record {
      count = w.count ∙ ap some (omega arith);
      bytes = λ x. w.bytes x ∙ rw e (with_text-cons o.memory o.tail c cs n x);
    }

next_tail : (o : Output) (c : ℕ) → (put_char o c).tail ≡ o.tail + 1
unfolding put_char
next_tail o c = refl

-- Up to the limit the signed comparison is one of natural numbers.
limit_test :
    (limit start tail : ℕ)
    → limit < 2 ^ 31
    → tail - start ≤ limit
    → is_at_limit limit start tail ≡ leb limit (tail - start)
limit_test limit start tail int under =
    let size : written_size start tail ≡ tail - start = omega arith in
    let signed : (tail - start + 2 ^ 31) % 2 ^ 32 ≡ tail - start + 2 ^ 31 = omega arith in
    let signed_limit : (limit + 2 ^ 31) % 2 ^ 32 ≡ limit + 2 ^ 31 = omega arith in
    let other : (limit == 2 ^ 32 - 1) ≡ false = ne→beq limit (2 ^ 32 - 1) (omega arith) in
    rw (other, size, signed, signed_limit) (ground arith)

loop_writes :
    (limit start : ℕ) (cs : Format) (args : List ℕ) (o : Output)
    → IsPlain cs
    → limit < 2 ^ 31
    → start ≤ o.tail
    → o.tail - start ≤ limit
    → Written o.memory o.tail cs
        (min (limit - (o.tail - start)) (length cs))
        start
        (format_loop limit start cs args o)
unfolding IsPlain
loop_writes limit start [] args o plain int le under =
    let e : min (limit - (o.tail - start)) 0 ≡ 0 = omega arith in
    rw e (nil-Written limit start args o)
loop_writes limit start (c ∷ cs) args o (ne, byte, plain) int le under =
    let tail = next_tail o c in
    rw (plain_step limit start c cs args o ne, limit_test limit start o.tail int under)
      (elim (Bool-cases (leb limit (o.tail - start))) [
        | inl full ↦
            let e : min (limit - (o.tail - start)) (suc (length cs)) ≡ 0 = ground arith in
            rw (full, e) (stopped-Written start (c ∷ cs) o)
        | inr room ↦
            let e : min (limit - (o.tail - start)) (suc (length cs))
                ≡ suc (min (limit - ((put_char o c).tail - start)) (length cs)) =
              ground arith in
            let ih =
              loop_writes limit start cs args (put_char o c) plain int (omega arith)
                (ground arith) in
            rw (room, e) (cons-Written start c cs _ o _ byte ih)
      ])

-- A format without conversions is copied, cut at a limit that is not negative: the result is the number of its characters
-- or the limit, the one that is less, so many bytes hold them, and every other byte is as before.
pub format_string-plain :
    (limit : ℕ) (m : Memory) (dest : ℕ) (format : Format) (args : List ℕ)
    → IsPlain format
    → limit < 2 ^ 31
    → ((format_string limit m dest format args).1 ≡ some (min limit (length format)))
      × ((x : ℕ)
          → (format_string limit m dest format args).0 x
            ≡ with_text m dest format (min limit (length format)) x)
unfolding format_string
format_string-plain limit m dest format args plain int =
    let o : Output = record { memory = m; tail = dest } in
    let e : min (limit - (dest - dest)) (length format) ≡ min limit (length format) = omega arith in
    let w = loop_writes limit dest format args o plain int (omega arith) (omega arith) in
    rw (sym e) (w.count ∙ ap some (omega arith), w.bytes)
