-- ===== src/Krtl/Text.antt =====
-- Numbers as text, Kernel/Source/KRTL/Krnlstring.c.
pub mod Digits
pub mod Emit
pub mod Numeral
pub mod Signed
pub mod Format
use ych.Prelude.{
  ℕ, zero, suc, ◌+◌, ◌-◌, ◌/◌, ◌%◌, ◌^◌, Bool, true, false, leb, ltb, ◌==◌, if◌then◌else◌,
}
use ych.Krtl.Mem.{Memory, write}

-- The loop of `KrtlReverseString`, with both ends inside the text. Each round takes two bytes off.
unfoldable pub reverse_string : ℕ → Memory → ℕ → ℕ → Memory
reverse_string zero m start last = m
reverse_string (suc fuel) m start last =
    let rest =
      reverse_string fuel (write (write m start (m last)) last (m start)) (start + 1) (last - 1) in
    if ltb start last then rest else m

unfoldable pub digit_char : ℕ → Bool → ℕ
digit_char r uppercase =
    if ltb r 10 then (r + 48) % 256 else ((r - 10) + (if uppercase then 65 else 97)) % 256

-- `while (Value)`: the digits from the lowest on, and the address behind them.
unfoldable pub emit_digits : ℕ → Memory → ℕ → ℕ → ℕ → Bool → Memory × ℕ
emit_digits zero m dest value radix uppercase = (m, dest)
emit_digits (suc fuel) m dest value radix uppercase =
    let rest =
      emit_digits fuel (write m dest (digit_char (value % radix) uppercase)) (dest + 1)
        (value / radix) radix uppercase in
    if value == 0 then (m, dest) else rest

-- A number of 64 bits has at most 64 digits, and their reversal takes at most 64 rounds.
unfoldable pub unsigned_to_string : Memory → ℕ → ℕ → ℕ → Bool → Memory
unsigned_to_string m dest value radix uppercase =
    if value == 0
    then write (write m dest 48) (dest + 1) 0
    else (let (emitted, behind) = emit_digits 64 m dest value radix uppercase in
        reverse_string 64 (write emitted behind 0) dest (behind - 1))

-- `KrtlSignedToString` of a number in two's complement: the sign goes behind the digits, and is turned
-- round with them. The negation of - 2 ^ 63 overflows in the source and is left out.
unfoldable pub signed_to_string : Memory → ℕ → ℕ → ℕ → Bool → Memory
signed_to_string m dest value radix uppercase =
    let negative = leb (2 ^ 63) value in
    let magnitude = if negative then 2 ^ 64 - value else value in
    let (emitted, behind) = emit_digits 64 m dest magnitude radix uppercase in
    let signed = if negative then write emitted behind 45 else emitted in
    let stop = if negative then behind + 1 else behind in
    if value == 0
    then write (write m dest 48) (dest + 1) 0
    else reverse_string 64 (write signed stop 0) dest (stop - 1)

-- `while (*++pIt)`: the first byte is not read. `fuel` bounds the bytes behind it.
unfoldable pub string_size_from : ℕ → Memory → ℕ → ℕ → ℕ
string_size_from zero m start i = i
string_size_from (suc fuel) m start i =
    let rest = string_size_from fuel m start (i + 1) in if m (start + i) == 0 then i else rest

unfoldable pub string_size : ℕ → Memory → ℕ → ℕ
string_size fuel m start = string_size_from fuel m start 1
