-- ===== src/Krtl/Text/Format.antt =====
-- `KrtlFormatStringVariadic` of Kernel/Source/KRTL/Krnlstring.c.
pub mod Plain
use ych.Prelude.{
  ◌%◌, ◌^◌, ◌&&◌, not, leb, ℕ, zero, suc, ◌+◌, ◌-◌, Bool, true, false, ◌||◌, ltb, ◌==◌,
  if◌then◌else◌, Option, none, some, List, [], ◌∷◌,
}
use ych.Krtl.Mem.{Memory, write, copy_buffer}
use ych.Krtl.Text.{signed_to_string, unsigned_to_string, string_size}

-- The text of the format without its terminating 0, and the arguments as the 64-bit words that
-- `va_arg` reads; one that is missing reads 0.
abbrev pub Format : Type 0
Format = List ℕ

abbrev pub next_arg : List ℕ → ℕ
next_arg [] = 0
next_arg (a ∷ rest) = a

abbrev pub other_args : List ℕ → List ℕ
other_args [] = []
other_args (a ∷ rest) = rest

abbrev pub head_or_zero : Format → ℕ
head_or_zero [] = 0
head_or_zero (c ∷ cs) = c

-- What the letter behind a `%` asks for.
pub data Spec : Type 0 where
  percent character text signed unsigned octal pointer extended invalid : Spec
  boolean : Bool → Spec
  hex : Bool → Spec

-- `switch (*Format++)`
unfoldable pub spec_of : ℕ → Spec
spec_of c =
    if c == 37
    then Spec.percent
    else (if c == 99
        then Spec.character
        else (if c == 66
            then Spec.boolean true
            else (if c == 98
                then Spec.boolean false
                else (if c == 115
                    then Spec.text
                    else (if c == 100 || c == 105
                        then Spec.signed
                        else (if c == 117
                            then Spec.unsigned
                            else (if c == 111
                                then Spec.octal
                                else (if c == 88
                                    then Spec.hex true
                                    else (if c == 120
                                        then Spec.hex false
                                        else (if c == 112
                                            then Spec.pointer
                                            else (if c == 82
                                                then Spec.extended
                                                else Spec.invalid)))))))))))

-- The memory and `OutTail`
pub record Output : Type 0 where
  pub memory : Memory
  pub tail : ℕ

-- `*OutTail++ = c`
unfoldable pub put_char : Output → ℕ → Output
put_char o c = record { memory = write o.memory o.tail (c % 2 ^ 8); tail = o.tail + 1 }

abbrev pub put_chars : Output → List ℕ → Output
put_chars o [] = o
put_chars o (c ∷ cs) = put_chars (put_char o c) cs

-- A text in memory, as long as `KrtlStringSize` says.
abbrev pub string_fuel : ℕ
string_fuel = 2 ^ 32

unfoldable pub put_string : Output → ℕ → Output
put_string o start =
    let n = string_size string_fuel o.memory start in
    record { memory = copy_buffer o.memory o.tail start n; tail = o.tail + n }

abbrev pub blank : Memory
blank x = 0

-- A number's text in the buffer `Buf`, copied from there.
unfoldable pub put_buffer : Output → Memory → Output
put_buffer o buf =
    let n = string_size 128 buf 0 in
    record {
      memory = λ x. if leb o.tail x && ltb x (o.tail + n) then buf (x - o.tail) else o.memory x;
      tail = o.tail + n;
    }

-- An `INT` widened to an `INTMAX`
abbrev pub widen : ℕ → ℕ
widen a = if leb (2 ^ 31) (a % 2 ^ 32) then a % 2 ^ 32 + (2 ^ 64 - 2 ^ 32) else a % 2 ^ 32

-- "(NULL)", its 0 included: `sizeof`
abbrev pub null_text : List ℕ
null_text = 40 ∷ 78 ∷ 85 ∷ 76 ∷ 76 ∷ 41 ∷ 0 ∷ []

abbrev pub bool_text : Bool → Bool → List ℕ
bool_text true true = 84 ∷ 82 ∷ 85 ∷ 69 ∷ []
bool_text true false = 70 ∷ 65 ∷ 76 ∷ 83 ∷ 69 ∷ []
bool_text false true = 116 ∷ 114 ∷ 117 ∷ 101 ∷ []
bool_text false false = 102 ∷ 97 ∷ 108 ∷ 115 ∷ 101 ∷ []

-- What a conversion writes for the argument `a`. `%%` writes the character `next` behind it.
unfoldable pub put_spec : Spec → Output → ℕ → ℕ → Output
put_spec Spec.percent o next a = put_char o next
put_spec Spec.character o next a = put_char o a
put_spec (Spec.boolean upper) o next a = put_chars o (bool_text upper (not (a % 2 ^ 32 == 0)))
put_spec Spec.text o next a = if a == 0 then put_chars o null_text else put_string o a
put_spec Spec.signed o next a = put_buffer o (signed_to_string blank 0 (widen a) 10 false)
put_spec Spec.unsigned o next a = put_buffer o (unsigned_to_string blank 0 (a % 2 ^ 32) 10 false)
put_spec Spec.octal o next a = put_buffer o (unsigned_to_string blank 0 (a % 2 ^ 32) 8 false)
put_spec (Spec.hex upper) o next a = put_buffer o (unsigned_to_string blank 0 (a % 2 ^ 32) 16 upper)
put_spec Spec.pointer o next a =
    put_buffer (put_char (put_char o 48) 120) (unsigned_to_string blank 0 a 16 true)
put_spec Spec.extended o next a = o
put_spec Spec.invalid o next a = o

-- The letter behind `%R`: 64 bits.
unfoldable pub put_extended : Output → ℕ → ℕ → Option Output
put_extended o c a =
    if c == 117
    then some (put_buffer o (unsigned_to_string blank 0 a 10 false))
    else (if c == 88
        then some (put_buffer o (unsigned_to_string blank 0 a 16 true))
        else (if c == 120
            then some (put_buffer o (unsigned_to_string blank 0 a 16 false))
            else none))

abbrev pub takes_arg : Spec → Bool
takes_arg Spec.percent = false
takes_arg _ = true

abbrev pub is_plain_spec : Spec → Bool
is_plain_spec Spec.extended = false
is_plain_spec Spec.invalid = false
is_plain_spec _ = true

-- `(INT)(OutTail - OutHead)`, in two's complement.
abbrev pub written_size : ℕ → ℕ → ℕ
written_size start tail = (tail - start) % 2 ^ 32

-- `Limit != -1 && (INT)(OutTail - OutHead) >= Limit`: `limit` is an `INT` in two's complement, and the
-- comparison one of signed numbers.
abbrev pub is_at_limit : ℕ → ℕ → ℕ → Bool
is_at_limit limit start tail =
    not (limit == 2 ^ 32 - 1)
    && leb ((limit + 2 ^ 31) % 2 ^ 32) ((written_size start tail + 2 ^ 31) % 2 ^ 32)

-- The loop over the format. The result is the number of bytes written, or `none` for -1.
unfoldable pub format_loop : ℕ → ℕ → Format → List ℕ → Output → Output × Option ℕ
format_loop limit start [] args o = (o, some (written_size start o.tail))
format_loop limit start (c ∷ []) args o =
    if is_at_limit limit start o.tail
    then (o, some (written_size start o.tail))
    else (if c == 37
        then (o, none)
        else (let o' = put_char o c in (o', some (written_size start o'.tail))))
format_loop limit start (c ∷ d ∷ []) args o =
    let plain = format_loop limit start (d ∷ []) args (put_char o c) in
    let spec = spec_of d in
    let o' = put_spec spec o 0 (next_arg args) in
    if is_at_limit limit start o.tail
    then (o, some (written_size start o.tail))
    else (if not (c == 37)
        then plain
        else (if is_plain_spec spec then (o', some (written_size start o'.tail)) else (o, none)))
format_loop limit start (c ∷ d ∷ e ∷ es) args o =
    let plain = format_loop limit start (d ∷ e ∷ es) args (put_char o c) in
    let spec = spec_of d in
    let args' = if takes_arg spec then other_args args else args in
    let converted = format_loop limit start (e ∷ es) args' (put_spec spec o e (next_arg args)) in
    let long = format_loop limit start es (other_args args) in
    if is_at_limit limit start o.tail
    then (o, some (written_size start o.tail))
    else (if not (c == 37)
        then plain
        else (if is_plain_spec spec then converted else elim spec [
          | extended ↦ elim (put_extended o e (next_arg args)) [
            | none ↦ (o, none)
            | some o' ↦ long o'
          ]
          | _ ↦ (o, none)
        ]))

unfoldable pub format_string : ℕ → Memory → ℕ → Format → List ℕ → Memory × Option ℕ
format_string limit m dest format args =
    let (o, result) = format_loop limit dest format args (record { memory = m; tail = dest }) in
    (o.memory, result)
