-- ===== src/Display/Formatted.antt =====
-- `KrdwtpOutFormatTextVariadic` of Kernel/Source/Earlyvideo/DisplaywideTextProtocol.c.
use ych.Prelude.{
  ℕ, zero, suc, ◌+◌, ◌%◌, ◌^◌, true, false, not, ◌==◌, if◌then◌else◌, Option, none, some, List, [],
  ◌∷◌, length,
}
use ych.Krtl.Mem.{Memory}
use ych.Krtl.Text.{signed_to_string, unsigned_to_string}
use ych.Krtl.Text.Format.{
  Format, Spec, spec_of, blank, widen, next_arg, other_args, takes_arg, is_plain_spec, bool_text,
}
use ych.Display.{Display, acquire_lock, release_lock, out_text_unlocked}

-- The bytes up to the first 0, at most `fuel` of them: what `KrdwtpOutText` shows of a buffer.
unfoldable pub read_text : ℕ → Memory → ℕ → List ℕ
read_text zero m start = []
read_text (suc fuel) m start =
    let rest = read_text fuel m (start + 1) in if m start == 0 then [] else m start ∷ rest

abbrev pub null_name : List ℕ
null_name = 40 ∷ 78 ∷ 85 ∷ 76 ∷ 76 ∷ 41 ∷ []

-- The letters are those of `KrtlFormatString` without `B`.
unfoldable pub shown_spec : ℕ → Spec
shown_spec c = if c == 66 then Spec.invalid else spec_of c

abbrev pub unsigned_text : ℕ → ℕ → List ℕ
unsigned_text value radix = read_text 128 (unsigned_to_string blank 0 value radix true) 0

-- What a conversion shows of the argument `a`, with the texts of the machine in `m`. Hexadecimal
-- digits are in upper case whatever the letter.
unfoldable pub spec_text : Memory → Spec → ℕ → List ℕ
spec_text m Spec.percent a = 37 ∷ []
spec_text m Spec.character a = a % 2 ^ 8 ∷ []
spec_text m (Spec.boolean upper) a = bool_text false (not (a % 2 ^ 32 == 0))
spec_text m Spec.text a = if a == 0 then null_name else read_text (2 ^ 32) m a
spec_text m Spec.signed a = read_text 128 (signed_to_string blank 0 (widen a) 10 true) 0
spec_text m Spec.unsigned a = unsigned_text (a % 2 ^ 32) 10
spec_text m Spec.octal a = read_text 128 (signed_to_string blank 0 (a % 2 ^ 32) 8 true) 0
spec_text m (Spec.hex upper) a = unsigned_text (a % 2 ^ 32) 16
spec_text m Spec.pointer a = 48 ∷ 120 ∷ unsigned_text a 16
spec_text m Spec.extended a = []
spec_text m Spec.invalid a = []

-- The letter behind `%R`
unfoldable pub extended_text : ℕ → ℕ → Option (List ℕ)
extended_text c a =
    if c == 117
    then some (unsigned_text a 10)
    else (if c == 88
        then some (unsigned_text a 16)
        else (if c == 120 then some (unsigned_text a 16) else none))

-- A text is shown in white on black, and what follows is done with its length counted in.
abbrev pub white : ℕ
white = 0xFFFF_FFFF

abbrev pub black : ℕ
black = 0xFF00_0000

abbrev pub show_then :
    Display → List ℕ → (Display → Option (Display × Option ℕ)) → Option (Display × Option ℕ)
show_then d text next = elim (out_text_unlocked d text white black) [
  | none ↦ none
  | some d' ↦ next d'
]

-- `case 'R'` with the text of its letter, and `default`
abbrev pub show_long :
    Spec
    → Option (List ℕ)
    → Display
    → (ℕ → Display → Option (Display × Option ℕ))
    → Option (Display × Option ℕ)
show_long Spec.extended (some t) d next = show_then d t (next (length t))
show_long _ _ d next = some (d, none)

-- The loop, with the lock held; `n` is `nwritten`. The outer `none` is the meltdown, the inner one
-- the result -1.
unfoldable pub show_loop : Memory → Format → List ℕ → ℕ → Display → Option (Display × Option ℕ)
show_loop m [] args n d = some (d, some n)
show_loop m (c ∷ []) args n d =
    if c == 37 then some (d, none) else show_then d (c ∷ []) (λ d'. some (d', some (n + 1)))
show_loop m (c ∷ d ∷ []) args n s =
    let spec = shown_spec d in
    let text = spec_text m spec (next_arg args) in
    let plain = show_loop m (d ∷ []) args (n + 1) in
    if not (c == 37)
    then show_then s (c ∷ []) plain
    else (if is_plain_spec spec
        then show_then s text (λ s'. some (s', some (n + length text)))
        else some (s, none))
show_loop m (c ∷ d ∷ e ∷ es) args n s =
    let spec = shown_spec d in
    let text = spec_text m spec (next_arg args) in
    let args' = if takes_arg spec then other_args args else args in
    let plain = show_loop m (d ∷ e ∷ es) args (n + 1) in
    let converted = show_loop m (e ∷ es) args' (n + length text) in
    let long = show_loop m es (other_args args) in
    if not (c == 37)
    then show_then s (c ∷ []) plain
    else (if is_plain_spec spec
        then show_then s text converted
        else show_long spec (extended_text e (next_arg args)) s (λ size. long (n + size)))

-- The lock is released on every way out but the meltdown.
unfoldable pub out_format_text : Memory → Display → Format → List ℕ → Option (Display × Option ℕ)
out_format_text m d format args = elim (acquire_lock d) [
  | none ↦ none
  | some d1 ↦ elim (show_loop m format args 0 d1) [
    | none ↦ none
    | some (d2, result) ↦ some (release_lock d2, result)
  ]
]
