-- ===== src/Display/Kept.antt =====
-- What texts keep: the cursor in its place, and the lock.
use ych.Prelude.{
  ℕ, ◌+◌, ◌≡◌, Bool, true, false, not, ◌==◌, if◌then◌else◌, Option, none, some, List, [], ◌∷◌,
  length, inl, inr, Option-cases,
}
use ych.Krtl.Mem.{Memory}
use ych.Krtl.Text.Format.{Format, Spec, next_arg, other_args, is_plain_spec}
use ych.Display.{Display, text_columns, out_char_unlocked, out_text_unlocked}
use ych.Display.Cursor.{IsPlaced, next_position, leaves_screen, Moved, out_char_unlocked-Moved}
use ych.Display.Formatted.{
  shown_spec, spec_text, extended_text, show_then, show_long, show_loop, white, black,
}

-- A display that is returned has its cursor in place and its lock held.
abbrev pub Placed : Option Display → Type 0
Placed none = Unit {0}
Placed (some d) = IsPlaced d

Moved-Placed :
    (stops : Bool) (columns place : ℕ) (r : Option Display) → Moved stops columns place r → Placed r
Moved-Placed stops columns place none m = tt
Moved-Placed stops columns place (some d) m = m.1

pub out_text_unlocked-Placed :
    (text : List ℕ) (d : Display) (fore back : ℕ)
    → IsPlaced d
    → Placed (out_text_unlocked d text fore back)
unfolding out_text_unlocked
out_text_unlocked-Placed [] d fore back w = w
out_text_unlocked-Placed (c ∷ cs) d fore back w =
    let m =
      Moved-Placed (leaves_screen d c) (text_columns d) (next_position d c) _
        (out_char_unlocked-Moved d c fore back w) in
    elim (Option-cases (out_char_unlocked d c fore back)) [
      | inl stop ↦ rw (out_text_unlocked, stop) tt
      | inr (d', e) ↦
          rw (out_text_unlocked, e) (out_text_unlocked-Placed cs d' fore back (rw e at m))
    ]

abbrev pub PlacedResult : Option (Display × Option ℕ) → Type 0
PlacedResult none = Unit {0}
PlacedResult (some r) = IsPlaced r.0

show_then-Placed :
    (d : Display) (text : List ℕ) (next : Display → Option (Display × Option ℕ))
    → IsPlaced d
    → ((d' : Display) → IsPlaced d' → PlacedResult (next d'))
    → PlacedResult (show_then d text next)
show_then-Placed d text next w k =
    let m = out_text_unlocked-Placed text d white black w in
    elim (Option-cases (out_text_unlocked d text white black)) [
      | inl stop ↦ rw (show_then, stop) tt
      | inr (d', e) ↦ rw (show_then, e) (k d' (rw e at m))
    ]

choice :
    (b : Bool) (x y : Option (Display × Option ℕ))
    → PlacedResult x
    → PlacedResult y
    → PlacedResult (if b then x else y)
choice true x y p q = p
choice false x y p q = q

show_long-Placed :
    (spec : Spec) (t : Option (List ℕ)) (d : Display)
    (next : ℕ → Display → Option (Display × Option ℕ))
    → IsPlaced d
    → ((size : ℕ) (d' : Display) → IsPlaced d' → PlacedResult (next size d'))
    → PlacedResult (show_long spec t d next)
show_long-Placed Spec.extended (some t) d next w k =
    show_then-Placed d t (next (length t)) w (k (length t))
show_long-Placed Spec.extended none d next w k = w
show_long-Placed Spec.percent t d next w k = w
show_long-Placed Spec.character t d next w k = w
show_long-Placed Spec.text t d next w k = w
show_long-Placed Spec.signed t d next w k = w
show_long-Placed Spec.unsigned t d next w k = w
show_long-Placed Spec.octal t d next w k = w
show_long-Placed Spec.pointer t d next w k = w
show_long-Placed Spec.invalid t d next w k = w
show_long-Placed (Spec.boolean b) t d next w k = w
show_long-Placed (Spec.hex b) t d next w k = w

pub show_loop-Placed :
    (m : Memory) (format : Format) (args : List ℕ) (n : ℕ) (d : Display)
    → IsPlaced d
    → PlacedResult (show_loop m format args n d)
unfolding show_loop
show_loop-Placed m [] args n d w = w
show_loop-Placed m (c ∷ []) args n d w =
    choice (c == 37) _ _ w (show_then-Placed d (c ∷ []) _ w (λ d' w'. w'))
show_loop-Placed m (c ∷ d ∷ []) args n s w =
    choice (not (c == 37)) _ _
      (show_then-Placed s (c ∷ []) _ w (λ s' w'. show_loop-Placed m (d ∷ []) args (n + 1) s' w'))
      (choice (is_plain_spec (shown_spec d)) _ _
        (show_then-Placed s (spec_text m (shown_spec d) (next_arg args)) _ w (λ s' w'. w')) w)
show_loop-Placed m (c ∷ d ∷ e ∷ es) args n s w =
    let spec = shown_spec d in
    choice (not (c == 37)) _ _
      (show_then-Placed s (c ∷ []) _ w
        (λ s' w'. show_loop-Placed m (d ∷ e ∷ es) args (n + 1) s' w'))
      (choice (is_plain_spec spec) _ _
        (show_then-Placed s (spec_text m spec (next_arg args)) _ w
          (λ s' w'. show_loop-Placed m (e ∷ es) _ _ s' w'))
        (show_long-Placed spec (extended_text e (next_arg args)) s _ w
          (λ size s' w'. show_loop-Placed m es (other_args args) (n + size) s' w')))

-- A display that is free to be written on.
pub record IsIdle (d : Display) : Type 0 where
  pub unlocked : d.locked ≡ false
  pub placed : IsPlaced (record d { locked = true })

abbrev pub IdleResult : Option (Display × Option ℕ) → Type 0
IdleResult none = Unit {0}
IdleResult (some r) = IsIdle r.0
