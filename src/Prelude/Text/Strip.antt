-- ===== src/Prelude/Text/Strip.antt =====
-- `strip` leaves a text with no space at its ends, and changes no such text.
use Prim.Native.Char.{code}
use Prim.Native.String.{String, [], ◌∷◌}
use mathlib.Core.Path.{◌≡◌, refl, ◌∙◌, ap}
use mathlib.Core.Bool.{false, ◌&&◌}
use mathlib.Core.Logic.{inl, inr}
use text.Mathlib.Text.{◌==◌ as str_eq}
use rheo_stream.Prelude.Tests.{Bool-cases}
use rheo_stream.Prelude.Text.{is_space, strip, strip_left, strip_right}

abbrev pub NoSpace : String → Type 0
NoSpace [] = Unit
NoSpace (c ∷ s) = (is_space (code c) ≡ false) × NoSpace s

strip_left-NoSpace : (s : String) → NoSpace s → strip_left s ≡ s
unfolding strip_left
strip_left-NoSpace [] h = refl
strip_left-NoSpace (c ∷ s) h = rw h.0

strip_right-NoSpace : (s : String) → NoSpace s → strip_right s ≡ s
unfolding strip_right
strip_right-NoSpace [] h = refl
strip_right-NoSpace (c ∷ s) h = rw (h.0, strip_right-NoSpace s h.1)

pub strip-NoSpace : (s : String) → NoSpace s → strip s ≡ s
unfolding strip
strip-NoSpace s h = ap strip_right (strip_left-NoSpace s h) ∙ strip_right-NoSpace s h

-- The first character is no space.
abbrev FirstPlain : String → Type 0
FirstPlain [] = Unit
FirstPlain (c ∷ s) = is_space (code c) ≡ false

FirstPlain-strip_left : (s : String) → FirstPlain (strip_left s)
unfolding strip_left
FirstPlain-strip_left [] = tt
FirstPlain-strip_left (c ∷ s) = elim (Bool-cases (is_space (code c))) [
  | inl space ↦ rw space (FirstPlain-strip_left s)
  | inr plain ↦ rw plain plain
]

FirstPlain-strip_right : (s : String) → FirstPlain s → FirstPlain (strip_right s)
unfolding strip_right
FirstPlain-strip_right [] h = tt
FirstPlain-strip_right (c ∷ s) h = rw h h

strip_left_of_FirstPlain : (s : String) → FirstPlain s → strip_left s ≡ s
unfolding strip_left
strip_left_of_FirstPlain [] h = refl
strip_left_of_FirstPlain (c ∷ s) h = rw h

strip_right_idem : (s : String) → strip_right (strip_right s) ≡ strip_right s
unfolding strip_right
strip_right_idem [] = refl
strip_right_idem (c ∷ s) = elim (Bool-cases (is_space (code c) && str_eq (strip_right s) "")) [
  | inl gone ↦ rw gone
  | inr kept ↦ rw kept (rw (strip_right_idem s, kept))
]

-- Stripping twice is stripping once.
pub strip_idem : (s : String) → strip (strip s) ≡ strip s
unfolding strip
strip_idem s =
    ap strip_right (
      strip_left_of_FirstPlain (strip_right (strip_left s))
        (FirstPlain-strip_right (strip_left s) (FirstPlain-strip_left s)))
    ∙ strip_right_idem (strip_left s)
