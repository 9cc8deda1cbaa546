-- ===== src/Prelude/Text/Split.antt =====
-- `split` undoes `join`; stripping adds no character.
use Prim.Native.Nat.{ℕ}
use Prim.Native.Char.{Char, code}
use Prim.Native.String.{String, [], ◌∷◌, ◌++◌}
use mathlib.Core.Path.{◌≡◌, refl, ◌∙◌, ap}
use mathlib.Core.Logic.{inl, inr}
use mathlib.Core.Bool.{true, false, ◌&&◌}
use mathlib.Core.List.{List}
use text.Mathlib.Text.{◌==◌ as str_eq}
use text.Mathlib.TextLemmas.{nil-append, cons-append}
use rheo_stream.Prelude.Tests.{◌==◌, ==_refl, Bool-cases}
use rheo_stream.Prelude.Text.{is_space, strip, strip_left, strip_right, split, join, push_head}

-- No character of the text is the separator.
abbrev pub Lacks : ℕ → String → Type 0
Lacks sep [] = Unit
Lacks sep (c ∷ s) = ((code c == sep) ≡ false) × Lacks sep s

abbrev pub AllLack : ℕ → List String → Type 0
AllLack sep List.[] = Unit
AllLack sep (List.◌∷◌ w ws) = Lacks sep w × AllLack sep ws

push_head-Lacks :
    (sep : ℕ) (c : Char) (ws : List String)
    → (code c == sep) ≡ false
    → AllLack sep ws
    → AllLack sep (push_head c ws)
push_head-Lacks sep c List.[] h k = ((h, tt), tt)
push_head-Lacks sep c (List.◌∷◌ w ws) h k = ((h, k.0), k.1)

pub split-AllLack : (sep : ℕ) (s : String) → AllLack sep (split sep s)
unfolding split
split-AllLack sep [] = (tt, tt)
split-AllLack sep (c ∷ s) = elim (Bool-cases (code c == sep)) [
  | inl here ↦ rw here (tt, split-AllLack sep s)
  | inr other ↦ rw other (push_head-Lacks sep c (split sep s) other (split-AllLack sep s))
]

-- A word without the separator is the first part of what follows it.
split_word : (sep : ℕ) (w : String) → Lacks sep w → split sep w ≡ List.◌∷◌ w List.[]
unfolding split
split_word sep [] h = refl
split_word sep (c ∷ w) h = rw (h.0, split_word sep w h.1)

split-append :
    (sep : ℕ) (d : Char) (w rest : String)
    → Lacks sep w
    → (code d == sep) ≡ true
    → split sep (w ++ (d ∷ rest)) ≡ List.◌∷◌ w (split sep rest)
unfolding split
split-append sep d [] rest h e = rw (nil-append, e)
split-append sep d (c ∷ w) rest h e = rw (cons-append, h.0, split-append sep d w rest h.1 e)

-- Splitting the words joined by the separator gives the words back, if there is one and none holds
-- the separator.
pub split-join :
    (d : Char) (w : String) (ws : List String)
    → AllLack (code d) (List.◌∷◌ w ws)
    → split (code d) (join (d ∷ []) (List.◌∷◌ w ws)) ≡ List.◌∷◌ w ws
unfolding join
split-join d w List.[] h = split_word (code d) w h.0
split-join d w (List.◌∷◌ v ws) h =
    ap (λ t. split (code d) (w ++ t)) (cons-append d [] (join (d ∷ []) (List.◌∷◌ v ws)))
    ∙ ap (λ t. split (code d) (w ++ (d ∷ t))) (nil-append (join (d ∷ []) (List.◌∷◌ v ws)))
    ∙ split-append (code d) d w (join (d ∷ []) (List.◌∷◌ v ws)) h.0 (==_refl (code d))
    ∙ ap (λ r. List.◌∷◌ w r) (split-join d v ws h.1)

Lacks-strip_left : (sep : ℕ) (s : String) → Lacks sep s → Lacks sep (strip_left s)
unfolding strip_left
Lacks-strip_left sep [] h = tt
Lacks-strip_left sep (c ∷ s) h = elim (Bool-cases (is_space (code c))) [
  | inl space ↦ rw space (Lacks-strip_left sep s h.1)
  | inr plain ↦ rw plain h
]

Lacks-strip_right : (sep : ℕ) (s : String) → Lacks sep s → Lacks sep (strip_right s)
unfolding strip_right
Lacks-strip_right sep [] h = tt
Lacks-strip_right sep (c ∷ s) h =
    elim (Bool-cases (is_space (code c) && str_eq (strip_right s) "")) [
      | inl gone ↦ rw gone tt
      | inr kept ↦ rw kept (h.0, Lacks-strip_right sep s h.1)
    ]

pub Lacks-strip : (sep : ℕ) (s : String) → Lacks sep s → Lacks sep (strip s)
unfolding strip
Lacks-strip sep s h = Lacks-strip_right sep (strip_left s) (Lacks-strip_left sep s h)
