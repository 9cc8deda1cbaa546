-- ===== src/Prelude/Sets.antt =====
-- Sets of texts (`frozenset[str]`, `set[str]`) and tuples of texts, as lists with a membership test.
use Prim.Native.String.{String, compare}
use mathlib.Core.Path.{◌≡◌, refl, ◌∙◌, ap}
use mathlib.Core.Bool.{Bool, true, false, not, ◌&&◌, ◌||◌}
use mathlib.Core.List.{List, [], ◌∷◌, ◌++◌}
use native.Mathlib.Omega.{arith}
use text.Mathlib.Text.{◌==◌, is_le}
use text.Mathlib.TextEquality.{eq_iff}
use text.Mathlib.TextPositions.{eq_refl}
use rheo_stream.Prelude.Tests.{if◌then◌else◌}

-- `x in xs`
unfoldable pub elem : String → List String → Bool
elem x [] = false
elem x (y ∷ ys) = x == y || elem x ys

-- `tuple(x for x in xs if p(x))`
unfoldable pub keep : (String → Bool) → List String → List String
keep p [] = []
keep p (x ∷ xs) = let rest = keep p xs in if p x then x ∷ rest else rest

abbrev pub inter : List String → List String → List String
inter xs ys = keep (λ x. elem x ys) xs

abbrev pub diff : List String → List String → List String
diff xs ys = keep (λ x. not (elem x ys)) xs

-- `set(xs) <= set(ys)`
unfoldable pub subset : List String → List String → Bool
subset [] ys = true
subset (x ∷ xs) ys = elem x ys && subset xs ys

-- `sorted(xs)`, by code points
place : String → List String → List String
place x [] = x ∷ []
place x (y ∷ ys) = let rest = place x ys in if is_le (compare x y) then x ∷ y ∷ ys else y ∷ rest

unfoldable pub sorted : List String → List String
unfolding place
sorted [] = []
sorted (x ∷ xs) = place x (sorted xs)

-- The two lists are the same set.
abbrev pub SameSet : List String → List String → Type 0
SameSet xs ys = (x : String) → elem x xs ≡ elem x ys

pub elem-append : (x : String) (xs ys : List String) → elem x (xs ++ ys) ≡ (elem x xs || elem x ys)
unfolding elem
elem-append x [] ys = refl
elem-append x (y ∷ xs) ys = ground (arith, elem-append x xs ys)

pub elem-keep :
    (p : String → Bool) (x : String) (xs : List String) → elem x (keep p xs) ≡ (elem x xs && p x)
unfolding elem keep
elem-keep p x [] = refl
elem-keep p x (y ∷ xs) = ground (arith, elem-keep p x xs, eq_iff x y)

pub subset→elem :
    (x : String) (xs ys : List String) → subset xs ys ≡ true → elem x xs ≡ true → elem x ys ≡ true
unfolding elem subset
subset→elem x [] ys h m = ground arith
subset→elem x (y ∷ xs) ys h m = ground (arith, subset→elem x xs ys, eq_iff x y)

or_true : (b : Bool) → (b || true) ≡ true
or_true b = ground arith

pub subset_of_elem :
    (xs ys : List String)
    → ((x : String) → elem x xs ≡ true → elem x ys ≡ true)
    → subset xs ys ≡ true
unfolding elem subset
subset_of_elem [] ys h = refl
subset_of_elem (x ∷ xs) ys h =
    ground (arith, subset_of_elem xs ys (λ z m. h z (rw m (or_true (z == x)))), h x, eq_refl x)

elem-place : (x z : String) (xs : List String) → elem z (place x xs) ≡ elem z (x ∷ xs)
unfolding elem place
elem-place x z [] = refl
elem-place x z (y ∷ ys) = ground (arith, elem-place x z ys)

-- Sorting keeps the members.
pub elem-sorted : (z : String) (xs : List String) → elem z (sorted xs) ≡ elem z xs
unfolding sorted elem
elem-sorted z [] = refl
elem-sorted z (x ∷ xs) = elem-place x z (sorted xs) ∙ ap (λ b. z == x || b) (elem-sorted z xs)
