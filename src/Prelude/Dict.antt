-- ===== src/Prelude/Dict.antt =====
-- Python's `dict` with text keys, as an association list in insertion order.
use Prim.Native.String.{String}
use mathlib.Core.Path.{◌≡◌, refl}
use mathlib.Core.Option.{Option, none, some}
use mathlib.Core.List.{List, [], ◌∷◌}
use mathlib.Core.Bool.{true, false}
use mathlib.Core.Logic.{◌⊎◌, inl, inr}
use native.Mathlib.Omega.{arith}
use text.Mathlib.Text.{◌==◌}
use text.Mathlib.TextEquality.{eq_iff}
use text.Mathlib.TextPositions.{eq_refl}
use rheo_stream.Prelude.Tests.{if◌then◌else◌, is_some, Bool-cases}
use rheo_stream.Prelude.Sets.{elem}

abbrev pub Dict {ℓ} : Type ℓ → Type ℓ
Dict V = List (String × V)

module _ {ℓ} {V : Type ℓ} where
  -- `d.get(key)`
  unfoldable pub lookup : String → Dict V → Option V
  lookup key [] = none
  lookup key ((own, value) ∷ d) = if own == key then some value else lookup key d

  -- `d[key] = value`: an existing key keeps its place.
  unfoldable pub insert : String → V → Dict V → Dict V
  insert key value [] = (key, value) ∷ []
  insert key value ((own, old) ∷ d) =
      let rest = insert key value d in if own == key then (own, value) ∷ d else (own, old) ∷ rest

  unfoldable pub keys : Dict V → List String
  keys [] = []
  keys ((j, v) ∷ m) = j ∷ keys m

  -- `d.update(e)`
  unfoldable pub update : Dict V → Dict V → Dict V
  update d [] = d
  update d ((k, v) ∷ e) = update (insert k v d) e

  -- What stands under a key after an assignment.
  pub lookup-insert :
      (key asked : String) (value : V) (d : Dict V)
      → lookup asked (insert key value d) ≡ (if key == asked then some value else lookup asked d)
  unfolding insert lookup
  lookup-insert key asked value [] = refl
  lookup-insert key asked value ((own, old) ∷ d) =
      ground
        (arith, lookup-insert key asked value d, eq_iff own asked, eq_iff own key, eq_iff key asked)

  pub elem-keys : (k : String) (m : Dict V) → elem k (keys m) ≡ is_some (lookup k m)
  unfolding lookup keys elem
  elem-keys k [] = refl
  elem-keys k ((j, v) ∷ m) = ground (arith, eq_iff k j, eq_iff j k, elem-keys k m)

  pub lookup-insert_self :
      (key : String) (value : V) (d : Dict V) → lookup key (insert key value d) ≡ some value
  lookup-insert_self key value d = simp (eq_refl, lookup-insert)

  pub lookup-insert_ne :
      (k j : String) (v : V) (m : Dict V) → (k == j) ≡ false → lookup j (insert k v m) ≡ lookup j m
  lookup-insert_ne k j v m h = simp (lookup-insert, h)

  -- An entry found after an insertion is the new one, or was there under another key.
  pub insert-cases :
      (k j : String) (v w : V) (m : Dict V)
      → lookup j (insert k v m) ≡ some w
      → ((k ≡ j) × (v ≡ w)) ⊎ (((k == j) ≡ false) × (lookup j m ≡ some w))
  insert-cases k j v w m h = elim (Bool-cases (k == j)) [
    | inl same ↦ inl ((eq_iff k j).0 same, ground (arith, lookup-insert k j v m))
    | inr other ↦ inr (other, ground (arith, lookup-insert k j v m))
  ]

  some_value : (v w : V) → some v ≡ some w → v ≡ w
  some_value v w h = cc

  -- Every entry of the dictionary satisfies `P`.
  abbrev pub AllEntries {κ} : (String → V → Type κ) → Dict V → Type κ
  AllEntries P [] = Unit
  AllEntries P ((k, v) ∷ m) = P k v × AllEntries P m

  pub AllEntries-insert {κ} :
      (P : String → V → Type κ) (k : String) (v : V) (m : Dict V)
      → P k v
      → AllEntries P m
      → AllEntries P (insert k v m)
  unfolding insert
  AllEntries-insert P k v [] p h = (p, tt)
  AllEntries-insert P k v ((j, w) ∷ m) p h = elim (Bool-cases (j == k)) [
    | inl same ↦ rw same (rw ((eq_iff j k).0 same) p, h.1)
    | inr other ↦ rw other (h.0, AllEntries-insert P k v m p h.1)
  ]

  pub AllEntries-update {κ} :
      (P : String → V → Type κ) (d e : Dict V)
      → AllEntries P d
      → AllEntries P e
      → AllEntries P (update d e)
  unfolding update
  AllEntries-update P d [] h k = h
  AllEntries-update P d ((j, v) ∷ e) h k =
      AllEntries-update P (insert j v d) e (AllEntries-insert P j v d k.0 h) k.1

  pub AllEntries-lookup {κ} :
      (P : String → V → Type κ) (k : String) (v : V) (m : Dict V)
      → AllEntries P m
      → lookup k m ≡ some v
      → P k v
  unfolding lookup
  AllEntries-lookup P k v [] h e = cc
  AllEntries-lookup P k v ((j, w) ∷ m) h e = elim (Bool-cases (j == k)) [
    | inl same ↦ rw (← (eq_iff j k).0 same, ← some_value w v (rw (same) at e)) h.0
    | inr other ↦ AllEntries-lookup P k v m h.1 (rw other at e)
  ]

  -- An update keeps every key.
  pub is_some-update :
      (k : String) (d e : Dict V)
      → is_some (lookup k d) ≡ true
      → is_some (lookup k (update d e)) ≡ true
  unfolding update
  is_some-update k d [] h = h
  is_some-update k d ((j, v) ∷ e) h =
      is_some-update k (insert j v d) e (ground (arith, lookup-insert j k v d))
