-- ===== src/Settings/Floor.antt =====
-- `apply_floor` and `is_looser` of settings/resolver.py.
pub mod Laws
use rheo_stream.Prelude.{
  Bool, true, false, not, ◌&&◌, ◌||◌, List, [], ◌∷◌, ◌++◌, Result, ok, raise, ◌>>=◌, if◌then◌else◌,
}
use rheo_stream.Prelude.Int.{ℤ, ltb_ℤ, min_ℤ}
use rheo_stream.Settings.Value.{
  Floor, min_floor, union_floor, subset_floor, and_floor, Item, Value, int, bool, tuple, Error,
  type_error, same_item,
}

-- `x in xs`
unfoldable pub elem_item : Item → List Item → Bool
elem_item x [] = false
elem_item x (y ∷ ys) = same_item x y || elem_item x ys

unfoldable pub keep_items : (Item → Bool) → List Item → List Item
keep_items p [] = []
keep_items p (x ∷ xs) = let rest = keep_items p xs in if p x then x ∷ rest else rest

unfoldable pub subset_items : List Item → List Item → Bool
subset_items [] ys = true
subset_items (x ∷ xs) ys = elem_item x ys && subset_items xs ys

as_int : Value → Result Error ℤ
as_int (int n) = ok n
as_int v = raise type_error

as_items : Value → Result Error (List Item)
as_items (tuple xs) = ok xs
as_items v = raise type_error

as_bool : Value → Result Error Bool
as_bool (bool b) = ok b
as_bool v = raise type_error

unfoldable pub apply_floor : Floor → Value → Value → Result Error Value
unfolding as_int as_items as_bool
apply_floor min_floor deployed override = do
  a ← as_int deployed
  b ← as_int override
  ok (int (min_ℤ a b))
apply_floor union_floor deployed override = do
  base ← as_items deployed
  extra ← as_items override
  ok (tuple (base ++ keep_items (λ x. not (elem_item x base)) extra))
apply_floor subset_floor deployed override = do
  allowed ← as_items override
  base ← as_items deployed
  ok (tuple (keep_items (λ x. elem_item x allowed) base))
apply_floor and_floor deployed override = do
  a ← as_bool deployed
  if a then (do b ← as_bool override; ok (bool b)) else ok (bool false)

unfoldable pub is_looser : Floor → Value → Value → Result Error Bool
unfolding as_int as_items as_bool
is_looser min_floor deployed candidate = do
  b ← as_int candidate
  a ← as_int deployed
  ok (ltb_ℤ a b)
is_looser union_floor deployed candidate = do
  a ← as_items deployed
  b ← as_items candidate
  ok (not (subset_items a b))
is_looser subset_floor deployed candidate = do
  b ← as_items candidate
  a ← as_items deployed
  ok (not (subset_items b a))
is_looser and_floor deployed candidate = do
  b ← as_bool candidate
  if b then (do a ← as_bool deployed; ok (not a)) else ok false
