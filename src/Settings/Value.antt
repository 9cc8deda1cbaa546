-- ===== src/Settings/Value.antt =====
-- The value types of settings/schema.py, with `freeze_value`, `thaw_value` and `matches_type`.
use rheo_stream.Prelude.{
  ℕ, String, Bool, true, false, ◌&&◌, List, [], ◌∷◌, map, Option, none, some, str_eq, ◌==◌, ◌≡◌,
  refl, ap, arith, elem, str_eq_refl, ==_refl, Result, ok, raise,
}
use rheo_stream.Prelude.Int.{ℤ, pos, negsuc}

pub data Scope : Type 0 where
  deployment workspace member : Scope

pub data Floor : Type 0 where
  min_floor union_floor subset_floor and_floor : Floor

pub data ValueType : Type 0 where
  str_type int_type bool_type str_list_type : ValueType

-- The exceptions of the settings layer: Python's own two, and the `SettingsError` classes with the
-- key that each names; `source_error` is what an override source raises.
pub data Error : Type 0 where
  value_error type_error key_error assertion_error settings_declaration_mismatch : Error
  setting_undeclared setting_redeclared setting_type setting_origin_refused : String → Error
  source_error : String → Error

-- An element of a Python list or tuple: a `str`, or any other object, by number.
pub data Item : Type 0 where
  text : String → Item
  object : ℕ → Item

-- A Python object as the settings layer meets it; `object` is one of any other type.
pub data Value : Type 0 where
  str : String → Value
  int : ℤ → Value
  bool : Bool → Value
  list : List Item → Value
  tuple : List Item → Value
  object : ℕ → Value

-- `spec.scope is scope`
abbrev pub same_scope : Scope → Scope → Bool
same_scope deployment deployment = true
same_scope workspace workspace = true
same_scope member member = true
same_scope _ _ = false

-- `spec.type is value_type`
abbrev pub same_type : ValueType → ValueType → Bool
same_type str_type str_type = true
same_type int_type int_type = true
same_type bool_type bool_type = true
same_type str_list_type str_list_type = true
same_type _ _ = false

abbrev pub same_floor : Option Floor → Option Floor → Bool
same_floor none none = true
same_floor (some min_floor) (some min_floor) = true
same_floor (some union_floor) (some union_floor) = true
same_floor (some subset_floor) (some subset_floor) = true
same_floor (some and_floor) (some and_floor) = true
same_floor _ _ = false

-- `_FLOOR_TYPES`
abbrev pub floor_type : Floor → ValueType
floor_type min_floor = int_type
floor_type union_floor = str_list_type
floor_type subset_floor = str_list_type
floor_type and_floor = bool_type

unfoldable pub freeze_value : Value → Result Error Value
freeze_value (list xs) = ok (tuple xs)
freeze_value (object n) = raise type_error
freeze_value v = ok v

unfoldable pub thaw_value : Value → Value
thaw_value (tuple xs) = list xs
thaw_value v = v

abbrev pub is_text : Item → Bool
is_text (text s) = true
is_text (object n) = false

abbrev pub all_text : List Item → Bool
all_text [] = true
all_text (x ∷ xs) = is_text x && all_text xs

unfoldable pub matches_type : ValueType → Value → Bool
matches_type str_type (str s) = true
matches_type int_type (int n) = true
matches_type bool_type (bool b) = true
matches_type str_list_type (list xs) = all_text xs
matches_type str_list_type (tuple xs) = all_text xs
matches_type _ _ = false

-- The texts of a tuple of texts, and the tuple of some texts.
abbrev pub texts : List Item → List String
texts [] = []
texts (text s ∷ xs) = s ∷ texts xs
texts (object n ∷ xs) = texts xs

-- `value in choices`, for a tuple of texts
abbrev pub is_choice : Value → List String → Bool
is_choice (str s) cs = elem s cs
is_choice _ cs = false

-- Python's `==` on the elements and on the values.
abbrev pub same_item : Item → Item → Bool
same_item (text s) (text t) = str_eq s t
same_item (object m) (object n) = m == n
same_item _ _ = false

abbrev same_items : List Item → List Item → Bool
same_items [] [] = true
same_items (x ∷ xs) (y ∷ ys) = same_item x y && same_items xs ys
same_items _ _ = false

abbrev same_int : ℤ → ℤ → Bool
same_int (pos m) (pos n) = m == n
same_int (negsuc m) (negsuc n) = m == n
same_int _ _ = false

-- `True == 1` and `False == 0`
abbrev from_bool : Bool → ℤ
from_bool true = pos 1
from_bool false = pos 0

abbrev pub same_value : Value → Value → Bool
same_value (str s) (str t) = str_eq s t
same_value (int m) (int n) = same_int m n
same_value (bool b) (bool c) = same_int (from_bool b) (from_bool c)
same_value (int m) (bool c) = same_int m (from_bool c)
same_value (bool b) (int n) = same_int (from_bool b) n
same_value (list xs) (list ys) = same_items xs ys
same_value (tuple xs) (tuple ys) = same_items xs ys
same_value (object m) (object n) = m == n
same_value _ _ = false

-- A frozen value of the type that its key declares.
abbrev pub HasType : ValueType → Value → Type 0
HasType str_type v = (s : String) × (v ≡ str s)
HasType int_type v = (n : ℤ) × (v ≡ int n)
HasType bool_type v = (b : Bool) × (v ≡ bool b)
HasType str_list_type v = (xs : List String) × (v ≡ tuple (map text xs))

all_text-eq_map : (xs : List Item) → all_text xs ≡ true → xs ≡ map text (texts xs)
all_text-eq_map [] h = refl
all_text-eq_map (text s ∷ xs) h = ap (λ r. text s ∷ r) (all_text-eq_map xs h)
all_text-eq_map (object n ∷ xs) h = cc

-- Freezing keeps the type test.
pub matches_type-freeze :
    (t : ValueType) (v w : Value) → freeze_value v ≡ ok w → matches_type t v ≡ matches_type t w
unfolding freeze_value matches_type
matches_type-freeze str_list_type (list xs) w e = ground arith
matches_type-freeze t v w e = ground arith

-- A frozen value that passes the type test has the type.
pub freeze_value-HasType :
    (t : ValueType) (v w : Value) → freeze_value v ≡ ok w → matches_type t w ≡ true → HasType t w
unfolding freeze_value matches_type
freeze_value-HasType str_type v (str s) e h = (s, refl)
freeze_value-HasType int_type v (int n) e h = (n, refl)
freeze_value-HasType bool_type v (bool b) e h = (b, refl)
freeze_value-HasType str_list_type v (tuple xs) e h = (texts xs, ap tuple (all_text-eq_map xs h))
freeze_value-HasType str_list_type (list ys) (list xs) e h = cc
freeze_value-HasType str_list_type _ (list xs) e h = cc
freeze_value-HasType _ _ w e h = cc

same_items_refl : (xs : List Item) → same_items xs xs ≡ true
same_items_refl [] = refl
same_items_refl (text s ∷ xs) = rw (str_eq_refl s, same_items_refl xs)
same_items_refl (object n ∷ xs) = rw (==_refl n, same_items_refl xs)

pub same_value_refl : (v : Value) → same_value v v ≡ true
same_value_refl (str s) = str_eq_refl s
same_value_refl (int n) = ground arith
same_value_refl (bool b) = ground arith
same_value_refl (list xs) = same_items_refl xs
same_value_refl (tuple xs) = same_items_refl xs
same_value_refl (object n) = ==_refl n
