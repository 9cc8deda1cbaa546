-- ===== src/Settings/Codec.antt =====
-- The text codec of settings/schema.py: `decode_text` and `encode_text`.
pub mod Decimal
pub mod Typing
pub mod RoundTrip
use rheo_stream.Prelude.{
  String, Bool, true, false, not, List, [], ◌∷◌, map, Option, none, some, Result, ok, raise, ◌>>=◌,
  ◌>>◌, ◌≡◌, refl, str_eq, if◌then◌else◌, ◌==◌, elem,
}
use rheo_stream.Prelude.Int.{ℤ, pos, negsuc}
use rheo_stream.Prelude.Text.{lower, strip, split, join}
use rheo_stream.Settings.Value.{
  ValueType, str_type, int_type, bool_type, str_list_type, Value, str, int, bool, list, tuple, text,
  texts, all_text, Item, Error, value_error, type_error, setting_type,
}
use rheo_stream.Settings.Spec.{KeySpec, allows, check}
use Decimal.{parse_int, show_int}

-- `word in _TRUE_WORDS`, `word in _FALSE_WORDS`
read_bool : String → Option Bool
read_bool word =
    if elem word ("1" ∷ "true" ∷ "yes" ∷ "on" ∷ [])
    then some true
    else if elem word ("0" ∷ "false" ∷ "no" ∷ "off" ∷ [])
    then some false
    else none

-- `item.strip() for item in text.split(",") if item.strip()`
unfoldable pub read_items : List String → List String
read_items [] = []
read_items (item ∷ rest) =
    let more = read_items rest in
    let word = strip item in if str_eq word "" then more else word ∷ more

abbrev or_mismatch {ℓ} : {A : Type ℓ} → (A → Value) → Error → Option A → Result Error Value
or_mismatch f e none = raise e
or_mismatch f e (some a) = ok (f a)

coerce : ValueType → String → Error → Result Error Value
coerce str_type t e = ok (str t)
coerce int_type t e = or_mismatch int e (parse_int (strip t))
coerce bool_type t e = or_mismatch bool e (read_bool (lower (strip t)))
coerce str_list_type t e = ok (tuple (map text (read_items (split b',' t))))

unfoldable pub decode_text : KeySpec → String → Result Error Value
unfolding coerce read_bool
decode_text spec t = do
  value ← coerce spec.type t (setting_type spec.key)
  check (allows spec.choices value) (setting_type spec.key)
  ok value

-- `str(value)`, where `show` is Python's `str` on what is no text
abbrev pub py_str : (Value → String) → Value → String
py_str show (str s) = s
py_str show v = show v

-- `bool(value)`, for the types that a resolved setting has
abbrev truthy : Value → Bool
truthy (str s) = not (str_eq s "")
truthy (int (pos n)) = not (n == 0)
truthy (int (negsuc n)) = true
truthy (bool b) = b
truthy (list []) = false
truthy (list (x ∷ xs)) = true
truthy (tuple []) = false
truthy (tuple (x ∷ xs)) = true
truthy (Value.object n) = true

or_value_error : Option ℤ → Result Error String
or_value_error none = raise value_error
or_value_error (some n) = ok (show_int n)

join_items : List Item → Result Error String
join_items xs = if all_text xs then ok (join "," (texts xs)) else raise type_error

module _ (show : Value → String) where
  encode_as : ValueType → Value → Result Error String
  encode_as str_type v = ok (py_str show v)
  encode_as int_type (int n) = ok (show_int n)
  encode_as int_type (bool b) = ok (if b then "1" else "0")
  encode_as int_type (str s) = or_value_error (parse_int (strip s))
  encode_as int_type v = raise type_error
  encode_as bool_type v = ok (if truthy v then "true" else "false")
  encode_as str_list_type (list xs) = join_items xs
  encode_as str_list_type (tuple xs) = join_items xs
  encode_as str_list_type v = raise type_error

  unfoldable pub encode_text : KeySpec → Value → Result Error String
  unfolding encode_as or_value_error join_items
  encode_text spec v = encode_as spec.type v
