-- ===== src/Settings/Spec.antt =====
-- `KeySpec` of settings/schema.py, its checks at construction, and `check_value`.
use rheo_stream.Prelude.{
  String, code, Bool, true, false, not, ◌&&◌, ◌||◌, List, Option, none, some, Result, ok, raise,
  ◌>>=◌, ◌>>◌, ◌==◌, ◌≡◌, refl, arith, if◌then◌else◌,
}
use rheo_stream.Prelude.Text.{is_lower, is_digit}
use rheo_stream.Settings.Value.{
  Scope, Floor, ValueType, str_type, Value, Error, value_error, type_error, setting_type,
  freeze_value, matches_type, floor_type, same_type, is_choice, HasType, freeze_value-HasType,
}

-- `_KEY_SHAPE`: `inside` once the segment has its first letter.
key_shape_from : Bool → String → Bool
key_shape_from inside String.[] = inside
key_shape_from false (String.◌∷◌ c s) =
    let rest = key_shape_from true s in is_lower (code c) && rest
key_shape_from true (String.◌∷◌ c s) =
    let next = key_shape_from false s in
    let more = key_shape_from true s in
    if code c == b'.'
    then next
    else (is_lower (code c) || is_digit (code c) || code c == b'_') && more

unfoldable pub key_shape : String → Bool
unfolding key_shape_from
key_shape s = key_shape_from false s

pub record KeySpec : Type 0 where
  pub key : String
  pub type : ValueType
  pub scope : Scope
  pub floor : Option Floor
  pub explicit_per_workspace : Bool
  pub default : Value
  pub choices : Option (List String)

abbrev pub floor_fits : Option Floor → ValueType → Bool
floor_fits none t = true
floor_fits (some f) t = same_type (floor_type f) t

abbrev choices_fit : Option (List String) → ValueType → Bool
choices_fit none t = true
choices_fit (some cs) t = same_type t str_type

-- `choices is None or value in choices`
abbrev pub allows : Option (List String) → Value → Bool
allows none v = true
allows (some cs) v = is_choice v cs

abbrev pub check : Bool → Error → Result Error (Unit {0})
check true e = ok tt
check false e = raise e

-- `KeySpec.__post_init__`
unfoldable pub post_init : KeySpec → Result Error KeySpec
post_init spec = if not (key_shape spec.key) then raise value_error else do
  frozen ← freeze_value spec.default
  check (matches_type spec.type frozen) type_error
  check (floor_fits spec.floor spec.type) type_error
  check (choices_fit spec.choices spec.type) type_error
  check (allows spec.choices frozen) value_error
  ok (record spec { default = frozen })

-- A spec as `post_init` leaves it.
pub record IsDeclared (spec : KeySpec) : Type 0 where
  pub shaped : key_shape spec.key ≡ true
  pub typed : HasType spec.type spec.default
  pub floored : floor_fits spec.floor spec.type ≡ true
  pub chosen : allows spec.choices spec.default ≡ true

unfoldable pub check_value : KeySpec → Value → Result Error Value
check_value spec value =
    if not (matches_type spec.type value) then raise (setting_type spec.key) else do
      frozen ← freeze_value value
      check (allows spec.choices frozen) (setting_type spec.key)
      ok frozen

-- A spec that construction lets through has a key of the right shape, a default of its type and
-- among its choices, and a floor that fits its type.
pub post_init-IsDeclared : (s r : KeySpec) → post_init s ≡ ok r → IsDeclared r
unfolding post_init
post_init-IsDeclared s r h = go (freeze_value s.default) refl
  where
    go : (o : Result Error Value) → freeze_value s.default ≡ o → IsDeclared r
    go (raise e) q = ground arith
    go (ok w) q = record {
      shaped = ground arith;
      typed = ground (arith, freeze_value-HasType s.type s.default w q);
      floored = ground arith;
      chosen = ground arith;
    }

pub check-eq-ok : (b : Bool) (e : Error) {u : Unit {0}} → check b e ≡ ok u → b ≡ true
check-eq-ok true e h = refl
check-eq-ok false e h = cc
