-- ===== src/Settings/Resolver.antt =====
-- `resolve` and `ResolvedSettings` of settings/resolver.py.
pub mod Rows
pub mod Laws
use rheo_stream.Prelude.{
  ℕ, String, Bool, not, List, [], ◌∷◌, Option, none, some, Result, ok, raise, ◌>>=◌, if◌then◌else◌,
}
use rheo_stream.Prelude.Int.{ℤ}
use rheo_stream.Prelude.Dict.{Dict, lookup, insert, update}
use rheo_stream.Settings.Value.{
  Scope, workspace, member, Floor, ValueType, str_type, int_type, bool_type, str_list_type, Value,
  int, bool, tuple, list, Error, key_error, assertion_error, setting_type, setting_undeclared,
  same_scope, same_type, thaw_value,
}
use rheo_stream.Settings.Spec.{KeySpec}
use rheo_stream.Settings.Codec.{decode_text, py_str}
use rheo_stream.Settings.Registry
use rheo_stream.Settings.Registry.{Registry, specs}
use rheo_stream.Settings.Deployment.{Deployment, deployment_layer}
use rheo_stream.Settings.Floor.{apply_floor}

-- Identifiers are compared and nothing else.
abbrev pub Uuid : Type 0
Uuid = ℕ

-- The protocol `OverrideSource`.
pub record OverrideSource : Type 0 where
  pub workspace_overrides : Uuid → Result Error (Dict String)
  pub member_overrides : Uuid → Uuid → Result Error (Dict String)

or_key_error : Option Value → Result Error Value
or_key_error none = raise key_error
or_key_error (some v) = ok v

-- The override under the floor of its key, if it has one.
floored : Option Floor → Dict Value → String → Value → Result Error Value
floored none values key value = ok value
floored (some f) values key value = do
  base ← or_key_error (lookup key values)
  apply_floor f base value

-- One round of `_apply_rows`: `none` for a row that is ignored.
row_value : Registry → Scope → Dict Value → String → String → Option (Result Error Value)
row_value reg scope values key t = elim (lookup key reg.declared) [
  | none ↦ none
  | some spec ↦ if not (same_scope spec.scope scope) then none else elim (decode_text spec t) [
    | raise e ↦ none
    | ok value ↦ some (floored spec.floor values key value)
  ]
]

store : Dict Value → String → Option (Result Error Value) → Result Error (Dict Value)
store values key none = ok values
store values key (some (raise e)) = raise e
store values key (some (ok v)) = ok (insert key v values)

unfoldable pub apply_rows : Registry → Scope → Dict String → Dict Value → Result Error (Dict Value)
unfolding row_value store floored or_key_error
apply_rows reg scope [] values = ok values
apply_rows reg scope ((key, t) ∷ rows) values = do
  values' ← store values key (row_value reg scope values key t)
  apply_rows reg scope rows values'

defaults_of : List KeySpec → Dict Value
defaults_of [] = []
defaults_of (s ∷ ss) = insert s.key s.default (defaults_of ss)

member_layer :
    Registry → OverrideSource → Uuid → Option Uuid → Dict Value → Result Error (Dict Value)
member_layer reg source w none values = ok values
member_layer reg source w (some a) values = do
  rows ← source.member_overrides w a
  apply_rows reg member rows values

override_layers :
    Registry
    → Option OverrideSource
    → Option Uuid
    → Option Uuid
    → Dict Value
    → Result Error (Dict Value)
override_layers reg (some source) (some w) account values = do
  rows ← source.workspace_overrides w
  values' ← apply_rows reg workspace rows values
  member_layer reg source w account values'
override_layers reg _ _ account values = ok values

-- Package default, then the deployment layer.
unfoldable pub base_values : Registry → Deployment → Result Error (Dict Value)
unfolding defaults_of
base_values reg dep = do
  layer ← deployment_layer reg dep
  ok (update (defaults_of (specs reg)) layer)

unfoldable pub resolve :
    Registry
    → Deployment
    → Option Uuid
    → Option Uuid
    → Option OverrideSource
    → Result Error (Dict Value)
unfolding override_layers member_layer
resolve reg dep workspace_id account_id source = do
  values ← base_values reg dep
  override_layers reg source workspace_id account_id values

-- `ResolvedSettings._typed`
typed : Registry → Dict Value → String → ValueType → Result Error Value
typed reg values key t = do
  spec ← Registry.get reg key
  if same_type spec.type t then or_key_error (lookup key values) else raise (setting_type key)

as_int : Value → Result Error ℤ
as_int (int n) = ok n
as_int v = raise assertion_error

as_bool : Value → Result Error Bool
as_bool (bool b) = ok b
as_bool v = raise assertion_error

as_list : Value → Result Error Value
as_list (tuple xs) = ok (list xs)
as_list v = raise assertion_error

-- `__getitem__`
unfoldable pub get_item : Dict Value → String → Result Error Value
get_item values key = elim (lookup key values) [
  | none ↦ raise (setting_undeclared key)
  | some v ↦ ok (thaw_value v)
]

unfoldable pub get_str : (Value → String) → Registry → Dict Value → String → Result Error String
unfolding typed or_key_error
get_str show reg values key = do value ← typed reg values key str_type; ok (py_str show value)

-- A value that is no int fails the assertion after `_typed`.
unfoldable pub get_int : Registry → Dict Value → String → Result Error ℤ
unfolding typed or_key_error as_int
get_int reg values key = do value ← typed reg values key int_type; as_int value

unfoldable pub get_bool : Registry → Dict Value → String → Result Error Bool
unfolding typed or_key_error as_bool
get_bool reg values key = do value ← typed reg values key bool_type; as_bool value

unfoldable pub get_list : Registry → Dict Value → String → Result Error Value
unfolding typed or_key_error as_list
get_list reg values key = do value ← typed reg values key str_list_type; as_list value
