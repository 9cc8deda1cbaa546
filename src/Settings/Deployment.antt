-- ===== src/Settings/Deployment.antt =====
-- settings/deployment.py: the deployment layer, from the parsed `deployment.toml` and the
-- environment; with `flatten_table` of settings/defaults.py.
pub mod Laws
use rheo_stream.Prelude.{
  String, ◌&&◌, List, [], ◌∷◌, ◌++◌, Option, none, some, Result, ok, raise, ◌>>=◌, elem, keep,
  sorted, is_some, not,
}
use Prim.Native.String
use text.Mathlib.Text.{starts_with}
use rheo_stream.Prelude.Dict.{Dict, lookup, insert, keys, update}
use rheo_stream.Prelude.Text.{lower, upper, dots_to_bars, bars_to_dots, drop_chars}
use rheo_stream.Settings.Value.{Value, Error, setting_undeclared}
use rheo_stream.Settings.Spec.{KeySpec, check_value}
use rheo_stream.Settings.Codec.{decode_text, py_str}
use rheo_stream.Settings.Registry
use rheo_stream.Settings.Registry.{Registry, specs}

abbrev concat : String → String → String
concat s t = String.◌++◌ s t

-- A parsed TOML table: its entries in order, each a value or a table.
pub data Table : Type 0 where
  end : Table
  entry : String → Value → Table → Table
  table : String → Table → Table → Table

unfoldable pub flatten_table : Table → String → Dict Value
flatten_table end prefix = []
flatten_table (entry name value rest) prefix =
    update ((concat prefix name, value) ∷ []) (flatten_table rest prefix)
flatten_table (table name inner rest) prefix =
    update (flatten_table inner (concat (concat prefix name) ".")) (flatten_table rest prefix)

-- What the operator provides: the environment, and the table in `deployment.toml` where that file
-- exists under the data root.
pub record Deployment : Type 0 where
  pub environ : Dict String
  pub toml : Option Table

abbrev env_prefix : String
env_prefix = "RHEO__"

abbrev pub profile_variable : String
profile_variable = "RHEO_PROFILE"

abbrev pub profile_key : String
profile_key = "profile"

unfoldable pub env_variable_names : String → String × String
env_variable_names key = let exact = concat env_prefix (dots_to_bars key) in (exact, upper exact)

-- The loop of `load_deployment_toml`.
load_entries : Registry → Dict Value → Dict Value → Result Error (Dict Value)
load_entries reg [] layer = ok layer
load_entries reg ((key, value) ∷ rest) layer = do
  spec ← Registry.get reg key
  checked ← check_value spec value
  load_entries reg rest (insert key checked layer)

unfoldable pub load_deployment_toml : Registry → Option Table → Result Error (Dict Value)
unfolding load_entries
load_deployment_toml reg none = ok []
load_deployment_toml reg (some t) = load_entries reg (flatten_table t "") []

-- The variable that is read for a key: the exact form first.
chosen : Dict String → String × String → Option String
chosen environ (exact, upper_case) = elim (lookup exact environ) [
  | some t ↦ some t
  | none ↦ lookup upper_case environ
]

abbrev present : Dict String → String × String → List String
present environ (exact, upper_case) =
    keep (λ n. is_some (lookup n environ)) (exact ∷ upper_case ∷ [])

read_variable : KeySpec → Option String → Dict Value → Result Error (Dict Value)
read_variable spec none layer = ok layer
read_variable spec (some t) layer = do value ← decode_text spec t; ok (insert spec.key value layer)

-- The loop of `load_environment` over the specs, with the layer and the consumed names.
read_variables :
    List KeySpec → Dict String → Dict Value → List String → Result Error (Dict Value × List String)
read_variables [] environ layer consumed = ok (layer, consumed)
read_variables (spec ∷ rest) environ layer consumed = do
  let names = env_variable_names spec.key
  layer' ← read_variable spec (chosen environ names) layer
  read_variables rest environ layer' (present environ names ++ consumed)

read_profile : Registry → Option String → Dict Value → Result Error (Dict Value)
read_profile reg none layer = ok layer
read_profile reg (some t) layer = do
  spec ← Registry.get reg profile_key
  value ← decode_text spec t
  ok (insert profile_key value layer)

stray_names : Dict String → List String → List String
stray_names environ consumed =
    sorted (keep (λ n. starts_with n env_prefix && not (elem n consumed)) (keys environ))

refuse_strays : List String → Dict Value → Result Error (Dict Value)
refuse_strays [] layer = ok layer
refuse_strays (first ∷ more) layer =
    raise (setting_undeclared (lower (bars_to_dots (drop_chars 6 first))))

unfoldable pub load_environment : Registry → Dict String → Result Error (Dict Value)
unfolding read_variables read_variable read_profile refuse_strays stray_names chosen
load_environment reg environ = do
  (layer, consumed) ← read_variables (specs reg) environ [] []
  layer' ← read_profile reg (lookup profile_variable environ) layer
  refuse_strays (stray_names environ consumed) layer'

unfoldable pub deployment_layer : Registry → Deployment → Result Error (Dict Value)
deployment_layer reg dep = do
  base ← load_deployment_toml reg dep.toml
  env ← load_environment reg dep.environ
  ok (update base env)

or_default : Option Value → Value → Value
or_default none d = d
or_default (some v) d = v

-- `current_profile()`
unfoldable pub current_profile : (Value → String) → Registry → Deployment → Result Error String
unfolding or_default
current_profile show reg dep = do
  layer ← deployment_layer reg dep
  spec ← Registry.get reg profile_key
  ok (py_str show (or_default (lookup profile_key layer) spec.default))
