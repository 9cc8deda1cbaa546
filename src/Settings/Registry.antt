-- ===== src/Settings/Registry.antt =====
-- `SettingsRegistry` of settings/schema.py: the table of declared keys.
pub mod Laws
use rheo_stream.Prelude.{
  String, Bool, true, false, ◌&&◌, List, [], ◌∷◌, Option, none, some, Result, ok, raise, ◌>>=◌,
  ◌>>◌, str_eq, if◌then◌else◌, sorted,
}
use rheo_stream.Prelude.Dict.{Dict, lookup, insert, keys}
use rheo_stream.Settings.Value.{
  Error, value_error, setting_undeclared, setting_redeclared, setting_origin_refused, same_scope,
  same_type, same_floor, same_value,
}
use rheo_stream.Settings.Spec.{KeySpec, check}

abbrev pub core_origin : String
core_origin = "core"

abbrev pub test_harness_origin : String
test_harness_origin = "test_harness"

pub record Registry : Type 0 where
  pub declared : Dict KeySpec
  pub origins : Dict String

abbrev pub empty : Registry
empty = record { declared = []; origins = [] }

abbrev pub same_texts : List String → List String → Bool
same_texts [] [] = true
same_texts (x ∷ xs) (y ∷ ys) = str_eq x y && same_texts xs ys
same_texts _ _ = false

abbrev pub same_choices : Option (List String) → Option (List String) → Bool
same_choices none none = true
same_choices (some xs) (some ys) = same_texts xs ys
same_choices _ _ = false

abbrev same_bool : Bool → Bool → Bool
same_bool true true = true
same_bool false false = true
same_bool _ _ = false

-- `existing == spec`
pub same_spec : KeySpec → KeySpec → Bool
same_spec a b =
    str_eq a.key b.key
    && same_type a.type b.type
    && same_scope a.scope b.scope
    && same_floor a.floor b.floor
    && same_bool a.explicit_per_workspace b.explicit_per_workspace
    && same_value a.default b.default
    && same_choices a.choices b.choices

abbrev pub is_origin : Option String → String → Bool
is_origin none o = false
is_origin (some p) o = str_eq p o

-- The test on the resolved profile, which is read only for the harness origin.
check_profile : Result Error String → String → String → Result Error (Unit {0})
check_profile profile key origin =
    if str_eq origin test_harness_origin
    then (do name ← profile; check (str_eq name "test") (setting_origin_refused key))
    else ok tt

-- The end of `register`, over the spec that stands under the key.
add : Option KeySpec → Registry → KeySpec → String → Result Error Registry
add none reg spec origin = ok (record {
  declared = insert spec.key spec reg.declared;
  origins = insert spec.key origin reg.origins;
})
add (some existing) reg spec origin =
    if same_spec existing spec && is_origin (lookup spec.key reg.origins) origin
    then ok reg
    else raise (setting_redeclared spec.key)

-- `register`; `profile` is what `current_profile()` returns or raises.
unfoldable pub register : Result Error String → Registry → KeySpec → String → Result Error Registry
unfolding check_profile add same_spec
register profile reg spec origin = if str_eq origin "" then raise value_error else do
  check_profile profile spec.key origin
  add (lookup spec.key reg.declared) reg spec origin

abbrev pub or_undeclared : String → Option KeySpec → Result Error KeySpec
or_undeclared key none = raise (setting_undeclared key)
or_undeclared key (some spec) = ok spec

-- `get`
unfoldable pub get : Registry → String → Result Error KeySpec
get reg key = or_undeclared key (lookup key reg.declared)

-- `keys(origin=o)`
unfoldable pub keys_of_origin : String → Dict String → List String
keys_of_origin o [] = []
keys_of_origin o ((k, p) ∷ rest) =
    let more = keys_of_origin o rest in if str_eq p o then k ∷ more else more

pick : Dict KeySpec → List String → List KeySpec
pick declared [] = []
pick declared (k ∷ ks) =
    let more = pick declared ks in elim (lookup k declared) [ none ↦ more | some s ↦ s ∷ more ]

-- `specs()`: every spec, by its key
unfoldable pub specs : Registry → List KeySpec
unfolding pick
specs reg = pick reg.declared (sorted (keys reg.declared))

-- `explicit_per_workspace()`
unfoldable pub explicit_only : List KeySpec → List KeySpec
explicit_only [] = []
explicit_only (s ∷ ss) =
    let more = explicit_only ss in if s.explicit_per_workspace then s ∷ more else more
