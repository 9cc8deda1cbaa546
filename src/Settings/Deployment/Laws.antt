-- ===== src/Settings/Deployment/Laws.antt =====
-- Every entry of the deployment layer is for a declared key and has its type.
use rheo_stream.Prelude.{
  String, true, List, [], ◌∷◌, Option, none, some, ok, ◌≡◌, sym, ◌∙◌, arith, inl, inr, ok_injective,
  ap, Result-cases, >>=-eq-ok,
}
use rheo_stream.Prelude.Dict.{
  Dict, lookup, insert, AllEntries, AllEntries-insert, AllEntries-update,
}
use rheo_stream.Settings.Value.{
  Value, HasType, matches_type, freeze_value, freeze_value-HasType, matches_type-freeze,
}
use rheo_stream.Settings.Spec.{KeySpec, check_value}
use rheo_stream.Settings.Codec.{decode_text}
use rheo_stream.Settings.Codec.Typing.{decode_text-HasType}
use rheo_stream.Settings.Registry
use rheo_stream.Settings.Registry.{Registry, specs, or_undeclared}
use rheo_stream.Settings.Registry.Laws.{IsValid, AreListed, specs-AreListed}
use rheo_stream.Settings.Deployment.{
  Deployment, Table, load_entries, load_deployment_toml, read_variable, read_variables,
  read_profile, refuse_strays, load_environment, deployment_layer, profile_key, profile_variable,
  flatten_table, chosen, env_variable_names,
}

-- The key is declared, and the value has its type.
abbrev pub Declares : Registry → String → Value → Type 0
Declares reg k v = (s : KeySpec) × (lookup k reg.declared ≡ some s) × HasType s.type v

pub check_value-HasType :
    (spec : KeySpec) (v w : Value) → check_value spec v ≡ ok w → HasType spec.type w
unfolding check_value
check_value-HasType spec v w h = elim (Result-cases (freeze_value v)) [
  | inr (e, failed) ↦ ground (arith, failed)
  | inl (u, frozen) ↦
      let same : u ≡ w = ground (arith, frozen) in
      let passed : matches_type spec.type v ≡ true = ground (arith, frozen) in
      rw (← same) (
        freeze_value-HasType spec.type v u frozen
          (sym (matches_type-freeze spec.type v u frozen) ∙ passed))
]

get-found :
    (reg : Registry) (key : String) (s : KeySpec)
    → Registry.get reg key ≡ ok s
    → lookup key reg.declared ≡ some s
unfolding Registry.get
get-found reg key s h = ground arith

load_entries-Declares :
    (reg : Registry) (entries layer out : Dict Value)
    → AllEntries (Declares reg) layer
    → load_entries reg entries layer ≡ ok out
    → AllEntries (Declares reg) out
unfolding load_entries
load_entries-Declares reg [] layer out h e = rw (← ok_injective e) h
load_entries-Declares reg ((key, v) ∷ rest) layer out h e =
    let (spec, found, e') = >>=-eq-ok (Registry.get reg key) _ e in
    let (w, checked, e'') = >>=-eq-ok (check_value spec v) _ e' in
    load_entries-Declares reg rest (insert key w layer) out
      (AllEntries-insert (Declares reg) key w layer
        (spec, get-found reg key spec found, check_value-HasType spec v w checked) h)
      e''

load_deployment_toml-Declares :
    (reg : Registry) (t : Option Table) (out : Dict Value)
    → load_deployment_toml reg t ≡ ok out
    → AllEntries (Declares reg) out
unfolding load_deployment_toml
load_deployment_toml-Declares reg none out e = rw (← ok_injective e) tt
load_deployment_toml-Declares reg (some t) out e =
    load_entries-Declares reg (flatten_table t "") [] out tt e

read_variable-Declares :
    (reg : Registry) (spec : KeySpec) (t : Option String) (layer out : Dict Value)
    → lookup spec.key reg.declared ≡ some spec
    → AllEntries (Declares reg) layer
    → read_variable spec t layer ≡ ok out
    → AllEntries (Declares reg) out
unfolding read_variable
read_variable-Declares reg spec none layer out found h e = rw (← ok_injective e) h
read_variable-Declares reg spec (some t) layer out found h e =
    let (v, decoded, e') = >>=-eq-ok (decode_text spec t) _ e in
    rw (← ok_injective e') (
      AllEntries-insert (Declares reg) spec.key v layer
        (spec, found, (decode_text-HasType spec t v decoded).0) h)

read_variables-Declares :
    (reg : Registry) (ss : List KeySpec) (environ : Dict String) (layer : Dict Value)
    (consumed : List String) (out : Dict Value) (names : List String)
    → AreListed reg ss
    → AllEntries (Declares reg) layer
    → read_variables ss environ layer consumed ≡ ok (out, names)
    → AllEntries (Declares reg) out
unfolding read_variables
read_variables-Declares reg [] environ layer consumed out names listed h e =
    rw (← ap (λ p. p.0) (ok_injective e)) h
read_variables-Declares reg (spec ∷ ss) environ layer consumed out names listed h e =
    let (mid, read, e') =
      >>=-eq-ok (read_variable spec (chosen environ (env_variable_names spec.key)) layer) _ e in
    read_variables-Declares reg ss environ mid _ out names listed.1
      (read_variable-Declares reg spec _ layer mid listed.0 h read) e'

read_profile-Declares :
    (reg : Registry) (t : Option String) (layer out : Dict Value)
    → AllEntries (Declares reg) layer
    → read_profile reg t layer ≡ ok out
    → AllEntries (Declares reg) out
unfolding read_profile
read_profile-Declares reg none layer out h e = rw (← ok_injective e) h
read_profile-Declares reg (some t) layer out h e =
    let (spec, found, e') = >>=-eq-ok (Registry.get reg profile_key) _ e in
    let (v, decoded, e'') = >>=-eq-ok (decode_text spec t) _ e' in
    rw (← ok_injective e'') (
      AllEntries-insert (Declares reg) profile_key v layer
        (spec, get-found reg profile_key spec found, (decode_text-HasType spec t v decoded).0) h)

refuse_strays-eq :
    (names : List String) (layer out : Dict Value)
    → refuse_strays names layer ≡ ok out
    → layer ≡ out
unfolding refuse_strays
refuse_strays-eq [] layer out e = ok_injective e
refuse_strays-eq (n ∷ ns) layer out e = cc

load_environment-Declares :
    (reg : Registry) (environ : Dict String) (out : Dict Value)
    → IsValid reg
    → load_environment reg environ ≡ ok out
    → AllEntries (Declares reg) out
unfolding load_environment
load_environment-Declares reg environ out valid e =
    let ((layer, consumed), read, e') = >>=-eq-ok (read_variables (specs reg) environ [] []) _ e in
    let (layer', profiled, e'') =
      >>=-eq-ok (read_profile reg (lookup profile_variable environ) layer) _ e' in
    rw (← refuse_strays-eq _ layer' out e'') (
      read_profile-Declares reg _ layer layer'
        (read_variables-Declares reg (specs reg) environ [] [] layer consumed
          (specs-AreListed reg valid) tt read)
        profiled)

-- Over a valid table, every entry of a deployment layer that loads, from the file or the
-- environment, is of a declared key and has its type.
pub deployment_layer-Declares :
    (reg : Registry) (dep : Deployment) (layer : Dict Value)
    → IsValid reg
    → deployment_layer reg dep ≡ ok layer
    → AllEntries (Declares reg) layer
unfolding deployment_layer
deployment_layer-Declares reg dep layer valid e =
    let (base, loaded, e') = >>=-eq-ok (load_deployment_toml reg dep.toml) _ e in
    let (env, read, e'') = >>=-eq-ok (load_environment reg dep.environ) _ e' in
    rw (← ok_injective e'') (
      AllEntries-update (Declares reg) base env
        (load_deployment_toml-Declares reg dep.toml base loaded)
        (load_environment-Declares reg dep.environ env valid read))
