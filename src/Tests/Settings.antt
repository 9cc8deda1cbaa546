-- ===== src/Tests/Settings.antt =====
-- The settings layer on the key `identity.token_max_days.cli`, and the production keys.
use rheo_stream.Prelude.{
  ℕ, zero, suc, String, Bool, true, false, List, [], ◌∷◌, map, Option, none, some, Result, ok,
  raise, ◌≡◌, ◌≢◌, refl, is_some, ◌⊎◌, ap, if◌then◌else◌, str_eq,
}
use rheo_stream.Prelude.Int.{pos, negsuc}
use rheo_stream.Prelude.Dict.{Dict, lookup, insert, keys, AllEntries}
use rheo_stream.Settings.Value.{
  Scope, deployment, workspace, Floor, min_floor, union_floor, ValueType, int_type, str_list_type,
  Value, int, bool, str, tuple, Item, text, Error, HasType, value_error,
}
use rheo_stream.Settings.Spec.{KeySpec, post_init, IsDeclared, post_init-IsDeclared}
use rheo_stream.Settings.Codec.{decode_text, encode_text}
use rheo_stream.Settings.Codec.RoundTrip.{
  IsClean, IsEncodable, encode_text-decode_text, decode_text-encode_text, decode_text-ne-unclean,
}
use rheo_stream.Settings.Registry.{
  Registry, empty, register, core_origin, test_harness_origin, same_spec, is_origin,
}
use rheo_stream.Settings.Registry.Laws.{
  IsValid, IsValid-empty, register-IsValid, register_keeps, register_twice, register_harness,
}
use rheo_stream.Settings.Deployment.{Deployment, Table, end, deployment_layer}
use rheo_stream.Settings.Deployment.Laws.{Declares, deployment_layer-Declares}
use rheo_stream.Settings.Floor.{apply_floor}
use rheo_stream.Settings.Floor.Laws.{Within, SameMeaning, apply_floor-Within, apply_floor_exact}
use rheo_stream.Settings.Resolver.{OverrideSource, base_values, resolve, apply_rows}
use rheo_stream.Settings.Resolver.Rows.{IsGood}
use rheo_stream.Settings.Resolver.Laws.{resolve-IsGood}
use rheo_stream.Settings.WritePath.{validate_override, accepted}
use rheo_stream.Settings.WritePath.Laws.{
  IsAdmitted, validate_override-IsAdmitted, accepted_takes_effect,
}
use rheo_stream.Settings.Keys.{production_registry, register_all}

abbrev days : String
days = "identity.token_max_days.cli"

abbrev days_spec : KeySpec
days_spec = record {
  key = days;
  type = int_type;
  scope = workspace;
  floor = some min_floor;
  explicit_per_workspace = false;
  default = int (pos 90);
  choices = none;
}

-- Only a `str()` of an object that is no text, number or Boolean would need this.
abbrev show : Value → String
show v = ""

abbrev settings : Registry
settings = record { declared = (days, days_spec) ∷ []; origins = (days, core_origin) ∷ [] }

days_declared : post_init days_spec ≡ ok days_spec
unfolding post_init rheo_stream.Settings.Spec.key_shape rheo_stream.Settings.Value.freeze_value
    rheo_stream.Settings.Value.matches_type
days_declared = refl

post_init-IsDeclared_example : IsDeclared days_spec
post_init-IsDeclared_example = post_init-IsDeclared days_spec days_spec days_declared

days_registered : register (ok "production") empty days_spec core_origin ≡ ok settings
unfolding register lookup insert
days_registered = refl

settings-IsValid : IsValid settings
settings-IsValid =
    register-IsValid (ok "production") empty days_spec core_origin settings days_registered
      IsValid-empty (post_init-IsDeclared days_spec days_spec days_declared)

register-IsValid_example : IsValid settings
register-IsValid_example =
    register-IsValid (ok "production") empty days_spec core_origin settings days_registered
      IsValid-empty (post_init-IsDeclared days_spec days_spec days_declared)

register_twice_example : register (ok "production") settings days_spec core_origin ≡ ok settings
register_twice_example =
    register_twice (ok "production") empty days_spec core_origin settings days_registered

harness_registered :
    register (ok "test") empty days_spec test_harness_origin
    ≡ ok (record { declared = (days, days_spec) ∷ []; origins = (days, test_harness_origin) ∷ [] })
unfolding register lookup insert
harness_registered = refl

register_harness_example : ◌≡◌ {A = Result Error String} (ok "test") (ok "test")
register_harness_example = register_harness (ok "test") empty days_spec _ harness_registered

abbrev agent_spec : KeySpec
agent_spec = record {
  key = "agent.hosts";
  type = str_list_type;
  scope = workspace;
  floor = some union_floor;
  explicit_per_workspace = false;
  default = tuple (text "a" ∷ []);
  choices = none;
}

abbrev two_settings : Registry
two_settings = record {
  declared = (days, days_spec) ∷ ("agent.hosts", agent_spec) ∷ [];
  origins = (days, core_origin) ∷ ("agent.hosts", "agent") ∷ [];
}

agent_registered : register (ok "production") settings agent_spec "agent" ≡ ok two_settings
unfolding register lookup insert
agent_registered = refl

days_found : lookup days settings.declared ≡ some days_spec
unfolding lookup
days_found = refl

register_keeps_example :
    (lookup days two_settings.declared ≡ some days_spec)
    × (lookup days two_settings.origins ≡ lookup days settings.origins)
register_keeps_example =
    register_keeps (ok "production") settings agent_spec "agent" two_settings agent_registered days
      days_spec days_found

abbrev installation : Deployment
installation = record { environ = ("RHEO__identity__token_max_days__cli", "60") ∷ []; toml = none }

installation_layer : deployment_layer settings installation ≡ ok ((days, int (pos 60)) ∷ [])
unfolding deployment_layer rheo_stream.Settings.Deployment.load_deployment_toml
    rheo_stream.Settings.Deployment.load_environment rheo_stream.Settings.Registry.specs
    rheo_stream.Prelude.sorted keys lookup rheo_stream.Settings.Deployment.env_variable_names
    rheo_stream.Prelude.Text.dots_to_bars decode_text rheo_stream.Settings.Codec.Decimal.parse_int
    rheo_stream.Prelude.Text.strip rheo_stream.Prelude.keep rheo_stream.Prelude.elem
    rheo_stream.Prelude.Dict.update insert
installation_layer = refl

deployment_layer-Declares_example : AllEntries (Declares settings) ((days, int (pos 60)) ∷ [])
deployment_layer-Declares_example =
    deployment_layer-Declares settings installation ((days, int (pos 60)) ∷ []) settings-IsValid
      installation_layer

installation_base : base_values settings installation ≡ ok ((days, int (pos 60)) ∷ [])
unfolding base_values deployment_layer rheo_stream.Settings.Deployment.load_deployment_toml
    rheo_stream.Settings.Deployment.load_environment rheo_stream.Settings.Registry.specs
    rheo_stream.Prelude.sorted keys lookup rheo_stream.Settings.Deployment.env_variable_names
    rheo_stream.Prelude.Text.dots_to_bars decode_text rheo_stream.Settings.Codec.Decimal.parse_int
    rheo_stream.Prelude.Text.strip rheo_stream.Prelude.keep rheo_stream.Prelude.elem
    rheo_stream.Prelude.Dict.update insert rheo_stream.Prelude.Text.bars_to_dots
    rheo_stream.Prelude.Text.is_space rheo_stream.Prelude.Text.lower rheo_stream.Prelude.Text.split
    rheo_stream.Prelude.Text.strip_left rheo_stream.Prelude.Text.strip_right
    rheo_stream.Prelude.Text.upper rheo_stream.Settings.Codec.read_items
    rheo_stream.Settings.Deployment.flatten_table rheo_stream.Settings.Registry.get
    rheo_stream.Settings.Spec.check_value rheo_stream.Settings.Value.freeze_value
    rheo_stream.Settings.Value.matches_type
installation_base = refl

-- A workspace that asks for 90 days, which the deployment's 60 do not allow.
abbrev generous : OverrideSource
generous = record {
  workspace_overrides = λ w. ok ((days, "90") ∷ []);
  member_overrides = λ w a. ok [];
}

resolve-IsGood_example :
    (values : Dict Value) × (resolve settings installation (some 1) none (some generous)
      ≡ ok values)
    × IsGood settings ((days, int (pos 60)) ∷ []) values
resolve-IsGood_example =
    resolve-IsGood settings installation (some 1) none (some generous) ((days, int (pos 60)) ∷ [])
      settings-IsValid installation_base ((days, "90") ∷ [], refl)

resolve_floored :
    resolve settings installation (some 1) none (some generous) ≡ ok ((days, int (pos 60)) ∷ [])
unfolding resolve base_values deployment_layer rheo_stream.Settings.Deployment.load_deployment_toml
    rheo_stream.Settings.Deployment.load_environment rheo_stream.Settings.Registry.specs
    rheo_stream.Prelude.sorted keys lookup rheo_stream.Settings.Deployment.env_variable_names
    rheo_stream.Prelude.Text.dots_to_bars decode_text rheo_stream.Settings.Codec.Decimal.parse_int
    rheo_stream.Prelude.Text.strip rheo_stream.Prelude.keep rheo_stream.Prelude.elem apply_rows
    insert rheo_stream.Prelude.Dict.update rheo_stream.Prelude.Text.bars_to_dots
    rheo_stream.Prelude.Text.is_space rheo_stream.Prelude.Text.lower rheo_stream.Prelude.Text.split
    rheo_stream.Prelude.Text.strip_left rheo_stream.Prelude.Text.strip_right
    rheo_stream.Prelude.Text.upper rheo_stream.Settings.Codec.read_items
    rheo_stream.Settings.Deployment.flatten_table apply_floor rheo_stream.Settings.Floor.elem_item
    rheo_stream.Settings.Floor.keep_items rheo_stream.Settings.Registry.get
    rheo_stream.Settings.Spec.check_value rheo_stream.Settings.Value.freeze_value
    rheo_stream.Settings.Value.matches_type
resolve_floored = refl

write_accepted :
    validate_override show settings days (int (pos 30)) (int (pos 60)) workspace
    ≡ ok (accepted days (int (pos 30)) "30" int_type)
unfolding validate_override lookup rheo_stream.Settings.Value.matches_type
    rheo_stream.Settings.Value.freeze_value rheo_stream.Settings.Spec.check_value
    rheo_stream.Settings.Floor.is_looser encode_text rheo_stream.Settings.Codec.Decimal.show_int
write_accepted = refl

validate_override-IsAdmitted_example :
    IsAdmitted show settings days (int (pos 60)) workspace (int (pos 30)) "30" int_type
validate_override-IsAdmitted_example =
    validate_override-IsAdmitted show settings days (int (pos 30)) (int (pos 60)) workspace days
      (int (pos 30)) "30" int_type write_accepted

days_at : lookup days ((days, int (pos 60)) ∷ []) ≡ some (int (pos 60))
unfolding lookup
days_at = refl

accepted_takes_effect_example :
    (out : Dict Value) × (apply_rows settings workspace
        ((days, "30") ∷ [])
        ((days, int (pos 60)) ∷ [])
      ≡ ok out)
    × (w : Value) × (lookup days out ≡ some w)
    × SameMeaning int_type w (int (pos 30))
unfolding rheo_stream.Settings.Value.freeze_value
accepted_takes_effect_example =
    accepted_takes_effect show settings days (int (pos 30)) (int (pos 60)) workspace days
      (int (pos 30)) "30" int_type write_accepted settings-IsValid tt ((days, int (pos 60)) ∷ [])
      (int (pos 60)) days_at refl (pos 60, refl)

days_in_choices : encode_text show days_spec (int (negsuc 4)) ≡ ok "-5"
unfolding encode_text rheo_stream.Settings.Codec.Decimal.show_int
days_in_choices = refl

IsClean-a : IsClean "a"
unfolding rheo_stream.Prelude.Text.strip
IsClean-a = ((refl, tt), refl, λ e. cc)

IsClean-b : IsClean "b"
unfolding rheo_stream.Prelude.Text.strip
IsClean-b = ((refl, tt), refl, λ e. cc)

encode_text-decode_text_example :
    (t : String) × (encode_text show agent_spec (tuple (text "a" ∷ text "b" ∷ [])) ≡ ok t)
    × (decode_text agent_spec t ≡ ok (tuple (text "a" ∷ text "b" ∷ [])))
encode_text-decode_text_example =
    encode_text-decode_text show agent_spec (tuple (text "a" ∷ text "b" ∷ []))
      ("a" ∷ "b" ∷ [], refl) refl (IsClean-a, (IsClean-b, tt))

spaced_decodes : decode_text agent_spec " a , b," ≡ ok (tuple (text "a" ∷ text "b" ∷ []))
unfolding decode_text rheo_stream.Settings.Codec.read_items rheo_stream.Prelude.Text.split
    rheo_stream.Prelude.Text.strip
spaced_decodes = refl

decode_text-encode_text_example :
    (u : String) × (encode_text show agent_spec (tuple (text "a" ∷ text "b" ∷ [])) ≡ ok u)
    × (decode_text agent_spec u ≡ ok (tuple (text "a" ∷ text "b" ∷ [])))
decode_text-encode_text_example =
    decode_text-encode_text show agent_spec " a , b," (tuple (text "a" ∷ text "b" ∷ []))
      spaced_decodes

-- The text of a list with the item "a,b" is "a,b", which is another list.
comma_encodes : encode_text show agent_spec (tuple (text "a,b" ∷ [])) ≡ ok "a,b"
unfolding encode_text rheo_stream.Prelude.Text.join
comma_encodes = refl

comma_unclean : ¬ IsEncodable (tuple (text "a,b" ∷ []))
comma_unclean h = cc (h.0.0.1.0)

decode_text-ne-unclean_example : decode_text agent_spec "a,b" ≢ ok (tuple (text "a,b" ∷ []))
decode_text-ne-unclean_example =
    decode_text-ne-unclean agent_spec "a,b" (tuple (text "a,b" ∷ [])) comma_unclean

apply_floor-Within_example :
    (v : Value) × (apply_floor min_floor (int (pos 60)) (int (pos 90)) ≡ ok v)
    × HasType int_type v
    × Within min_floor (int (pos 60)) v
apply_floor-Within_example =
    apply_floor-Within min_floor (int (pos 60)) (int (pos 90)) (pos 60, refl) (pos 90, refl)

Within-60 : Within min_floor (int (pos 60)) (int (pos 30))
unfolding rheo_stream.Settings.Floor.is_looser
Within-60 = refl

floor_60 : apply_floor min_floor (int (pos 60)) (int (pos 30)) ≡ ok (int (pos 30))
unfolding apply_floor
floor_60 = refl

apply_floor_exact_example : SameMeaning int_type (int (pos 30)) (int (pos 30))
apply_floor_exact_example =
    apply_floor_exact min_floor (int (pos 60)) (int (pos 30)) (int (pos 30)) (pos 60, refl)
      (pos 30, refl) Within-60 floor_60

abbrev is_ok : {A : Type 0} → Result Error A → Bool
is_ok (ok a) = true
is_ok (raise e) = false

production_valid : is_ok production_registry ≡ true
unfolding production_registry register_all post_init rheo_stream.Settings.Spec.key_shape
    rheo_stream.Settings.Value.freeze_value rheo_stream.Settings.Value.matches_type register lookup
    insert rheo_stream.Settings.Keys.production_keys rheo_stream.Prelude.elem
production_valid = refl
