-- ===== src/Settings/WritePath.antt =====
-- settings/write_path.py: `validate_override`.
pub mod Laws
use rheo_stream.Prelude.{String, not, ◌||◌, Option, none, some, Result, ok, ◌>>=◌, if◌then◌else◌}
use rheo_stream.Prelude.Dict.{lookup}
use rheo_stream.Settings.Value.{
  Scope, deployment, Floor, ValueType, Value, Error, same_scope, matches_type, freeze_value,
}
use rheo_stream.Settings.Spec.{KeySpec, allows, check_value}
use rheo_stream.Settings.Codec.{encode_text}
use rheo_stream.Settings.Registry.{Registry}
use rheo_stream.Settings.Floor.{is_looser}

-- `REFUSAL_STATES`
pub data RefusalState : Type 0 where
  setting_undeclared setting_scope setting_type setting_floor_violation : RefusalState

-- `SettingAccepted | SettingRefusal`, both with the key.
pub data Outcome : Type 0 where
  accepted : String → Value → String → ValueType → Outcome
  refused : RefusalState → String → Outcome

module _ (show : Value → String) where
  accept : KeySpec → String → Value → Result Error Outcome
  accept spec key frozen = do
    encoded ← encode_text show spec frozen
    ok (accepted key frozen encoded spec.type)

  -- The floor test, then the acceptance.
  under_floor : Option Floor → KeySpec → String → Value → Value → Result Error Outcome
  under_floor none spec key deployed frozen = accept spec key frozen
  under_floor (some f) spec key deployed frozen = do
    base ← check_value spec deployed
    looser ← is_looser f base frozen
    if looser then ok (refused setting_floor_violation key) else accept spec key frozen

  validate_spec : Option KeySpec → String → Value → Value → Scope → Result Error Outcome
  validate_spec none key value deployed scope = ok (refused setting_undeclared key)
  validate_spec (some spec) key value deployed scope =
      if same_scope scope deployment || not (same_scope spec.scope scope)
      then ok (refused setting_scope key)
      else if not (matches_type spec.type value) || not (allows spec.choices value)
      then ok (refused setting_type key)
      else do frozen ← freeze_value value; under_floor spec.floor spec key deployed frozen

  unfoldable pub validate_override :
      Registry → String → Value → Value → Scope → Result Error Outcome
  unfolding accept under_floor validate_spec
  validate_override reg key value deployed scope =
      validate_spec (lookup key reg.declared) key value deployed scope
