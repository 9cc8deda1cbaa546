-- ===== src/Settings/Exceptions.antt =====
-- The exceptions of settings/errors.py and settings/resolver.py, where the caller passes them on.
use rheo_stream.Prelude.{Result, ok, raise}
use rheo_stream.Refusals.{Exn, other_error}
use rheo_stream.Settings.Value.{
  Error, value_error, type_error, key_error, assertion_error, settings_declaration_mismatch,
  setting_undeclared, setting_redeclared, setting_type, setting_origin_refused, source_error,
}

-- A settings error in a handler is an exception like any other.
abbrev settings_exn : Error → Exn
settings_exn value_error = other_error "ValueError" ""
settings_exn type_error = other_error "TypeError" ""
settings_exn key_error = other_error "KeyError" ""
settings_exn assertion_error = other_error "AssertionError" ""
settings_exn settings_declaration_mismatch = other_error "SettingsDeclarationMismatch" ""
settings_exn (setting_undeclared key) = other_error "SettingUndeclared" key
settings_exn (setting_redeclared key) = other_error "SettingRedeclared" key
settings_exn (setting_type key) = other_error "SettingTypeMismatch" key
settings_exn (setting_origin_refused key) = other_error "SettingOriginRefused" key
settings_exn (source_error e) = other_error e ""

abbrev pub of_settings {ℓ} : {A : Type ℓ} → Result Error A → Result Exn A
of_settings (ok a) = ok a
of_settings (raise e) = raise (settings_exn e)
