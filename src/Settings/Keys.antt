-- ===== src/Settings/Keys.antt =====
-- `PRODUCTION_KEYS` of settings/schema.py, and the registry that they make.
use rheo_stream.Prelude.{
  String, true, false, List, [], ◌∷◌, ◌++◌, Option, none, some, Result, ok, ◌>>=◌,
}
use rheo_stream.Prelude.Int.{pos}
use rheo_stream.Settings.Value.{
  Scope, deployment, workspace, Floor, min_floor, ValueType, str_type, int_type, bool_type, Value,
  str, int, bool, Error,
}
use rheo_stream.Settings.Spec.{KeySpec, post_init}
use rheo_stream.Settings.Registry.{Registry, empty, register, core_origin}

-- No production key is explicit per workspace.
abbrev key_spec : String → ValueType → Scope → Option Floor → Value → Option (List String) → KeySpec
key_spec k t s f d c = record {
  key = k;
  type = t;
  scope = s;
  floor = f;
  explicit_per_workspace = false;
  default = d;
  choices = c;
}

storage_keys : List KeySpec
storage_keys =
    key_spec "storage.cluster_dsn_ref" str_type deployment none
      (str "secret://env/RHEO_CLUSTER_DSN") none
    ∷ key_spec "storage.control_database" str_type deployment none (str "rheo_control") none
    ∷ key_spec "storage.template_database" str_type deployment none (str "template1") none
    ∷ key_spec "storage.pool_cache_size" int_type deployment none (int (pos 32)) none
    ∷ key_spec "storage.pool_max_connections" int_type deployment none (int (pos 5)) none
    ∷ key_spec "profile" str_type deployment none (str "development")
        (some ("production" ∷ "development" ∷ "test" ∷ []))
    ∷ key_spec "identity.token_max_days.cli" int_type workspace (some min_floor) (int (pos 90)) none
    ∷ key_spec "identity.token_max_days.mcp" int_type workspace (some min_floor) (int (pos 30)) none
    ∷ []

routing_keys : List KeySpec
routing_keys =
    key_spec "routing.mode" str_type deployment none (str "path") (some ("path" ∷ "subdomain" ∷ []))
    ∷ key_spec "routing.scheme" str_type deployment none (str "https")
        (some ("https" ∷ "http" ∷ []))
    ∷ key_spec "routing.base_host" str_type deployment none (str "localhost") none
    ∷ key_spec "routing.shell.host" str_type deployment none (str "circuit") none
    ∷ key_spec "routing.shell.path" str_type deployment none (str "/") none
    ∷ key_spec "routing.identity.host" str_type deployment none (str "auth") none
    ∷ key_spec "routing.identity.path" str_type deployment none (str "/auth") none
    ∷ key_spec "routing.api.host" str_type deployment none (str "api") none
    ∷ key_spec "routing.api.path" str_type deployment none (str "/api") none
    ∷ key_spec "routing.mcp.host" str_type deployment none (str "mcp") none
    ∷ key_spec "routing.mcp.path" str_type deployment none (str "/mcp") none
    ∷ key_spec "routing.docs.host" str_type deployment none (str "docs") none
    ∷ key_spec "routing.docs.external" bool_type deployment none (bool true) none
    ∷ key_spec "routing.integration.host" str_type deployment none (str "tuttle") none
    ∷ key_spec "routing.integration.external" bool_type deployment none (bool true) none
    ∷ key_spec "routing.integration.reserved" bool_type deployment none (bool true) none
    ∷ []

identity_keys : List KeySpec
identity_keys =
    key_spec "identity.allow_signup" bool_type deployment none (bool false) none
    ∷ key_spec "identity.allow_workspace_create" bool_type deployment none (bool false) none
    ∷ key_spec "identity.session_idle_days" int_type deployment none (int (pos 14)) none
    ∷ key_spec "identity.session_max_days" int_type deployment none (int (pos 30)) none
    ∷ key_spec "identity.providers.github.enabled" bool_type deployment none (bool false) none
    ∷ key_spec "identity.providers.github.client_id" str_type deployment none (str "") none
    ∷ key_spec "identity.providers.github.client_secret_ref" str_type deployment none (str "") none
    ∷ key_spec "internal.secret_ref" str_type deployment none (str "") none
    ∷ []

unfoldable pub production_keys : List KeySpec
unfolding storage_keys routing_keys identity_keys
production_keys = storage_keys ++ (routing_keys ++ identity_keys)

-- Each spec is constructed, then registered under the core origin, which asks for no profile.
unfoldable pub register_all : List KeySpec → Registry → Result Error Registry
register_all [] reg = ok reg
register_all (s ∷ ss) reg = do
  spec ← post_init s
  reg' ← register (ok "") reg spec core_origin
  register_all ss reg'

unfoldable pub production_registry : Result Error Registry
production_registry = register_all production_keys empty
