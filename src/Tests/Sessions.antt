-- ===== src/Tests/Sessions.antt =====
-- A session from its creation to its end, and its contexts.
use rheo_stream.Prelude.{
  ℕ, String, true, false, List, [], ◌∷◌, none, some, ok, raise, if◌then◌else◌, ◌==◌, ◌≡◌, ◌⊎◌, refl,
  elem,
}
use rheo_stream.Prelude.Int.{pos, ltb_ℤ, ◌+ℤ◌, ◌*ℤ◌}
use rheo_stream.Settings.Value.{deployment, int_type, int}
use rheo_stream.Settings.Registry.{Registry, core_origin}
use rheo_stream.Settings.Spec.{KeySpec}
use rheo_stream.Contracts.{owner, web, WorkspaceContext, all_operations, ActorKind, AudienceKind}
use rheo_stream.Refusals.{Refusal, session_expired, session_revoked}
use rheo_stream.Storage.Tables.{ControlPlane, SessionRow, first}
use rheo_stream.Storage.ControlPlane.Sessions.{get_session_by_secret_hash}
use rheo_stream.Storage.ControlPlane.Sessions.Rows.{AllSessions}
use rheo_stream.Sessions.Service.{Host, SessionPolicy, session_policy, day, revoke}
use rheo_stream.Sessions.Grants.{write_grant, consume_grant}
use rheo_stream.Sessions.Calls.{SessionCall, creates, mints, touches, switches, run_calls}
use rheo_stream.Sessions.Calls.Deadlines.{IsDated}
use rheo_stream.Boundary.Factories.{World, context_from_session}
use rheo_stream.Boundary.Factories.Sessions.{
  IsSessionContext, context_from_session-IsSessionContext,
}
use rheo_stream.Boundary.Factories.Lifetime.{
  context_from_session-revoked, context_from_session-in_time,
}
use rheo_stream.Tests.World.{control, server, database}

abbrev days : String → ℕ → String × KeySpec
days key n = (
  key,
  record {
    key = key;
    type = int_type;
    scope = deployment;
    floor = none;
    explicit_per_workspace = false;
    default = int (pos n);
    choices = none;
  },
)

abbrev settings : Registry
settings = record {
  declared = days "identity.session_idle_days" 14 ∷ days "identity.session_max_days" 30 ∷ [];
  origins =
      ("identity.session_idle_days", core_origin) ∷ ("identity.session_max_days", core_origin) ∷ [];
}

abbrev digest : List ℕ → String
digest [] = "empty"
digest (n ∷ rest) = if n == 1 then "secret" else if n == 2 then "nonce" else "code"

abbrev pub host : Host
host = record {
  settings = settings;
  deployment = record { environ = []; toml = none };
  sha256 = digest;
}

abbrev policy : SessionPolicy
policy = record { idle_days = pos 14; max_days = pos 30 }

policy_read : session_policy host ≡ ok policy
unfolding session_policy rheo_stream.Settings.Resolver.resolve
    rheo_stream.Settings.Resolver.base_values rheo_stream.Settings.Deployment.deployment_layer
    rheo_stream.Settings.Deployment.load_deployment_toml
    rheo_stream.Settings.Deployment.load_environment rheo_stream.Settings.Registry.specs
    rheo_stream.Prelude.sorted rheo_stream.Prelude.Dict.keys rheo_stream.Prelude.Dict.lookup
    rheo_stream.Prelude.keep rheo_stream.Settings.Resolver.get_int rheo_stream.Settings.Registry.get
    rheo_stream.Prelude.Dict.update rheo_stream.Prelude.Dict.insert
policy_read = refl

abbrev session_row : SessionRow
session_row = record {
  id = 20;
  account_id = 5;
  active_workspace_id = some 1;
  active_workspace_changed_at = some (pos 1002);
  created_at = pos 1000;
  last_seen_at = pos 1000;
  expires_at = pos 1210600;
  revoked_at = none;
}

abbrev pub signed_in : ControlPlane
signed_in = record control {
  sessions = session_row ∷ [];
  session_secrets =
      record { secret_hash = "secret"; session_id = 20; host = "app"; created_at = pos 1001 } ∷ [];
}

-- The calls of a login, which lead to these tables.
abbrev login : List SessionCall
login = creates (pos 1000) 20 5 ∷ mints (pos 1001) (1 ∷ []) 20 "app" ∷ switches (pos 1002) 20 1 ∷ []

logged_in : run_calls host control login ≡ signed_in
unfolding run_calls rheo_stream.Sessions.Calls.perform rheo_stream.Sessions.Service.switch_workspace
    first rheo_stream.Sessions.Service.mint_host_secret
    rheo_stream.Storage.ControlPlane.Sessions.insert_session_secret
    rheo_stream.Sessions.Service.create_session
    rheo_stream.Storage.ControlPlane.Sessions.insert_session
    rheo_stream.Sessions.Service.compute_expiry session_policy rheo_stream.Settings.Resolver.resolve
    rheo_stream.Settings.Resolver.base_values rheo_stream.Settings.Deployment.deployment_layer
    rheo_stream.Settings.Deployment.load_deployment_toml
    rheo_stream.Settings.Deployment.load_environment rheo_stream.Settings.Registry.specs
    rheo_stream.Prelude.sorted rheo_stream.Prelude.Dict.insert rheo_stream.Prelude.Dict.keys
    rheo_stream.Prelude.Dict.lookup rheo_stream.Prelude.Dict.update ◌*ℤ◌ ◌+ℤ◌ elem
    rheo_stream.Prelude.keep rheo_stream.Prelude.Text.bars_to_dots
    rheo_stream.Prelude.Text.dots_to_bars rheo_stream.Prelude.Text.is_space
    rheo_stream.Prelude.Text.lower rheo_stream.Prelude.Text.split rheo_stream.Prelude.Text.strip
    rheo_stream.Prelude.Text.strip_left rheo_stream.Prelude.Text.strip_right
    rheo_stream.Prelude.Text.upper consume_grant rheo_stream.Sessions.Grants.encode_ascii
    write_grant revoke rheo_stream.Sessions.Service.touch
    rheo_stream.Settings.Codec.Decimal.parse_int rheo_stream.Settings.Codec.decode_text
    rheo_stream.Settings.Codec.read_items rheo_stream.Settings.Deployment.env_variable_names
    rheo_stream.Settings.Deployment.flatten_table rheo_stream.Settings.Floor.apply_floor
    rheo_stream.Settings.Floor.elem_item rheo_stream.Settings.Floor.keep_items
    rheo_stream.Settings.Registry.get rheo_stream.Settings.Resolver.apply_rows
    rheo_stream.Settings.Resolver.get_int rheo_stream.Settings.Spec.check_value
    rheo_stream.Settings.Value.freeze_value rheo_stream.Settings.Value.matches_type
    rheo_stream.Storage.ControlPlane.Sessions.consume_session_grant
    rheo_stream.Storage.ControlPlane.Sessions.insert_session_grant
    rheo_stream.Storage.ControlPlane.Sessions.revoke_session
    rheo_stream.Storage.ControlPlane.Sessions.set_active_workspace
    rheo_stream.Storage.ControlPlane.Sessions.touch_session
    rheo_stream.Storage.ControlPlane.Sessions.update_session rheo_stream.Storage.Tables.update_where
logged_in = refl

abbrev world : World
world = record {
  databases = ("ws_1", database) ∷ [];
  control = signed_in;
  pool = record { cache_size = 1; engines = [] };
}

abbrev after : World
after = record world {
  pool = record { cache_size = 1; engines = ("ws_1", record { database = "ws_1" }) ∷ [] };
}

abbrev session_ctx : WorkspaceContext
session_ctx = record {
  workspace_id = 1;
  actor = record { kind = ActorKind.account; id = some 5 };
  role = owner;
  entry = web;
  audience = some (record { kind = AudienceKind.session; id = some 5 });
  operation_set = all_operations;
  enabled_modules = "notes" ∷ [];
  request_id = 9;
}

context_given :
    context_from_session true server digest (pos 2000) world (1 ∷ []) "app" web 9
    ≡ (after, ok (ok session_ctx))
unfolding context_from_session get_session_by_secret_hash first
    rheo_stream.Boundary.Factories.active_workspace_modules rheo_stream.Storage.Pools.engine_for
    rheo_stream.Storage.Pools.check_database_name rheo_stream.Prelude.Text.is_database_name
    rheo_stream.Storage.UnitOfWork.new_unit_of_work rheo_stream.Storage.UnitOfWork.enter
    rheo_stream.Prelude.Dict.lookup rheo_stream.Storage.UnitOfWork.connected
    rheo_stream.Storage.Pools.evict rheo_stream.Boundary.Factories.enabled_modules
context_given = refl

context_from_session-IsSessionContext_example :
    (row : SessionRow) × (get_session_by_secret_hash signed_in "secret" "app" ≡ some row)
    × IsSessionContext (pos 2000) world row session_ctx after
context_from_session-IsSessionContext_example =
    context_from_session-IsSessionContext true server (pos 2000) world after web 9 session_ctx
      digest (1 ∷ []) "app" context_given

abbrev logged_world : World
logged_world = record world { control = run_calls host control login }

no_session : AllSessions (IsDated policy) control
unfolding first
no_session session_id row h = cc h

context_at_login :
    context_from_session true server digest (pos 2000) logged_world (1 ∷ []) "app" web 9
    ≡ (after, ok (ok session_ctx))
unfolding context_from_session get_session_by_secret_hash first run_calls
    rheo_stream.Sessions.Calls.perform rheo_stream.Sessions.Service.switch_workspace
    rheo_stream.Sessions.Service.mint_host_secret
    rheo_stream.Storage.ControlPlane.Sessions.insert_session_secret
    rheo_stream.Sessions.Service.create_session
    rheo_stream.Storage.ControlPlane.Sessions.insert_session
    rheo_stream.Sessions.Service.compute_expiry session_policy rheo_stream.Settings.Resolver.resolve
    rheo_stream.Settings.Resolver.base_values rheo_stream.Settings.Deployment.deployment_layer
    rheo_stream.Settings.Deployment.load_deployment_toml
    rheo_stream.Settings.Deployment.load_environment
    rheo_stream.Boundary.Factories.active_workspace_modules
    rheo_stream.Boundary.Factories.enabled_modules rheo_stream.Prelude.Dict.insert
    rheo_stream.Prelude.Dict.keys rheo_stream.Prelude.Dict.lookup rheo_stream.Prelude.Dict.update
    ◌*ℤ◌ ◌+ℤ◌ elem rheo_stream.Prelude.keep rheo_stream.Prelude.sorted
    rheo_stream.Prelude.Text.all_word rheo_stream.Prelude.Text.bars_to_dots
    rheo_stream.Prelude.Text.count rheo_stream.Prelude.Text.dots_to_bars
    rheo_stream.Prelude.Text.is_database_name rheo_stream.Prelude.Text.is_space
    rheo_stream.Prelude.Text.lower rheo_stream.Prelude.Text.split rheo_stream.Prelude.Text.strip
    rheo_stream.Prelude.Text.strip_left rheo_stream.Prelude.Text.strip_right
    rheo_stream.Prelude.Text.upper consume_grant rheo_stream.Sessions.Grants.encode_ascii
    write_grant revoke rheo_stream.Sessions.Service.touch
    rheo_stream.Settings.Codec.Decimal.parse_int rheo_stream.Settings.Codec.decode_text
    rheo_stream.Settings.Codec.read_items rheo_stream.Settings.Deployment.env_variable_names
    rheo_stream.Settings.Deployment.flatten_table rheo_stream.Settings.Floor.apply_floor
    rheo_stream.Settings.Floor.elem_item rheo_stream.Settings.Floor.keep_items
    rheo_stream.Settings.Registry.get rheo_stream.Settings.Registry.specs
    rheo_stream.Settings.Resolver.apply_rows rheo_stream.Settings.Resolver.get_int
    rheo_stream.Settings.Spec.check_value rheo_stream.Settings.Value.freeze_value
    rheo_stream.Settings.Value.matches_type
    rheo_stream.Storage.ControlPlane.Sessions.consume_session_grant
    rheo_stream.Storage.ControlPlane.Sessions.insert_session_grant
    rheo_stream.Storage.ControlPlane.Sessions.revoke_session
    rheo_stream.Storage.ControlPlane.Sessions.set_active_workspace
    rheo_stream.Storage.ControlPlane.Sessions.touch_session
    rheo_stream.Storage.ControlPlane.Sessions.update_session
    rheo_stream.Storage.Pools.check_database_name rheo_stream.Storage.Pools.engine_for
    rheo_stream.Storage.Pools.evict rheo_stream.Storage.Pools.without
    rheo_stream.Storage.Tables.update_where rheo_stream.Storage.UnitOfWork.connected
    rheo_stream.Storage.UnitOfWork.enter rheo_stream.Storage.UnitOfWork.new_unit_of_work
context_at_login = refl

context_from_session-in_time_example :
    (row : SessionRow) × (get_session_by_secret_hash logged_world.control "secret" "app" ≡ some row)
    × (ltb_ℤ (pos 2000) (row.created_at +ℤ day *ℤ pos 30) ≡ true)
    × (ltb_ℤ (pos 2000) (row.last_seen_at +ℤ day *ℤ pos 14) ≡ true)
context_from_session-in_time_example =
    context_from_session-in_time true server host (pos 2000) logged_world web 9 policy policy_read
      control no_session login refl (1 ∷ []) "app" after session_ctx context_at_login

-- A logout, and a touch of the session after it.
abbrev logged_out : ControlPlane
logged_out = record signed_in {
  sessions = record session_row { revoked_at = some (pos 3000) } ∷ [];
}

revocation : revoke (pos 3000) signed_in 20 ≡ ok logged_out
unfolding revoke rheo_stream.Storage.ControlPlane.Sessions.revoke_session first
    rheo_stream.Storage.Tables.update_where
revocation = refl

abbrev touched_row : SessionRow
touched_row = record session_row {
  last_seen_at = pos 3100;
  expires_at = pos 1212700;
  revoked_at = some (pos 3000);
}

abbrev later_world : World
later_world = record world { control = run_calls host logged_out (touches (pos 3100) 20 ∷ []) }

still_found : get_session_by_secret_hash later_world.control "secret" "app" ≡ some touched_row
unfolding get_session_by_secret_hash first run_calls rheo_stream.Sessions.Calls.perform
    rheo_stream.Sessions.Service.touch rheo_stream.Sessions.Service.compute_expiry session_policy
    rheo_stream.Settings.Resolver.resolve rheo_stream.Settings.Resolver.base_values
    rheo_stream.Settings.Deployment.deployment_layer
    rheo_stream.Settings.Deployment.load_deployment_toml
    rheo_stream.Settings.Deployment.load_environment rheo_stream.Settings.Registry.specs
    rheo_stream.Prelude.sorted rheo_stream.Prelude.Dict.keys rheo_stream.Prelude.Dict.lookup
    rheo_stream.Prelude.keep rheo_stream.Prelude.Dict.insert rheo_stream.Prelude.Dict.update ◌*ℤ◌
    ◌+ℤ◌ elem rheo_stream.Prelude.Text.bars_to_dots rheo_stream.Prelude.Text.dots_to_bars
    rheo_stream.Prelude.Text.is_space rheo_stream.Prelude.Text.lower rheo_stream.Prelude.Text.split
    rheo_stream.Prelude.Text.strip rheo_stream.Prelude.Text.strip_left
    rheo_stream.Prelude.Text.strip_right rheo_stream.Prelude.Text.upper consume_grant
    rheo_stream.Sessions.Grants.encode_ascii write_grant rheo_stream.Sessions.Service.create_session
    rheo_stream.Sessions.Service.mint_host_secret revoke
    rheo_stream.Sessions.Service.switch_workspace rheo_stream.Settings.Codec.Decimal.parse_int
    rheo_stream.Settings.Codec.decode_text rheo_stream.Settings.Codec.read_items
    rheo_stream.Settings.Deployment.env_variable_names rheo_stream.Settings.Deployment.flatten_table
    rheo_stream.Settings.Floor.apply_floor rheo_stream.Settings.Floor.elem_item
    rheo_stream.Settings.Floor.keep_items rheo_stream.Settings.Registry.get
    rheo_stream.Settings.Resolver.apply_rows rheo_stream.Settings.Resolver.get_int
    rheo_stream.Settings.Spec.check_value rheo_stream.Settings.Value.freeze_value
    rheo_stream.Settings.Value.matches_type
    rheo_stream.Storage.ControlPlane.Sessions.consume_session_grant
    rheo_stream.Storage.ControlPlane.Sessions.insert_session
    rheo_stream.Storage.ControlPlane.Sessions.insert_session_grant
    rheo_stream.Storage.ControlPlane.Sessions.insert_session_secret
    rheo_stream.Storage.ControlPlane.Sessions.revoke_session
    rheo_stream.Storage.ControlPlane.Sessions.set_active_workspace
    rheo_stream.Storage.ControlPlane.Sessions.touch_session
    rheo_stream.Storage.ControlPlane.Sessions.update_session rheo_stream.Storage.Tables.update_where
still_found = refl

context_from_session-revoked_example :
    (r : Refusal) × (context_from_session true server digest
        (pos 3200)
        later_world
        (1 ∷ [])
        "app"
        web
        9
      ≡ (later_world, ok (raise r)))
    × ((r.state ≡ session_expired) ⊎ (r.state ≡ session_revoked))
context_from_session-revoked_example =
    context_from_session-revoked true server host (pos 3200) later_world web 9 (pos 3000) signed_in
      logged_out 20 revocation (touches (pos 3100) 20 ∷ []) refl (1 ∷ []) "app" touched_row
      still_found refl
