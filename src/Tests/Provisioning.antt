-- ===== src/Tests/Provisioning.antt =====
-- A workspace whose creation has stopped, its repair, and a walk that lags behind.
use rheo_stream.Prelude.{
  ℕ, String, Bool, true, false, List, [], ◌∷◌, Option, none, some, Result, ok, raise, ◌≡◌, ◌≢◌,
  refl, inl, inr, arith, if◌then◌else◌, ◌==◌,
}
use rheo_stream.Prelude.Dict.{lookup}
use rheo_stream.Prelude.Int.{ℤ, pos}
use rheo_stream.Settings.Value.{workspace, str_type, str}
use rheo_stream.Settings.Registry.{core_origin}
use rheo_stream.Storage.Tables.{
  ControlPlane, WorkspaceState, provisioning, active, WorkspaceRow, first,
}
use rheo_stream.Storage.ControlPlane.{get_workspace}
use rheo_stream.Storage.Repositories.{WorkspaceDatabase}
use rheo_stream.Storage.Routing.{System}
use rheo_stream.Settings.Registry.{specs, explicit_only}
use rheo_stream.Storage.Provisioning.{Cluster, Attempt}
use rheo_stream.Storage.Provisioning.Success.{IsKnown, Cooperates}
use rheo_stream.Storage.Provisioning.Steps.Forward.{IsListed, Encodes, resumable_states}
use rheo_stream.Storage.Provisioning.Walk.{
  ProvisionStep, create_database, migrate_core, activate, WalkInput, resuming, provision, repair,
}
use rheo_stream.Storage.Provisioning.Walk.Repair.{repair-Activates}
use rheo_stream.Storage.Provisioning.Walk.Interleaved.{run_steps, run_steps-active}
use rheo_stream.Tests.World.{control, workspace_row, server, database}

abbrev blank : WorkspaceDatabase
blank = record database { alembic_version_core = []; module_state = [] }

-- One key has a row in every workspace.
abbrev cluster : Cluster
cluster = record {
  verify = true;
  server = server;
  create_database = λ name template. ok blank;
  template_database = "template1";
  known_revisions = "0001_core" ∷ [];
  upgrade = λ content. ok (record content { alembic_version_core = "0001_core" ∷ [] });
  core_version = "0.1.0";
  contract_version = 1;
  registry = record {
    declared =
        (
          "notes.greeting",
          record {
            key = "notes.greeting";
            type = str_type;
            scope = workspace;
            floor = none;
            explicit_per_workspace = true;
            default = str "hello";
            choices = none;
          },
        )
        ∷ [];
    origins = ("notes.greeting", core_origin) ∷ [];
  };
  show = λ value. "";
  hex = λ id. if id == 3 then "3" else "2";
}

cluster-Cooperates : Cooperates cluster
unfolding rheo_stream.Prelude.Text.is_database_name rheo_stream.Prelude.keep
cluster-Cooperates = record {
  directed = λ e. refl;
  commits = λ content. refl;
  template = refl;
  creates = λ name. (blank, refl, refl);
  upgrades = λ content known. (record content { alembic_version_core = "0001_core" ∷ [] }, refl);
}

cluster-Encodes : Encodes cluster (explicit_only (specs cluster.registry))
unfolding rheo_stream.Settings.Codec.encode_text explicit_only specs rheo_stream.Prelude.sorted
    rheo_stream.Prelude.Dict.keys lookup
cluster-Encodes = (("hello", refl), tt)

-- The second workspace has its row, and nothing else.
abbrev started : WorkspaceRow
started = record {
  id = 2;
  slug = "two";
  display_name = "two";
  database_name = "ws_2";
  state = provisioning;
  created_at = pos 500;
  state_changed_at = pos 500;
  state_detail = some "insert_registry_row";
}

abbrev world : System WorkspaceDatabase
world = record {
  databases = ("ws_1", database) ∷ [];
  control = record control { workspaces = workspace_row ∷ started ∷ [] };
  pool = record { cache_size = 1; engines = [] };
}

started-IsListed : IsListed world 2 resumable_states
unfolding first rheo_stream.Prelude.Text.is_database_name
started-IsListed = record {
  row = started;
  listed = refl;
  good = refl;
  state = refl;
  pool = record { keyed = tt; bounded = omega arith; positive = omega arith };
}

abbrev now : ProvisionStep → ℤ
now step = pos 600

not_there :
    (content : WorkspaceDatabase)
    → lookup "ws_2" world.databases ≡ some content
    → IsKnown cluster content
unfolding lookup
not_there content h = cc h

open_end : ◌≢◌ {A = Option String} (some "insert_registry_row") (some "activate")
open_end h = cc h

repair-Activates_example :
    (after : System WorkspaceDatabase) × (repair cluster now world 2 ≡ (after, ok tt))
    × ((row : WorkspaceRow) × (get_workspace after.control 2 ≡ some row) × (row.state ≡ active))
unfolding lookup started-IsListed rheo_stream.Storage.Provisioning.Walk.remaining_after
repair-Activates_example =
    repair-Activates cluster cluster-Cooperates cluster-Encodes now 2 world started-IsListed
      not_there (inr (refl, refl)) (λ e. open_end)

-- A new workspace, created in one go by its owner.
abbrev states_of : List WorkspaceRow → List (ℕ × WorkspaceState)
states_of [] = []
states_of (row ∷ rows) = (row.id, row.state) ∷ states_of rows

new_is_active :
    states_of
      (provision cluster "test" "uuid" now world 3 5 (some "three") none).0.control.workspaces
    ≡ (1, active) ∷ (2, provisioning) ∷ (3, active) ∷ []
unfolding provision rheo_stream.Storage.Provisioning.Walk.slug_for
    rheo_stream.Storage.Provisioning.Walk.walk rheo_stream.Storage.Provisioning.Walk.run_step
    rheo_stream.Storage.Provisioning.Steps.step_insert_registry_row
    rheo_stream.Storage.ControlPlane.Workspaces.insert_workspace_if_absent first
    rheo_stream.Storage.ControlPlane.Workspaces.insert_membership_if_absent
    rheo_stream.Storage.Provisioning.Steps.step_create_database
    rheo_stream.Storage.Provisioning.Steps.registry_row
    rheo_stream.Storage.Provisioning.ensure_database rheo_stream.Storage.Pools.check_database_name
    rheo_stream.Prelude.Text.is_database_name lookup
    rheo_stream.Storage.Provisioning.Steps.record_step
    rheo_stream.Storage.ControlPlane.Workspaces.set_workspace_state
    rheo_stream.Storage.Provisioning.Steps.step_migrate_core rheo_stream.Prelude.Dict.insert
    rheo_stream.Prelude.elem rheo_stream.Prelude.keep rheo_stream.Prelude.Text.all_word
    rheo_stream.Prelude.Text.count rheo_stream.Prelude.Text.is_space rheo_stream.Prelude.Text.join
    rheo_stream.Prelude.Text.strip rheo_stream.Prelude.Text.strip_left
    rheo_stream.Prelude.Text.strip_right rheo_stream.Settings.Codec.Decimal.parse_int
    rheo_stream.Settings.Codec.Decimal.show_int rheo_stream.Settings.Codec.Decimal.show_ℕ
    rheo_stream.Settings.Codec.encode_text rheo_stream.Storage.Pools.engine_for
    rheo_stream.Storage.Pools.evict rheo_stream.Storage.Pools.without
    rheo_stream.Storage.Provisioning.Steps.default_rows
    rheo_stream.Storage.Provisioning.Steps.step_activate
    rheo_stream.Storage.Provisioning.Steps.step_write_default_settings
    rheo_stream.Storage.Provisioning.in_database rheo_stream.Storage.Provisioning.run_chain
    rheo_stream.Storage.Repositories.insert_workspace_setting_if_absent
    rheo_stream.Storage.Repositories.write_composition rheo_stream.Storage.Tables.update_where
    rheo_stream.Storage.UnitOfWork.commit rheo_stream.Storage.UnitOfWork.connected
    rheo_stream.Storage.UnitOfWork.enter rheo_stream.Storage.UnitOfWork.new_unit_of_work
    explicit_only specs rheo_stream.Prelude.sorted rheo_stream.Prelude.Dict.keys
new_is_active = refl

-- A creation of the first workspace again, and a repair that has lost its way.
abbrev lagging : List (WalkInput × ProvisionStep)
lagging =
    (resuming now 1, create_database)
    ∷ (resuming now 1, migrate_core)
    ∷ (resuming now 2, activate)
    ∷ []

run_steps-active_example :
    get_workspace (run_steps cluster world lagging).control 1 ≡ some workspace_row
unfolding first
run_steps-active_example = run_steps-active cluster world lagging 1 workspace_row refl refl
