-- ===== src/Storage/Provisioning.antt =====
-- storage/provisioning.py, with `run_chain` of migrations/orchestrator.py and `ensure_database` of
-- storage/postgres.py: a transaction on each side of the steps
-- that bring a workspace to `active`.
pub mod Steps
pub mod Walk
pub mod Success
use rheo_stream.Prelude.{
  ℕ, String, Bool, true, false, not, ◌&&◌, List, [], ◌∷◌, Option, none, some, Result, ok, raise,
  ◌>>=◌, str_eq, if◌then◌else◌, is_some, diff,
}
use rheo_stream.Prelude.Int.{ℤ}
use rheo_stream.Prelude.Dict.{Dict, lookup, insert}
use rheo_stream.Contracts.{Uuid, Role, same_role}
use rheo_stream.Refusals.{
  Exn, storage_refusal, other_error, workspace_missing, workspace_exists, database_mismatch,
  schema_ahead,
}
use rheo_stream.Settings.Value.{Value, ValueType, str_type, int_type, bool_type, str_list_type}
use rheo_stream.Settings.Spec.{KeySpec}
use rheo_stream.Settings.Codec.{encode_text}
use rheo_stream.Settings.Registry.{Registry}
use rheo_stream.Settings.Exceptions.{of_settings}
use rheo_stream.Storage.Tables.{
  ControlPlane, WorkspaceState, provisioning, active, unavailable, WorkspaceRow, MembershipRow,
}
use rheo_stream.Storage.ControlPlane.{get_workspace, get_membership}
use rheo_stream.Storage.ControlPlane.Workspaces.{
  same_state, insert_workspace_if_absent, set_workspace_state, insert_membership_if_absent,
}
use rheo_stream.Storage.Pools.{Served, engine_for, check_database_name}
use rheo_stream.Storage.UnitOfWork.{
  Databases, Server, UnitOfWork, new_unit_of_work, enter, connected, with_transaction, commit,
}
use rheo_stream.Storage.Repositories.{
  WorkspaceDatabase, write_composition, insert_workspace_setting_if_absent,
}
use rheo_stream.Storage.Routing.{System, with_pool, with_databases}

-- What the steps call: the server, `CREATE DATABASE` of a name from a template, Alembic's script
-- directory and upgrade to head, the package's versions, the settings registry and Python's texts.
pub record Cluster : Type 0 where
  pub verify : Bool
  pub server : Server WorkspaceDatabase
  pub create_database : String → String → Result Exn WorkspaceDatabase
  pub template_database : String
  pub known_revisions : List String
  pub upgrade : WorkspaceDatabase → Result Exn WorkspaceDatabase
  pub core_version : String
  pub contract_version : ℕ
  pub registry : Registry
  pub show : Value → String
  pub hex : Uuid → String

-- The system, with its return or what it raises.
abbrev pub Attempt : Type 0 → Type 0
Attempt A = System WorkspaceDatabase × Result Exn A

abbrev pub and_then :
    {A B : Type 0} → Attempt A → (System WorkspaceDatabase → A → Attempt B) → Attempt B
and_then (world, raise e) f = (world, raise e)
and_then (world, ok a) f = f world a

-- One transaction on the control plane.
abbrev pub in_control :
    {A : Type 0} → System WorkspaceDatabase → Result Exn (ControlPlane × A) → Attempt A
in_control world (raise e) = (world, raise e)
in_control world (ok (c, a)) = (record world { control = c }, ok a)

created : System WorkspaceDatabase → String → Result Exn WorkspaceDatabase → Attempt Bool
created world name (raise e) = (world, raise e)
created world name (ok content) =
    (with_databases (insert name content world.databases) world, ok true)

ensure_checked :
    Cluster → System WorkspaceDatabase → Result Exn String → Result Exn String → Attempt Bool
ensure_checked cluster world (ok name) (ok template) =
    let made = created world name (cluster.create_database name template) in
    if is_some (lookup name world.databases) then (world, ok false) else made
ensure_checked cluster world (raise e) template = (world, raise e)
ensure_checked cluster world (ok name) (raise e) = (world, raise e)

-- `ensure_database`, from the template: whether it has created the database
unfoldable pub ensure_database : Cluster → System WorkspaceDatabase → String → Attempt Bool
unfolding created ensure_checked
ensure_database cluster world name =
    ensure_checked cluster world (check_database_name name)
      (check_database_name cluster.template_database)

-- `run_chain` of the core chain, on a connection to `actual`; its lock and `CREATE SCHEMA` change
-- nothing that is modelled.
unfoldable pub run_chain :
    Cluster → String → String → WorkspaceDatabase → Result Exn WorkspaceDatabase
run_chain cluster expected_database actual content =
    if not (str_eq actual expected_database)
    then raise (storage_refusal database_mismatch)
    else elim (diff content.alembic_version_core cluster.known_revisions) [
      | [] ↦ cluster.upgrade content
      | ahead ∷ more ↦ raise (storage_refusal schema_ahead)
    ]

abbrev database_of : UnitOfWork WorkspaceDatabase → String
database_of uow = elim uow.connection [ none ↦ "" | some database ↦ database ]

-- The end of the body of `with UnitOfWork(engine, name) as uow`: its commit.
finishing :
    Cluster
    → Databases WorkspaceDatabase
    → UnitOfWork WorkspaceDatabase
    → Result Exn WorkspaceDatabase
    → Databases WorkspaceDatabase × Result Exn (Unit {0})
finishing cluster databases uow (raise e) = (databases, raise e)
finishing cluster databases uow (ok content) =
    let r = commit cluster.server databases (with_transaction (some content) uow) in (r.0, r.2)

committing :
    Cluster
    → Databases WorkspaceDatabase
    → (String → WorkspaceDatabase → Result Exn WorkspaceDatabase)
    → UnitOfWork WorkspaceDatabase
    → Databases WorkspaceDatabase × Result Exn (Unit {0})
committing cluster databases f uow =
    finishing cluster databases uow (connected uow >>= f (database_of uow))

entering :
    Cluster
    → Databases WorkspaceDatabase
    → (String → WorkspaceDatabase → Result Exn WorkspaceDatabase)
    → Result Exn (UnitOfWork WorkspaceDatabase)
    → Databases WorkspaceDatabase × Result Exn (Unit {0})
entering cluster databases f (raise e) = (databases, raise e)
entering cluster databases f (ok uow) = committing cluster databases f uow

on_engine :
    Cluster
    → System WorkspaceDatabase
    → String
    → (String → WorkspaceDatabase → Result Exn WorkspaceDatabase)
    → Result Exn Served
    → Attempt (Unit {0})
on_engine cluster world name f (raise e) = (world, raise e)
on_engine cluster world name f (ok served) =
    let (databases, returned) = entering cluster world.databases f (
      new_unit_of_work served.engine name
      >>= enter cluster.verify cluster.server world.databases) in
    (with_databases databases (with_pool served.pool world), returned)

-- A transaction on the workspace's database.
unfoldable pub in_database :
    Cluster
    → System WorkspaceDatabase
    → String
    → (String → WorkspaceDatabase → Result Exn WorkspaceDatabase)
    → Attempt (Unit {0})
unfolding finishing committing entering on_engine
in_database cluster world name f = on_engine cluster world name f (engine_for world.pool name)
