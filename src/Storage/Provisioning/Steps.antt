-- ===== src/Storage/Provisioning/Steps.antt =====
-- The five steps of storage/provisioning.py.
pub mod Active
pub mod Forward
use rheo_stream.Prelude.{
  String, Bool, true, false, not, List, [], ◌∷◌, Option, none, some, Result, ok, raise, ◌>>=◌,
  if◌then◌else◌,
}
use rheo_stream.Prelude.Int.{ℤ}
use rheo_stream.Prelude.Dict.{Dict}
use rheo_stream.Contracts.{Uuid, Role, same_role}
use rheo_stream.Refusals.{Exn, storage_refusal, other_error, workspace_missing, workspace_exists}
use rheo_stream.Settings.Value.{ValueType, str_type, int_type, bool_type, str_list_type}
use rheo_stream.Settings.Spec.{KeySpec}
use rheo_stream.Settings.Codec.{encode_text}
use rheo_stream.Settings.Registry.{specs, explicit_only}
use rheo_stream.Settings.Exceptions.{of_settings}
use rheo_stream.Storage.Tables.{
  ControlPlane, provisioning, active, unavailable, WorkspaceRow, MembershipRow,
}
use rheo_stream.Storage.ControlPlane.{get_workspace, get_membership}
use rheo_stream.Storage.ControlPlane.Workspaces.{
  same_state, insert_workspace_if_absent, set_workspace_state, insert_membership_if_absent,
}
use rheo_stream.Storage.Repositories.{
  WorkspaceDatabase, write_composition, insert_workspace_setting_if_absent,
}
use rheo_stream.Storage.Routing.{System}
use rheo_stream.Storage.Provisioning.{
  Cluster, Attempt, and_then, in_control, ensure_database, run_chain, in_database,
}

abbrev pub or_missing : Option WorkspaceRow → Result Exn WorkspaceRow
or_missing none = raise (storage_refusal workspace_missing)
or_missing (some row) = ok row

-- `_registry_row`
unfoldable pub registry_row : System WorkspaceDatabase → Uuid → Result Exn WorkspaceRow
registry_row world workspace_id = or_missing (get_workspace world.control workspace_id)

abbrev pub done : Result Exn ControlPlane → Result Exn (ControlPlane × Unit {0})
done (raise e) = raise e
done (ok c) = ok (c, tt)

-- `_record_step`
unfoldable pub record_step : ℤ → System WorkspaceDatabase → Uuid → String → Attempt (Unit {0})
record_step now world workspace_id step = in_control world (
    done (
      set_workspace_state now world.control workspace_id provisioning (some step)
        (some (provisioning ∷ unavailable ∷ []))))

abbrev is_owner : Option MembershipRow → Bool
is_owner none = false
is_owner (some membership) = same_role membership.role Role.owner

-- `database_name_for`
abbrev pub database_name_for : Cluster → Uuid → String
database_name_for cluster workspace_id = Prim.Native.String.◌++◌ "ws_" (cluster.hex workspace_id)

after_insert :
    ℤ → Uuid → Uuid → ControlPlane × WorkspaceRow × Bool → Result Exn (ControlPlane × Unit {0})
after_insert now workspace_id owner_account_id (c, row, inserted) =
    let with_owner =
      insert_membership_if_absent now c owner_account_id workspace_id Role.owner
      >>= (λ p. ok (p.0, tt)) in
    if not (same_state row.state provisioning)
    then raise (storage_refusal workspace_exists)
    else if inserted
    then with_owner
    else if not (is_owner (get_membership c owner_account_id workspace_id))
    then raise (storage_refusal workspace_exists)
    else ok (c, tt)

insert_row :
    Cluster → ℤ → System WorkspaceDatabase → Uuid → Option Uuid → Option String → Attempt (Unit {0})
insert_row cluster now world workspace_id (some owner_account_id) (some slug) = in_control world (do
  row ←
      insert_workspace_if_absent now world.control workspace_id slug slug
        (database_name_for cluster workspace_id) "insert_registry_row"
  after_insert now workspace_id owner_account_id row)
insert_row cluster now world workspace_id _ _ =
    (world, raise (other_error "ValueError" "step 1 needs the owner account and the slug"))

-- `_step_insert_registry_row`
unfoldable pub step_insert_registry_row :
    Cluster → ℤ → System WorkspaceDatabase → Uuid → Option Uuid → Option String → Attempt (Unit {0})
unfolding insert_row after_insert
step_insert_registry_row cluster now world workspace_id owner slug =
    insert_row cluster now world workspace_id owner slug

abbrev only_provisioning : Bool → Result Exn WorkspaceRow → Result Exn (Unit {0})
only_provisioning true row = ok tt
only_provisioning false (raise e) = raise e
only_provisioning false (ok row) =
    if same_state row.state provisioning then ok tt else raise (storage_refusal workspace_exists)

-- `_step_create_database`
unfoldable pub step_create_database :
    Cluster → ℤ → System WorkspaceDatabase → Uuid → Attempt (Unit {0})
step_create_database cluster now world workspace_id =
    and_then (world, registry_row world workspace_id)
      (λ w row. and_then (ensure_database cluster w row.database_name) (λ v made.
        and_then (v, only_provisioning made (registry_row v workspace_id))
          (λ u checked. record_step now u workspace_id "create_database")))

-- What `_step_migrate_core` does in its transaction.
abbrev pub migrate :
    Cluster → ℤ → String → String → WorkspaceDatabase → Result Exn WorkspaceDatabase
migrate cluster now name actual content = do
  upgraded ← run_chain cluster name actual content
  ok (write_composition now upgraded cluster.core_version cluster.contract_version)

-- `_step_migrate_core`
unfoldable pub step_migrate_core :
    Cluster → ℤ → System WorkspaceDatabase → Uuid → Attempt (Unit {0})
step_migrate_core cluster now world workspace_id =
    and_then (world, registry_row world workspace_id)
      (λ w row.
        and_then (in_database cluster w row.database_name (migrate cluster now row.database_name))
          (λ v migrated. record_step now v workspace_id "migrate_core"))

abbrev type_value : ValueType → String
type_value str_type = "str"
type_value int_type = "int"
type_value bool_type = "bool"
type_value str_list_type = "list[str]"

unfoldable pub default_rows :
    Cluster → ℤ → List KeySpec → WorkspaceDatabase → Result Exn WorkspaceDatabase
default_rows cluster now [] content = ok content
default_rows cluster now (spec ∷ specs) content = do
  value ← of_settings (encode_text cluster.show spec spec.default)
  default_rows cluster now specs
      (insert_workspace_setting_if_absent now content spec.key value (type_value spec.type) none).0

-- `_step_write_default_settings`
unfoldable pub step_write_default_settings :
    Cluster → ℤ → System WorkspaceDatabase → Uuid → Attempt (Unit {0})
step_write_default_settings cluster now world workspace_id =
    and_then (world, registry_row world workspace_id)
      (λ w row.
        and_then
          (in_database cluster w row.database_name
            (λ actual. default_rows cluster now (explicit_only (specs cluster.registry))))
          (λ v written. record_step now v workspace_id "write_default_settings"))

-- `_step_activate`
unfoldable pub step_activate : ℤ → System WorkspaceDatabase → Uuid → Attempt (Unit {0})
step_activate now world workspace_id = in_control world (
    done (
      set_workspace_state now world.control workspace_id active (some "activate")
        (some (provisioning ∷ []))))
