-- ===== src/Storage/Provisioning/Walk.antt =====
-- `_walk`, `provision` and `repair` of storage/provisioning.py. The clock is read by each step.
pub mod Repair
pub mod Interleaved
use rheo_stream.Prelude.{
  suc, ◌||◌, ◌==◌, leb, code, ℕ, String, Bool, true, false, ◌&&◌, List, [], ◌∷◌, Option, none, some,
  Result, ok, raise, str_eq, if◌then◌else◌,
}
use rheo_stream.Prelude.Int.{ℤ}
use rheo_stream.Contracts.{Uuid}
use rheo_stream.Refusals.{Exn, storage_refusal, other_error, workspace_state}
use rheo_stream.Storage.Tables.{WorkspaceState, provisioning, active, unavailable, WorkspaceRow}
use rheo_stream.Storage.Repositories.{WorkspaceDatabase}
use rheo_stream.Storage.Routing.{System}
use rheo_stream.Storage.Provisioning.{Cluster, Attempt, and_then}
use rheo_stream.Storage.Provisioning.Steps.{
  registry_row, step_insert_registry_row, step_create_database, step_migrate_core,
  step_write_default_settings, step_activate,
}

pub data ProvisionStep : Type 0 where
  insert_registry_row create_database migrate_core write_default_settings activate : ProvisionStep

abbrev pub step_name : ProvisionStep → String
step_name insert_registry_row = "insert_registry_row"
step_name create_database = "create_database"
step_name migrate_core = "migrate_core"
step_name write_default_settings = "write_default_settings"
step_name activate = "activate"

-- `PROVISION_STEPS`
abbrev pub provision_steps : List ProvisionStep
provision_steps =
    insert_registry_row ∷ create_database ∷ migrate_core ∷ write_default_settings ∷ activate ∷ []

-- The owner and the slug are given for a new workspace; `after_step` may raise.
pub record WalkInput : Type 0 where
  pub workspace_id : Uuid
  pub owner_account_id : Option Uuid
  pub slug : Option String
  pub after_step : String → Result Exn (Unit {0})
  pub now : ProvisionStep → ℤ

unfoldable pub run_step :
    Cluster → WalkInput → System WorkspaceDatabase → ProvisionStep → Attempt (Unit {0})
run_step cluster input world insert_registry_row =
    step_insert_registry_row cluster (input.now insert_registry_row) world input.workspace_id
      input.owner_account_id input.slug
run_step cluster input world create_database =
    step_create_database cluster (input.now create_database) world input.workspace_id
run_step cluster input world migrate_core =
    step_migrate_core cluster (input.now migrate_core) world input.workspace_id
run_step cluster input world write_default_settings =
    step_write_default_settings cluster (input.now write_default_settings) world input.workspace_id
run_step cluster input world activate = step_activate (input.now activate) world input.workspace_id

-- `_walk`
unfoldable pub walk :
    Cluster → WalkInput → System WorkspaceDatabase → List ProvisionStep → Attempt (Unit {0})
walk cluster input world [] = (world, ok tt)
walk cluster input world (step ∷ steps) =
    and_then (run_step cluster input world step) (λ w finished.
      and_then (w, input.after_step (step_name step)) (λ v called. walk cluster input v steps))

-- `_SLUG`
abbrev slug_start : ℕ → Bool
slug_start point = (leb b'a' point && leb point b'z') || (leb b'0' point && leb point b'9')

slug_rest : String → Bool
slug_rest Prim.Native.String.[] = true
slug_rest (Prim.Native.String.◌∷◌ c s) = (slug_start (code c) || code c == b'-') && slug_rest s

slug_length : String → ℕ
slug_length Prim.Native.String.[] = 0
slug_length (Prim.Native.String.◌∷◌ c s) = suc (slug_length s)

slug_shape : String → Bool
slug_shape Prim.Native.String.[] = false
slug_shape (Prim.Native.String.◌∷◌ c s) =
    slug_start (code c) && slug_rest s && leb (slug_length s) 62

-- `_slug_for`, with `str(workspace_id)`
unfoldable pub slug_for : String → Option String → Result Exn String
unfolding slug_rest slug_length slug_shape
slug_for uuid_text none = ok uuid_text
slug_for uuid_text (some slug) =
    if slug_shape slug then ok slug else raise (other_error "ValueError" "")

-- `_check_after_step`
abbrev check_after_step : String → Option (String → Result Exn (Unit {0})) → Result Exn (Unit {0})
check_after_step profile none = ok tt
check_after_step profile (some after_step) =
    if str_eq profile "test" then ok tt else raise (other_error "ValueError" profile)

abbrev pub callback : Option (String → Result Exn (Unit {0})) → String → Result Exn (Unit {0})
callback none step = ok tt
callback (some after_step) step = after_step step

-- `provision`, under the resolved profile
unfoldable pub provision :
    Cluster
    → String
    → String
    → (ProvisionStep → ℤ)
    → System WorkspaceDatabase
    → Uuid
    → Uuid
    → Option String
    → Option (String → Result Exn (Unit {0}))
    → Attempt (Unit {0})
provision cluster profile uuid_text now world workspace_id owner_account_id slug after_step =
    and_then (world, check_after_step profile after_step)
      (λ w checked.
        and_then (w, slug_for uuid_text slug)
          (λ v named.
            walk cluster
              (record {
                workspace_id = workspace_id;
                owner_account_id = some owner_account_id;
                slug = some named;
                after_step = callback after_step;
                now = now;
              })
              v provision_steps))

-- `PROVISION_STEPS[PROVISION_STEPS.index(step) + 1 :]`, where the step is in the table.
steps_after : String → List ProvisionStep → List ProvisionStep → List ProvisionStep
steps_after name [] default = default
steps_after name (step ∷ steps) default =
    let rest = steps_after name steps default in
    if str_eq (step_name step) name then steps else rest

-- `_remaining_after`
unfoldable pub remaining_after : Option String → List ProvisionStep
unfolding steps_after
remaining_after none = create_database ∷ migrate_core ∷ write_default_settings ∷ activate ∷ []
remaining_after (some name) =
    steps_after name provision_steps
      (create_database ∷ migrate_core ∷ write_default_settings ∷ activate ∷ [])

abbrev pub resuming : (ProvisionStep → ℤ) → Uuid → WalkInput
resuming now workspace_id = record {
  workspace_id = workspace_id;
  owner_account_id = none;
  slug = none;
  after_step = callback none;
  now = now;
}

repair_in :
    Cluster
    → (ProvisionStep → ℤ)
    → System WorkspaceDatabase
    → Uuid
    → Option String
    → WorkspaceState
    → Attempt (Unit {0})
repair_in cluster now world workspace_id state_detail active = (world, ok tt)
repair_in cluster now world workspace_id state_detail provisioning =
    walk cluster (resuming now workspace_id) world (remaining_after state_detail)
repair_in cluster now world workspace_id state_detail unavailable =
    walk cluster (resuming now workspace_id) world
      (migrate_core ∷ write_default_settings ∷ activate ∷ [])
repair_in cluster now world workspace_id state_detail _ =
    (world, raise (storage_refusal workspace_state))

-- `repair`
unfoldable pub repair :
    Cluster → (ProvisionStep → ℤ) → System WorkspaceDatabase → Uuid → Attempt (Unit {0})
unfolding repair_in
repair cluster now world workspace_id =
    and_then (world, registry_row world workspace_id)
      (λ w row. repair_in cluster now w workspace_id row.state_detail row.state)
