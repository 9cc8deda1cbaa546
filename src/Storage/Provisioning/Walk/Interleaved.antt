-- ===== src/Storage/Provisioning/Walk/Interleaved.antt =====
-- Several walks at once: the steps of any walks, in any order.
use rheo_stream.Prelude.{List, [], ◌∷◌, some, ◌≡◌}
use rheo_stream.Contracts.{Uuid}
use rheo_stream.Storage.Tables.{active, WorkspaceRow}
use rheo_stream.Storage.ControlPlane.{get_workspace}
use rheo_stream.Storage.Repositories.{WorkspaceDatabase}
use rheo_stream.Storage.Routing.{System}
use rheo_stream.Storage.Provisioning.{Cluster}
use rheo_stream.Storage.Provisioning.Steps.Active.{run_step-Lists}
use rheo_stream.Storage.Provisioning.Walk.{ProvisionStep, WalkInput, run_step}

-- What a step leaves, whether it returns or raises.
unfoldable pub run_steps :
    Cluster → System WorkspaceDatabase → List (WalkInput × ProvisionStep) → System WorkspaceDatabase
run_steps cluster world [] = world
run_steps cluster world ((input, step) ∷ steps) =
    run_steps cluster (run_step cluster input world step).0 steps

-- A workspace that is active keeps its row, unchanged, through any sequence of steps of any walks,
-- its own and those of other workspaces, whether the steps return or raise.
pub run_steps-active :
    (cluster : Cluster) (world : System WorkspaceDatabase)
    (steps : List (WalkInput × ProvisionStep)) (workspace_id : Uuid) (row : WorkspaceRow)
    → get_workspace world.control workspace_id ≡ some row
    → row.state ≡ active
    → get_workspace (run_steps cluster world steps).control workspace_id ≡ some row
unfolding run_steps
run_steps-active cluster world [] workspace_id row found is_active = found
run_steps-active cluster world ((input, step) ∷ steps) workspace_id row found is_active =
    run_steps-active cluster (run_step cluster input world step).0 steps workspace_id row
      (run_step-Lists workspace_id row is_active cluster input world step found) is_active
