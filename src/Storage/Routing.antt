-- ===== src/Storage/Routing.antt =====
-- storage/routing.py: from a context to a unit of work on its workspace's database.
pub mod Laws
use rheo_stream.Prelude.{String, Option, none, some, Result, ok, raise, ◌>>=◌}
use rheo_stream.Contracts.{Uuid, WorkspaceContext}
use rheo_stream.Refusals.{Exn, storage_refusal, workspace_unavailable}
use rheo_stream.Storage.Pools.{EnginePool, Served, engine_for}
use rheo_stream.Storage.Tables.{ControlPlane, WorkspaceRow, WorkspaceState, active}
use rheo_stream.Storage.ControlPlane.{get_workspace}
use rheo_stream.Storage.UnitOfWork.{Databases, UnitOfWork, new_unit_of_work}

-- What a call of an operation reads and writes: the workspace databases, the control plane's
-- database, and the pool of engines.
pub record System (S : Type 0) : Type 0 where
  pub databases : Databases S
  pub control : ControlPlane
  pub pool : EnginePool

available : Option WorkspaceRow → Result Exn WorkspaceRow
available none = raise (storage_refusal workspace_unavailable)
available (some row) = elim row.state [
  | active ↦ ok row
  | _ ↦ raise (storage_refusal workspace_unavailable)
]

-- `active_workspace`
unfoldable pub active_workspace : ControlPlane → Uuid → Result Exn WorkspaceRow
unfolding available
active_workspace control workspace_id = available (get_workspace control workspace_id)

module _ {S : Type 0} where
  abbrev pub with_pool : EnginePool → System S → System S
  with_pool pool system = record {
    databases = system.databases;
    control = system.control;
    pool = pool;
  }

  abbrev pub with_databases : Databases S → System S → System S
  with_databases databases system = record {
    databases = databases;
    control = system.control;
    pool = system.pool;
  }

  -- `open_unit_of_work`. What raises leaves the pool as it is, but for `UnitOfWork` itself, which
  -- refuses the empty name that `engine_for` has refused before.
  unfoldable pub open_unit_of_work :
      System S → WorkspaceContext → Result Exn (System S × UnitOfWork S)
  open_unit_of_work system ctx = do
    row ← active_workspace system.control ctx.workspace_id
    served ← engine_for system.pool row.database_name
    uow ← new_unit_of_work served.engine row.database_name
    ok (with_pool served.pool system, uow)
