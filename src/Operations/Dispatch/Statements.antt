-- ===== src/Operations/Dispatch/Statements.antt =====
-- What the theorems of a dispatch speak of: no change, a handler that has run, engines that connect
-- where they say.
use rheo_stream.Prelude.{Bool, true, none, some, Result, ok, ◌≡◌, ◌⊎◌}
use rheo_stream.Prelude.Dict.{lookup, insert}
use rheo_stream.Contracts.{WorkspaceContext}
use rheo_stream.Refusals.{Exn}
use rheo_stream.Storage.UnitOfWork.{Server, UnitOfWork}
use rheo_stream.Storage.Pools.{Engine}
use rheo_stream.Storage.Pools.Laws.{IsValid}
use rheo_stream.Storage.Tables.{WorkspaceRow, active}
use rheo_stream.Storage.ControlPlane.{get_workspace}
use rheo_stream.Storage.Routing.{System}
use rheo_stream.Operations.Registry.{RegisteredOperation}
use rheo_stream.Operations.Dispatch.{Run, OperationOutcome, succeeded_with}

module _ {S O : Type 0} where
  -- Nothing is changed but the pool, and there is no result.
  abbrev pub IsUnchanged : System S → System S × Result Exn (OperationOutcome O) → Type 0
  IsUnchanged system r =
      (r.0.databases ≡ system.databases)
      × (r.0.control ≡ system.control)
      × ((outcome : OperationOutcome O) → r.1 ≡ ok outcome → outcome.result ≡ none)

module _ {S : Type 0} (verify : Bool) (server : Server S) where
  -- The engines connect where they say, or the unit of work verifies it.
  abbrev pub IsDirected : System S → Type 0
  IsDirected system =
      (verify ≡ true)
      ⊎ (IsValid system.pool × ((e : Engine) → server.current_database e ≡ e.database))

module _ {S I O : Type 0} where
  -- The handler's result on the content of the database that the context's workspace names, which
  -- has what the handler's transaction left.
  pub record IsDone (op : RegisteredOperation (Run S I O)) (input : I) (system : System S)
      (ctx : WorkspaceContext) (r : System S × Result Exn (OperationOutcome O)) : Type 0 where
    pub row : WorkspaceRow
    pub listed : get_workspace system.control ctx.workspace_id ≡ some row
    pub is_active : row.state ≡ active
    pub before : S
    pub found : lookup row.database_name system.databases ≡ some before
    pub routed : System S
    pub same_databases : routed.databases ≡ system.databases
    pub same_control : routed.control ≡ system.control
    pub uow : UnitOfWork S
    pub begun : uow.transaction ≡ some before
    pub content : S
    pub left : (op.handler.run ctx routed uow input).1.transaction ≡ some content
    pub output : O
    pub gave : (op.handler.run ctx routed uow input).2 ≡ ok output
    pub returned : r.1 ≡ ok (succeeded_with output)
    pub control : r.0.control ≡ system.control
    pub written : r.0.databases ≡ insert row.database_name content system.databases
