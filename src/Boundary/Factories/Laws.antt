-- ===== src/Boundary/Factories/Laws.antt =====
-- What a context that a factory returns rests on.
use rheo_stream.Prelude.{
  String, Bool, List, Option, none, some, Result, ok, raise, ok_injective, ◌≡◌, refl, ap, sym, ◌∙◌,
  arith,
}
use rheo_stream.Contracts.{Uuid, WorkspaceContext}
use rheo_stream.Refusals.{Exn}
use rheo_stream.Storage.Pools.{Served, engine_for}
use rheo_stream.Storage.Tables.{active, WorkspaceRow}
use rheo_stream.Storage.ControlPlane.{get_workspace}
use rheo_stream.Storage.UnitOfWork.{Server}
use rheo_stream.Storage.Repositories.{WorkspaceDatabase}
use rheo_stream.Boundary.Factories.{
  Answer, World, served_modules, modules_of_row, active_workspace_modules, with_modules,
}

-- The workspace is listed and active, and reading its modules leaves its database and the control
-- plane as they are.
pub record IsServable (world : World) (workspace_id : Uuid) (after : World) : Type 0 where
  pub row : WorkspaceRow
  pub listed : get_workspace world.control workspace_id ≡ some row
  pub is_active : row.state ≡ active
  pub control : after.control ≡ world.control
  pub databases : after.databases ≡ world.databases

module _ (verify : Bool) (server : Server WorkspaceDatabase) where
  served-same :
      (world : World) (name : String) (r : Result Exn Served)
      → ((served_modules verify server world name r).0.control ≡ world.control)
        × ((served_modules verify server world name r).0.databases ≡ world.databases)
  unfolding served_modules
  served-same world name (raise e) = (refl, refl)
  served-same world name (ok served) = (refl, refl)

  modules_of_row-IsServable :
      (world after : World) (workspace_id : Uuid) (o : Option WorkspaceRow) (enabled : List String)
      → get_workspace world.control workspace_id ≡ o
      → modules_of_row verify server world o ≡ (after, ok (ok enabled))
      → IsServable world workspace_id after
  unfolding modules_of_row
  modules_of_row-IsServable world after workspace_id none enabled listed h =
      let e = ap (λ p. p.1) h in cc e
  modules_of_row-IsServable world after workspace_id (some row) enabled listed h =
      let e = ap (λ p. p.0) h in
      let r = engine_for world.pool row.database_name in
      let (is_active, same) : (row.state ≡ active)
          × (served_modules verify server world row.database_name r ≡ (after, ok (ok enabled))) =
        (ground arith, ground arith) in
      let (control, databases) = served-same world row.database_name r in
      record {
        row = row;
        listed = listed;
        is_active = is_active;
        control = ap (λ p. p.0.control) (sym same) ∙ control;
        databases = ap (λ p. p.0.databases) (sym same) ∙ databases;
      }

  pub active_workspace_modules-IsServable :
      (world after : World) (workspace_id : Uuid) (enabled : List String)
      → active_workspace_modules verify server world workspace_id ≡ (after, ok (ok enabled))
      → IsServable world workspace_id after
  unfolding active_workspace_modules
  active_workspace_modules-IsServable world after workspace_id enabled h =
      modules_of_row-IsServable world after workspace_id (get_workspace world.control workspace_id)
        enabled refl h

  pub with_modules-context :
      (context : List String → WorkspaceContext) (p : World × Answer (List String)) (after : World)
      (ctx : WorkspaceContext)
      → with_modules verify server context p ≡ (after, ok (ok ctx))
      → (enabled : List String) × (p ≡ (after, ok (ok enabled))) × (context enabled ≡ ctx)
  with_modules-context context (w, raise e) after ctx h = cc (ap (λ p. p.1) h)
  with_modules-context context (w, ok (raise refusal)) after ctx h = cc (ap (λ p. p.1) h)
  with_modules-context context (w, ok (ok enabled)) after ctx h = (
    enabled,
    ap (λ x. (x, ok (ok enabled))) (ap (λ p. p.0) h),
    ok_injective (ok_injective (ap (λ p. p.1) h)),
  )
