-- ===== src/Storage/Routing/Laws.antt =====
-- Where a context's unit of work points.
use rheo_stream.Prelude.{
  String, Option, none, some, ok, >>=-eq-ok, ok_injective, ◌≡◌, sym, subst, ap, ◌∙◌, arith,
}
use rheo_stream.Contracts.{WorkspaceContext}
use rheo_stream.Storage.Pools.{Engine, engine_for}
use rheo_stream.Storage.Pools.Laws.{IsValid, engine_for-IsServed}
use rheo_stream.Storage.Tables.{WorkspaceRow, active}
use rheo_stream.Storage.ControlPlane.{get_workspace}
use rheo_stream.Storage.UnitOfWork.{UnitOfWork, new_unit_of_work}
use rheo_stream.Storage.Routing.{System, active_workspace, available, open_unit_of_work}

available-ok :
    (o : Option WorkspaceRow) (row : WorkspaceRow)
    → available o ≡ ok row
    → (o ≡ some row) × (row.state ≡ active)
unfolding available
available-ok none row h = cc
available-ok (some found) row h = (ground arith, ground arith)

module _ {S : Type 0} where
  -- The unit of work is new, for the database that the workspace's row names now; its engine is the
  -- pool's for that name.
  pub record IsOpened (system : System S) (ctx : WorkspaceContext) (routed : System S)
      (uow : UnitOfWork S) : Type 0 where
    pub row : WorkspaceRow
    pub listed : get_workspace system.control ctx.workspace_id ≡ some row
    pub is_active : row.state ≡ active
    pub databases : routed.databases ≡ system.databases
    pub control : routed.control ≡ system.control
    pub expected : uow.expected_database ≡ row.database_name
    pub engine : IsValid system.pool → uow.engine.database ≡ row.database_name
    pub pool : IsValid system.pool → IsValid routed.pool

  new_unit_of_work-ok :
      (engine : Engine) (name : String) (uow : UnitOfWork S)
      → new_unit_of_work engine name ≡ ok uow
      → (uow.engine ≡ engine) × (uow.expected_database ≡ name)
  unfolding new_unit_of_work
  new_unit_of_work-ok engine name uow h = (ground arith, ground arith)

  pub open_unit_of_work-IsOpened :
      (system : System S) (ctx : WorkspaceContext) (routed : System S) (uow : UnitOfWork S)
      → open_unit_of_work system ctx ≡ ok (routed, uow)
      → IsOpened system ctx routed uow
  unfolding open_unit_of_work active_workspace
  open_unit_of_work-IsOpened system ctx routed uow h =
      let (row, found, h1) = >>=-eq-ok (active_workspace system.control ctx.workspace_id) _ h in
      let (served, given, h2) = >>=-eq-ok (engine_for system.pool row.database_name) _ h1 in
      let (made, created, h3) =
        >>=-eq-ok (new_unit_of_work {S = S} served.engine row.database_name) _ h2 in
      let (listed, is_active) =
        available-ok (get_workspace system.control ctx.workspace_id) row found in
      let (at_engine, at_name) = new_unit_of_work-ok served.engine row.database_name made created in
      let e = ok_injective h3 in
      let serve = λ (valid : IsValid system.pool).
        engine_for-IsServed system.pool row.database_name valid served given in
      record {
        row = row;
        listed = listed;
        is_active = is_active;
        databases = ap (λ p. p.0.databases) (sym e);
        control = ap (λ p. p.0.control) (sym e);
        expected = ap (λ p. p.1.expected_database) (sym e) ∙ at_name;
        engine = λ valid.
            ap (λ p. p.1.engine.database) (sym e)
            ∙ ap (λ x. x.database) at_engine
            ∙ (serve valid).2;
        pool = λ valid. subst IsValid (ap (λ p. p.0.pool) e) (serve valid).0;
      }
