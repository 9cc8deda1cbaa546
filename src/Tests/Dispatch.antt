-- ===== src/Tests/Dispatch.antt =====
-- Dispatches of an operation that adds to a counter.
use rheo_stream.Prelude.{
  ℕ, true, false, [], ◌∷◌, some, ok, ◌≡◌, ◌≢◌, refl, inl, str_eq, sym, ◌∙◌, subst,
}
use rheo_stream.Prelude.Dict.{lookup, insert}
use rheo_stream.Settings.Registry.{core_origin}
use rheo_stream.Storage.Pools.{engine_for}
use rheo_stream.Tests.World.{workspace_row, control}
use rheo_stream.Storage.Tables.{WorkspaceRow, first}
use rheo_stream.Storage.ControlPlane.{get_workspace}
use rheo_stream.Storage.UnitOfWork.{new_unit_of_work, enter, commit}
use rheo_stream.Operations.Registry.{RegisteredOperation, OperationRegistry, core_module_id}
use rheo_stream.Operations.Registry.Authorize.{authorize}
use rheo_stream.Operations.Dispatch.{Run, dispatch, succeeded_with, refused_as}
use rheo_stream.Operations.Dispatch.Outcomes.{
  Concluded, dispatch-Concluded, dispatch-atomic, dispatch-isolated,
}
use rheo_stream.Operations.Dispatch.Laws.{IsConfined}
use rheo_stream.Tests.Storage.{server, system}
use rheo_stream.Tests.Operations.{
  pydantic, counted-confined, declaration, handler, operation, operations, ctx,
}

counter-RunsConfined :
    (op : RegisteredOperation (Run ℕ ℕ ℕ))
    → lookup "core.counter.add" operations ≡ some op
    → IsConfined op.handler.run
unfolding lookup
counter-RunsConfined op h =
    let e : operation ≡ op = cc h in
    subst (λ o. IsConfined o.handler.run) e
      (λ c s uow input. counted-confined s uow uow.transaction input)

-- A handler that empties the control plane, beside the one that is dispatched.
abbrev wipe : RegisteredOperation (Run ℕ ℕ ℕ)
wipe = record {
  declaration = declaration "core.counter.wipe";
  handler = record handler {
    run = λ ctx system uow input.
        (record system { control = record system.control { workspaces = [] } }, uow, ok input);
  };
  origin = core_origin;
  module_id = core_module_id;
}

abbrev mixed : OperationRegistry (Run ℕ ℕ ℕ)
mixed = ("core.counter.wipe", wipe) ∷ operations

mixed-RunsConfined :
    (op : RegisteredOperation (Run ℕ ℕ ℕ))
    → lookup "core.counter.add" mixed ≡ some op
    → IsConfined op.handler.run
unfolding lookup
mixed-RunsConfined op h = counter-RunsConfined op h

dispatch-Concluded_example :
    Concluded true server pydantic mixed "core.counter.add" mixed-RunsConfined system
      (inl refl)
      ctx
      (some 2)
      (dispatch true server pydantic mixed system (some ctx) "core.counter.add" (some 2))
dispatch-Concluded_example =
    dispatch-Concluded true server pydantic mixed "core.counter.add" mixed-RunsConfined system
      (inl refl) ctx (some 2)

counter_added :
    (dispatch true server pydantic operations system (some ctx) "core.counter.add" (some 2)).1
    ≡ ok (succeeded_with 2)
unfolding dispatch authorize lookup rheo_stream.Prelude.elem
    rheo_stream.Storage.Routing.open_unit_of_work rheo_stream.Storage.Routing.active_workspace
    rheo_stream.Storage.Tables.first engine_for rheo_stream.Storage.Pools.check_database_name
    rheo_stream.Prelude.Text.is_database_name new_unit_of_work enter
    rheo_stream.Operations.Dispatch.run_in commit
counter_added = refl

counter_written :
    (dispatch true server pydantic operations system
      (some ctx)
      "core.counter.add"
      (some 2)).0.databases
    ≡ ("ws_1", 42) ∷ ("ws_2", 7) ∷ []
unfolding dispatch authorize lookup rheo_stream.Prelude.elem
    rheo_stream.Storage.Routing.open_unit_of_work rheo_stream.Storage.Routing.active_workspace
    rheo_stream.Storage.Tables.first engine_for rheo_stream.Storage.Pools.check_database_name
    rheo_stream.Prelude.Text.is_database_name new_unit_of_work enter
    rheo_stream.Operations.Dispatch.run_in commit insert
counter_written = refl

zero_outcome :
    (dispatch true server pydantic operations system (some ctx) "core.counter.add" (some 0)).1
    ≡ ok (refused_as "count_refused")
unfolding dispatch authorize lookup rheo_stream.Prelude.elem
    rheo_stream.Storage.Routing.open_unit_of_work rheo_stream.Storage.Routing.active_workspace first
    engine_for rheo_stream.Storage.Pools.check_database_name
    rheo_stream.Prelude.Text.is_database_name new_unit_of_work enter
    rheo_stream.Operations.Dispatch.run_in
zero_outcome = refl

zero_refused :
    (output : ℕ)
    → (dispatch true server pydantic operations system (some ctx) "core.counter.add" (some 0)).1
      ≢ ok (succeeded_with output)
zero_refused output h = cc (sym zero_outcome ∙ h)

dispatch-atomic_example :
    ((dispatch true server pydantic operations system
        (some ctx)
        "core.counter.add"
        (some 0)).0.databases
      ≡ system.databases)
    × ((dispatch true server pydantic operations system
          (some ctx)
          "core.counter.add"
          (some 0)).0.control
        ≡ system.control)
dispatch-atomic_example =
    dispatch-atomic true server pydantic operations "core.counter.add" counter-RunsConfined system
      (inl refl) ctx (some 0) zero_refused

other_database :
    (row : WorkspaceRow)
    → get_workspace control 1 ≡ some row
    → str_eq row.database_name "ws_2" ≡ false
unfolding first
other_database row h =
    let e : workspace_row ≡ row = cc h in subst (λ r. str_eq r.database_name "ws_2" ≡ false) e refl

dispatch-isolated_example :
    lookup "ws_2"
      (dispatch true server pydantic operations system
        (some ctx)
        "core.counter.add"
        (some 2)).0.databases
    ≡ lookup "ws_2" system.databases
dispatch-isolated_example =
    dispatch-isolated true server pydantic operations "core.counter.add" counter-RunsConfined system
      (inl refl) ctx (some 2) "ws_2" other_database
