-- ===== src/Operations/Dispatch/Outcomes.antt =====
-- What a dispatch returns and changes, from the authorization to the commit.
use rheo_stream.Prelude.{
  String, Bool, false, Option, none, some, Result, ok, raise, ok_injective, ◌≡◌, ◌≢◌, ◌⊎◌, refl,
  ◌∙◌, ap, sym, subst, str_eq, inl, inr,
}
use rheo_stream.Prelude.Dict.{lookup, insert, lookup-insert_ne}
use rheo_stream.Contracts.{WorkspaceContext}
use rheo_stream.Refusals.{Exn, operation_refused, storage_refusal, other_error}
use rheo_stream.Storage.UnitOfWork.{Server, UnitOfWork, enter}
use rheo_stream.Storage.UnitOfWork.Laws.{IsEntered, enter-IsEntered}
use rheo_stream.Storage.Tables.{WorkspaceRow}
use rheo_stream.Storage.ControlPlane.{get_workspace}
use rheo_stream.Storage.Routing.{System, open_unit_of_work}
use rheo_stream.Storage.Routing.Laws.{IsOpened, open_unit_of_work-IsOpened}
use rheo_stream.Operations.Registry.{RegisteredOperation, OperationRegistry}
use rheo_stream.Operations.Registry.Authorize.{
  Authorization, authorized, refused, authorize, authorize_iff, MayRun,
}
use rheo_stream.Operations.Dispatch.{
  Run, Pydantic, OperationOutcome, succeeded_with, dispatch, entered, opened, validated,
  after_authorize, validate_input,
}
use rheo_stream.Operations.Dispatch.Statements.{IsUnchanged, IsDirected, IsDone}
use rheo_stream.Operations.Dispatch.Laws.{IsConfined, run_in-Effect}

some_injective : {A : Type 0} {a b : A} → some a ≡ some b → a ≡ b
some_injective h = cc

module _ {S P I O : Type 0} (verify : Bool) (server : Server S) (pydantic : Pydantic P I O) where
  module _ (op : RegisteredOperation (Run S I O)) (confined : IsConfined op.handler.run)
      (ctx : WorkspaceContext) (system : System S) (directed : IsDirected verify server system)
      (input : I) where
    abbrev Ended : System S × Result Exn (OperationOutcome O) → Type 0
    Ended r = IsUnchanged system r ⊎ IsDone op input system ctx r

    -- The unit of work is connected to the database that the row names.
    target :
        {routed : System S} (uow u : UnitOfWork S) (o : IsOpened system ctx routed uow)
        → IsEntered verify server routed.databases uow u
        → server.current_database uow.engine ≡ o.row.database_name
    target uow u o e = elim directed [
      | inl verified ↦ e.verified verified ∙ o.expected
      | inr (valid, connects) ↦ connects uow.engine ∙ o.engine valid
    ]

    entered-Ended :
        (routed : System S) (uow : UnitOfWork S) (r : Result Exn (UnitOfWork S))
        → IsOpened system ctx routed uow
        → enter verify server routed.databases uow ≡ r
        → Ended (entered verify server pydantic op ctx routed input r)
    unfolding entered
    entered-Ended routed uow (raise e) o h = inl (o.databases, o.control, λ outcome returned. cc)
    entered-Ended routed uow (ok u) o h =
        let e = enter-IsEntered verify server routed.databases uow u h in
        elim (run_in-Effect verify server pydantic op ctx routed u input confined) [
          | inl (same, no_result) ↦ inl (
            ap (λ x. x.databases) same ∙ o.databases,
            ap (λ x. x.control) same ∙ o.control,
            λ outcome returned. subst (λ x. x.result ≡ none) (ok_injective returned) no_result,
          )
          | inr (database, content, output, connected, left, gave, changed, outcome) ↦
              let same = (confined ctx routed u input).1 in
              let named = target uow u o e in
              let at = some_injective (sym connected ∙ same ∙ e.connection) ∙ named in
              inr (record {
                row = o.row;
                listed = o.listed;
                is_active = o.is_active;
                before = e.content.0;
                found =
                    ap (λ k. lookup k system.databases) (sym named)
                    ∙ ap (lookup (server.current_database uow.engine)) (sym o.databases)
                    ∙ e.content.1;
                routed = routed;
                same_databases = o.databases;
                same_control = o.control;
                uow = u;
                begun = e.content.2;
                content = content;
                left = left;
                output = output;
                gave = gave;
                returned = ap ok outcome;
                control = ap (λ x. x.control) changed ∙ o.control;
                written =
                    ap (λ x. x.databases) changed
                    ∙ ap (λ d. insert database content d) o.databases
                    ∙ ap (λ d. insert d content system.databases) at;
              })
        ]

    opened-Ended :
        (r : Result Exn (System S × UnitOfWork S))
        → open_unit_of_work system ctx ≡ r
        → Ended (opened verify server pydantic op ctx system input r)
    unfolding opened
    opened-Ended (raise (storage_refusal state)) h =
        inl (
          refl,
          refl,
          λ outcome returned. subst (λ x. x.result ≡ none) (ok_injective returned) refl,
        )
    opened-Ended (raise (operation_refused state)) h = inl (refl, refl, λ outcome returned. cc)
    opened-Ended (raise (other_error cls message)) h = inl (refl, refl, λ outcome returned. cc)
    opened-Ended (ok (routed, uow)) h =
        entered-Ended routed uow (enter verify server routed.databases uow)
          (open_unit_of_work-IsOpened system ctx routed uow h) refl

  -- The handler registered under the name, if there is one, works in its unit of work alone.
  abbrev pub RunsConfined : OperationRegistry (Run S I O) → String → Type 0
  RunsConfined reg name =
      (op : RegisteredOperation (Run S I O)) → lookup name reg ≡ some op → IsConfined op.handler.run

  -- What a success rests on.
  pub record IsAllowed (reg : OperationRegistry (Run S I O)) (ctx : WorkspaceContext)
      (name : String) (payload : Option P) : Type 0 where
    pub op : RegisteredOperation (Run S I O)
    pub may_run : MayRun reg ctx name op
    pub input : I
    pub valid :
        validate_input verify server pydantic op.declaration.input_model payload ≡ some input

  module _ (reg : OperationRegistry (Run S I O)) (name : String) (confined : RunsConfined reg name)
      (system : System S) (directed : IsDirected verify server system) (ctx : WorkspaceContext)
      (payload : Option P) where
    abbrev pub Concluded : System S × Result Exn (OperationOutcome O) → Type 0
    Concluded r =
        IsUnchanged system r
        ⊎ ((a : IsAllowed reg ctx name payload) × IsDone a.op a.input system ctx r)

    validated-Concluded :
        (op : RegisteredOperation (Run S I O)) (o : Option I)
        → MayRun reg ctx name op
        → validate_input verify server pydantic op.declaration.input_model payload ≡ o
        → Concluded (validated verify server pydantic op ctx system o)
    unfolding validated
    validated-Concluded op none may e =
        inl (
          refl,
          refl,
          λ outcome returned. subst (λ x. x.result ≡ none) (ok_injective returned) refl,
        )
    validated-Concluded op (some input) may e =
        elim (opened-Ended op (confined op may.registered) ctx system directed input
          (open_unit_of_work system ctx) refl) [
            | inl unchanged ↦ inl unchanged
            | inr done ↦ inr (record { op = op; may_run = may; input = input; valid = e }, done)
          ]

    after_authorize-Concluded :
        (a : Authorization (Run S I O))
        → authorize reg (some ctx) name ≡ a
        → Concluded (after_authorize verify server pydantic ctx system payload a)
    unfolding after_authorize
    after_authorize-Concluded (refused refusal) e =
        inl (
          refl,
          refl,
          λ outcome returned. subst (λ x. x.result ≡ none) (ok_injective returned) refl,
        )
    after_authorize-Concluded (authorized op) e =
        validated-Concluded op
          (validate_input verify server pydantic op.declaration.input_model payload)
          ((authorize_iff reg ctx name op).0 e) refl

    -- Let the handler registered under the operation's name, if there is one, leave the system and
    -- its unit of work's connection as they are (it may write through the connection, roll back,
    -- return and raise), and let the unit of work verify its database, or let the pool be valid and
    -- every engine connect to the database it is for. Then a dispatch for a context either gives no
    -- result and leaves the workspace databases and the control plane as they were; or the context
    -- may run the operation, the payload is valid, the row of the context's workspace is active,
    -- the operation's handler ran on the validated input in a transaction begun on the content of
    -- the database that the row names, the outcome is `succeeded` with the output that the handler
    -- returned, the control plane is as it was, and the databases are those before with that
    -- database given the content that the handler's transaction left.
    pub dispatch-Concluded :
        Concluded (dispatch verify server pydantic reg system (some ctx) name payload)
    unfolding dispatch
    dispatch-Concluded = after_authorize-Concluded (authorize reg (some ctx) name) refl

    abbrev ran : System S × Result Exn (OperationOutcome O)
    ran = dispatch verify server pydantic reg system (some ctx) name payload

    -- Let the handler registered under the operation's name, if there is one, leave the system and
    -- its unit of work's connection as they are (it may write through the connection, roll back,
    -- return and raise), and let the unit of work verify its database, or let the pool be valid and
    -- every engine connect to the database it is for. Then a dispatch for a context that does not
    -- return `succeeded` with an output has changed no workspace database and nothing of the
    -- control plane.
    pub dispatch-atomic :
        ((output : O) → ran.1 ≢ ok (succeeded_with output))
        → (ran.0.databases ≡ system.databases) × (ran.0.control ≡ system.control)
    dispatch-atomic fails = elim dispatch-Concluded [
      | inl (databases, control, no_result) ↦ (databases, control)
      | inr (allowed, done) ↦ absurd (fails done.output done.returned)
    ]

    -- Let the handler registered under the operation's name, if there is one, leave the system and
    -- its unit of work's connection as they are (it may write through the connection, roll back,
    -- return and raise), and let the unit of work verify its database, or let the pool be valid and
    -- every engine connect to the database it is for. Then a dispatch for a context leaves as it
    -- was every workspace database whose name is not that of the row of the context's workspace.
    pub dispatch-isolated :
        (k : String)
        → ((row : WorkspaceRow)
            → get_workspace system.control ctx.workspace_id ≡ some row
            → str_eq row.database_name k ≡ false)
        → lookup k ran.0.databases ≡ lookup k system.databases
    dispatch-isolated k others = elim dispatch-Concluded [
      | inl (databases, control, no_result) ↦ ap (lookup k) databases
      | inr (allowed, done) ↦
          ap (lookup k) done.written
          ∙ lookup-insert_ne done.row.database_name k done.content system.databases
              (others done.row done.listed)
    ]
