-- ===== src/Operations/Dispatch/Laws.antt =====
-- What a dispatch can change: nothing unless it succeeds, and then the context's database only.
use rheo_stream.Prelude.{
  String, Bool, Option, none, some, Result, ok, raise, ◌≡◌, ◌⊎◌, refl, ap, subst, inl, inr,
  Bool-cases,
}
use rheo_stream.Prelude.Dict.{insert}
use rheo_stream.Contracts.{WorkspaceContext}
use rheo_stream.Refusals.{Exn, operation_refused, storage_refusal, other_error}
use rheo_stream.Storage.UnitOfWork.{Databases, Server, UnitOfWork, commit}
use rheo_stream.Storage.UnitOfWork.Laws.{Committed, commit-Committed}
use rheo_stream.Storage.Routing.{System, with_databases}
use rheo_stream.Operations.Registry.{RegisteredOperation, OperationRegistry}
use rheo_stream.Operations.Registry.Authorize.{authorize, refused}
use rheo_stream.Operations.Dispatch.{
  dispatch, after_authorize, refused_as, Run, Pydantic, succeeded_with, OperationOutcome, run_in,
  after_handler, after_commit, outcome_of,
}

module _ {S I O : Type 0} where
  -- A handler that works in its unit of work alone: it may write through the connection, roll back,
  -- return and raise.
  abbrev pub IsConfined : Run S I O → Type 0
  IsConfined run =
      (ctx : WorkspaceContext) (system : System S) (uow : UnitOfWork S) (input : I)
      → ((run ctx system uow input).0 ≡ system)
        × ((run ctx system uow input).1.connection ≡ uow.connection)

module _ {S O : Type 0} where
  -- No success and no change; or success with what the handler returned, and one database written
  -- with the content that its transaction has.
  abbrev pub Effect :
      System S → UnitOfWork S → Result Exn O → System S × UnitOfWork S × OperationOutcome O → Type 0
  Effect system used returned r =
      ((r.0 ≡ system) × (r.2.result ≡ none))
      ⊎ ((database : String) × (content : S) × (output : O) × (used.connection ≡ some database)
          × (used.transaction ≡ some content)
          × (returned ≡ ok output)
          × (r.0 ≡ with_databases (insert database content system.databases) system)
          × (r.2 ≡ succeeded_with output))

outcome_of-result : {O : Type 0} (e : Exn) → (outcome_of {O = O} e).result ≡ none
unfolding outcome_of
outcome_of-result (operation_refused state) = refl
outcome_of-result (storage_refusal state) = refl
outcome_of-result (other_error cls message) = refl

module _ {S P I O : Type 0} (verify : Bool) (server : Server S) (pydantic : Pydantic P I O) where
  after_commit-Effect :
      (databases : Databases S) (system : System S) (used uow : UnitOfWork S) (output : O)
      (done : Result Exn (Unit {0}))
      → Committed system.databases used.connection used.transaction (databases, uow, done)
      → Effect system used
          (ok output)
          (after_commit verify server pydantic (with_databases databases system) uow output done)
  unfolding after_commit
  after_commit-Effect databases system used uow output (ok d) (inl (e, raised, same)) = cc
  after_commit-Effect databases system used uow output (ok d)
        (inr (database, content, at_c, at_t, returned, written)) =
      inr (
        database,
        content,
        output,
        at_c,
        at_t,
        refl,
        ap (λ x. with_databases x system) written,
        refl,
      )
  after_commit-Effect databases system used uow output (raise e) (inl (f, raised, same)) =
      inl (ap (λ x. with_databases x system) same, outcome_of-result e)
  after_commit-Effect databases system used uow output (raise e)
        (inr (database, content, at_c, at_t, returned, written)) =
      cc

  after_handler-Effect :
      (op : RegisteredOperation (Run S I O)) (system : System S) (uow : UnitOfWork S)
      (r : Result Exn O)
      → Effect system uow r (after_handler verify server pydantic op system uow r)
  unfolding after_handler
  after_handler-Effect op system uow (raise e) = inl (refl, outcome_of-result e)
  after_handler-Effect op system uow (ok output) =
      elim (Bool-cases (pydantic.is_instance output op.declaration.output)) [
        | inl instance_of ↦ rw instance_of (
            after_commit-Effect (commit server system.databases uow).0 system uow
              (commit server system.databases uow).1 output (commit server system.databases uow).2
              (commit-Committed server system.databases uow))
        | inr differs ↦ rw differs (inl (refl, refl))
      ]

  pub run_in-Effect :
      (op : RegisteredOperation (Run S I O)) (ctx : WorkspaceContext) (system : System S)
      (uow : UnitOfWork S) (input : I)
      → IsConfined op.handler.run
      → Effect system
          (op.handler.run ctx system uow input).1
          (op.handler.run ctx system uow input).2
          (run_in verify server pydantic op ctx system uow input)
  unfolding run_in
  run_in-Effect op ctx system uow input confined =
      let r = op.handler.run ctx system uow input in
      let (same, connected) = confined ctx system uow input in
      subst (λ x. Effect x r.1 r.2 (after_handler verify server pydantic op r.0 r.1 r.2)) same
        (after_handler-Effect op r.0 r.1 r.2)

  -- What `authorize` refuses is refused by the call, and nothing has been opened.
  pub dispatch-refused :
      (reg : OperationRegistry (Run S I O)) (system : System S) (ctx : WorkspaceContext)
      (name : String) (payload : Option P) (state : String)
      → authorize reg (some ctx) name ≡ refused (record { state = state })
      → dispatch verify server pydantic reg system (some ctx) name payload
        ≡ (system, ok (refused_as state))
  unfolding dispatch after_authorize
  dispatch-refused reg system ctx name payload state h =
      ap (after_authorize verify server pydantic ctx system payload) h
