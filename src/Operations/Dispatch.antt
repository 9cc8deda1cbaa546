-- ===== src/Operations/Dispatch.antt =====
-- `dispatch` of operations/dispatch.py. A handler gets the whole system and the unit of work, and
-- returns or raises. The texts of details are not modelled, nor is the log.
pub mod Laws
pub mod Outcomes
pub mod Statements
use rheo_stream.Prelude.{
  ℕ, String, Bool, true, false, not, Option, none, some, Result, ok, raise, ◌>>=◌, if◌then◌else◌,
}
use rheo_stream.Contracts.{WorkspaceContext, Model}
use rheo_stream.Refusals.{
  Exn, operation_refused, storage_refusal, other_error, Refusal, succeeded, failed, handler_failed,
  input_invalid, output_invalid, context_required,
}
use rheo_stream.Storage.UnitOfWork.{Server, UnitOfWork, enter, exit, commit, rollback}
use rheo_stream.Storage.Routing.{System, with_databases, open_unit_of_work}
use rheo_stream.Operations.Registry.{RegisteredOperation, OperationRegistry}
use rheo_stream.Operations.Registry.Authorize.{Authorization, authorized, refused, authorize}

-- An error's text: the refusal's detail, or the name of a class.
pub data ErrorText : Type 0 where
  detail : ErrorText
  class_name : String → ErrorText
  wrong_output : ErrorText

pub record OperationError : Type 0 where
  pub error_code : String
  pub error_text : ErrorText

pub record OperationOutcome (O : Type 0) : Type 0 where
  pub state : String
  pub result : Option O
  pub error : Option OperationError

-- A handler: `handler(ctx, uow, model_input)`, with what it does to the system.
abbrev pub Run : Type 0 → Type 0 → Type 0 → Type 0
Run S I O = WorkspaceContext → System S → UnitOfWork S → I → System S × UnitOfWork S × Result Exn O

-- pydantic: `model_validate` of a payload, and `isinstance` of an output and a class.
pub record Pydantic (P I O : Type 0) : Type 0 where
  pub model_validate : Model → P → Option I
  pub is_instance : O → ℕ → Bool
  pub empty : P

module _ {O : Type 0} where
  -- `_refused`
  abbrev pub refused_as : String → OperationOutcome O
  refused_as state = record {
    state = state;
    result = none;
    error = some (record { error_code = state; error_text = detail });
  }

  abbrev pub failed_as : String → ErrorText → OperationOutcome O
  failed_as code text = record {
    state = failed;
    result = none;
    error = some (record { error_code = code; error_text = text });
  }

  abbrev pub succeeded_with : O → OperationOutcome O
  succeeded_with output = record { state = succeeded; result = some output; error = none }

  -- The three `except` clauses.
  unfoldable pub outcome_of : Exn → OperationOutcome O
  outcome_of (operation_refused state) = refused_as state
  outcome_of (storage_refusal state) = refused_as state
  outcome_of (other_error cls message) = failed_as handler_failed (class_name cls)

module _ {S P I O : Type 0} (verify : Bool) (server : Server S) (pydantic : Pydantic P I O) where
  -- After the commit; the databases are those that it leaves.
  after_commit :
      System S
      → UnitOfWork S
      → O
      → Result Exn (Unit {0})
      → System S × UnitOfWork S × OperationOutcome O
  after_commit system uow output (ok done) = (system, exit uow, succeeded_with output)
  after_commit system uow output (raise e) = (system, exit (rollback uow).0, outcome_of e)

  -- After the handler, which has returned or raised.
  after_handler :
      RegisteredOperation (Run S I O)
      → System S
      → UnitOfWork S
      → Result Exn O
      → System S × UnitOfWork S × OperationOutcome O
  after_handler op system uow (raise e) = (system, exit (rollback uow).0, outcome_of e)
  after_handler op system uow (ok output) =
      let (databases, closed, done) = commit server system.databases uow in
      if not (pydantic.is_instance output op.declaration.output)
      then (system, exit (rollback uow).0, failed_as output_invalid wrong_output)
      else after_commit (with_databases databases system) closed output done

  -- The body of `with uow`, and `__exit__`.
  unfoldable pub run_in :
      RegisteredOperation (Run S I O)
      → WorkspaceContext
      → System S
      → UnitOfWork S
      → I
      → System S × UnitOfWork S × OperationOutcome O
  unfolding after_handler after_commit outcome_of
  run_in op ctx system uow input =
      let (next, used, returned) = op.handler.run ctx system uow input in
      after_handler op next used returned

  -- From `open_unit_of_work` on; what `__enter__` raises is not caught.
  entered :
      RegisteredOperation (Run S I O)
      → WorkspaceContext
      → System S
      → I
      → Result Exn (UnitOfWork S)
      → System S × Result Exn (OperationOutcome O)
  entered op ctx system input (raise e) = (system, raise e)
  entered op ctx system input (ok uow) =
      let (next, closed, outcome) = run_in op ctx system uow input in (next, ok outcome)

  opened :
      RegisteredOperation (Run S I O)
      → WorkspaceContext
      → System S
      → I
      → Result Exn (System S × UnitOfWork S)
      → System S × Result Exn (OperationOutcome O)
  opened op ctx system input (raise (storage_refusal state)) = (system, ok (refused_as state))
  opened op ctx system input (raise e) = (system, raise e)
  opened op ctx system input (ok (routed, uow)) =
      entered op ctx routed input (enter verify server routed.databases uow)

  validated :
      RegisteredOperation (Run S I O)
      → WorkspaceContext
      → System S
      → Option I
      → System S × Result Exn (OperationOutcome O)
  validated op ctx system none = (system, ok (refused_as input_invalid))
  validated op ctx system (some input) = opened op ctx system input (open_unit_of_work system ctx)

  -- `{} if payload is None else payload`
  abbrev pub given : Option P → P
  given none = pydantic.empty
  given (some payload) = payload

  -- The payload, validated by the model of a declaration; only an unregistered one has no model.
  abbrev pub validate_input : Option Model → Option P → Option I
  validate_input none payload = none
  validate_input (some model) payload = pydantic.model_validate model (given payload)

  after_authorize :
      WorkspaceContext
      → System S
      → Option P
      → Authorization (Run S I O)
      → System S × Result Exn (OperationOutcome O)
  after_authorize ctx system payload (refused refusal) = (system, ok (refused_as refusal.state))
  after_authorize ctx system payload (authorized op) =
      validated op ctx system (validate_input op.declaration.input_model payload)

  -- `none` is an argument that is no `WorkspaceContext`.
  unfoldable pub dispatch :
      OperationRegistry (Run S I O)
      → System S
      → Option WorkspaceContext
      → String
      → Option P
      → System S × Result Exn (OperationOutcome O)
  unfolding entered opened validated after_authorize
  dispatch reg system none name payload = (system, ok (refused_as context_required))
  dispatch reg system (some ctx) name payload =
      after_authorize ctx system payload (authorize reg (some ctx) name)
