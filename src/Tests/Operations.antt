-- ===== src/Tests/Operations.antt =====
-- The registration of operations, and their authorization.
use rheo_stream.Prelude.{
  ℕ, zero, suc, ◌+◌, String, true, false, [], ◌∷◌, Option, none, some, Result, ok, raise, ◌≡◌, refl,
  ◌↔◌,
}
use rheo_stream.Prelude.Dict.{lookup, insert}
use rheo_stream.Settings.Value.{Error}
use rheo_stream.Settings.Registry.{core_origin, test_harness_origin}
use rheo_stream.Contracts.{
  owner, ActorKind, web, WorkspaceContext, only, OperationDeclaration, Model, mutate, natural,
}
use rheo_stream.Refusals.{Exn, operation_refused}
use rheo_stream.Storage.UnitOfWork.{UnitOfWork, with_transaction}
use rheo_stream.Storage.Routing.{System}
use rheo_stream.Operations.Registry.{
  Handler, RegisteredOperation, OperationRegistry, register, core_module_id,
}
use rheo_stream.Operations.Registry.Authorize.{authorize, authorized, MayRun, authorize_iff}
use rheo_stream.Operations.Registry.Laws.{
  IsValid as IsTable, register-keeps_IsValid, register-keeps_operation, register-harness_profile,
}
use rheo_stream.Operations.Dispatch.{Run, Pydantic}

abbrev pub pydantic : Pydantic ℕ ℕ ℕ
pydantic = record { model_validate = λ m p. some p; is_instance = λ o c. true; empty = 0 }

-- A handler that adds its input to the counter, and refuses the input 0.
abbrev pub counted : System ℕ → UnitOfWork ℕ → Option ℕ → ℕ → System ℕ × UnitOfWork ℕ × Result Exn ℕ
counted system uow (some n) (suc k) = (system, with_transaction (some (n + suc k)) uow, ok (suc k))
counted system uow _ _ = (system, uow, raise (operation_refused "count_refused"))

abbrev count_up : Run ℕ ℕ ℕ
count_up = λ ctx system uow input. counted system uow uow.transaction input

pub counted-confined :
    (system : System ℕ) (uow : UnitOfWork ℕ) (t : Option ℕ) (n : ℕ)
    → ((counted system uow t n).0 ≡ system)
      × ((counted system uow t n).1.connection ≡ uow.connection)
counted-confined system uow none zero = (refl, refl)
counted-confined system uow none (suc k) = (refl, refl)
counted-confined system uow (some m) zero = (refl, refl)
counted-confined system uow (some m) (suc k) = (refl, refl)

abbrev input_model : Model
input_model = record { id = 7; fields = []; extra_allow = false }

abbrev pub declaration : String → OperationDeclaration
declaration name = record {
  name = name;
  safety_class = some mutate;
  roles = owner ∷ [];
  input_model = some input_model;
  output = 1;
  idempotency = natural;
  audit = none;
}

abbrev pub handler : Handler (Run ℕ ℕ ℕ)
handler = record { id = 1; run = count_up }

abbrev pub operation : RegisteredOperation (Run ℕ ℕ ℕ)
operation = record {
  declaration = declaration "core.counter.add";
  handler = handler;
  origin = core_origin;
  module_id = core_module_id;
}

abbrev pub operations : OperationRegistry (Run ℕ ℕ ℕ)
operations = ("core.counter.add", operation) ∷ []

operation_registered :
    register (ok "production") [] (declaration "core.counter.add") handler core_origin
    ≡ ok (operations, operation)
unfolding register rheo_stream.Operations.Registry.name_prefix rheo_stream.Prelude.Text.split
    rheo_stream.Prelude.Text.is_segment rheo_stream.Operations.Registry.check_origin
    rheo_stream.Operations.Registry.reserved_of rheo_stream.Prelude.keep
    rheo_stream.Operations.Registry.alias_names lookup insert
operation_registered = refl

none_IsTable : IsTable {H = Run ℕ ℕ ℕ} []
unfolding lookup
none_IsTable = λ name op h. cc

register-keeps_IsValid_example : IsTable operations
register-keeps_IsValid_example =
    register-keeps_IsValid (ok "production") [] (declaration "core.counter.add") handler core_origin
      (operations, operation) operation_registered none_IsTable

abbrev second : RegisteredOperation (Run ℕ ℕ ℕ)
second = record {
  declaration = declaration "notes.entry.add";
  handler = handler;
  origin = "notes";
  module_id = "notes";
}

abbrev both : OperationRegistry (Run ℕ ℕ ℕ)
both = ("core.counter.add", operation) ∷ ("notes.entry.add", second) ∷ []

second_registered :
    register (ok "production") operations (declaration "notes.entry.add") handler "notes"
    ≡ ok (both, second)
unfolding register rheo_stream.Operations.Registry.name_prefix rheo_stream.Prelude.Text.split
    rheo_stream.Prelude.Text.is_segment rheo_stream.Operations.Registry.check_origin
    rheo_stream.Operations.Registry.reserved_of rheo_stream.Prelude.keep
    rheo_stream.Operations.Registry.alias_names lookup insert
second_registered = refl

found : lookup "core.counter.add" operations ≡ some operation
unfolding lookup
found = refl

register-keeps_operation_example : lookup "core.counter.add" both ≡ some operation
register-keeps_operation_example =
    register-keeps_operation (ok "production") operations (declaration "notes.entry.add") handler
      "notes" (both, second) second_registered "core.counter.add" operation found

abbrev harness_operation : RegisteredOperation (Run ℕ ℕ ℕ)
harness_operation = record {
  declaration = declaration "harness.note.get";
  handler = handler;
  origin = test_harness_origin;
  module_id = "harness";
}

harness_registered :
    register (ok "test") [] (declaration "harness.note.get") handler test_harness_origin
    ≡ ok (("harness.note.get", harness_operation) ∷ [], harness_operation)
unfolding register rheo_stream.Operations.Registry.name_prefix rheo_stream.Prelude.Text.split
    rheo_stream.Prelude.Text.is_segment rheo_stream.Operations.Registry.check_origin
    rheo_stream.Operations.Registry.reserved_of rheo_stream.Prelude.keep
    rheo_stream.Operations.Registry.alias_names lookup insert
harness_registered = refl

register-harness_profile_example : ◌≡◌ {A = Result Error String} (ok "test") (ok "test")
register-harness_profile_example =
    register-harness_profile (ok "test") [] (declaration "harness.note.get") handler
      (("harness.note.get", harness_operation) ∷ [], harness_operation) harness_registered

abbrev pub ctx : WorkspaceContext
ctx = record {
  workspace_id = 1;
  actor = record { kind = ActorKind.account; id = some 5 };
  role = owner;
  entry = web;
  audience = none;
  operation_set = only ("core.counter.add" ∷ []);
  enabled_modules = [];
  request_id = 9;
}

authorize_iff_example :
    (authorize operations (some ctx) "core.counter.add" ≡ authorized operation)
    ↔ MayRun operations ctx "core.counter.add" operation
authorize_iff_example = authorize_iff operations ctx "core.counter.add" operation
