-- ===== src/Tests/Contexts.antt =====
-- A context from a token, dispatched with.
use rheo_stream.Prelude.{
  ℕ, String, true, false, List, [], ◌∷◌, Option, none, some, Result, ok, ◌≡◌, ◌⊎◌, refl,
}
use rheo_stream.Prelude.Int.{pos}
use rheo_stream.Contracts.{
  owner, ActorKind, AudienceKind, api, mutate, natural, WorkspaceContext, only,
}
use rheo_stream.Refusals.{operation_unknown, operation_not_permitted}
use rheo_stream.Storage.Repositories.{WorkspaceDatabase}
use rheo_stream.Operations.Registry.{OperationRegistry, core_module_id}
use rheo_stream.Operations.Dispatch.{Run, Pydantic, refused_as, dispatch}
use rheo_stream.Boundary.Factories.{World, context_from_token}
use rheo_stream.Boundary.Factories.Withheld.{context_from_token-withholds}
use rheo_stream.Settings.Registry.{core_origin}
use rheo_stream.Tests.World.{server, database}
use rheo_stream.Tests.Tokens.{after, later, base64, value, issue_withheld}

abbrev world : World
world = record {
  databases = ("ws_1", database) ∷ [];
  control = after;
  pool = record { cache_size = 1; engines = [] };
}

abbrev seen : World
seen = record {
  databases = ("ws_1", database) ∷ [];
  control = later;
  pool = record { cache_size = 1; engines = ("ws_1", record { database = "ws_1" }) ∷ [] };
}

abbrev token_ctx : WorkspaceContext
token_ctx = record {
  workspace_id = 1;
  actor = record { kind = ActorKind.token; id = some 5 };
  role = owner;
  entry = api;
  audience = some (record { kind = AudienceKind.token; id = some 5 });
  operation_set = only ("core.workspace.status" ∷ []);
  enabled_modules = "notes" ∷ [];
  request_id = 9;
}

abbrev pydantic : Pydantic ℕ ℕ ℕ
pydantic = record {
  model_validate = λ model payload. some payload;
  is_instance = λ output class. true;
  empty = 0;
}

-- Issuing a token is registered, for any owner.
abbrev operations : OperationRegistry (Run WorkspaceDatabase ℕ ℕ)
operations =
    (
      "core.token.issue",
      record {
        declaration = record {
          name = "core.token.issue";
          safety_class = some mutate;
          roles = owner ∷ [];
          input_model = some (record { id = 7; fields = []; extra_allow = false });
          output = 1;
          idempotency = natural;
          audit = none;
        };
        handler = record { id = 1; run = λ ctx system uow input. (system, uow, ok 1) };
        origin = core_origin;
        module_id = core_module_id;
      },
    )
    ∷ []

context_given :
    context_from_token true server (pos 2000) (λ raw. "digest") base64 world value api 9
    ≡ (seen, ok (ok token_ctx))
unfolding context_from_token rheo_stream.Tokens.Presentation.resolve_token
    rheo_stream.Tokens.Format.parse rheo_stream.Tokens.Format.after_prefix
    rheo_stream.Tokens.Format.parse_kind rheo_stream.Tokens.Format.is_value
    rheo_stream.Storage.Tables.first rheo_stream.Prelude.elem rheo_stream.Prelude.keep
    rheo_stream.Storage.ControlPlane.list_access_token_operations
    rheo_stream.Storage.ControlPlane.touch_access_token_last_used
    rheo_stream.Boundary.Factories.active_workspace_modules rheo_stream.Storage.Pools.engine_for
    rheo_stream.Storage.Pools.check_database_name rheo_stream.Prelude.Text.is_database_name
    rheo_stream.Storage.UnitOfWork.new_unit_of_work rheo_stream.Storage.UnitOfWork.enter
    rheo_stream.Prelude.Dict.lookup rheo_stream.Storage.UnitOfWork.connected
    rheo_stream.Storage.Tables.update_where rheo_stream.Storage.Pools.evict
    rheo_stream.Boundary.Factories.enabled_modules
context_given = refl

context_from_token-withholds_example :
    (state : String) × (dispatch true server pydantic operations seen
        (some token_ctx)
        "core.token.issue"
        (some 3)
      ≡ (seen, ok (refused_as state)))
    × ((state ≡ operation_not_permitted) ⊎ (state ≡ operation_unknown))
context_from_token-withholds_example =
    context_from_token-withholds true server world seen api 9 token_ctx (pos 2000) (λ raw. "digest")
      base64 value context_given pydantic operations seen "core.token.issue" (some 3) issue_withheld
