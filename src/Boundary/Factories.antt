-- ===== src/Boundary/Factories.antt =====
-- boundary/factories.py: the only constructors of a `WorkspaceContext`. A factory returns a context or a
-- refusal, or raises; it leaves the system with the engine that the pool has made.
pub mod Laws
pub mod Sessions
pub mod Lifetime
pub mod Withheld
use rheo_stream.Prelude.{
  ℕ, String, Bool, true, false, not, ◌||◌, List, [], ◌∷◌, Option, none, some, Result, ok, raise,
  ◌>>=◌, str_eq, if◌then◌else◌, is_some,
}
use rheo_stream.Prelude.Int.{ℤ, leb_ℤ}
use rheo_stream.Contracts.{
  Uuid, ActorKind, Entry, AudienceKind, OperationSet, all_operations, only, Role, same_role,
  WorkspaceContext,
}
use rheo_stream.Refusals.{
  Exn, Refusal, workspace_unavailable, profile_required, membership_missing, session_missing,
  session_expired, session_revoked, workspace_unselected,
}
use rheo_stream.Storage.Pools.{Engine, Served, engine_for}
use rheo_stream.Storage.Tables.{
  ControlPlane, WorkspaceState, active, WorkspaceRow, SessionRow, MembershipRow,
}
use rheo_stream.Storage.ControlPlane.{get_workspace, get_membership}
use rheo_stream.Storage.ControlPlane.Sessions.{get_session_by_secret_hash}
use rheo_stream.Storage.UnitOfWork.{Databases, Server, new_unit_of_work, enter, connected}
use rheo_stream.Storage.Repositories.{WorkspaceDatabase, ModuleStateRow, list_module_states}
use rheo_stream.Storage.Routing.{System, with_pool}
use rheo_stream.Tokens.Format.{Base64}
use rheo_stream.Tokens.Presentation.{
  Resolution, resolved, refused, raised, ResolvedToken, resolve_token,
}

-- A context or what else the factory returns, or raises.
abbrev pub Answer : Type 0 → Type 0
Answer A = Result Exn (Result Refusal A)

abbrev pub World : Type 0
World = System WorkspaceDatabase

abbrev pub with_control : ControlPlane → World → World
with_control c world = record world { control = c }

-- The modules whose state is `_MODULE_ENABLED`
unfoldable pub enabled_modules : List ModuleStateRow → List String
enabled_modules [] = []
enabled_modules (row ∷ rows) =
    let rest = enabled_modules rows in
    if str_eq row.state "enabled" then row.module_id ∷ rest else rest

module _ (verify : Bool) (server : Server WorkspaceDatabase) where
  -- `with UnitOfWork(engine, row.database_name) as uow`, which only reads.
  read_modules : Databases WorkspaceDatabase → String → Engine → Result Exn (List String)
  read_modules databases name engine = do
    made ← new_unit_of_work engine name
    uow ← enter verify server databases made
    content ← connected uow
    ok (enabled_modules (list_module_states content))

  abbrev answered : {A : Type 0} → Result Exn A → Answer A
  answered (ok a) = ok (ok a)
  answered (raise e) = raise e

  served_modules : World → String → Result Exn Served → World × Answer (List String)
  served_modules world name (raise e) = (world, raise e)
  served_modules world name (ok served) =
      (with_pool served.pool world, answered (read_modules world.databases name served.engine))

  modules_of_row : World → Option WorkspaceRow → World × Answer (List String)
  modules_of_row world none = (world, ok (raise (record { state = workspace_unavailable })))
  modules_of_row world (some row) = elim row.state [
    | active ↦ served_modules world row.database_name (engine_for world.pool row.database_name)
    | _ ↦ (world, ok (raise (record { state = workspace_unavailable })))
  ]

  -- `_active_workspace_modules`
  unfoldable pub active_workspace_modules : World → Uuid → World × Answer (List String)
  unfolding read_modules served_modules modules_of_row
  active_workspace_modules world workspace_id =
      modules_of_row world (get_workspace world.control workspace_id)

  abbrev pub with_modules :
      (List String → WorkspaceContext)
      → World × Answer (List String)
      → World × Answer WorkspaceContext
  with_modules context (world, ok (ok enabled)) = (world, ok (ok (context enabled)))
  with_modules context (world, ok (raise refusal)) = (world, ok (raise refusal))
  with_modules context (world, raise e) = (world, raise e)

  -- `context_for_operator`, with the request id that it draws
  unfoldable pub context_for_operator :
      World → Uuid → Entry → Uuid → World × Answer WorkspaceContext
  context_for_operator world workspace_id entry request_id =
      with_modules
        (λ enabled. record {
          workspace_id = workspace_id;
          actor = record { kind = ActorKind.operator; id = none };
          role = Role.operator;
          entry = entry;
          audience = none;
          operation_set = all_operations;
          enabled_modules = enabled;
          request_id = request_id;
        })
        (active_workspace_modules world workspace_id)

  abbrev pub account_context : Uuid → Uuid → Role → Entry → Uuid → List String → WorkspaceContext
  account_context workspace_id account_id role entry request_id enabled = record {
    workspace_id = workspace_id;
    actor = record { kind = ActorKind.account; id = some account_id };
    role = role;
    entry = entry;
    audience = some (record { kind = AudienceKind.session; id = some account_id });
    operation_set = all_operations;
    enabled_modules = enabled;
    request_id = request_id;
  }

  abbrev has_role : Role → Option MembershipRow → Bool
  has_role wanted none = false
  has_role wanted (some membership) = same_role membership.role wanted

  -- `context_for_harness`, under the resolved profile
  unfoldable pub context_for_harness :
      String → World → Uuid → Uuid → Role → Entry → Uuid → World × Answer WorkspaceContext
  context_for_harness profile world workspace_id account_id wanted entry request_id =
      if not (str_eq profile "test")
      then (world, ok (raise (record { state = profile_required })))
      else if not (has_role wanted (get_membership world.control account_id workspace_id))
      then (world, ok (raise (record { state = membership_missing })))
      else with_modules (account_context workspace_id account_id wanted entry request_id)
          (active_workspace_modules world workspace_id)

  for_member :
      World
      → SessionRow
      → Uuid
      → Entry
      → Uuid
      → Option MembershipRow
      → World × Answer WorkspaceContext
  for_member world row workspace_id entry request_id none =
      (world, ok (raise (record { state = membership_missing })))
  for_member world row workspace_id entry request_id (some membership) =
      with_modules (account_context workspace_id row.account_id membership.role entry request_id)
        (active_workspace_modules world workspace_id)

  for_selected : World → SessionRow → Entry → Uuid → Option Uuid → World × Answer WorkspaceContext
  for_selected world row entry request_id none =
      (world, ok (raise (record { state = workspace_unselected })))
  for_selected world row entry request_id (some workspace_id) =
      for_member world row workspace_id entry request_id
        (get_membership world.control row.account_id workspace_id)

  for_session : ℤ → World → Entry → Uuid → Option SessionRow → World × Answer WorkspaceContext
  for_session now world entry request_id none =
      (world, ok (raise (record { state = session_missing })))
  for_session now world entry request_id (some row) =
      if leb_ℤ row.expires_at now
      then (world, ok (raise (record { state = session_expired })))
      else if is_some row.revoked_at
      then (world, ok (raise (record { state = session_revoked })))
      else for_selected world row entry request_id row.active_workspace_id

  -- `context_from_session`
  unfoldable pub context_from_session :
      (List ℕ → String)
      → ℤ
      → World
      → List ℕ
      → String
      → Entry
      → Uuid
      → World × Answer WorkspaceContext
  unfolding for_member for_selected for_session
  context_from_session sha256 now world secret host entry request_id =
      for_session now world entry request_id
        (get_session_by_secret_hash world.control (sha256 secret) host)

  abbrev pub token_context : ResolvedToken → Entry → Uuid → List String → WorkspaceContext
  token_context token entry request_id enabled = record {
    workspace_id = token.workspace_id;
    actor = record { kind = ActorKind.token; id = some token.account_id };
    role = token.role;
    entry = entry;
    audience = some (record { kind = AudienceKind.token; id = some token.account_id });
    operation_set = only token.operation_set;
    enabled_modules = enabled;
    request_id = request_id;
  }

  for_token : World → Entry → Uuid → Resolution → World × Answer WorkspaceContext
  for_token world entry request_id (refused refusal) = (world, ok (raise refusal))
  for_token world entry request_id (raised e) = (world, raise e)
  for_token world entry request_id (resolved control token) =
      with_modules (token_context token entry request_id)
        (active_workspace_modules (with_control control world) token.workspace_id)

  -- The surfaces, by their names.
  abbrev pub surface_name : Entry → String
  surface_name Entry.web = "web"
  surface_name Entry.api = "api"
  surface_name Entry.mcp = "mcp"
  surface_name Entry.cli = "cli"
  surface_name Entry.job = "job"
  surface_name Entry.intake = "intake"
  surface_name Entry.channel = "channel"

  -- `context_from_token`, on a surface that is an `Entry`
  unfoldable pub context_from_token :
      ℤ
      → (List ℕ → String)
      → Base64
      → World
      → String
      → Entry
      → Uuid
      → World × Answer WorkspaceContext
  unfolding for_token
  context_from_token now sha256 base64 world value surface request_id =
      for_token world surface request_id
        (resolve_token now sha256 base64 world.control value (surface_name surface))
