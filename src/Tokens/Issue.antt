-- ===== src/Tokens/Issue.antt =====
-- tokens/issue.py: the handlers of `core.token.issue` and `core.token.revoke`. What the handler draws
-- and reads outside the control plane are the fields of `Surroundings`.
pub mod Laws
use rheo_stream.Prelude.{
  ℕ, String, Bool, true, false, not, ◌&&◌, ◌||◌, List, [], ◌∷◌, ◌++◌, Option, none, some, Result,
  ok, raise, ◌>>=◌, ◌==◌, elem, keep, inter, diff, sorted, str_eq, if◌then◌else◌,
}
use rheo_stream.Prelude.Int.{ℤ, pos, ◌+ℤ◌, ◌*ℤ◌}
use rheo_stream.Prelude.Text.{join}
use rheo_stream.Contracts.{Uuid, Actor, ActorKind, account, operator, Role, WorkspaceContext}
use rheo_stream.Refusals.{
  Exn, operation_refused, other_error, set_not_issuable, set_empty, set_selection_invalid,
  account_required, membership_missing, not_found,
}
use rheo_stream.Settings.Exceptions.{of_settings}
use rheo_stream.Settings.Registry.{Registry}
use rheo_stream.Settings.Deployment.{Deployment}
use rheo_stream.Settings.Resolver.{OverrideSource, resolve, get_int}
use rheo_stream.Storage.Tables.{ControlPlane, MembershipRow, AccessTokenRow}
use rheo_stream.Storage.ControlPlane.{
  get_membership, get_access_token, insert_access_token, insert_access_token_operations,
  revoke_access_token,
}
use rheo_stream.Operations.Registry.{OperationRegistry}
use rheo_stream.Tokens.Policy.{
  non_token_issuable, read_only, agent_default, cli_full, role_permitted_set,
}
use rheo_stream.Tokens.Format.{Base64, render}

pub record TokenIssueInput : Type 0 where
  pub kind : String
  pub set_name : Option String
  pub operations : Option (List String)
  pub account_id : Option Uuid
  pub purpose : Option String

pub record TokenIssued : Type 0 where
  pub token_id : Uuid
  pub value : String
  pub kind : String
  pub expires_at : ℤ
  pub operations : List String

-- The clock, `uuid7()`, `secrets.token_bytes(32)`, SHA-256, base64, and the settings' sources.
pub record Surroundings : Type 0 where
  pub now : ℤ
  pub new_id : Uuid
  pub random : List ℕ
  pub sha256 : List ℕ → String
  pub base64 : Base64
  pub settings : Registry
  pub deployment : Deployment
  pub overrides : OverrideSource

-- `frozenset(xs)`, each member once
unfoldable pub distinct : List String → List String
distinct [] = []
distinct (x ∷ xs) = let rest = distinct xs in if elem x rest then rest else x ∷ rest

explicit_set : List String → List String → Result Exn (List String)
explicit_set requested [] = ok requested
explicit_set requested (name ∷ names) = raise (operation_refused set_not_issuable)

pub record Issuer : Type 0 where
  pub account_id : Uuid
  pub issued_from : String
  pub permitted : List String

-- `(requested & issuer_permitted) - NON_TOKEN_ISSUABLE`
abbrev pub survivors_of : List String → List String → List String
survivors_of requested permitted = diff (inter requested permitted) non_token_issuable

-- `resolve(workspace_id=…, source=…).get_int(f"identity.token_max_days.{kind}")`
unfoldable pub max_days : Surroundings → Uuid → String → Result Exn ℤ
max_days around workspace_id kind = of_settings (do
  values ←
      resolve around.settings around.deployment (some workspace_id) none (some around.overrides)
  get_int around.settings values (join "" ("identity.token_max_days." ∷ kind ∷ [])))

seconds_per_day : ℤ
seconds_per_day = pos 86400

abbrev pub row_of : Surroundings → WorkspaceContext → TokenIssueInput → Issuer → ℤ → AccessTokenRow
row_of around ctx input issuer expires_at = record {
  id = around.new_id;
  token_hash = around.sha256 around.random;
  account_id = issuer.account_id;
  workspace_id = ctx.workspace_id;
  kind = input.kind;
  issued_from = issuer.issued_from;
  set_name = input.set_name;
  purpose = input.purpose;
  created_at = around.now;
  expires_at = expires_at;
  revoked_at = none;
  last_used_at = none;
}

-- The transaction on the control plane, for what has survived.
write_token :
    Surroundings
    → ControlPlane
    → WorkspaceContext
    → TokenIssueInput
    → Issuer
    → List String
    → Result Exn (ControlPlane × TokenIssued)
write_token around c ctx input issuer [] = raise (operation_refused set_empty)
write_token around c ctx input issuer (name ∷ names) = do
  days ← max_days around ctx.workspace_id input.kind
  let expires_at = around.now +ℤ seconds_per_day *ℤ days
  with_row ← insert_access_token c (row_of around ctx input issuer expires_at)
  written ← insert_access_token_operations with_row around.new_id (sorted (name ∷ names))
  ok (
    written,
    record {
      token_id = around.new_id;
      value = render around.base64 input.kind around.random;
      kind = input.kind;
      expires_at = expires_at;
      operations = sorted (name ∷ names);
    },
  )

module _ {H : Type 0} where
  -- `PACKAGE_SETS[set_name]()`
  package_set : OperationRegistry H → String → Result Exn (List String)
  package_set reg name =
      if str_eq name "read_only"
      then ok (read_only reg)
      else if str_eq name "agent_default"
      then ok (agent_default reg)
      else if str_eq name "cli_full"
      then ok (cli_full reg)
      else raise (operation_refused set_not_issuable)

  expand_selected :
      OperationRegistry H → Option String → Option (List String) → Result Exn (List String)
  expand_selected reg none (some operations) =
      explicit_set (distinct operations) (sorted (inter (distinct operations) non_token_issuable))
  expand_selected reg (some name) none = package_set reg name
  expand_selected reg _ _ = raise (operation_refused set_selection_invalid)

  -- `_expand`
  unfoldable pub expand : OperationRegistry H → TokenIssueInput → Result Exn (List String)
  unfolding expand_selected explicit_set package_set
  expand reg input = expand_selected reg input.set_name input.operations

  operator_issuer : OperationRegistry H → Uuid → Option MembershipRow → Result Exn (Issuer)
  operator_issuer reg account_id none = raise (operation_refused membership_missing)
  operator_issuer reg account_id (some membership) = ok (record {
    account_id = account_id;
    issued_from = "operator";
    permitted =
        inter (read_only reg ++ (agent_default reg ++ cli_full reg))
          (role_permitted_set reg membership.role);
  })

  account_issuer : OperationRegistry H → Option Uuid → Role → Result Exn Issuer
  account_issuer reg none role = raise (other_error "AssertionError" "")
  account_issuer reg (some id) role =
      ok (record {
        account_id = id;
        issued_from = "session";
        permitted = role_permitted_set reg role;
      })

  named_issuer : OperationRegistry H → ControlPlane → Uuid → Option Uuid → Result Exn Issuer
  named_issuer reg c workspace_id none = raise (operation_refused account_required)
  named_issuer reg c workspace_id (some account_id) =
      operator_issuer reg account_id (get_membership c account_id workspace_id)

  -- `_issuer_permitted_set`
  unfoldable pub issuer_permitted_set :
      OperationRegistry H → ControlPlane → WorkspaceContext → TokenIssueInput → Result Exn Issuer
  unfolding account_issuer named_issuer operator_issuer
  issuer_permitted_set reg c ctx input = elim ctx.actor.kind [
    | ActorKind.account ↦ account_issuer reg ctx.actor.id ctx.role
    | ActorKind.operator ↦ named_issuer reg c ctx.workspace_id input.account_id
    | _ ↦ raise (operation_refused account_required)
  ]

  -- `issue_handler`: what it raises leaves the control plane as it is.
  unfoldable pub issue_handler :
      OperationRegistry H
      → Surroundings
      → ControlPlane
      → WorkspaceContext
      → TokenIssueInput
      → Result Exn (ControlPlane × TokenIssued)
  unfolding write_token seconds_per_day
  issue_handler reg around c ctx input = do
    requested ← expand reg input
    issuer ← issuer_permitted_set reg c ctx input
    write_token around c ctx input issuer (survivors_of requested issuer.permitted)

abbrev same_account : Option Uuid → Uuid → Bool
same_account none id = false
same_account (some a) id = a == id

abbrev is_account : ActorKind → Bool
is_account ActorKind.account = true
is_account _ = false

revoke_found :
    ℤ → ControlPlane → WorkspaceContext → Uuid → Option AccessTokenRow → Result Exn ControlPlane
revoke_found now c ctx token_id none = raise (operation_refused not_found)
revoke_found now c ctx token_id (some row) =
    if not (row.workspace_id == ctx.workspace_id)
      || (is_account ctx.actor.kind && not (same_account ctx.actor.id row.account_id))
    then raise (operation_refused not_found)
    else revoke_access_token now c token_id

-- `revoke_handler`
unfoldable pub revoke_handler : ℤ → ControlPlane → WorkspaceContext → Uuid → Result Exn ControlPlane
unfolding revoke_found
revoke_handler now c ctx token_id = revoke_found now c ctx token_id (get_access_token c token_id)
