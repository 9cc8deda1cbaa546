-- ===== src/Tokens/Presentation.antt =====
-- `resolve_token` of tokens/presentation.py.
pub mod Laws
pub mod Issued
use rheo_stream.Prelude.{
  ℕ, String, Bool, true, false, not, ◌&&◌, ◌||◌, List, [], ◌∷◌, Option, none, some, Result, ok,
  raise, ◌>>=◌, elem, inter, str_eq, if◌then◌else◌,
}
use rheo_stream.Prelude.Int.{ℤ, leb_ℤ}
use rheo_stream.Contracts.{Uuid, Role}
use rheo_stream.Refusals.{
  Exn, Refusal, membership_missing, token_expired, token_malformed, token_revoked,
  token_scope_invalid, token_wrong_kind,
}
use rheo_stream.Storage.Tables.{ControlPlane, MembershipRow, AccessTokenRow}
use rheo_stream.Storage.ControlPlane.{
  get_access_token_by_hash, get_membership, list_access_token_operations,
  touch_access_token_last_used,
}
use rheo_stream.Tokens.Policy.{non_token_issuable}
use rheo_stream.Tokens.Format.{Base64, ParsedToken, parse}

-- `_SURFACE_ACCEPTS.get(surface, frozenset())`
abbrev pub surface_accepts : String → List String
surface_accepts surface =
    if str_eq surface "api"
    then "cli" ∷ "mcp" ∷ []
    else if str_eq surface "mcp"
    then "mcp" ∷ "runtime" ∷ []
    else []

pub record ResolvedToken : Type 0 where
  pub account_id : Uuid
  pub workspace_id : Uuid
  pub role : Role
  pub operation_set : List String

-- A token resolved, with the control plane that the call leaves, or a refusal.
pub data Resolution : Type 0 where
  resolved : ControlPlane → ResolvedToken → Resolution
  refused : Refusal → Resolution
  raised : Exn → Resolution

touch : Result Exn ControlPlane → ResolvedToken → Resolution
touch (ok c) token = resolved c token
touch (raise e) token = raised e

with_membership :
    ℤ → ControlPlane → AccessTokenRow → List String → Option MembershipRow → Resolution
with_membership now c row snapshot none = refused (record { state = membership_missing })
with_membership now c row snapshot (some membership) =
    touch (touch_access_token_last_used now c row.id) (record {
      account_id = row.account_id;
      workspace_id = row.workspace_id;
      role = membership.role;
      operation_set = snapshot;
    })

abbrev is_set : Option ℤ → Bool
is_set none = false
is_set (some t) = true

abbrev is_empty : List String → Bool
is_empty [] = true
is_empty (x ∷ xs) = false

with_row : ℤ → ControlPlane → String → Option AccessTokenRow → Resolution
with_row now c surface none = refused (record { state = token_malformed })
with_row now c surface (some row) =
    let snapshot = list_access_token_operations c row.id in
    if not (elem row.kind (surface_accepts surface))
    then refused (record { state = token_wrong_kind })
    else if leb_ℤ row.expires_at now
    then refused (record { state = token_expired })
    else if is_set row.revoked_at
    then refused (record { state = token_revoked })
    else if not (is_empty (inter snapshot non_token_issuable))
    then refused (record { state = token_scope_invalid })
    else with_membership now c row snapshot (get_membership c row.account_id row.workspace_id)

with_parsed : ℤ → (List ℕ → String) → ControlPlane → String → Option ParsedToken → Resolution
with_parsed now sha256 c surface none = refused (record { state = token_malformed })
with_parsed now sha256 c surface (some parsed) =
    with_row now c surface (get_access_token_by_hash c (sha256 parsed.raw))

-- `resolve_token`, at the time `now`
unfoldable pub resolve_token :
    ℤ → (List ℕ → String) → Base64 → ControlPlane → String → String → Resolution
unfolding with_parsed with_row with_membership touch
resolve_token now sha256 base64 c value surface =
    with_parsed now sha256 c surface (parse base64 value)
