-- ===== src/Storage/ControlPlane.antt =====
-- storage/control_plane.py: the statements over the control tables. A function takes the tables of the
-- caller's transaction and returns what it leaves there; ids and the time are drawn by the caller.
pub mod Tokens
pub mod Sessions
pub mod Workspaces
pub mod Accounts
use rheo_stream.Prelude.{
  ℕ, String, Bool, true, false, not, ◌&&◌, ◌||◌, List, [], ◌∷◌, ◌++◌, map, Option, none, some,
  Result, ok, raise, ◌>>=◌, ◌>>◌, str_eq, ◌==◌, if◌then◌else◌, elem, is_some,
}
use rheo_stream.Prelude.Int.{ℤ}
use rheo_stream.Contracts.{Role, Uuid}
use rheo_stream.Refusals.{
  Exn, storage_refusal, account_missing, workspace_missing, access_token_missing,
}
use rheo_stream.Storage.Tables.{
  ControlPlane, AccountRow, WorkspaceRow, MembershipRow, AccessTokenRow, first, update_where,
  has_row, integrity_error,
}

abbrev pub revoked : ℤ → AccessTokenRow → AccessTokenRow
revoked now row = record row { revoked_at = some now }

abbrev pub touched : ℤ → AccessTokenRow → AccessTokenRow
touched now row = record row { last_used_at = some now }

abbrev pub get_account : ControlPlane → Uuid → Option AccountRow
get_account c account_id = first (λ row. row.id == account_id) c.accounts

abbrev pub get_workspace : ControlPlane → Uuid → Option WorkspaceRow
get_workspace c workspace_id = first (λ row. row.id == workspace_id) c.workspaces

abbrev pub get_membership : ControlPlane → Uuid → Uuid → Option MembershipRow
get_membership c account_id workspace_id =
    first (λ row. row.account_id == account_id && row.workspace_id == workspace_id) c.memberships

abbrev pub get_access_token : ControlPlane → Uuid → Option AccessTokenRow
get_access_token c token_id = first (λ row. row.id == token_id) c.access_tokens

abbrev pub get_access_token_by_hash : ControlPlane → String → Option AccessTokenRow
get_access_token_by_hash c token_hash =
    first (λ row. str_eq row.token_hash token_hash) c.access_tokens

abbrev pub has_hash : String → List AccessTokenRow → Bool
has_hash h rows = has_row (λ row. str_eq row.token_hash h) rows

abbrev pub with_tokens : List AccessTokenRow → ControlPlane → ControlPlane
with_tokens rows c = record c { access_tokens = rows }

-- `TOKEN_KINDS`, `TOKEN_ISSUERS` and the pairing constraint of the table
abbrev kind_allowed : String → String → Bool
kind_allowed kind issued_from =
    elem kind ("cli" ∷ "mcp" ∷ "runtime" ∷ [])
    && elem issued_from ("session" ∷ "operator" ∷ "runtime" ∷ [])
    && ((str_eq kind "runtime" && str_eq issued_from "runtime")
        || (not (str_eq kind "runtime") && not (str_eq issued_from "runtime")))

-- `insert_access_token`, of a row that is ready: the constraints of the table, in the order in which
-- the database checks them.
unfoldable pub insert_access_token : ControlPlane → AccessTokenRow → Result Exn ControlPlane
insert_access_token c row =
    if not (kind_allowed row.kind row.issued_from)
    then raise integrity_error
    else if is_some (get_access_token c row.id) || has_hash row.token_hash c.access_tokens
    then raise integrity_error
    else if not (is_some (get_account c row.account_id))
    then raise (storage_refusal account_missing)
    else if not (is_some (get_workspace c row.workspace_id))
    then raise (storage_refusal workspace_missing)
    else ok (with_tokens (c.access_tokens ++ row ∷ []) c)

-- `revoke_access_token`
unfoldable pub revoke_access_token : ℤ → ControlPlane → Uuid → Result Exn ControlPlane
revoke_access_token now c token_id =
    if is_some (get_access_token c token_id)
    then ok (with_tokens (update_where (λ row. row.id == token_id) (revoked now) c.access_tokens) c)
    else raise (storage_refusal access_token_missing)

-- `touch_access_token_last_used`
unfoldable pub touch_access_token_last_used : ℤ → ControlPlane → Uuid → Result Exn ControlPlane
touch_access_token_last_used now c token_id =
    if is_some (get_access_token c token_id)
    then ok (with_tokens (update_where (λ row. row.id == token_id) (touched now) c.access_tokens) c)
    else raise (storage_refusal access_token_missing)

abbrev pub has_operation : Uuid → String → List (Uuid × String) → Bool
has_operation t name [] = false
has_operation t name ((u, n) ∷ rows) = (u == t && str_eq n name) || has_operation t name rows

add_operations : Uuid → List String → List (Uuid × String) → Result Exn (List (Uuid × String))
add_operations t [] rows = ok rows
add_operations t (name ∷ names) rows =
    let rest = add_operations t names (rows ++ (t, name) ∷ []) in
    if has_operation t name rows then raise integrity_error else rest

-- `insert_access_token_operations`: one statement, refused as a whole; a row refers to its token.
unfoldable pub insert_access_token_operations :
    ControlPlane → Uuid → List String → Result Exn ControlPlane
unfolding add_operations
insert_access_token_operations c t [] = ok c
insert_access_token_operations c t (name ∷ names) = do
  rows ← add_operations t (name ∷ names) c.access_token_operations
  if is_some (get_access_token c t)
      then ok (record c { access_token_operations = rows })
      else raise integrity_error

operations_in : Uuid → List (Uuid × String) → List String
operations_in t [] = []
operations_in t ((u, name) ∷ rows) =
    let rest = operations_in t rows in if u == t then name ∷ rest else rest

-- `list_access_token_operations`
unfoldable pub list_access_token_operations : ControlPlane → Uuid → List String
unfolding operations_in
list_access_token_operations c t = operations_in t c.access_token_operations
