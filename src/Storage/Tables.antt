-- ===== src/Storage/Tables.antt =====
-- storage/control_tables.py and the rows of storage/control_plane.py: the tables of the control plane.
-- A table is the list of its rows in the order of their insertion, a timestamp a number of seconds, and
-- a hash a text.
pub mod Laws
use rheo_stream.Prelude.{
  String, Bool, true, false, List, [], ◌∷◌, Option, none, some, if◌then◌else◌, is_some, ◌==◌,
}
use rheo_stream.Prelude.Int.{ℤ}
use rheo_stream.Contracts.{Role, Uuid}
use rheo_stream.Refusals.{Exn, other_error}

-- `WorkspaceState`
pub data WorkspaceState : Type 0 where
  provisioning migrating active unavailable restoring : WorkspaceState

pub record AccountRow : Type 0 where
  pub id : Uuid
  pub display_name : String
  pub created_at : ℤ
  pub disabled_at : Option ℤ

pub record IdentityRow : Type 0 where
  pub id : Uuid
  pub account_id : Uuid
  pub provider_id : String
  pub provider_subject : String
  pub email : Option String
  pub email_verified : Bool
  pub created_at : ℤ

pub record WorkspaceRow : Type 0 where
  pub id : Uuid
  pub slug : String
  pub display_name : String
  pub database_name : String
  pub state : WorkspaceState
  pub created_at : ℤ
  pub state_changed_at : ℤ
  pub state_detail : Option String

pub record MembershipRow : Type 0 where
  pub account_id : Uuid
  pub workspace_id : Uuid
  pub role : Role
  pub created_at : ℤ

pub record SessionRow : Type 0 where
  pub id : Uuid
  pub account_id : Uuid
  pub active_workspace_id : Option Uuid
  pub active_workspace_changed_at : Option ℤ
  pub created_at : ℤ
  pub last_seen_at : ℤ
  pub expires_at : ℤ
  pub revoked_at : Option ℤ

-- The table `session_secret`
pub record SessionSecretRow : Type 0 where
  pub secret_hash : String
  pub session_id : Uuid
  pub host : String
  pub created_at : ℤ

pub record SessionGrantRow : Type 0 where
  pub code_hash : String
  pub session_id : Uuid
  pub target_host : String
  pub nonce_hash : String
  pub expires_at : ℤ
  pub used_at : Option ℤ

pub record IdentityProviderRow : Type 0 where
  pub provider_id : String
  pub enabled : Bool
  pub client_id : String
  pub client_secret_ref : String

pub record AccessTokenRow : Type 0 where
  pub id : Uuid
  pub token_hash : String
  pub account_id : Uuid
  pub workspace_id : Uuid
  pub kind : String
  pub issued_from : String
  pub set_name : Option String
  pub purpose : Option String
  pub created_at : ℤ
  pub expires_at : ℤ
  pub revoked_at : Option ℤ
  pub last_used_at : Option ℤ

-- `CONTROL_TABLES`
pub record ControlPlane : Type 0 where
  pub accounts : List AccountRow
  pub identities : List IdentityRow
  pub workspaces : List WorkspaceRow
  pub memberships : List MembershipRow
  pub sessions : List SessionRow
  pub session_secrets : List SessionSecretRow
  pub session_grants : List SessionGrantRow
  pub access_tokens : List AccessTokenRow
  pub access_token_operations : List (Uuid × String)
  pub identity_providers : List IdentityProviderRow

-- The first row that satisfies the test.
unfoldable pub first {ℓ} : {A : Type ℓ} → (A → Bool) → List A → Option A
first p [] = none
first p (x ∷ xs) = let rest = first p xs in if p x then some x else rest

-- `UPDATE … WHERE`: every row that satisfies the test.
unfoldable pub update_where {ℓ} : {A : Type ℓ} → (A → Bool) → (A → A) → List A → List A
update_where p f [] = []
update_where p f (x ∷ xs) = (if p x then f x else x) ∷ update_where p f xs

-- Whether a statement with this condition finds a row.
abbrev pub has_row {ℓ} : {A : Type ℓ} → (A → Bool) → List A → Bool
has_row p rows = is_some (first p rows)

-- A refusal of the database that the code passes on as it is.
abbrev pub integrity_error : Exn
integrity_error = other_error "IntegrityError" "a constraint of the table is violated"
