-- ===== src/Storage/ControlPlane/Accounts.antt =====
-- storage/control_plane.py: the statements over `account`, `identity` and `identity_provider`.
pub mod Laws
use rheo_stream.Prelude.{
  String, Bool, not, ◌&&◌, ◌||◌, [], ◌∷◌, ◌++◌, Option, none, Result, ok, raise, str_eq, ◌==◌,
  if◌then◌else◌, is_some,
}
use rheo_stream.Prelude.Text.{strip}
use rheo_stream.Prelude.Int.{ℤ}
use rheo_stream.Contracts.{Uuid}
use rheo_stream.Refusals.{Exn, storage_refusal, other_error, account_missing, identity_exists}
use rheo_stream.Storage.Tables.{
  ControlPlane, AccountRow, IdentityRow, IdentityProviderRow, first, update_where, has_row,
  integrity_error,
}
use rheo_stream.Storage.ControlPlane.{get_account}

-- `insert_account`
unfoldable pub insert_account :
    ℤ → Uuid → ControlPlane → String → Result Exn (ControlPlane × AccountRow)
insert_account now id c display_name =
    let row : AccountRow = record {
      id = id;
      display_name = display_name;
      created_at = now;
      disabled_at = none;
    } in
    if str_eq (strip display_name) ""
    then raise (other_error "ValueError" "an account needs a non-empty display name")
    else if is_some (get_account c id)
    then raise integrity_error
    else ok (record c { accounts = c.accounts ++ row ∷ [] }, row)

abbrev pub get_identity : ControlPlane → String → String → Option IdentityRow
get_identity c provider_id provider_subject =
    first
      (λ row. str_eq row.provider_id provider_id && str_eq row.provider_subject provider_subject)
      c.identities

-- `insert_identity`
unfoldable pub insert_identity :
    ℤ
    → Uuid
    → ControlPlane
    → Uuid
    → String
    → String
    → Option String
    → Bool
    → Result Exn (ControlPlane × IdentityRow)
insert_identity now id c account_id provider_id provider_subject email email_verified =
    let row : IdentityRow = record {
      id = id;
      account_id = account_id;
      provider_id = provider_id;
      provider_subject = provider_subject;
      email = email;
      email_verified = email_verified;
      created_at = now;
    } in
    if str_eq provider_id "" || str_eq provider_subject ""
    then raise (other_error "ValueError" "an identity needs a provider id and a provider subject")
    else if has_row (λ r. r.id == id) c.identities
        || is_some (get_identity c provider_id provider_subject)
    then raise (storage_refusal identity_exists)
    else if not (is_some (get_account c account_id))
    then raise (storage_refusal account_missing)
    else ok (record c { identities = c.identities ++ row ∷ [] }, row)

-- `get_identity_provider`
abbrev pub get_identity_provider : ControlPlane → String → Option IdentityProviderRow
get_identity_provider c provider_id =
    first (λ row. str_eq row.provider_id provider_id) c.identity_providers

-- `upsert_identity_provider`
unfoldable pub upsert_identity_provider : ControlPlane → IdentityProviderRow → ControlPlane
upsert_identity_provider c row =
    if is_some (get_identity_provider c row.provider_id)
    then record c {
      identity_providers =
          update_where (λ r. str_eq r.provider_id row.provider_id) (λ r. row) c.identity_providers;
    }
    else record c { identity_providers = c.identity_providers ++ row ∷ [] }
