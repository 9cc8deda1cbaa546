-- ===== src/Identity/Accounts.antt =====
-- `resolve_or_create` of identity/accounts.py. The first transaction reads the control plane `c`, the
-- second one, under the advisory lock, finds it as `d`, where another process may have been.
pub mod Laws
use rheo_stream.Prelude.{
  String, Bool, true, false, List, [], ◌∷◌, Option, none, some, Result, ok, raise, ◌>>=◌,
}
use rheo_stream.Prelude.Int.{ℤ}
use rheo_stream.Contracts.{Uuid}
use rheo_stream.Refusals.{Exn, other_error, Refusal, signup_closed}
use rheo_stream.Settings.Resolver.{resolve, get_bool}
use rheo_stream.Settings.Exceptions.{of_settings}
use rheo_stream.Storage.Tables.{ControlPlane, AccountRow, IdentityRow}
use rheo_stream.Storage.ControlPlane.{get_account}
use rheo_stream.Storage.ControlPlane.Accounts.{insert_account, get_identity, insert_identity}
use rheo_stream.Sessions.Service.{Host}

-- `ProviderIdentity` of identity/boundary.py
pub record ProviderIdentity : Type 0 where
  pub provider_id : String
  pub subject : String
  pub display_name : String
  pub email : Option String
  pub email_verified : Bool

-- What a new account and its identity draw and read.
pub record Drawn : Type 0 where
  pub account_id : Uuid
  pub identity_id : Uuid
  pub account_at : ℤ
  pub identity_at : ℤ

abbrev pub SignIn : Type 0
SignIn = Result Exn (ControlPlane × Result Refusal AccountRow)

of_account : ControlPlane → Option AccountRow → SignIn
of_account d none = raise (other_error "RuntimeError" "identity names an account which has no row")
of_account d (some account) = ok (d, ok account)

-- `signup_open`; the setting is read only where there is an account.
unfoldable pub signup_open : Host → List AccountRow → Result Exn Bool
signup_open host [] = ok true
signup_open host (row ∷ rows) = of_settings (do
  values ← resolve host.settings host.deployment none none none
  get_bool host.settings values "identity.allow_signup")

sign_up : Drawn → ControlPlane → ProviderIdentity → Bool → SignIn
sign_up drawn d identity false = ok (d, raise (record { state = signup_closed }))
sign_up drawn d identity true = do
  (with_account, account) ← insert_account drawn.account_at drawn.account_id d identity.display_name
  (after, row) ←
      insert_identity drawn.identity_at drawn.identity_id with_account account.id
        identity.provider_id identity.subject identity.email identity.email_verified
  ok (after, ok account)

-- Under the lock.
locked : Host → Drawn → ControlPlane → ProviderIdentity → Option IdentityRow → SignIn
locked host drawn d identity (some existing) = of_account d (get_account d existing.account_id)
locked host drawn d identity none = do
  is_open ← signup_open host d.accounts
  sign_up drawn d identity is_open

looked_up :
    Host → Drawn → ControlPlane → ControlPlane → ProviderIdentity → Option IdentityRow → SignIn
looked_up host drawn c d identity (some existing) = of_account d (get_account c existing.account_id)
looked_up host drawn c d identity none =
    locked host drawn d identity (get_identity d identity.provider_id identity.subject)

-- `resolve_or_create`
unfoldable pub resolve_or_create :
    Host → Drawn → ControlPlane → ControlPlane → ProviderIdentity → SignIn
unfolding of_account sign_up locked looked_up
resolve_or_create host drawn c d identity =
    looked_up host drawn c d identity (get_identity c identity.provider_id identity.subject)
