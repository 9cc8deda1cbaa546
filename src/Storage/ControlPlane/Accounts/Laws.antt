-- ===== src/Storage/ControlPlane/Accounts/Laws.antt =====
-- A new account and a new identity are found by their keys.
use rheo_stream.Prelude.{
  String, Bool, true, ◌&&◌, [], ◌∷◌, ◌++◌, Option, none, some, ok, str_eq, str_eq_refl, ◌==◌,
  ==_refl, if◌then◌else◌, ◌≡◌, ap, sym, subst, ◌∙◌, arith,
}
use rheo_stream.Prelude.Int.{ℤ}
use rheo_stream.Contracts.{Uuid}
use rheo_stream.Storage.Tables.{ControlPlane, AccountRow, IdentityRow}
use rheo_stream.Storage.Tables.Laws.{none_of, first-new}
use rheo_stream.Storage.ControlPlane.{get_account}
use rheo_stream.Storage.ControlPlane.Accounts.{insert_account, get_identity, insert_identity}

pub insert_account-found :
    (now : ℤ) (id : Uuid) (c : ControlPlane) (display_name : String) (d : ControlPlane)
    (row : AccountRow)
    → insert_account now id c display_name ≡ ok (d, row)
    → get_account d row.id ≡ some row
unfolding insert_account
insert_account-found now id c display_name d row h =
    let made : AccountRow = record {
      id = id;
      display_name = display_name;
      created_at = now;
      disabled_at = none;
    } in
    let same : made ≡ row = ground arith in
    let grown : record c { accounts = c.accounts ++ made ∷ [] } ≡ d = ground arith in
    let new : get_account c id ≡ none = none_of (get_account c id) (ground arith) in
    subst (λ r. get_account d r.id ≡ some r) same
      (subst (λ x. get_account x id ≡ some made) grown
        (first-new (λ r. r.id == id) c.accounts made new
          ∙ ap (λ b. if b then some made else none) (==_refl id)))

pub insert_identity-found :
    (now : ℤ) (id : Uuid) (c : ControlPlane) (account_id : Uuid)
    (provider_id provider_subject : String) (email : Option String) (email_verified : Bool)
    (d : ControlPlane) (row : IdentityRow)
    → insert_identity now id c account_id provider_id provider_subject email email_verified
      ≡ ok (d, row)
    → (get_identity d provider_id provider_subject ≡ some row)
      × (row.account_id ≡ account_id)
      × (d.accounts ≡ c.accounts)
unfolding insert_identity
insert_identity-found now id c account_id provider_id provider_subject email email_verified d row
      h =
    let made : IdentityRow = record {
      id = id;
      account_id = account_id;
      provider_id = provider_id;
      provider_subject = provider_subject;
      email = email;
      email_verified = email_verified;
      created_at = now;
    } in
    let same : made ≡ row = ground arith in
    let grown : record c { identities = c.identities ++ made ∷ [] } ≡ d = ground arith in
    let new : get_identity c provider_id provider_subject ≡ none =
      none_of (get_identity c provider_id provider_subject) (ground arith) in
    let passes : (str_eq provider_id provider_id && str_eq provider_subject provider_subject)
        ≡ true =
      ground (arith, str_eq_refl provider_id, str_eq_refl provider_subject) in
    (
      subst (λ r. get_identity d provider_id provider_subject ≡ some r) same
          (subst (λ x. get_identity x provider_id provider_subject ≡ some made) grown
            (first-new
                (λ r.
                  str_eq r.provider_id provider_id && str_eq r.provider_subject provider_subject)
                c.identities made new
              ∙ ap (λ b. if b then some made else none) passes)),
      ap (λ r. r.account_id) (sym same),
      ap (λ x. x.accounts) (sym grown),
    )
