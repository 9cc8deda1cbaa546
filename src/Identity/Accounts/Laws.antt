-- ===== src/Identity/Accounts/Laws.antt =====
-- A person who has signed in once signs in to the same account again.
use rheo_stream.Prelude.{
  Bool, true, false, Option, none, some, ok, >>=-eq-ok, ok_injective, ◌==◌, ◌≡◌, refl, ap, sym,
  subst, ◌∙◌,
}
use rheo_stream.Storage.Tables.{ControlPlane, AccountRow, IdentityRow, first}
use rheo_stream.Storage.ControlPlane.{get_account}
use rheo_stream.Storage.ControlPlane.Accounts.{insert_account, get_identity, insert_identity}
use rheo_stream.Storage.ControlPlane.Accounts.Laws.{insert_account-found, insert_identity-found}
use rheo_stream.Sessions.Service.{Host}
use rheo_stream.Identity.Accounts.{
  ProviderIdentity, Drawn, of_account, signup_open, sign_up, locked, looked_up, resolve_or_create,
}

-- The identity is bound to the account.
pub record IsBound (c : ControlPlane) (identity : ProviderIdentity) (account : AccountRow)
    : Type 0 where
  pub row : IdentityRow
  pub known : get_identity c identity.provider_id identity.subject ≡ some row
  pub there : get_account c row.account_id ≡ some account

module _ (host : Host) (identity : ProviderIdentity) where
  of_account-ok :
      (d e : ControlPlane) (o : Option AccountRow) (account : AccountRow)
      → of_account d o ≡ ok (e, ok account)
      → (d ≡ e) × (o ≡ some account)
  unfolding of_account
  of_account-ok d e none account h = cc
  of_account-ok d e (some a) account h =
      (ap (λ p. p.0) (ok_injective h), ap some (ok_injective (ap (λ p. p.1) (ok_injective h))))

  sign_up-IsBound :
      (drawn : Drawn) (d e : ControlPlane) (is_open : Bool) (account : AccountRow)
      → sign_up drawn d identity is_open ≡ ok (e, ok account)
      → IsBound e identity account
  unfolding sign_up
  sign_up-IsBound drawn d e false account h = cc (ap (λ p. p.1) (ok_injective h))
  sign_up-IsBound drawn d e true account h =
      let ((mid, made), inserted, rest) =
        >>=-eq-ok (insert_account drawn.account_at drawn.account_id d identity.display_name) _ h in
      let ((after, row), bound, last) =
        >>=-eq-ok
          (insert_identity drawn.identity_at drawn.identity_id mid made.id identity.provider_id
            identity.subject identity.email identity.email_verified)
          _ rest in
      let same_plane : after ≡ e = ap (λ p. p.0) (ok_injective last) in
      let same : made ≡ account = ok_injective (ap (λ p. p.1) (ok_injective last)) in
      let (known, of_made, accounts) =
        insert_identity-found drawn.identity_at drawn.identity_id mid made.id identity.provider_id
          identity.subject identity.email identity.email_verified after row bound in
      let there =
        insert_account-found drawn.account_at drawn.account_id d identity.display_name mid made
          inserted in
      record {
        row = row;
        known =
            subst (λ x. get_identity x identity.provider_id identity.subject ≡ some row) same_plane
              known;
        there =
            ap (λ x. get_account x row.account_id) (sym same_plane)
            ∙ ap (first (λ r. r.id == row.account_id)) accounts
            ∙ ap (get_account mid) of_made
            ∙ there
            ∙ ap some same;
      }

  locked-IsBound :
      (drawn : Drawn) (d e : ControlPlane) (o : Option IdentityRow) (account : AccountRow)
      → get_identity d identity.provider_id identity.subject ≡ o
      → locked host drawn d identity o ≡ ok (e, ok account)
      → IsBound e identity account
  unfolding locked
  locked-IsBound drawn d e (some existing) account found h =
      let (same, there) = of_account-ok d e (get_account d existing.account_id) account h in
      subst (λ x. IsBound x identity account) same
        (record { row = existing; known = found; there = there })
  locked-IsBound drawn d e none account found h =
      let (is_open, read, rest) = >>=-eq-ok (signup_open host d.accounts) _ h in
      sign_up-IsBound drawn d e is_open account rest

  looked_up-IsBound :
      (drawn : Drawn) (c e : ControlPlane) (o : Option IdentityRow) (account : AccountRow)
      → get_identity c identity.provider_id identity.subject ≡ o
      → looked_up host drawn c c identity o ≡ ok (e, ok account)
      → IsBound e identity account
  unfolding looked_up
  looked_up-IsBound drawn c e (some existing) account found h =
      let (same, there) = of_account-ok c e (get_account c existing.account_id) account h in
      subst (λ x. IsBound x identity account) same
        (record { row = existing; known = found; there = there })
  looked_up-IsBound drawn c e none account found h =
      locked-IsBound drawn c e (get_identity c identity.provider_id identity.subject) account refl h

  IsBound-resolves :
      (drawn : Drawn) (c d : ControlPlane) (account : AccountRow)
      → IsBound c identity account
      → resolve_or_create host drawn c d identity ≡ ok (d, ok account)
  unfolding resolve_or_create looked_up of_account
  IsBound-resolves drawn c d account b =
      ap (looked_up host drawn c d identity) b.known ∙ ap (of_account d) b.there

  -- Where a sign-in returns an account and no other process writes between its two transactions,
  -- the same identity signs in to the same account the next time, and that changes nothing,
  -- whatever has been drawn and whether sign-up is still open.
  pub resolve_or_create-again :
      (drawn later : Drawn) (c e : ControlPlane) (account : AccountRow)
      → resolve_or_create host drawn c c identity ≡ ok (e, ok account)
      → resolve_or_create host later e e identity ≡ ok (e, ok account)
  unfolding resolve_or_create
  resolve_or_create-again drawn later c e account h = IsBound-resolves later e e account (
      looked_up-IsBound drawn c e (get_identity c identity.provider_id identity.subject) account
        refl h)
