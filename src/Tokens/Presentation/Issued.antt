-- ===== src/Tokens/Presentation/Issued.antt =====
-- A token that has been issued is accepted where it is presented.
use rheo_stream.Prelude.{
  String, true, false, List, [], ◌∷◌, ◌++◌, none, some, ok, elem, ◌&&◌, ◌==◌, inter, keep,
  str_eq_refl, ◌≡◌, refl, ◌∙◌, ap, sym, subst, arith,
}
use rheo_stream.Prelude.Int.{ℤ, leb_ℤ}
use rheo_stream.Contracts.{Uuid, WorkspaceContext}
use rheo_stream.Storage.Tables.{ControlPlane, MembershipRow, AccessTokenRow, first}
use rheo_stream.Storage.ControlPlane.{
  get_membership, get_access_token, list_access_token_operations, touch_access_token_last_used,
  with_tokens,
}
use rheo_stream.Storage.ControlPlane.Tokens.{by_hash-IsInserted, by_id-IsInserted}
use rheo_stream.Operations.Registry.{OperationRegistry}
use rheo_stream.Tokens.Policy.{non_token_issuable}
use rheo_stream.Tokens.Format.{parse, is_value, byte_count}
use rheo_stream.Tokens.Format.RoundTrip.{is_kind, parse-render}
use rheo_stream.Tokens.Issue.{
  Surroundings, TokenIssueInput, TokenIssued, Issuer, issue_handler, issuer_permitted_set, row_of,
}
use rheo_stream.Tokens.Issue.Laws.{issue_handler-IsIssued}
use rheo_stream.Tokens.Presentation.{
  resolved, ResolvedToken, resolve_token, surface_accepts, touch, with_membership, with_row,
  with_parsed, is_empty, is_set,
}

-- What `secrets` and base64 promise of the bytes drawn.
pub record AreDrawn (around : Surroundings) : Type 0 where
  pub length : byte_count around.random ≡ 32
  pub encoded : is_value 43 (around.base64.encode around.random) ≡ true
  pub decoded : around.base64.decode (around.base64.encode around.random) ≡ some around.random

touch-found :
    (now : ℤ) (c : ControlPlane) (row : AccessTokenRow) (token : ResolvedToken)
    → get_access_token c row.id ≡ some row
    → (after : ControlPlane) × (touch (touch_access_token_last_used now c row.id) token
        ≡ resolved after token)
unfolding touch touch_access_token_last_used
touch-found now c row token h = rw h (_, refl)

no_common :
    (xs ys : List String)
    → ((x : String) → elem x xs ≡ true → elem x ys ≡ false)
    → is_empty (inter xs ys) ≡ true
unfolding keep elem
no_common [] ys h = refl
no_common (x ∷ xs) ys h =
    rw (h x (ground (arith, str_eq_refl x))) (no_common xs ys (λ z m. h z (ground (arith, m))))

memberships-same :
    (c d : ControlPlane) (account_id workspace_id : Uuid)
    → d.memberships ≡ c.memberships
    → get_membership d account_id workspace_id ≡ get_membership c account_id workspace_id
memberships-same c d account_id workspace_id e =
    ap (first (λ r. r.account_id == account_id && r.workspace_id == workspace_id)) e

abbrev token_of : AccessTokenRow → MembershipRow → List String → ResolvedToken
token_of row m snapshot = record {
  account_id = row.account_id;
  workspace_id = row.workspace_id;
  role = m.role;
  operation_set = snapshot;
}

-- A row that passes every test resolves.
with_row-accepts :
    (now : ℤ) (c : ControlPlane) (surface : String) (row : AccessTokenRow) (m : MembershipRow)
    → elem row.kind (surface_accepts surface) ≡ true
    → leb_ℤ row.expires_at now ≡ false
    → row.revoked_at ≡ none
    → is_empty (inter (list_access_token_operations c row.id) non_token_issuable) ≡ true
    → get_membership c row.account_id row.workspace_id ≡ some m
    → get_access_token c row.id ≡ some row
    → (after : ControlPlane) × (with_row now c surface (some row)
        ≡ resolved after (token_of row m (list_access_token_operations c row.id)))
unfolding with_row with_membership
with_row-accepts now c surface row m k e r i member found =
    let (after, done) =
      touch-found now c row (token_of row m (list_access_token_operations c row.id)) found in
    let open_row = ap is_set r in (after, rw (k, e, open_row, i, member) done)

module _ {H : Type 0} (reg : OperationRegistry H) (around : Surroundings) (c : ControlPlane)
    (ctx : WorkspaceContext) (input : TokenIssueInput) (after : ControlPlane)
    (issued : TokenIssued) where
  -- Let `core.token.issue` return, with a kind in lower-case letters, an id without operations, and
  -- 32 random bytes that base64 gives 43 characters and decodes again. Presented before it expires,
  -- on a surface that accepts its kind, and while the account it was issued to has a membership in
  -- the workspace, the token's value resolves to that account, the workspace of the issuing
  -- context, the membership's role, and exactly the operations issued.
  pub issued-resolves :
      (now : ℤ) (surface : String) (m : MembershipRow)
      → issue_handler reg around c ctx input ≡ ok (after, issued)
      → AreDrawn around
      → is_kind input.kind ≡ true
      → list_access_token_operations c around.new_id ≡ []
      → elem input.kind (surface_accepts surface) ≡ true
      → leb_ℤ issued.expires_at now ≡ false
      → ((issuer : Issuer)
          → issuer_permitted_set reg c ctx input ≡ ok issuer
          → get_membership c issuer.account_id ctx.workspace_id ≡ some m)
      → (issuer : Issuer) × (later : ControlPlane) × (issuer_permitted_set reg c ctx input
          ≡ ok issuer)
        × (resolve_token now around.sha256 around.base64 after issued.value surface
            ≡ resolved later (record {
              account_id = issuer.account_id;
              workspace_id = ctx.workspace_id;
              role = m.role;
              operation_set = issued.operations;
            }))
  unfolding resolve_token with_parsed
  issued-resolves now surface m h drawn kind fresh accepts unexpired member =
      let i = issue_handler-IsIssued reg around c ctx input after issued h in
      let row = row_of around ctx input i.issuer issued.expires_at in
      let at = by_hash-IsInserted c row (with_tokens after.access_tokens c) i.inserted in
      let by_id = by_id-IsInserted c row (with_tokens after.access_tokens c) i.inserted in
      let snapshot : list_access_token_operations after around.new_id ≡ issued.operations =
        subst (λ t. list_access_token_operations after t ≡ issued.operations) i.token_id
          (i.snapshot
            ∙ ap (λ xs. xs ++ issued.operations)
                (ap (list_access_token_operations c) i.token_id ∙ fresh)) in
      let (later, done) =
        with_row-accepts now after surface row m accepts unexpired refl
          (subst (λ xs. is_empty (inter xs non_token_issuable) ≡ true) (sym snapshot)
            (no_common issued.operations non_token_issuable (λ x e. ground (arith, i.carried x))))
          (memberships-same c after i.issuer.account_id ctx.workspace_id
              (ap (λ d. d.memberships) i.rest.others)
            ∙ member i.issuer i.bounded)
          by_id in
      (
        i.issuer,
        later,
        i.bounded,
        ap (with_parsed now around.sha256 after surface) (
              ap (parse around.base64) i.value
              ∙ parse-render around.base64 input.kind around.random kind drawn.length drawn.encoded
                  drawn.decoded)
            ∙ ap (with_row now after surface) at
            ∙ done
            ∙ ap (λ xs. resolved later (token_of row m xs)) snapshot,
      )
