-- ===== src/Tokens/Issue/Laws.antt =====
-- What an issued token carries.
use rheo_stream.Prelude.{
  String, not, ◌&&◌, List, [], ◌∷◌, ◌++◌, ok, >>=-eq-ok, ok_injective, elem, inter, sorted,
  elem-keep, elem-sorted, ◌≡◌, refl, ◌∙◌, ap, sym, subst, arith,
}
use rheo_stream.Prelude.Int.{ℤ}
use rheo_stream.Contracts.{WorkspaceContext}
use rheo_stream.Storage.Tables.{ControlPlane}
use rheo_stream.Storage.ControlPlane.{
  insert_access_token, insert_access_token_operations, list_access_token_operations, with_tokens,
}
use rheo_stream.Storage.ControlPlane.Tokens.{
  SameButTokens, without_tokens, insert_access_token-IsInserted,
  insert_access_token_operations-IsRecorded, IsInserted, IsRecorded,
}
use rheo_stream.Operations.Registry.{OperationRegistry}
use rheo_stream.Tokens.Policy.{non_token_issuable}
use rheo_stream.Tokens.Format.{render}
use rheo_stream.Tokens.Issue.{
  TokenIssueInput, TokenIssued, Surroundings, Issuer, expand, issuer_permitted_set, survivors_of,
  max_days, row_of, write_token, issue_handler,
}

-- What a call of `core.token.issue` that returns has done.
pub record IsIssued {H : Type 0} (reg : OperationRegistry H) (around : Surroundings)
    (c : ControlPlane) (ctx : WorkspaceContext) (input : TokenIssueInput) (after : ControlPlane)
    (issued : TokenIssued) : Type 0 where
  pub requested : List String
  pub issuer : Issuer
  pub expanded : expand reg input ≡ ok requested
  pub bounded : issuer_permitted_set reg c ctx input ≡ ok issuer
  pub carried :
      (x : String)
      → elem x issued.operations
        ≡ (elem x requested && elem x issuer.permitted && not (elem x non_token_issuable))
  pub value : issued.value ≡ render around.base64 input.kind around.random
  pub token_id : issued.token_id ≡ around.new_id
  pub inserted :
      IsInserted c
        (row_of around ctx input issuer issued.expires_at)
        (with_tokens after.access_tokens c)
  pub rest : SameButTokens c after
  pub snapshot :
      list_access_token_operations after issued.token_id
      ≡ list_access_token_operations c issued.token_id ++ issued.operations

elem-survivors :
    (x : String) (requested permitted : List String)
    → elem x (survivors_of requested permitted)
      ≡ (elem x requested && elem x permitted && not (elem x non_token_issuable))
elem-survivors x requested permitted = ground (
  arith,
  elem-keep (λ y. not (elem y non_token_issuable)) x (inter requested permitted),
  elem-keep (λ y. elem y permitted) x requested,
)

module _ {H : Type 0} (reg : OperationRegistry H) (around : Surroundings) (c : ControlPlane)
    (ctx : WorkspaceContext) (input : TokenIssueInput) where
  -- What `write_token` returns
  abbrev issued_of : ℤ → List String → TokenIssued
  issued_of expires_at names = record {
    token_id = around.new_id;
    value = render around.base64 input.kind around.random;
    kind = input.kind;
    expires_at = expires_at;
    operations = sorted names;
  }

  written-IsIssued :
      (requested names : List String) (issuer : Issuer) (expires_at : ℤ)
      (with_row written : ControlPlane)
      → expand reg input ≡ ok requested
      → issuer_permitted_set reg c ctx input ≡ ok issuer
      → survivors_of requested issuer.permitted ≡ names
      → IsInserted c (row_of around ctx input issuer expires_at) with_row
      → IsRecorded with_row around.new_id (sorted names) written
      → IsIssued reg around c ctx input written (issued_of expires_at names)
  unfolding list_access_token_operations
  written-IsIssued requested names issuer expires_at with_row written x b s i r = record {
    requested = requested;
    issuer = issuer;
    expanded = x;
    bounded = b;
    carried = λ y.
        elem-sorted y names ∙ ap (elem y) (sym s) ∙ elem-survivors y requested issuer.permitted;
    value = refl;
    token_id = refl;
    inserted = record {
      grown = ap (λ rows. with_tokens rows c) (r.tokens ∙ ap (λ d. d.access_tokens) i.grown);
      new_id = i.new_id;
      new_hash = i.new_hash;
    };
    rest = record { others = r.rest.others ∙ ap without_tokens i.grown };
    snapshot =
        r.listed ∙ ap (λ d. list_access_token_operations d around.new_id ++ sorted names) i.grown;
  }

  write_token-IsIssued :
      (requested survivors : List String) (issuer : Issuer) (after : ControlPlane)
      (issued : TokenIssued)
      → expand reg input ≡ ok requested
      → issuer_permitted_set reg c ctx input ≡ ok issuer
      → survivors_of requested issuer.permitted ≡ survivors
      → write_token around c ctx input issuer survivors ≡ ok (after, issued)
      → IsIssued reg around c ctx input after issued
  unfolding write_token
  write_token-IsIssued requested [] issuer after issued x b s h = cc
  write_token-IsIssued requested (name ∷ names) issuer after issued x b s h =
      let (days, found, h1) = >>=-eq-ok (max_days around ctx.workspace_id input.kind) _ h in
      let (with_row, added, h2) = >>=-eq-ok (insert_access_token c _) _ h1 in
      let (written, recorded, h3) =
        >>=-eq-ok (insert_access_token_operations with_row around.new_id (sorted (name ∷ names))) _
          h2 in
      subst (λ r. IsIssued reg around c ctx input r.0 r.1) (ok_injective h3)
        (written-IsIssued requested (name ∷ names) issuer _ with_row written x b s
          (insert_access_token-IsInserted c _ with_row added)
          (insert_access_token_operations-IsRecorded with_row around.new_id (sorted (name ∷ names))
            written recorded))

  -- Where `core.token.issue` returns, the token carries exactly the operations that were requested,
  -- that the issuer is permitted and that are not withheld from tokens; its value is rendered from
  -- the random bytes; its row is new by id and by hash and stands at the end of the table; its
  -- operations are added under its id; accounts, workspaces and memberships are as they were.
  pub issue_handler-IsIssued :
      (after : ControlPlane) (issued : TokenIssued)
      → issue_handler reg around c ctx input ≡ ok (after, issued)
      → IsIssued reg around c ctx input after issued
  unfolding issue_handler
  issue_handler-IsIssued after issued h =
      let (requested, x, h1) = >>=-eq-ok (expand reg input) _ h in
      let (issuer, b, h2) = >>=-eq-ok (issuer_permitted_set reg c ctx input) _ h1 in
      write_token-IsIssued requested (survivors_of requested issuer.permitted) issuer after issued x
        b refl h2
