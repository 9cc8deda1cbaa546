-- ===== src/Tokens/Presentation/Laws.antt =====
-- What a presented token gives, and what it never gives.
use rheo_stream.Prelude.{
  ℕ, String, true, false, List, [], ◌∷◌, Option, none, some, ok, elem, inter, elem-keep, ◌≡◌, ◌≢◌,
  refl, ap, subst, arith, Option-cases, inl, inr,
}
use rheo_stream.Prelude.Int.{ℤ, leb_ℤ}
use rheo_stream.Contracts.{WorkspaceContext, only}
use rheo_stream.Storage.Tables.{ControlPlane, MembershipRow, AccessTokenRow}
use rheo_stream.Storage.ControlPlane.{
  get_access_token_by_hash, get_membership, list_access_token_operations,
  touch_access_token_last_used,
}
use rheo_stream.Operations.Registry.{OperationRegistry, RegisteredOperation}
use rheo_stream.Operations.Registry.Authorize.{permits, authorize, authorized, authorize_iff}
use rheo_stream.Tokens.Policy.{non_token_issuable}
use rheo_stream.Tokens.Format.{Base64, ParsedToken, parse}
use rheo_stream.Tokens.Presentation.{
  resolved, ResolvedToken, resolve_token, surface_accepts, touch, with_membership, with_row,
  with_parsed, is_empty, is_set,
}

none_set : (o : Option ℤ) → is_set o ≡ false → o ≡ none
none_set none h = refl
none_set (some t) h = cc

-- What a resolved token rests on.
pub record IsPresented (now : ℤ) (c : ControlPlane) (surface : String) (row : AccessTokenRow)
    (token : ResolvedToken) (after : ControlPlane) : Type 0 where
  pub kind_accepted : elem row.kind (surface_accepts surface) ≡ true
  pub not_expired : leb_ℤ row.expires_at now ≡ false
  pub not_revoked : row.revoked_at ≡ none
  pub snapshot : token.operation_set ≡ list_access_token_operations c row.id
  pub issuable :
      (x : String) → elem x token.operation_set ≡ true → elem x non_token_issuable ≡ false
  pub membership : MembershipRow
  pub member : get_membership c row.account_id row.workspace_id ≡ some membership
  pub role : token.role ≡ membership.role
  pub account_id : token.account_id ≡ row.account_id
  pub workspace_id : token.workspace_id ≡ row.workspace_id
  pub touched : touch_access_token_last_used now c row.id ≡ ok after

empty-elem : (xs : List String) (x : String) → is_empty xs ≡ true → elem x xs ≡ false
unfolding elem
empty-elem [] x h = refl
empty-elem (y ∷ ys) x h = cc

not_issuable :
    (snapshot : List String) (x : String)
    → is_empty (inter snapshot non_token_issuable) ≡ true
    → elem x snapshot ≡ true
    → elem x non_token_issuable ≡ false
not_issuable snapshot x h m = ground (
  arith,
  empty-elem (inter snapshot non_token_issuable) x h,
  elem-keep (λ y. elem y non_token_issuable) x snapshot,
)

module _ (now : ℤ) (c : ControlPlane) (surface : String) where
  with_membership-resolved :
      (row : AccessTokenRow) (snapshot : List String) (o : Option MembershipRow)
      (token : ResolvedToken) (after : ControlPlane)
      → with_membership now c row snapshot o ≡ resolved after token
      → (m : MembershipRow) × (o ≡ some m)
        × (touch_access_token_last_used now c row.id ≡ ok after)
        × (token ≡ record {
          account_id = row.account_id;
          workspace_id = row.workspace_id;
          role = m.role;
          operation_set = snapshot;
        })
  unfolding with_membership touch
  with_membership-resolved row snapshot none token after h = ground arith
  with_membership-resolved row snapshot (some m) token after h =
      (m, refl, ground arith, ground arith)

  with_row-IsPresented :
      (row : AccessTokenRow) (token : ResolvedToken) (after : ControlPlane)
      → with_row now c surface (some row) ≡ resolved after token
      → IsPresented now c surface row token after
  unfolding with_row
  with_row-IsPresented row token after h =
      let last : with_membership now c row (list_access_token_operations c row.id)
            (get_membership c row.account_id row.workspace_id)
          ≡ resolved after token =
        ground arith in
      let (m, member, touched, same) =
        with_membership-resolved row (list_access_token_operations c row.id)
          (get_membership c row.account_id row.workspace_id) token after last in
      let same_set = ap (λ t. t.operation_set) same in
      record {
        kind_accepted = ground arith;
        not_expired = ground arith;
        not_revoked = none_set row.revoked_at (ground arith);
        snapshot = same_set;
        issuable = λ x e.
            not_issuable (list_access_token_operations c row.id) x (ground arith)
              (subst (λ xs. elem x xs ≡ true) same_set e);
        membership = m;
        member = member;
        role = ap (λ t. t.role) same;
        account_id = ap (λ t. t.account_id) same;
        workspace_id = ap (λ t. t.workspace_id) same;
        touched = touched;
      }

no_row :
    (now : ℤ) (c : ControlPlane) (surface : String) (token : ResolvedToken) (after : ControlPlane)
    → with_row now c surface none ≢ resolved after token
unfolding with_row
no_row now c surface token after = λ h. cc

module _ (now : ℤ) (sha256 : List ℕ → String) (base64 : Base64) (c : ControlPlane)
    (value surface : String) (token : ResolvedToken) (after : ControlPlane)
    (h : resolve_token now sha256 base64 c value surface ≡ resolved after token) where
  with_parsed-IsPresented :
      (o : Option ParsedToken)
      → parse base64 value ≡ o
      → with_parsed now sha256 c surface o ≡ resolved after token
      → (parsed : ParsedToken) × (row : AccessTokenRow) × (parse base64 value ≡ some parsed)
        × (get_access_token_by_hash c (sha256 parsed.raw) ≡ some row)
        × IsPresented now c surface row token after
  unfolding with_parsed
  with_parsed-IsPresented none e g = ground arith
  with_parsed-IsPresented (some parsed) e g =
      elim (Option-cases (get_access_token_by_hash c (sha256 parsed.raw))) [
        | inl missing ↦ absurd (no_row now c surface token after (rw (missing) at g))
        | inr (row, found) ↦ (
          parsed,
          row,
          e,
          found,
          with_row-IsPresented now c surface row token after (rw (found) at g),
        )
      ]

  -- A value that resolves to a token parses, and the hash of its bytes is that of a row whose kind
  -- the surface accepts, which has not expired and is not revoked. The token has the row's account
  -- and workspace, the role of their membership now, and the row's operations, none of which is
  -- withheld from tokens; and the call sets the row's last use.
  pub resolve_token-IsPresented :
      (parsed : ParsedToken) × (row : AccessTokenRow) × (parse base64 value ≡ some parsed)
      × (get_access_token_by_hash c (sha256 parsed.raw) ≡ some row)
      × IsPresented now c surface row token after
  unfolding resolve_token
  resolve_token-IsPresented = with_parsed-IsPresented (parse base64 value) refl h

  -- Where a presented token resolves, a context with its operation set is authorized for no
  -- operation that is withheld from tokens, whatever is registered.
  pub resolve_token-withholds :
      {H : Type 0} (reg : OperationRegistry H) (ctx : WorkspaceContext) (name : String)
      (op : RegisteredOperation H)
      → ctx.operation_set ≡ only token.operation_set
      → elem name non_token_issuable ≡ true
      → authorize reg (some ctx) name ≢ authorized op
  resolve_token-withholds reg ctx name op same withheld granted =
      let may = (authorize_iff reg ctx name op).0 granted in
      let (parsed, row, p, f, presented) = resolve_token-IsPresented in
      let carried = subst (λ s. permits s name ≡ true) same may.permitted in
      cc (presented.issuable name carried)
