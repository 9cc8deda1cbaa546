-- ===== src/Boundary/Factories/Sessions.antt =====
-- What a context from a session rests on, and that a revoked session gives none.
use rheo_stream.Prelude.{
  ℕ, String, Bool, false, List, Option, none, some, ok, ◌≡◌, refl, ap, subst, arith,
}
use rheo_stream.Prelude.Int.{ℤ, leb_ℤ}
use rheo_stream.Contracts.{Uuid, ActorKind, Entry, WorkspaceContext}
use rheo_stream.Storage.Tables.{SessionRow, MembershipRow}
use rheo_stream.Storage.Tables.Laws.{none_of}
use rheo_stream.Storage.ControlPlane.{get_membership}
use rheo_stream.Storage.ControlPlane.Sessions.{get_session_by_secret_hash}
use rheo_stream.Storage.UnitOfWork.{Server}
use rheo_stream.Storage.Repositories.{WorkspaceDatabase}
use rheo_stream.Boundary.Factories.{
  World, active_workspace_modules, account_context, for_member, for_selected, for_session,
  context_from_session,
}
use rheo_stream.Boundary.Factories.Laws.{
  IsServable, active_workspace_modules-IsServable, with_modules-context,
}

-- The session behind the context, and the membership that gives it its role now.
pub record IsSessionContext (now : ℤ) (world : World) (row : SessionRow) (ctx : WorkspaceContext)
    (after : World) : Type 0 where
  pub unexpired : leb_ℤ row.expires_at now ≡ false
  pub unrevoked : row.revoked_at ≡ none
  pub selected : row.active_workspace_id ≡ some ctx.workspace_id
  pub membership : MembershipRow
  pub member : get_membership world.control row.account_id ctx.workspace_id ≡ some membership
  pub role : ctx.role ≡ membership.role
  pub actor : ctx.actor ≡ record { kind = ActorKind.account; id = some row.account_id }
  pub servable : IsServable world ctx.workspace_id after

module _ (verify : Bool) (server : Server WorkspaceDatabase) (now : ℤ) (world after : World)
    (entry : Entry) (request_id : Uuid) (ctx : WorkspaceContext) where
  -- What remains to be shown of a row that is neither expired nor revoked.
  abbrev Selected : SessionRow → Option Uuid → Type 0
  Selected row selected =
      (selected ≡ some ctx.workspace_id)
      × ((membership : MembershipRow) × (get_membership world.control row.account_id
              ctx.workspace_id
            ≡ some membership)
          × (ctx.role ≡ membership.role)
          × (ctx.actor ≡ record { kind = ActorKind.account; id = some row.account_id })
          × IsServable world ctx.workspace_id after)

  for_member-Selected :
      (row : SessionRow) (workspace_id : Uuid) (o : Option MembershipRow)
      → get_membership world.control row.account_id workspace_id ≡ o
      → for_member verify server world row workspace_id entry request_id o ≡ (after, ok (ok ctx))
      → Selected row (some workspace_id)
  unfolding for_member
  for_member-Selected row workspace_id none found h = cc (ap (λ p. p.1) h)
  for_member-Selected row workspace_id (some membership) found h =
      let context =
        account_context verify server workspace_id row.account_id membership.role entry
          request_id in
      let (enabled, modules, e) =
        with_modules-context verify server context
          (active_workspace_modules verify server world workspace_id) after ctx h in
      subst
        (λ c.
          (some workspace_id ≡ some c.workspace_id)
          × ((m : MembershipRow) × (get_membership world.control row.account_id c.workspace_id
                ≡ some m)
              × (c.role ≡ m.role)
              × (c.actor ≡ record { kind = ActorKind.account; id = some row.account_id })
              × IsServable world c.workspace_id after))
        e
        (
          refl,
          (
            membership,
            found,
            refl,
            refl,
            active_workspace_modules-IsServable verify server world after workspace_id enabled
                modules,
          ),
        )

  for_selected-Selected :
      (row : SessionRow) (selected : Option Uuid)
      → for_selected verify server world row entry request_id selected ≡ (after, ok (ok ctx))
      → Selected row selected
  unfolding for_selected
  for_selected-Selected row none h = cc (ap (λ p. p.1) h)
  for_selected-Selected row (some workspace_id) h =
      for_member-Selected row workspace_id
        (get_membership world.control row.account_id workspace_id) refl h

  for_session-IsSessionContext :
      (o : Option SessionRow)
      → for_session verify server now world entry request_id o ≡ (after, ok (ok ctx))
      → (row : SessionRow) × (o ≡ some row) × IsSessionContext now world row ctx after
  unfolding for_session
  for_session-IsSessionContext none h = cc (ap (λ p. p.1) h)
  for_session-IsSessionContext (some row) h =
      let e = ap (λ p. p.1) h in
      let rest : for_selected verify server world row entry request_id row.active_workspace_id
          ≡ (after, ok (ok ctx)) =
        ground arith in
      let (selected, (membership, member, role, actor, servable)) =
        for_selected-Selected row row.active_workspace_id rest in
      (
        row,
        refl,
        record {
          unexpired = ground arith;
          unrevoked = none_of row.revoked_at (ground arith);
          selected = selected;
          membership = membership;
          member = member;
          role = role;
          actor = actor;
          servable = servable;
        },
      )

  -- Where a session's secret gives a context on a host, the secret's hash is stored for that host,
  -- its session is not expired at the time of the call and not revoked, the context's workspace is
  -- the session's active one and is listed as active, its actor is the session's account, and its
  -- role is that of the membership which the control plane holds at that time. The call changes
  -- neither the control plane nor a workspace database.
  pub context_from_session-IsSessionContext :
      (sha256 : List ℕ → String) (secret : List ℕ) (host : String)
      → context_from_session verify server sha256 now world secret host entry request_id
        ≡ (after, ok (ok ctx))
      → (row : SessionRow) × (get_session_by_secret_hash world.control (sha256 secret) host
          ≡ some row)
        × IsSessionContext now world row ctx after
  unfolding context_from_session
  context_from_session-IsSessionContext sha256 secret host h =
      for_session-IsSessionContext (get_session_by_secret_hash world.control (sha256 secret) host) h
