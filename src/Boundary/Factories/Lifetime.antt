-- ===== src/Boundary/Factories/Lifetime.antt =====
-- The life of a session, as `context_from_session` sees it after any sequence of calls.
use rheo_stream.Prelude.{
  ℕ, String, Bool, true, false, List, some, ok, raise, is_some, ◌≡◌, ◌⊎◌, refl, ap, sym, subst, ◌∙◌,
  arith, Bool-cases, inl, inr,
}
use rheo_stream.Prelude.Int.{ℤ, leb_ℤ, ltb_ℤ, ◌+ℤ◌, ◌*ℤ◌, ◌≤ℤ◌}
use rheo_stream.Contracts.{Uuid, Entry, WorkspaceContext}
use rheo_stream.Refusals.{Refusal, session_expired, session_revoked}
use rheo_stream.Storage.Tables.{ControlPlane, SessionRow}
use rheo_stream.Storage.ControlPlane.Sessions.{get_session, get_session_by_secret_hash}
use rheo_stream.Storage.ControlPlane.Sessions.Rows.{
  AllSessions, get_session_by_secret_hash-found, revoke_session-revoked,
}
use rheo_stream.Storage.UnitOfWork.{Server}
use rheo_stream.Storage.Repositories.{WorkspaceDatabase}
use rheo_stream.Sessions.Service.{Host, SessionPolicy, session_policy, day, revoke}
use rheo_stream.Sessions.Calls.{SessionCall, run_calls}
use rheo_stream.Sessions.Calls.Laws.{run_calls-Keeps}
use rheo_stream.Sessions.Calls.Deadlines.{IsDated, run_calls-IsDated}
use rheo_stream.Boundary.Factories.{World, for_session, context_from_session}
use rheo_stream.Boundary.Factories.Sessions.{context_from_session-IsSessionContext}

module _ (verify : Bool) (server : Server WorkspaceDatabase) (host : Host) (now : ℤ) (world : World)
    (entry : Entry) (request_id : Uuid) where
  for_session-revoked :
      (row : SessionRow)
      → is_some row.revoked_at ≡ true
      → (r : Refusal) × (for_session verify server now world entry request_id (some row)
          ≡ (world, ok (raise r)))
        × ((r.state ≡ session_expired) ⊎ (r.state ≡ session_revoked))
  unfolding for_session
  for_session-revoked row revoked = elim (Bool-cases (leb_ℤ row.expires_at now)) [
    | inl expired ↦ (record { state = session_expired }, ground arith, inl refl)
    | inr current ↦ (record { state = session_revoked }, ground arith, inr refl)
  ]

  -- Once a session is revoked, no sequence of calls brings it back: every secret of it, on every
  -- host and at any time, is then refused as expired or revoked, and the refused call changes
  -- nothing.
  pub context_from_session-revoked :
      (revoked_at : ℤ) (c d : ControlPlane) (session_id : Uuid)
      → revoke revoked_at c session_id ≡ ok d
      → (calls : List SessionCall) → world.control ≡ run_calls host d calls
      → (secret : List ℕ) (name : String) (row : SessionRow)
      → get_session_by_secret_hash world.control (host.sha256 secret) name ≡ some row
      → row.id ≡ session_id
      → (r : Refusal) × (context_from_session verify server host.sha256 now world secret name entry
            request_id
          ≡ (world, ok (raise r)))
        × ((r.state ≡ session_expired) ⊎ (r.state ≡ session_revoked))
  unfolding context_from_session revoke
  context_from_session-revoked revoked_at c d session_id h calls at secret name row found same =
      let (first_row, there, ended) = revoke_session-revoked revoked_at c d session_id h in
      let (later, still, kept) =
        (run_calls-Keeps host d calls).sessions session_id first_row there in
      let by_id : get_session world.control session_id ≡ some row =
        subst (λ i. get_session world.control i ≡ some row) same
          (get_session_by_secret_hash-found world.control (host.sha256 secret) name row found) in
      let both = sym (ap (λ x. get_session x session_id) at ∙ still) ∙ by_id in
      let this : later ≡ row = cc both in
      let (r, refused, state) =
        for_session-revoked row
          (subst (λ x. is_some x.revoked_at ≡ true) this (kept.revoked ended)) in
      (r, ap (for_session verify server now world entry request_id) found ∙ refused, state)

  strictly : (a b c : ℤ) → leb_ℤ a b ≡ false → a ≤ℤ c → ltb_ℤ b c ≡ true
  strictly a b c late bound = ground arith

  -- While the settings of the two windows stay as they are and the calls start from tables whose
  -- sessions are within them, a context that a session gives after any sequence of calls is given
  -- before the absolute window from the session's creation is over, and before the idle window from
  -- its last touch is.
  pub context_from_session-in_time :
      (policy : SessionPolicy)
      → session_policy host ≡ ok policy
      → (c : ControlPlane) → AllSessions (IsDated policy) c
      → (calls : List SessionCall) → world.control ≡ run_calls host c calls
      → (secret : List ℕ) (name : String) (after : World) (ctx : WorkspaceContext)
      → context_from_session verify server host.sha256 now world secret name entry request_id
        ≡ (after, ok (ok ctx))
      → (row : SessionRow) × (get_session_by_secret_hash world.control (host.sha256 secret) name
          ≡ some row)
        × (ltb_ℤ now (row.created_at +ℤ day *ℤ policy.max_days) ≡ true)
        × (ltb_ℤ now (row.last_seen_at +ℤ day *ℤ policy.idle_days) ≡ true)
  context_from_session-in_time policy fixed c all calls at secret name after ctx h =
      let (row, found, context) =
        context_from_session-IsSessionContext verify server now world after entry request_id ctx
          host.sha256 secret name h in
      let by_id =
        get_session_by_secret_hash-found world.control (host.sha256 secret) name row found in
      let dated =
        run_calls-IsDated host policy fixed c calls all row.id row
          (ap (λ x. get_session x row.id) (sym at) ∙ by_id) in
      (
        row,
        found,
        strictly row.expires_at now (row.created_at +ℤ day *ℤ policy.max_days) context.unexpired
            dated.absolute,
        strictly row.expires_at now (row.last_seen_at +ℤ day *ℤ policy.idle_days) context.unexpired
            dated.idle,
      )
