-- ===== src/Sessions/Calls/Deadlines.antt =====
-- The deadlines of sessions.
use rheo_stream.Prelude.{
  List, [], ◌∷◌, Result, ok, raise, >>=-eq-ok, ok_injective, ◌≡◌, refl, ap, sym, subst, ◌∙◌, arith,
}
use rheo_stream.Prelude.Int.{ℤ, ◌+ℤ◌, ◌*ℤ◌, ◌≤ℤ◌, min_ℤ}
use rheo_stream.Refusals.{Exn}
use rheo_stream.Storage.Tables.{ControlPlane, SessionRow}
use rheo_stream.Storage.ControlPlane.Sessions.Rows.{
  AllSessions, AllSessions-same, AllSessions-touch, AllSessions-revoke, AllSessions-switch,
  AllSessions-create, insert_session_secret-sessions, insert_session_grant-sessions,
}
use rheo_stream.Sessions.Service.{
  Host, SessionPolicy, session_policy, day, deadline, compute_expiry, create_session,
  mint_host_secret, revoke, switch_workspace,
}
use rheo_stream.Sessions.Service.Laws.{create_session-steps, touch-steps, switch_workspace-steps}
use rheo_stream.Sessions.Grants.{encode_ascii, write_grant, consume_grant}
use rheo_stream.Sessions.Grants.Laws.{consume_grant-sessions}
use rheo_stream.Sessions.Calls.{
  SessionCall, creates, mints, touches, revokes, switches, writes_grant, consumes_grant, elsewhere,
  perform, committed, run_calls,
}

-- The session ends within the absolute window from its creation, and within the idle window from when
-- it was last seen.
pub record IsDated (policy : SessionPolicy) (row : SessionRow) : Type 0 where
  pub absolute : row.expires_at ≤ℤ row.created_at +ℤ day *ℤ policy.max_days
  pub idle : row.expires_at ≤ℤ row.last_seen_at +ℤ day *ℤ policy.idle_days

min_left : (a b : ℤ) → min_ℤ a b ≤ℤ a
min_left a b = ground arith

min_right : (a b : ℤ) → min_ℤ a b ≤ℤ b
min_right a b = ground arith

module _ (host : Host) (policy : SessionPolicy) (fixed : session_policy host ≡ ok policy) where
  computed-deadline :
      (now created_at expiry : ℤ)
      → compute_expiry host now created_at ≡ ok expiry
      → expiry ≡ deadline policy now created_at
  unfolding compute_expiry
  computed-deadline now created_at expiry h =
      let (p, read, last) = >>=-eq-ok (session_policy host) _ h in
      let e : p ≡ policy = ok_injective (sym read ∙ fixed) in
      sym (ok_injective last) ∙ ap (λ q. deadline q now created_at) e

  touched-IsDated :
      (row : SessionRow) (now expiry : ℤ)
      → compute_expiry host now row.created_at ≡ ok expiry
      → IsDated policy (record row { last_seen_at = now; expires_at = expiry })
  touched-IsDated row now expiry h =
      subst (λ e. IsDated policy (record row { last_seen_at = now; expires_at = e }))
        (sym (computed-deadline now row.created_at expiry h))
        (record {
          absolute =
              min_right (now +ℤ day *ℤ policy.idle_days) (row.created_at +ℤ day *ℤ policy.max_days);
          idle =
              min_left (now +ℤ day *ℤ policy.idle_days) (row.created_at +ℤ day *ℤ policy.max_days);
        })

  module _ (c : ControlPlane) (all : AllSessions (IsDated policy) c) where
    perform-IsDated :
        (call : SessionCall) (d : ControlPlane)
        → perform host c call ≡ ok d
        → AllSessions (IsDated policy) d
    unfolding perform mint_host_secret revoke write_grant
    perform-IsDated (creates now id account_id) d h =
        let ((after, row), created, last) =
          >>=-eq-ok (create_session host now id c account_id) _ h in
        let (mid, drawn, expiry, inserted, computed, touched) =
          create_session-steps host c now id account_id after row created in
        subst (AllSessions (IsDated policy)) (ok_injective last) (
          AllSessions-create (IsDated policy) now id account_id c mid after drawn expiry inserted
            touched all (touched-IsDated drawn drawn.created_at expiry computed))
    perform-IsDated (mints now secret session_id name) d h =
        AllSessions-same (IsDated policy) c d
          (insert_session_secret-sessions now c (host.sha256 secret) session_id name d h) all
    perform-IsDated (touches now session_id) d h =
        touch-steps host c (AllSessions (IsDated policy)) now session_id d h all
          (λ row expiry found computed touched.
            AllSessions-touch (IsDated policy) c d session_id now expiry touched all (λ x there.
              let both = sym found ∙ there in
              let this : row ≡ x = cc both in
              subst (λ r. IsDated policy (record r { last_seen_at = now; expires_at = expiry }))
                this (touched-IsDated row now expiry computed)))
    perform-IsDated (revokes now session_id) d h =
        AllSessions-revoke (IsDated policy) now c d session_id h all
          (λ x dated. record { absolute = dated.absolute; idle = dated.idle })
    perform-IsDated (switches now session_id target) d h =
        let ((after, refusal), switched, last) =
          >>=-eq-ok (switch_workspace now c session_id target) _ h in
        subst (AllSessions (IsDated policy)) (ok_injective last) (
          switch_workspace-steps c (AllSessions (IsDated policy)) now session_id target after
            refusal switched all
            (λ moved.
              AllSessions-switch (IsDated policy) now c after session_id target moved all
                (λ x dated. record { absolute = dated.absolute; idle = dated.idle })))
    perform-IsDated (writes_grant now drawn session_id target_host nonce) d h =
        let (bytes, encoded, last) = >>=-eq-ok (encode_ascii drawn) _ h in
        AllSessions-same (IsDated policy) c d
          (insert_session_grant-sessions c (host.sha256 bytes) session_id target_host
            (host.sha256 nonce) _ d last)
          all
    perform-IsDated (consumes_grant now at presented name nonce) d h =
        let ((after, result), consumed, last) =
          >>=-eq-ok (consume_grant host now at c presented name nonce) _ h in
        AllSessions-same (IsDated policy) c d
          (ap (λ x. x.sessions) (sym (ok_injective last))
            ∙ consume_grant-sessions host now at c presented name nonce after result consumed)
          all
    perform-IsDated (elsewhere other) d h =
        AllSessions-same (IsDated policy) c d (ap (λ x. x.sessions) (sym (ok_injective h))) all

    committed-IsDated :
        (call : SessionCall) (r : Result Exn ControlPlane)
        → perform host c call ≡ r
        → AllSessions (IsDated policy) (committed c r)
    committed-IsDated call (ok d) h = perform-IsDated call d h
    committed-IsDated call (raise e) h = all

  -- While the settings of the two windows stay as they are, every session keeps, through any sequence
  -- of calls, an `expires_at` no later than its creation and the absolute window, and no later than
  -- its `last_seen_at` and the idle window.
  pub run_calls-IsDated :
      (c : ControlPlane) (calls : List SessionCall)
      → AllSessions (IsDated policy) c
      → AllSessions (IsDated policy) (run_calls host c calls)
  unfolding run_calls
  run_calls-IsDated c [] all = all
  run_calls-IsDated c (call ∷ calls) all =
      run_calls-IsDated (committed c (perform host c call)) calls
        (committed-IsDated c all call (perform host c call) refl)
