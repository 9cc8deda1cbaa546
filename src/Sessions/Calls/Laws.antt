-- ===== src/Sessions/Calls/Laws.antt =====
-- No sequence of calls takes a revocation or the use of a grant back.
use rheo_stream.Prelude.{
  List, [], ◌∷◌, Result, ok, raise, >>=-eq-ok, ok_injective, ◌≡◌, refl, subst,
}
use rheo_stream.Refusals.{Exn}
use rheo_stream.Storage.Tables.{ControlPlane}
use rheo_stream.Storage.ControlPlane.Sessions.Laws.{
  Keeps, Keeps-refl, Keeps-trans, IsSessionKept-refl, IsGrantKept-refl,
}
use rheo_stream.Storage.ControlPlane.Sessions.Statements.{
  insert_session-Keeps, insert_session_secret-Keeps, insert_session_grant-Keeps,
  touch_session-Keeps, revoke_session-Keeps,
}
use rheo_stream.Sessions.Service.{Host, create_session, mint_host_secret, revoke, switch_workspace}
use rheo_stream.Sessions.Grants.{encode_ascii, write_grant, consume_grant}
use rheo_stream.Sessions.Service.Laws.{create_session-steps, touch-Keeps, switch_workspace-Keeps}
use rheo_stream.Sessions.Grants.Laws.{consume_grant-Keeps}
use rheo_stream.Sessions.Calls.{
  SessionCall, creates, mints, touches, revokes, switches, writes_grant, consumes_grant, elsewhere,
  perform, committed, run_calls,
}

module _ (host : Host) (c : ControlPlane) where
  pub perform-Keeps :
      (call : SessionCall) (d : ControlPlane) → perform host c call ≡ ok d → Keeps c d
  unfolding perform mint_host_secret revoke write_grant
  perform-Keeps (creates now id account_id) d h =
      let ((after, row), created, last) = >>=-eq-ok (create_session host now id c account_id) _ h in
      let (mid, drawn, expiry, inserted, computed, touched) =
        create_session-steps host c now id account_id after row created in
      subst (Keeps c) (ok_injective last) (
        Keeps-trans c mid after (insert_session-Keeps now id c account_id mid drawn inserted)
          (touch_session-Keeps mid drawn.id drawn.created_at expiry after touched))
  perform-Keeps (mints now secret session_id name) d h =
      insert_session_secret-Keeps now c (host.sha256 secret) session_id name d h
  perform-Keeps (touches now session_id) d h = touch-Keeps host c now session_id d h
  perform-Keeps (revokes now session_id) d h = revoke_session-Keeps now c session_id d h
  perform-Keeps (switches now session_id target) d h =
      let ((after, refusal), switched, last) =
        >>=-eq-ok (switch_workspace now c session_id target) _ h in
      subst (Keeps c) (ok_injective last)
        (switch_workspace-Keeps c now session_id target after refusal switched)
  perform-Keeps (writes_grant now drawn session_id target_host nonce) d h =
      let (bytes, encoded, last) = >>=-eq-ok (encode_ascii drawn) _ h in
      insert_session_grant-Keeps c (host.sha256 bytes) session_id target_host (host.sha256 nonce) _
        d last
  perform-Keeps (consumes_grant now at presented name nonce) d h =
      let ((after, result), consumed, last) =
        >>=-eq-ok (consume_grant host now at c presented name nonce) _ h in
      subst (Keeps c) (ok_injective last)
        (consume_grant-Keeps host c now at presented name nonce after result consumed)
  perform-Keeps (elsewhere d1) d h = subst (Keeps c) (ok_injective h) (record {
    sessions = λ session_id row found. (row, found, IsSessionKept-refl row);
    secrets = λ p row found. found;
    keyed = λ k. k;
    grants = λ code_hash row found. (row, found, IsGrantKept-refl row);
  })

  committed-Keeps :
      (call : SessionCall) (r : Result Exn ControlPlane)
      → perform host c call ≡ r
      → Keeps c (committed c r)
  committed-Keeps call (ok d) h = perform-Keeps call d h
  committed-Keeps call (raise e) h = Keeps-refl c

pub run_calls-Keeps :
    (host : Host) (c : ControlPlane) (calls : List SessionCall) → Keeps c (run_calls host c calls)
unfolding run_calls
run_calls-Keeps host c [] = Keeps-refl c
run_calls-Keeps host c (call ∷ calls) =
    let next = committed c (perform host c call) in
    Keeps-trans c next (run_calls host next calls)
      (committed-Keeps host c call (perform host c call) refl) (run_calls-Keeps host next calls)
