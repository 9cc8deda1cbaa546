-- ===== src/Sessions/Calls.antt =====
-- The calls of sessions/service.py and sessions/grants.py one after the other. A call that raises is
-- rolled back; between two calls other transactions change the tables that sessions do not use.
pub mod Laws
pub mod Once
pub mod Deadlines
use rheo_stream.Prelude.{ℕ, String, List, [], ◌∷◌, Result, ok, raise, ◌>>=◌}
use rheo_stream.Prelude.Int.{ℤ}
use rheo_stream.Contracts.{Uuid}
use rheo_stream.Refusals.{Exn}
use rheo_stream.Storage.Tables.{ControlPlane}
use rheo_stream.Sessions.Service.{
  Host, create_session, mint_host_secret, touch, revoke, switch_workspace,
}
use rheo_stream.Sessions.Grants.{write_grant, consume_grant}

-- With what each call reads from the clock and draws at random.
pub data SessionCall : Type 0 where
  creates : ℤ → Uuid → Uuid → SessionCall
  mints : ℤ → List ℕ → Uuid → String → SessionCall
  touches : ℤ → Uuid → SessionCall
  revokes : ℤ → Uuid → SessionCall
  switches : ℤ → Uuid → Uuid → SessionCall
  writes_grant : ℤ → String → Uuid → String → List ℕ → SessionCall
  consumes_grant : ℤ → ℤ → String → String → List ℕ → SessionCall
  elsewhere : ControlPlane → SessionCall

abbrev outside_sessions : ControlPlane → ControlPlane → ControlPlane
outside_sessions c d = record d {
  sessions = c.sessions;
  session_secrets = c.session_secrets;
  session_grants = c.session_grants;
}

unfoldable pub perform : Host → ControlPlane → SessionCall → Result Exn ControlPlane
perform host c (creates now id account_id) = do
  (after, row) ← create_session host now id c account_id
  ok after
perform host c (mints now secret session_id name) =
    mint_host_secret host now secret c session_id name
perform host c (touches now session_id) = touch host now c session_id
perform host c (revokes now session_id) = revoke now c session_id
perform host c (switches now session_id target) = do
  (after, refusal) ← switch_workspace now c session_id target
  ok after
perform host c (writes_grant now drawn session_id target_host nonce) =
    write_grant host now drawn c session_id target_host nonce
perform host c (consumes_grant now at presented name nonce) = do
  (after, result) ← consume_grant host now at c presented name nonce
  ok after
perform host c (elsewhere d) = ok (outside_sessions c d)

abbrev pub committed : ControlPlane → Result Exn ControlPlane → ControlPlane
committed c (ok d) = d
committed c (raise e) = c

unfoldable pub run_calls : Host → ControlPlane → List SessionCall → ControlPlane
run_calls host c [] = c
run_calls host c (call ∷ calls) = run_calls host (committed c (perform host c call)) calls
