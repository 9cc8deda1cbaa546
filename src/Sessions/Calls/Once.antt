-- ===== src/Sessions/Calls/Once.antt =====
-- A grant code is good for one call.
use rheo_stream.Prelude.{ℕ, String, List, ok, raise, ◌≡◌}
use rheo_stream.Prelude.Int.{ℤ}
use rheo_stream.Refusals.{invalid_grant}
use rheo_stream.Storage.Tables.{ControlPlane, SessionGrantRow}
use rheo_stream.Storage.ControlPlane.Sessions.Laws.{KeyedGrants}
use rheo_stream.Storage.ControlPlane.Sessions.Grants.{
  consume_session_grant-used, consume_session_grant-spent,
}
use rheo_stream.Sessions.Service.{Host}
use rheo_stream.Sessions.Grants.{consume_grant}
use rheo_stream.Sessions.Grants.Laws.{
  consume_grant-refused, consume_grant-steps, consume_grant-Keeps,
}
use rheo_stream.Sessions.Calls.{SessionCall, run_calls}
use rheo_stream.Sessions.Calls.Laws.{run_calls-Keeps}

-- Where no two grants of the table have the same code hash, a code that has been consumed is
-- refused with `invalid_grant` after any sequence of further calls, on any host, with any nonce and
-- at any time, and the refused call changes nothing.
pub consume_grant-once :
    (host : Host) (now at : ℤ) (c : ControlPlane) (presented name : String) (nonce : List ℕ)
    (d : ControlPlane) (row : SessionGrantRow)
    → KeyedGrants c
    → consume_grant host now at c presented name nonce ≡ ok (d, ok row)
    → (calls : List SessionCall) (again again_at : ℤ) (other : String) (other_nonce : List ℕ)
    → consume_grant host again again_at (run_calls host d calls) presented other other_nonce
      ≡ ok (run_calls host d calls, raise (record { state = invalid_grant }))
consume_grant-once host now at c presented name nonce d row keyed h calls again again_at other
      other_nonce =
    let (bytes, encoded, consumed) =
      consume_grant-steps host now at c presented name nonce d row h in
    let hash = host.sha256 bytes in
    let kept = consume_grant-Keeps host c now at presented name nonce d (ok row) h in
    let (first_later, at_d, spent) =
      consume_session_grant-used now hash name (host.sha256 nonce) at c d row keyed consumed in
    let after = run_calls-Keeps host d calls in
    let (later, found, grant_kept) = after.grants hash first_later at_d in
    consume_grant-refused host again again_at (run_calls host d calls) presented other other_nonce
      bytes encoded
      (consume_session_grant-spent again hash other (host.sha256 other_nonce) again_at
        (run_calls host d calls) later (after.keyed (kept.keyed keyed)) found
        (grant_kept.used spent))
