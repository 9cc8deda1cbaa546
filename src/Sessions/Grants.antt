-- ===== src/Sessions/Grants.antt =====
-- sessions/grants.py: one-time codes that carry a session to a second host.
pub mod Laws
use rheo_stream.Prelude.{
  ℕ, String, List, Option, none, some, Result, ok, raise, ◌>>=◌, code, ltb, if◌then◌else◌,
}
use Prim.Native.String.{[], ◌∷◌}
use rheo_stream.Prelude.Int.{ℤ, pos, ◌+ℤ◌}
use rheo_stream.Contracts.{Uuid}
use rheo_stream.Refusals.{Exn, other_error, Refusal, invalid_grant}
use rheo_stream.Storage.Tables.{ControlPlane, SessionGrantRow}
use rheo_stream.Storage.ControlPlane.Sessions.{insert_session_grant, consume_session_grant}
use rheo_stream.Sessions.Service.{Host}

ascii_char : ℕ → List ℕ → Result Exn (List ℕ)
ascii_char point rest =
    if ltb point 128
    then ok (List.◌∷◌ point rest)
    else raise (other_error "UnicodeEncodeError" "ordinal not in range(128)")

-- `s.encode("ascii")`
unfoldable pub encode_ascii : String → Result Exn (List ℕ)
unfolding ascii_char
encode_ascii [] = ok List.[]
encode_ascii (c ∷ s) = do rest ← encode_ascii s; ascii_char (code c) rest

abbrev pub grant_expiry_seconds : ℤ
grant_expiry_seconds = pos 60

-- `write_grant`, with the code that it draws; `now` is its own reading of the clock.
unfoldable pub write_grant :
    Host → ℤ → String → ControlPlane → Uuid → String → List ℕ → Result Exn ControlPlane
write_grant host now drawn c session_id target_host nonce = do
  bytes ← encode_ascii drawn
  insert_session_grant c (host.sha256 bytes) session_id target_host (host.sha256 nonce)
      (now +ℤ grant_expiry_seconds)

abbrev or_invalid :
    ControlPlane × Option SessionGrantRow → ControlPlane × Result Refusal SessionGrantRow
or_invalid (c, none) = (c, raise (record { state = invalid_grant }))
or_invalid (c, some row) = (c, ok row)

-- `consume_grant`: the grant, or the refusal that the function returns.
unfoldable pub consume_grant :
    Host
    → ℤ
    → ℤ
    → ControlPlane
    → String
    → String
    → List ℕ
    → Result Exn (ControlPlane × Result Refusal SessionGrantRow)
consume_grant host now at c presented name nonce = do
  bytes ← encode_ascii presented
  ok (or_invalid (consume_session_grant now at c (host.sha256 bytes) name (host.sha256 nonce)))
