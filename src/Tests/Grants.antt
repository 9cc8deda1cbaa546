-- ===== src/Tests/Grants.antt =====
-- A grant of a session: it is written, consumed once, and then spent.
use rheo_stream.Prelude.{[], ◌∷◌, none, some, ok, raise, ◌≡◌, refl}
use rheo_stream.Prelude.Int.{pos, ◌+ℤ◌}
use rheo_stream.Refusals.{invalid_grant, other_error}
use rheo_stream.Storage.Tables.{ControlPlane, SessionGrantRow, first}
use rheo_stream.Storage.ControlPlane.Sessions.Laws.{KeyedGrants}
use rheo_stream.Sessions.Grants.{write_grant, consume_grant}
use rheo_stream.Sessions.Grants.Laws.{IsTaken, consume_grant-IsTaken, write_grant-consume_grant}
use rheo_stream.Sessions.Calls.{touches, run_calls}
use rheo_stream.Sessions.Calls.Once.{consume_grant-once}
use rheo_stream.Tests.Sessions.{host, signed_in}

abbrev grant : SessionGrantRow
grant = record {
  code_hash = "code";
  session_id = 20;
  target_host = "notes";
  nonce_hash = "nonce";
  expires_at = pos 2060;
  used_at = none;
}

abbrev granted : ControlPlane
granted = record signed_in { session_grants = grant ∷ [] }

grant_written : write_grant host (pos 2000) "c0de" signed_in 20 "notes" (2 ∷ []) ≡ ok granted
unfolding write_grant rheo_stream.Sessions.Grants.encode_ascii
    rheo_stream.Storage.ControlPlane.Sessions.insert_session_grant first ◌+ℤ◌
grant_written = refl

write_grant-consume_grant_example :
    (e : ControlPlane) × (row : SessionGrantRow) × (consume_grant host
        (pos 2030)
        (pos 2030)
        granted
        "c0de"
        "notes"
        (2 ∷ [])
      ≡ ok (e, ok row))
    × (row.session_id ≡ 20)
unfolding ◌+ℤ◌
write_grant-consume_grant_example =
    write_grant-consume_grant host (pos 2000) (pos 2030) (pos 2030) "c0de" signed_in 20 "notes"
      (2 ∷ []) granted grant_written refl

abbrev taken : SessionGrantRow
taken = record grant { used_at = some (pos 2030) }

abbrev spent : ControlPlane
spent = record signed_in { session_grants = taken ∷ [] }

grant_taken :
    consume_grant host (pos 2030) (pos 2030) granted "c0de" "notes" (2 ∷ []) ≡ ok (spent, ok taken)
unfolding consume_grant rheo_stream.Sessions.Grants.encode_ascii
    rheo_stream.Storage.ControlPlane.Sessions.consume_session_grant first
    rheo_stream.Storage.Tables.update_where
grant_taken = refl

granted-KeyedGrants : KeyedGrants granted
unfolding first
granted-KeyedGrants = (refl, tt)

consume_grant-IsTaken_example : IsTaken host (pos 2030) granted "c0de" "notes" (2 ∷ []) taken
consume_grant-IsTaken_example =
    consume_grant-IsTaken host (pos 2030) (pos 2030) granted "c0de" "notes" (2 ∷ []) spent taken
      grant_taken

consume_grant-once_example :
    consume_grant host
      (pos 2040)
      (pos 2040)
      (run_calls host spent (touches (pos 2035) 20 ∷ []))
      "c0de"
      "notes"
      (2 ∷ [])
    ≡ ok (
      run_calls host spent (touches (pos 2035) 20 ∷ []),
      raise (record { state = invalid_grant }),
    )
consume_grant-once_example =
    consume_grant-once host (pos 2030) (pos 2030) granted "c0de" "notes" (2 ∷ []) spent taken
      granted-KeyedGrants grant_taken (touches (pos 2035) 20 ∷ []) (pos 2040) (pos 2040) "notes"
      (2 ∷ [])

-- A code that is no ASCII text raises, where every other wrong code is refused.
code_raises :
    consume_grant host (pos 2030) (pos 2030) granted "é" "notes" (2 ∷ [])
    ≡ raise (other_error "UnicodeEncodeError" "ordinal not in range(128)")
unfolding consume_grant rheo_stream.Sessions.Grants.encode_ascii
code_raises = refl
