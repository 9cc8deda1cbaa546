-- ===== src/Storage/ControlPlane/Sessions.antt =====
-- storage/control_plane.py: the statements over `session`, `session_secret` and `session_grant`. A
-- unique key is checked before a foreign key, as the database does.
pub mod Laws
pub mod Statements
pub mod Grants
pub mod Rows
use rheo_stream.Prelude.{
  String, Bool, true, false, not, ◌&&◌, ◌||◌, List, [], ◌∷◌, ◌++◌, Option, none, some, Result, ok,
  raise, ◌>>=◌, str_eq, ◌==◌, if◌then◌else◌, is_some,
}
use rheo_stream.Prelude.Int.{ℤ, ltb_ℤ}
use rheo_stream.Contracts.{Uuid}
use rheo_stream.Refusals.{Exn, storage_refusal, session_row_missing, session_secret_exists}
use rheo_stream.Storage.Tables.{
  ControlPlane, SessionRow, SessionSecretRow, SessionGrantRow, first, update_where, has_row,
  integrity_error,
}
use rheo_stream.Storage.ControlPlane.{get_account}

abbrev pub get_session : ControlPlane → Uuid → Option SessionRow
get_session c session_id = first (λ row. row.id == session_id) c.sessions

abbrev pub fresh_session : ℤ → Uuid → Uuid → SessionRow
fresh_session now id account_id = record {
  id = id;
  account_id = account_id;
  active_workspace_id = none;
  active_workspace_changed_at = none;
  created_at = now;
  last_seen_at = now;
  expires_at = now;
  revoked_at = none;
}

-- `insert_session`, with the id that it draws
unfoldable pub insert_session :
    ℤ → Uuid → ControlPlane → Uuid → Result Exn (ControlPlane × SessionRow)
insert_session now id c account_id =
    let row = fresh_session now id account_id in
    if is_some (get_session c id) || not (is_some (get_account c account_id))
    then raise integrity_error
    else ok (record c { sessions = c.sessions ++ row ∷ [] }, row)

-- An `UPDATE` of the session, which must find its row.
unfoldable pub update_session :
    (SessionRow → SessionRow) → ControlPlane → Uuid → Result Exn ControlPlane
update_session f c session_id =
    if is_some (get_session c session_id)
    then ok (record c { sessions = update_where (λ row. row.id == session_id) f c.sessions })
    else raise (storage_refusal session_row_missing)

abbrev seen : ℤ → ℤ → SessionRow → SessionRow
seen last_seen_at expires_at row = record row {
  last_seen_at = last_seen_at;
  expires_at = expires_at;
}

abbrev ended : ℤ → SessionRow → SessionRow
ended now row = record row { revoked_at = some now }

abbrev moved : ℤ → Uuid → SessionRow → SessionRow
moved now workspace_id row = record row {
  active_workspace_id = some workspace_id;
  active_workspace_changed_at = some now;
}

-- `touch_session`
unfoldable pub touch_session : ControlPlane → Uuid → ℤ → ℤ → Result Exn ControlPlane
unfolding update_session
touch_session c session_id last_seen_at expires_at =
    update_session (seen last_seen_at expires_at) c session_id

-- `revoke_session`
unfoldable pub revoke_session : ℤ → ControlPlane → Uuid → Result Exn ControlPlane
unfolding update_session
revoke_session now c session_id = update_session (ended now) c session_id

-- `set_active_workspace`. The workspace is a foreign key.
unfoldable pub set_active_workspace : ℤ → ControlPlane → Uuid → Uuid → Result Exn ControlPlane
unfolding update_session
set_active_workspace now c session_id workspace_id =
    if is_some (get_session c session_id)
      && not (has_row (λ row. row.id == workspace_id) c.workspaces)
    then raise integrity_error
    else update_session (moved now workspace_id) c session_id

-- The keys of `session_secret`: the hash, and the session with the host.
abbrev same_secret : String → Uuid → String → SessionSecretRow → Bool
same_secret secret_hash session_id host row =
    str_eq row.secret_hash secret_hash || (row.session_id == session_id && str_eq row.host host)

-- `insert_session_secret`
unfoldable pub insert_session_secret :
    ℤ → ControlPlane → String → Uuid → String → Result Exn ControlPlane
insert_session_secret now c secret_hash session_id host =
    if has_row (same_secret secret_hash session_id host) c.session_secrets
    then raise (storage_refusal session_secret_exists)
    else if not (is_some (get_session c session_id))
    then raise (storage_refusal session_row_missing)
    else ok (record c {
      session_secrets =
          c.session_secrets
          ++ record {
            secret_hash = secret_hash;
            session_id = session_id;
            host = host;
            created_at = now;
          }
            ∷ [];
    })

joined : ControlPlane → Option SessionSecretRow → Option SessionRow
joined c none = none
joined c (some secret) = get_session c secret.session_id

-- `get_session_by_secret_hash`
unfoldable pub get_session_by_secret_hash : ControlPlane → String → String → Option SessionRow
unfolding joined
get_session_by_secret_hash c secret_hash host =
    joined c
      (first (λ row. str_eq row.secret_hash secret_hash && str_eq row.host host) c.session_secrets)

abbrev pub get_grant : ControlPlane → String → Option SessionGrantRow
get_grant c code_hash = first (λ row. str_eq row.code_hash code_hash) c.session_grants

-- `insert_session_grant`
unfoldable pub insert_session_grant :
    ControlPlane → String → Uuid → String → String → ℤ → Result Exn ControlPlane
insert_session_grant c code_hash session_id target_host nonce_hash expires_at =
    if is_some (get_grant c code_hash)
    then raise integrity_error
    else if not (is_some (get_session c session_id))
    then raise (storage_refusal session_row_missing)
    else ok (record c {
      session_grants =
          c.session_grants
          ++ record {
            code_hash = code_hash;
            session_id = session_id;
            target_host = target_host;
            nonce_hash = nonce_hash;
            expires_at = expires_at;
            used_at = none;
          }
            ∷ [];
    })

-- The condition of the one `UPDATE` of `consume_session_grant`
abbrev pub consumable : ℤ → String → String → String → SessionGrantRow → Bool
consumable now code_hash target_host nonce_hash row =
    str_eq row.code_hash code_hash
    && not (is_some row.used_at)
    && ltb_ℤ now row.expires_at
    && str_eq row.target_host target_host
    && str_eq row.nonce_hash nonce_hash

abbrev used : ℤ → SessionGrantRow → SessionGrantRow
used at row = record row { used_at = some at }

used_row : ℤ → Option SessionGrantRow → Option SessionGrantRow
used_row at none = none
used_row at (some row) = some (used at row)

-- `consume_session_grant`; the clock is read for the condition and again for `used_at`.
unfoldable pub consume_session_grant :
    ℤ → ℤ → ControlPlane → String → String → String → ControlPlane × Option SessionGrantRow
unfolding used_row
consume_session_grant now at c code_hash target_host nonce_hash =
    let wanted = consumable now code_hash target_host nonce_hash in
    (
      record c { session_grants = update_where wanted (used at) c.session_grants },
      used_row at (first wanted c.session_grants),
    )
