-- ===== src/Storage/ControlPlane/Sessions/Statements.antt =====
-- That each statement on sessions keeps what is there.
use rheo_stream.Prelude.{
  String, Bool, List, [], ◌∷◌, ◌++◌, Option, none, some, ok, str_eq, ◌==◌, ◌≡◌, refl, ◌∙◌, subst,
  arith, Bool-cases, inl, inr,
}
use rheo_stream.Prelude.Int.{ℤ}
use rheo_stream.Contracts.{Uuid}
use rheo_stream.Storage.Tables.{ControlPlane, SessionRow, SessionSecretRow, SessionGrantRow}
use rheo_stream.Storage.Tables.Laws.{
  none_of, Keyed-grown, Keyed-update, first-grown, updated, first-update_where,
}
use rheo_stream.Storage.ControlPlane.Sessions.Laws.{
  IsSessionKept-refl, IsGrantKept, IsGrantKept-refl, Keeps, update_session-Keeps,
}
use rheo_stream.Storage.ControlPlane.Sessions.{
  get_grant, fresh_session, insert_session, touch_session, revoke_session, set_active_workspace,
  insert_session_secret, insert_session_grant, consume_session_grant, consumable, used, seen, ended,
  moved,
}

-- The bodies of the statements, as they grow a table.
grown-sessions-Keeps :
    (c : ControlPlane) (rows : List SessionRow)
    → Keeps c (record c { sessions = c.sessions ++ rows })
grown-sessions-Keeps c rows = record {
  sessions = λ session_id row h.
      (row, first-grown (λ x. x.id == session_id) c.sessions rows row h, IsSessionKept-refl row);
  secrets = λ p row h. h;
  keyed = λ k. k;
  grants = λ code_hash row h. (row, h, IsGrantKept-refl row);
}

grown-secrets-Keeps :
    (c : ControlPlane) (rows : List SessionSecretRow)
    → Keeps c (record c { session_secrets = c.session_secrets ++ rows })
grown-secrets-Keeps c rows = record {
  sessions = λ session_id row h. (row, h, IsSessionKept-refl row);
  secrets = λ p row h. first-grown p c.session_secrets rows row h;
  keyed = λ k. k;
  grants = λ code_hash row h. (row, h, IsGrantKept-refl row);
}

grown-grants-Keeps :
    (c : ControlPlane) (row : SessionGrantRow)
    → get_grant c row.code_hash ≡ none
    → Keeps c (record c { session_grants = c.session_grants ++ row ∷ [] })
grown-grants-Keeps c row new = record {
  sessions = λ session_id row h. (row, h, IsSessionKept-refl row);
  secrets = λ p row h. h;
  keyed = λ k. Keyed-grown (λ r. r.code_hash) c.session_grants row k new;
  grants = λ code_hash found h. (
    found,
    first-grown (λ x. str_eq x.code_hash code_hash) c.session_grants (row ∷ []) found h,
    IsGrantKept-refl found,
  );
}

pub insert_session-Keeps :
    (now : ℤ) (id : Uuid) (c : ControlPlane) (account_id : Uuid) (d : ControlPlane)
    (row : SessionRow)
    → insert_session now id c account_id ≡ ok (d, row)
    → Keeps c d
unfolding insert_session
insert_session-Keeps now id c account_id d row h =
    let e : record c { sessions = c.sessions ++ fresh_session now id account_id ∷ [] } ≡ d =
      ground arith in
    subst (Keeps c) e (grown-sessions-Keeps c (fresh_session now id account_id ∷ []))

pub insert_session_secret-Keeps :
    (now : ℤ) (c : ControlPlane) (secret_hash : String) (session_id : Uuid) (host : String)
    (d : ControlPlane)
    → insert_session_secret now c secret_hash session_id host ≡ ok d
    → Keeps c d
unfolding insert_session_secret
insert_session_secret-Keeps now c secret_hash session_id host d h = subst (Keeps c) (ground arith) (
    grown-secrets-Keeps c (
      record { secret_hash = secret_hash; session_id = session_id; host = host; created_at = now }
      ∷ []))

pub insert_session_grant-Keeps :
    (c : ControlPlane) (code_hash : String) (session_id : Uuid) (target_host nonce_hash : String)
    (expires_at : ℤ) (d : ControlPlane)
    → insert_session_grant c code_hash session_id target_host nonce_hash expires_at ≡ ok d
    → Keeps c d
unfolding insert_session_grant
insert_session_grant-Keeps c code_hash session_id target_host nonce_hash expires_at d h =
    subst (Keeps c) (ground arith) (
      grown-grants-Keeps c
        (record {
          code_hash = code_hash;
          session_id = session_id;
          target_host = target_host;
          nonce_hash = nonce_hash;
          expires_at = expires_at;
          used_at = none;
        })
        (none_of (get_grant c code_hash) (ground arith)))

pub touch_session-Keeps :
    (c : ControlPlane) (session_id : Uuid) (last_seen_at expires_at : ℤ) (d : ControlPlane)
    → touch_session c session_id last_seen_at expires_at ≡ ok d
    → Keeps c d
unfolding touch_session
touch_session-Keeps c session_id last_seen_at expires_at d h =
    update_session-Keeps (seen last_seen_at expires_at) (λ row. refl)
      (λ row. record { account_id = refl; created_at = refl; revoked = λ r. r }) c d session_id h

pub revoke_session-Keeps :
    (now : ℤ) (c : ControlPlane) (session_id : Uuid) (d : ControlPlane)
    → revoke_session now c session_id ≡ ok d
    → Keeps c d
unfolding revoke_session
revoke_session-Keeps now c session_id d h =
    update_session-Keeps (ended now) (λ row. refl)
      (λ row. record { account_id = refl; created_at = refl; revoked = λ r. refl }) c d session_id h

pub set_active_workspace-Keeps :
    (now : ℤ) (c : ControlPlane) (session_id workspace_id : Uuid) (d : ControlPlane)
    → set_active_workspace now c session_id workspace_id ≡ ok d
    → Keeps c d
unfolding set_active_workspace
set_active_workspace-Keeps now c session_id workspace_id d h =
    update_session-Keeps (moved now workspace_id) (λ row. refl)
      (λ row. record { account_id = refl; created_at = refl; revoked = λ r. r }) c d session_id
      (ground arith)

updated-IsGrantKept :
    (p q : SessionGrantRow → Bool) (at : ℤ) (o : Option SessionGrantRow) (row : SessionGrantRow)
    → o ≡ some row
    → (later : SessionGrantRow) × (updated p q (used at) o ≡ some later) × IsGrantKept row later
updated-IsGrantKept p q at none row h = cc
updated-IsGrantKept p q at (some x) row h =
    let e : x ≡ row = cc in
    elim (Bool-cases (q x)) [
      | inl changed ↦ (
        used at x,
        ground arith,
        subst (λ r. IsGrantKept r (used at x)) e
            (record { session_id = refl; expires_at = refl; used = λ u. refl }),
      )
      | inr kept ↦ (x, ground arith, subst (λ r. IsGrantKept r x) e (IsGrantKept-refl x))
    ]

pub consume_session_grant-Keeps :
    (now at : ℤ) (c : ControlPlane) (code_hash target_host nonce_hash : String)
    → Keeps c (consume_session_grant now at c code_hash target_host nonce_hash).0
unfolding consume_session_grant
consume_session_grant-Keeps now at c code_hash target_host nonce_hash = record {
  sessions = λ session_id row h. (row, h, IsSessionKept-refl row);
  secrets = λ p row h. h;
  keyed = λ k.
      Keyed-update (λ r. r.code_hash) (consumable now code_hash target_host nonce_hash) (used at)
        (λ x. refl) c.session_grants k;
  grants = λ other row h.
      let key : SessionGrantRow → Bool = λ x. str_eq x.code_hash other in
      let wanted = consumable now code_hash target_host nonce_hash in
      let (later, found, kept) = updated-IsGrantKept key wanted at (get_grant c other) row h in
      (later, first-update_where key wanted (used at) (λ x. refl) c.session_grants ∙ found, kept);
}
