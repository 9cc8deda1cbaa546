-- ===== src/Storage/ControlPlane/Sessions/Rows.antt =====
-- A predicate on every session, as the statements change the table.
use rheo_stream.Prelude.{
  str_eq, ◌&&◌, String, true, false, [], ◌∷◌, ◌++◌, Option, none, some, ok, is_some, ◌==◌, ==_iff,
  ◌≡◌, refl, ap, sym, ◌∙◌, subst, arith, Bool-cases, Option-cases, if◌then◌else◌, inl, inr,
}
use rheo_stream.Prelude.Int.{ℤ}
use rheo_stream.Contracts.{Uuid}
use rheo_stream.Storage.Tables.{SessionSecretRow, ControlPlane, SessionRow, first}
use rheo_stream.Storage.Tables.Laws.{none_of, first-holds, first-grown, first-new, updated}
use rheo_stream.Storage.ControlPlane.Sessions.{
  joined, get_session_by_secret_hash, get_session, fresh_session, insert_session, update_session,
  touch_session, revoke_session, set_active_workspace, insert_session_secret, insert_session_grant,
  seen, ended, moved,
}
use rheo_stream.Storage.ControlPlane.Sessions.Laws.{update_session-found}

-- Every session that a lookup finds satisfies the predicate.
abbrev pub AllSessions : (SessionRow → Type 0) → ControlPlane → Type 0
AllSessions P c =
    (session_id : Uuid) (row : SessionRow) → get_session c session_id ≡ some row → P row

found_id :
    (c : ControlPlane) (session_id : Uuid) (row : SessionRow)
    → get_session c session_id ≡ some row
    → row.id ≡ session_id
found_id c session_id row h =
    (==_iff row.id session_id).0 (first-holds (λ r. r.id == session_id) c.sessions row h)

module _ (P : SessionRow → Type 0) where
  pub AllSessions-same :
      (c d : ControlPlane) → d.sessions ≡ c.sessions → AllSessions P c → AllSessions P d
  AllSessions-same c d e all session_id row h =
      all session_id row (ap (first (λ r. r.id == session_id)) (sym e) ∙ h)

  -- The row that an `UPDATE` has changed, and the others as they were.
  AllSessions-update :
      (f : SessionRow → SessionRow)
      → ((row : SessionRow) → (f row).id ≡ row.id)
      → (c d : ControlPlane) (session_id : Uuid) → update_session f c session_id ≡ ok d
      → ((x : SessionRow) → get_session c session_id ≡ some x → P (f x))
      → ((other : Uuid) (x : SessionRow)
          → get_session c other ≡ some x
          → (x.id == session_id) ≡ false
          → P x)
      → AllSessions P d
  AllSessions-update f same_id c d session_id h changes keeps other row found =
      let same = update_session-found f same_id c d session_id h other in
      elim (Option-cases (get_session c other)) [
        | inl missing ↦
            let nothing = sym same ∙ found in
            let gone = ap (updated (λ r. r.id == other) (λ r. r.id == session_id) f) missing in
            cc (sym gone ∙ nothing)
        | inr (x, there) ↦
            let is =
              ap (updated (λ r. r.id == other) (λ r. r.id == session_id) f) (sym there)
              ∙ sym same
              ∙ found in
            elim (Bool-cases (x.id == session_id)) [
              | inl this ↦
                  let e : other ≡ session_id =
                    sym (found_id c other x there) ∙ (==_iff x.id session_id).0 this in
                  subst P (ground arith) (changes x (subst (λ i. get_session c i ≡ some x) e there))
              | inr another ↦ subst P (ground arith) (keeps other x there another)
            ]
      ]

  pub AllSessions-touch :
      (c d : ControlPlane) (session_id : Uuid) (last_seen_at expires_at : ℤ)
      → touch_session c session_id last_seen_at expires_at ≡ ok d
      → AllSessions P c
      → ((x : SessionRow)
          → get_session c session_id ≡ some x
          → P (record x { last_seen_at = last_seen_at; expires_at = expires_at }))
      → AllSessions P d
  unfolding touch_session
  AllSessions-touch c d session_id last_seen_at expires_at h all dated =
      AllSessions-update (seen last_seen_at expires_at) (λ row. refl) c d session_id h dated
        (λ other x there differs. all other x there)

  pub AllSessions-revoke :
      (now : ℤ) (c d : ControlPlane) (session_id : Uuid)
      → revoke_session now c session_id ≡ ok d
      → AllSessions P c
      → ((x : SessionRow) → P x → P (record x { revoked_at = some now }))
      → AllSessions P d
  unfolding revoke_session
  AllSessions-revoke now c d session_id h all step =
      AllSessions-update (ended now) (λ row. refl) c d session_id h
        (λ x there. step x (all session_id x there)) (λ other x there differs. all other x there)

  pub AllSessions-switch :
      (now : ℤ) (c d : ControlPlane) (session_id workspace_id : Uuid)
      → set_active_workspace now c session_id workspace_id ≡ ok d
      → AllSessions P c
      → ((x : SessionRow)
          → P x
          → P (record x {
            active_workspace_id = some workspace_id;
            active_workspace_changed_at = some now;
          }))
      → AllSessions P d
  unfolding set_active_workspace
  AllSessions-switch now c d session_id workspace_id h all step =
      AllSessions-update (moved now workspace_id) (λ row. refl) c d session_id (ground arith)
        (λ x there. step x (all session_id x there)) (λ other x there differs. all other x there)

  -- A session that is inserted and then touched in the same transaction: only the touched row counts.
  pub AllSessions-create :
      (now : ℤ) (id account_id : Uuid) (c mid d : ControlPlane) (drawn : SessionRow)
      (expires_at : ℤ)
      → insert_session now id c account_id ≡ ok (mid, drawn)
      → touch_session mid drawn.id drawn.created_at expires_at ≡ ok d
      → AllSessions P c
      → P (record drawn { last_seen_at = drawn.created_at; expires_at = expires_at })
      → AllSessions P d
  unfolding insert_session touch_session
  AllSessions-create now id account_id c mid d drawn expires_at i t all dated =
      let fresh : fresh_session now id account_id ≡ drawn = ground arith in
      let grown : mid ≡ record c { sessions = c.sessions ++ fresh_session now id account_id ∷ [] } =
        ground arith in
      let new : get_session c id ≡ none = none_of (get_session c id) (ground arith) in
      let same_id : drawn.id ≡ id = ap (λ r. r.id) (sym fresh) in
      let at_id : get_session mid drawn.id ≡ some drawn =
        ap (λ x. get_session mid x) same_id
        ∙ ap (λ x. get_session x id) grown
        ∙ first-new (λ r. r.id == id) c.sessions (fresh_session now id account_id) new
        ∙ ap (λ b. if b then some (fresh_session now id account_id) else none)
            ((==_iff id id).1 refl)
        ∙ ap (λ r. some r) fresh in
      AllSessions-update (seen drawn.created_at expires_at) (λ row. refl) mid d drawn.id t
        (λ x there.
          let looked = sym at_id ∙ there in
          let this : drawn ≡ x = cc looked in
          subst (λ r. P (seen drawn.created_at expires_at r)) this dated)
        (λ other x there differs. elim (Option-cases (get_session c other)) [
          | inl missing ↦
              let looked =
                sym (
                  ap (λ m. get_session m other) grown
                  ∙ first-new (λ r. r.id == other) c.sessions (fresh_session now id account_id)
                      missing)
                ∙ there in
              absurd (ground (arith, looked, same_id, differs))
          | inr (y, before) ↦
              let looked =
                sym (
                  ap (λ m. get_session m other) grown
                  ∙ first-grown (λ r. r.id == other) c.sessions
                      (fresh_session now id account_id ∷ []) y before)
                ∙ there in
              let this : y ≡ x = cc looked in subst P this (all other y before)
        ])

pub insert_session_secret-sessions :
    (now : ℤ) (c : ControlPlane) (secret_hash : String) (session_id : Uuid) (host : String)
    (d : ControlPlane)
    → insert_session_secret now c secret_hash session_id host ≡ ok d
    → d.sessions ≡ c.sessions
unfolding insert_session_secret
insert_session_secret-sessions now c secret_hash session_id host d h = ground arith

pub insert_session_grant-sessions :
    (c : ControlPlane) (code_hash : String) (session_id : Uuid) (target_host nonce_hash : String)
    (expires_at : ℤ) (d : ControlPlane)
    → insert_session_grant c code_hash session_id target_host nonce_hash expires_at ≡ ok d
    → d.sessions ≡ c.sessions
unfolding insert_session_grant
insert_session_grant-sessions c code_hash session_id target_host nonce_hash expires_at d h =
    ground arith

joined-found :
    (c : ControlPlane) (o : Option SessionSecretRow) (row : SessionRow)
    → joined c o ≡ some row
    → get_session c row.id ≡ some row
unfolding joined
joined-found c none row h = cc
joined-found c (some secret) row h =
    subst (λ i. get_session c i ≡ some row) (sym (found_id c secret.session_id row h)) h

-- The join finds what a lookup by the session's id finds.
pub get_session_by_secret_hash-found :
    (c : ControlPlane) (secret_hash host : String) (row : SessionRow)
    → get_session_by_secret_hash c secret_hash host ≡ some row
    → get_session c row.id ≡ some row
unfolding get_session_by_secret_hash
get_session_by_secret_hash-found c secret_hash host row h =
    joined-found c
      (first (λ r. str_eq r.secret_hash secret_hash && str_eq r.host host) c.session_secrets) row h

updated-revoked :
    (now : ℤ) (session_id : Uuid) (o : Option SessionRow)
    → is_some o ≡ true
    → ((x : SessionRow) → o ≡ some x → x.id ≡ session_id)
    → (row : SessionRow) × (updated
          (λ r. r.id == session_id)
          (λ r. r.id == session_id)
          (ended now)
          o
        ≡ some row)
      × (is_some row.revoked_at ≡ true)
updated-revoked now session_id none h same = cc
updated-revoked now session_id (some x) h same = (
  ended now x,
  ap (λ b. some (if b then ended now x else x)) ((==_iff x.id session_id).1 (same x refl)),
  refl,
)

pub revoke_session-revoked :
    (now : ℤ) (c d : ControlPlane) (session_id : Uuid)
    → revoke_session now c session_id ≡ ok d
    → (row : SessionRow) × (get_session d session_id ≡ some row) × (is_some row.revoked_at ≡ true)
unfolding revoke_session update_session
revoke_session-revoked now c d session_id h =
    let (row, found, ended_at) =
      updated-revoked now session_id (get_session c session_id) (ground arith)
        (found_id c session_id) in
    (
      row,
      update_session-found (ended now) (λ r. refl) c d session_id h session_id ∙ found,
      ended_at,
    )
