-- ===== src/Storage/ControlPlane/Sessions/Laws.antt =====
-- What the statements on sessions keep: no session, secret or grant is removed, and neither a
-- revocation nor the use of a grant is taken back.
use rheo_stream.Prelude.{
  String, Bool, true, Option, none, some, ok, is_some, ◌==◌, ◌≡◌, refl, ap, sym, ◌∙◌, subst, arith,
  Bool-cases, inl, inr,
}
use rheo_stream.Contracts.{Uuid}
use rheo_stream.Storage.Tables.{
  ControlPlane, SessionRow, SessionSecretRow, SessionGrantRow, first, update_where,
}
use rheo_stream.Storage.Tables.Laws.{Keyed, updated, first-update_where}
use rheo_stream.Storage.ControlPlane.Sessions.{get_session, get_grant, update_session}

pub record IsSessionKept (row later : SessionRow) : Type 0 where
  pub account_id : later.account_id ≡ row.account_id
  pub created_at : later.created_at ≡ row.created_at
  pub revoked : is_some row.revoked_at ≡ true → is_some later.revoked_at ≡ true

pub record IsGrantKept (row later : SessionGrantRow) : Type 0 where
  pub session_id : later.session_id ≡ row.session_id
  pub expires_at : later.expires_at ≡ row.expires_at
  pub used : is_some row.used_at ≡ true → is_some later.used_at ≡ true

-- `code_hash` is the primary key of `session_grant`.
abbrev pub KeyedGrants : ControlPlane → Type 0
KeyedGrants c = Keyed (λ row. row.code_hash) c.session_grants

pub record Keeps (c d : ControlPlane) : Type 0 where
  pub sessions :
      (session_id : Uuid) (row : SessionRow)
      → get_session c session_id ≡ some row
      → (later : SessionRow) × (get_session d session_id ≡ some later) × IsSessionKept row later
  pub secrets :
      (p : SessionSecretRow → Bool) (row : SessionSecretRow)
      → first p c.session_secrets ≡ some row
      → first p d.session_secrets ≡ some row
  pub keyed : KeyedGrants c → KeyedGrants d
  pub grants :
      (code_hash : String) (row : SessionGrantRow)
      → get_grant c code_hash ≡ some row
      → (later : SessionGrantRow) × (get_grant d code_hash ≡ some later) × IsGrantKept row later

pub IsSessionKept-refl : (row : SessionRow) → IsSessionKept row row
IsSessionKept-refl row = record { account_id = refl; created_at = refl; revoked = λ h. h }

pub IsGrantKept-refl : (row : SessionGrantRow) → IsGrantKept row row
IsGrantKept-refl row = record { session_id = refl; expires_at = refl; used = λ h. h }

pub Keeps-refl : (c : ControlPlane) → Keeps c c
Keeps-refl c = record {
  sessions = λ session_id row h. (row, h, IsSessionKept-refl row);
  secrets = λ p row h. h;
  keyed = λ k. k;
  grants = λ code_hash row h. (row, h, IsGrantKept-refl row);
}

pub Keeps-trans : (c d e : ControlPlane) → Keeps c d → Keeps d e → Keeps c e
Keeps-trans c d e k l = record {
  sessions = λ session_id row h.
      let (row1, found1, kept1) = k.sessions session_id row h in
      let (row2, found2, kept2) = l.sessions session_id row1 found1 in
      (
        row2,
        found2,
        record {
          account_id = kept2.account_id ∙ kept1.account_id;
          created_at = kept2.created_at ∙ kept1.created_at;
          revoked = λ r. kept2.revoked (kept1.revoked r);
        },
      );
  secrets = λ p row h. l.secrets p row (k.secrets p row h);
  keyed = λ h. l.keyed (k.keyed h);
  grants = λ code_hash row h.
      let (row1, found1, kept1) = k.grants code_hash row h in
      let (row2, found2, kept2) = l.grants code_hash row1 found1 in
      (
        row2,
        found2,
        record {
          session_id = kept2.session_id ∙ kept1.session_id;
          expires_at = kept2.expires_at ∙ kept1.expires_at;
          used = λ r. kept2.used (kept1.used r);
        },
      );
}

-- Tables that differ by an `UPDATE` of sessions that keeps their id.
module _ (f : SessionRow → SessionRow) (same_id : (row : SessionRow) → (f row).id ≡ row.id) where
  pub update_session-found :
      (c d : ControlPlane) (session_id : Uuid)
      → update_session f c session_id ≡ ok d
      → (other : Uuid)
      → get_session d other
        ≡ updated (λ row. row.id == other) (λ row. row.id == session_id) f (get_session c other)
  unfolding update_session
  update_session-found c d session_id h other =
      let e : d ≡ record c { sessions = update_where (λ row. row.id == session_id) f c.sessions } =
        ground arith in
      ap (λ x. get_session x other) e
      ∙ first-update_where (λ row. row.id == other) (λ row. row.id == session_id) f
          (λ row. ap (λ i. i == other) (same_id row)) c.sessions

  updated-IsSessionKept :
      ((row : SessionRow) → IsSessionKept row (f row))
      → (p q : SessionRow → Bool) (o : Option SessionRow) (row : SessionRow) → o ≡ some row
      → (later : SessionRow) × (updated p q f o ≡ some later) × IsSessionKept row later
  updated-IsSessionKept keeps p q none row h = cc
  updated-IsSessionKept keeps p q (some x) row h =
      let e : x ≡ row = cc in
      elim (Bool-cases (q x)) [
        | inl changed ↦ (f x, ground arith, subst (λ r. IsSessionKept r (f x)) e (keeps x))
        | inr kept ↦ (x, ground arith, subst (λ r. IsSessionKept r x) e (IsSessionKept-refl x))
      ]

  pub update_session-Keeps :
      ((row : SessionRow) → IsSessionKept row (f row))
      → (c d : ControlPlane) (session_id : Uuid) → update_session f c session_id ≡ ok d
      → Keeps c d
  unfolding update_session
  update_session-Keeps keeps c d session_id h =
      let e : d ≡ record c { sessions = update_where (λ row. row.id == session_id) f c.sessions } =
        ground arith in
      record {
        sessions = λ other row found.
            let (later, at, kept) =
              updated-IsSessionKept keeps (λ x. x.id == other) (λ x. x.id == session_id)
                (get_session c other) row found in
            (later, update_session-found c d session_id h other ∙ at, kept);
        secrets = λ p row found. ap (λ x. first p x.session_secrets) e ∙ found;
        keyed = λ k. subst KeyedGrants (sym e) k;
        grants = λ code_hash row found.
            (row, ap (λ x. get_grant x code_hash) e ∙ found, IsGrantKept-refl row);
      }
