-- ===== src/Sessions/Grants/Laws.antt =====
-- What the calls on grants keep.
use rheo_stream.Prelude.{
  raise, true, ◌>>=◌, ℕ, String, List, Option, none, some, Result, ok, >>=-eq-ok, ok_injective, ◌≡◌,
  ◌∙◌, refl, ap, sym, subst,
}
use rheo_stream.Prelude.Int.{ℤ, ltb_ℤ, ◌+ℤ◌}
use rheo_stream.Contracts.{Uuid}
use rheo_stream.Refusals.{Refusal, invalid_grant}
use rheo_stream.Storage.ControlPlane.Sessions.Grants.{
  IsConsumable, consume_session_grant-IsConsumable, insert_session_grant-consume,
}
use rheo_stream.Storage.Tables.{first, ControlPlane, SessionGrantRow}
use rheo_stream.Storage.ControlPlane.Sessions.{consume_session_grant, consumable}
use rheo_stream.Storage.ControlPlane.Sessions.Laws.{Keeps}
use rheo_stream.Storage.ControlPlane.Sessions.Statements.{consume_session_grant-Keeps}
use rheo_stream.Sessions.Service.{Host}
use rheo_stream.Sessions.Grants.{
  encode_ascii, write_grant, grant_expiry_seconds, consume_grant, or_invalid,
}

module _ (host : Host) (c : ControlPlane) where
  or_invalid-0 : (p : ControlPlane × Option SessionGrantRow) → (or_invalid p).0 ≡ p.0
  or_invalid-0 (d, none) = refl
  or_invalid-0 (d, some row) = refl

  pub consume_grant-Keeps :
      (now at : ℤ) (presented name : String) (nonce : List ℕ) (d : ControlPlane)
      (result : Result Refusal SessionGrantRow)
      → consume_grant host now at c presented name nonce ≡ ok (d, result)
      → Keeps c d
  unfolding consume_grant
  consume_grant-Keeps now at presented name nonce d result h =
      let (bytes, encoded, last) = >>=-eq-ok (encode_ascii presented) _ h in
      let all = consume_session_grant now at c (host.sha256 bytes) name (host.sha256 nonce) in
      subst (Keeps c) (sym (or_invalid-0 all) ∙ ap (λ p. p.0) (ok_injective last))
        (consume_session_grant-Keeps now at c (host.sha256 bytes) name (host.sha256 nonce))

-- The grant that a call has taken: it was stored under the hash of the code, unused, not expired, for
-- this host and this nonce.
pub record IsTaken (host : Host) (now : ℤ) (c : ControlPlane) (presented name : String)
    (nonce : List ℕ) (row : SessionGrantRow) : Type 0 where
  pub bytes : List ℕ
  pub encoded : encode_ascii presented ≡ ok bytes
  pub before : SessionGrantRow
  pub stored :
      first (consumable now (host.sha256 bytes) name (host.sha256 nonce)) c.session_grants
      ≡ some before
  pub valid : IsConsumable now (host.sha256 bytes) name (host.sha256 nonce) before
  pub session_id : row.session_id ≡ before.session_id

module _ (host : Host) where
  or_invalid-ok :
      (p : ControlPlane × Option SessionGrantRow) (d : ControlPlane) (row : SessionGrantRow)
      → or_invalid p ≡ (d, ok row)
      → p ≡ (d, some row)
  or_invalid-ok (c, none) d row h = cc (ap (λ p. p.1) h)
  or_invalid-ok (c, some taken) d row h =
      ap (λ x. (x, some taken)) (ap (λ p. p.0) h)
      ∙ ap (λ r. (d, some r)) (ok_injective (ap (λ p. p.1) h))

  pub consume_grant-steps :
      (now at : ℤ) (c : ControlPlane) (presented name : String) (nonce : List ℕ) (d : ControlPlane)
      (row : SessionGrantRow)
      → consume_grant host now at c presented name nonce ≡ ok (d, ok row)
      → (bytes : List ℕ) × (encode_ascii presented ≡ ok bytes)
        × (consume_session_grant now at c (host.sha256 bytes) name (host.sha256 nonce)
            ≡ (d, some row))
  unfolding consume_grant
  consume_grant-steps now at c presented name nonce d row h =
      let (bytes, encoded, last) = >>=-eq-ok (encode_ascii presented) _ h in
      (
        bytes,
        encoded,
        or_invalid-ok (consume_session_grant now at c (host.sha256 bytes) name (host.sha256 nonce))
            d row (ok_injective last),
      )

  -- Where `consume_grant` returns a grant, the control plane held a grant under the hash of the
  -- code that was not used, not expired, and written for this host and this nonce; the grant that
  -- is returned is for the same session.
  pub consume_grant-IsTaken :
      (now at : ℤ) (c : ControlPlane) (presented name : String) (nonce : List ℕ) (d : ControlPlane)
      (row : SessionGrantRow)
      → consume_grant host now at c presented name nonce ≡ ok (d, ok row)
      → IsTaken host now c presented name nonce row
  consume_grant-IsTaken now at c presented name nonce d row h =
      let (bytes, encoded, consumed) = consume_grant-steps now at c presented name nonce d row h in
      let (before, e, found, valid) =
        consume_session_grant-IsConsumable now (host.sha256 bytes) name (host.sha256 nonce) at c d
          row consumed in
      record {
        bytes = bytes;
        encoded = encoded;
        before = before;
        stored = found;
        valid = valid;
        session_id = ap (λ r. r.session_id) e;
      }

  -- A grant that `write_grant` has written is taken by its code, on its host and with its nonce, at
  -- any time before its sixty seconds are over, and it is for the session that it was written for.
  pub write_grant-consume_grant :
      (now later at : ℤ) (drawn : String) (c : ControlPlane) (session_id : Uuid) (name : String)
      (nonce : List ℕ) (d : ControlPlane)
      → write_grant host now drawn c session_id name nonce ≡ ok d
      → ltb_ℤ later (now +ℤ grant_expiry_seconds) ≡ true
      → (e : ControlPlane) × (row : SessionGrantRow) × (consume_grant host later at d drawn name
            nonce
          ≡ ok (e, ok row))
        × (row.session_id ≡ session_id)
  unfolding write_grant consume_grant
  write_grant-consume_grant now later at drawn c session_id name nonce d h early =
      let (bytes, encoded, inserted) = >>=-eq-ok (encode_ascii drawn) _ h in
      let (e, row, consumed, same) =
        insert_session_grant-consume later (host.sha256 bytes) name (host.sha256 nonce) at c d
          session_id (now +ℤ grant_expiry_seconds) inserted early in
      (
        e,
        row,
        ap
              (λ r. r >>= (λ b. ok (
                or_invalid
                  (consume_session_grant later at d (host.sha256 b) name (host.sha256 nonce)))))
              encoded
            ∙ ap (λ p. ok (or_invalid p)) consumed,
        same,
      )

  pub consume_grant-refused :
      (now at : ℤ) (c : ControlPlane) (presented name : String) (nonce bytes : List ℕ)
      → encode_ascii presented ≡ ok bytes
      → consume_session_grant now at c (host.sha256 bytes) name (host.sha256 nonce) ≡ (c, none)
      → consume_grant host now at c presented name nonce
        ≡ ok (c, raise (record { state = invalid_grant }))
  unfolding consume_grant
  consume_grant-refused now at c presented name nonce bytes encoded missed =
      ap
        (λ r. r >>= (λ b.
          ok
            (or_invalid (consume_session_grant now at c (host.sha256 b) name (host.sha256 nonce)))))
        encoded
      ∙ ap (λ p. ok (or_invalid p)) missed

pub consume_grant-sessions :
    (host : Host) (now at : ℤ) (c : ControlPlane) (presented name : String) (nonce : List ℕ)
    (d : ControlPlane) (result : Result Refusal SessionGrantRow)
    → consume_grant host now at c presented name nonce ≡ ok (d, result)
    → d.sessions ≡ c.sessions
unfolding consume_grant consume_session_grant
consume_grant-sessions host now at c presented name nonce d result h =
    let (bytes, encoded, last) = >>=-eq-ok (encode_ascii presented) _ h in
    let all = consume_session_grant now at c (host.sha256 bytes) name (host.sha256 nonce) in
    ap (λ x. x.sessions) (sym (sym (or_invalid-0 host c all) ∙ ap (λ p. p.0) (ok_injective last)))
