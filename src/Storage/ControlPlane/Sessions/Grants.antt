-- ===== src/Storage/ControlPlane/Sessions/Grants.antt =====
-- `consume_session_grant`: which grant it takes, and what it then leaves.
use rheo_stream.Prelude.{
  String, Bool, true, false, [], ◌∷◌, ◌++◌, Option, none, some, ok, is_some, str_eq, str_eq_iff,
  str_eq_refl, ◌≡◌, refl, ap, sym, ◌∙◌, arith, Bool-cases, if◌then◌else◌, inl, inr,
}
use rheo_stream.Prelude.Int.{ℤ, ltb_ℤ}
use rheo_stream.Contracts.{Uuid}
use rheo_stream.Storage.Tables.{ControlPlane, SessionGrantRow, first, update_where}
use rheo_stream.Storage.Tables.Laws.{
  none_of, first-holds, first-new, first-none, updated, first-update_where, update_where-none,
  Keyed-only,
}
use rheo_stream.Storage.ControlPlane.Sessions.{
  get_grant, insert_session_grant, consume_session_grant, consumable, used, used_row,
}
use rheo_stream.Storage.ControlPlane.Sessions.Laws.{KeyedGrants}

-- What a grant must be for `consume_session_grant` to take it.
pub record IsConsumable (now : ℤ) (code_hash target_host nonce_hash : String)
    (row : SessionGrantRow) : Type 0 where
  pub code : row.code_hash ≡ code_hash
  pub unused : is_some row.used_at ≡ false
  pub unexpired : ltb_ℤ now row.expires_at ≡ true
  pub host : row.target_host ≡ target_host
  pub nonce : row.nonce_hash ≡ nonce_hash

module _ (now : ℤ) (code_hash target_host nonce_hash : String) where
  abbrev wanted : SessionGrantRow → Bool
  wanted = consumable now code_hash target_host nonce_hash

  wanted-IsConsumable :
      (row : SessionGrantRow)
      → wanted row ≡ true
      → IsConsumable now code_hash target_host nonce_hash row
  wanted-IsConsumable row h = record {
    code = (str_eq_iff row.code_hash code_hash).0 (ground arith);
    unused = ground arith;
    unexpired = ground arith;
    host = (str_eq_iff row.target_host target_host).0 (ground arith);
    nonce = (str_eq_iff row.nonce_hash nonce_hash).0 (ground arith);
  }

  wanted-code : (row : SessionGrantRow) → wanted row ≡ true → str_eq row.code_hash code_hash ≡ true
  wanted-code row h = ground arith

  used_row-some :
      (at : ℤ) (o : Option SessionGrantRow) (row : SessionGrantRow)
      → used_row at o ≡ some row
      → (before : SessionGrantRow) × (o ≡ some before) × (row ≡ used at before)
  unfolding used_row
  used_row-some at none row h = cc
  used_row-some at (some before) row h = (before, refl, cc)

  -- Where the key finds no row that passes, the statement changes nothing.
  missed :
      (at : ℤ) (c : ControlPlane)
      → first wanted c.session_grants ≡ none
      → consume_session_grant now at c code_hash target_host nonce_hash ≡ (c, none)
  unfolding consume_session_grant used_row
  missed at c h =
      ap (λ rows. (record c { session_grants = rows }, used_row at (first wanted c.session_grants)))
        (update_where-none wanted (used at) c.session_grants h)
      ∙ ap (λ o. (c, used_row at o)) h

  pub consume_session_grant-spent :
      (at : ℤ) (c : ControlPlane) (row : SessionGrantRow)
      → KeyedGrants c
      → get_grant c code_hash ≡ some row
      → is_some row.used_at ≡ true
      → consume_session_grant now at c code_hash target_host nonce_hash ≡ (c, none)
  consume_session_grant-spent at c row keyed found spent = missed at c (
      Keyed-only (λ r. r.code_hash) wanted code_hash wanted-code c.session_grants row keyed found
        (ground arith))

  pub consume_session_grant-IsConsumable :
      (at : ℤ) (c d : ControlPlane) (row : SessionGrantRow)
      → consume_session_grant now at c code_hash target_host nonce_hash ≡ (d, some row)
      → (before : SessionGrantRow) × (row ≡ used at before)
        × (first wanted c.session_grants ≡ some before)
        × IsConsumable now code_hash target_host nonce_hash before
  unfolding consume_session_grant
  consume_session_grant-IsConsumable at c d row h =
      let (before, found, e) =
        used_row-some at (first wanted c.session_grants) row (ap (λ p. p.1) h) in
      (
        before,
        e,
        found,
        wanted-IsConsumable before (first-holds wanted c.session_grants before found),
      )

  taken :
      (at : ℤ) (c : ControlPlane) (before : SessionGrantRow) (o : Option SessionGrantRow)
      → KeyedGrants c
      → get_grant c code_hash ≡ o
      → first wanted c.session_grants ≡ some before
      → (found : SessionGrantRow) × (o ≡ some found) × (wanted found ≡ true)
  taken at c before none keyed e h =
      let no : first wanted c.session_grants ≡ none =
        first-none (λ r. str_eq r.code_hash code_hash) wanted wanted-code c.session_grants e in
      cc
  taken at c before (some found) keyed e h = elim (Bool-cases (wanted found)) [
    | inl passes ↦ (found, refl, passes)
    | inr fails ↦
        let missing : first wanted c.session_grants ≡ none =
          Keyed-only (λ r. r.code_hash) wanted code_hash wanted-code c.session_grants found keyed e
            fails in
        cc
  ]

  -- The grant that has been taken is now the used one with this code.
  pub consume_session_grant-used :
      (at : ℤ) (c d : ControlPlane) (row : SessionGrantRow)
      → KeyedGrants c
      → consume_session_grant now at c code_hash target_host nonce_hash ≡ (d, some row)
      → (later : SessionGrantRow) × (get_grant d code_hash ≡ some later)
        × (is_some later.used_at ≡ true)
  unfolding consume_session_grant
  consume_session_grant-used at c d row keyed h =
      let (before, e, found, consumable) = consume_session_grant-IsConsumable at c d row h in
      let (grant, at_key, passes) = taken at c before (get_grant c code_hash) keyed refl found in
      let after : d ≡ record c { session_grants = update_where wanted (used at) c.session_grants } =
        sym (ap (λ p. p.0) h) in
      let key : SessionGrantRow → Bool = λ r. str_eq r.code_hash code_hash in
      (
        used at grant,
        ap (λ x. get_grant x code_hash) after
            ∙ first-update_where key wanted (used at) (λ x. refl) c.session_grants
            ∙ ap (updated key wanted (used at)) at_key
            ∙ ap (λ b. some (if b then used at grant else grant)) passes,
        refl,
      )

  -- A grant that has just been written is the one that its code, host and nonce then take.
  pub insert_session_grant-consume :
      (at : ℤ) (c d : ControlPlane) (session_id : Uuid) (expires_at : ℤ)
      → insert_session_grant c code_hash session_id target_host nonce_hash expires_at ≡ ok d
      → ltb_ℤ now expires_at ≡ true
      → (e : ControlPlane) × (row : SessionGrantRow) × (consume_session_grant now at d code_hash
            target_host nonce_hash
          ≡ (e, some row))
        × (row.session_id ≡ session_id)
  unfolding insert_session_grant consume_session_grant used_row
  insert_session_grant-consume at c d session_id expires_at h early =
      let row : SessionGrantRow = record {
        code_hash = code_hash;
        session_id = session_id;
        target_host = target_host;
        nonce_hash = nonce_hash;
        expires_at = expires_at;
        used_at = none;
      } in
      let grown : d ≡ record c { session_grants = c.session_grants ++ row ∷ [] } = ground arith in
      let new : get_grant c code_hash ≡ none = none_of (get_grant c code_hash) (ground arith) in
      let passes : wanted row ≡ true =
        ground (arith, str_eq_refl code_hash, str_eq_refl target_host, str_eq_refl nonce_hash) in
      let found : first wanted (c.session_grants ++ row ∷ []) ≡ some row =
        first-new wanted c.session_grants row
          (first-none (λ r. str_eq r.code_hash code_hash) wanted wanted-code c.session_grants new)
        ∙ ap (λ b. if b then some row else none) passes in
      (
        record d { session_grants = update_where wanted (used at) d.session_grants },
        used at row,
        ap
            (λ o. (
              record d { session_grants = update_where wanted (used at) d.session_grants },
              used_row at o,
            ))
            (ap (λ x. first wanted x.session_grants) grown ∙ found),
        refl,
      )
