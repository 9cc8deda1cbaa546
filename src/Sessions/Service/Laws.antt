-- ===== src/Sessions/Service/Laws.antt =====
-- What the calls on sessions keep, and the steps of `create_session`.
use rheo_stream.Prelude.{
  refl, Option, none, some, ok, >>=-eq-ok, ok_injective, ◌≡◌, ap, subst, arith,
}
use rheo_stream.Prelude.Int.{ℤ}
use rheo_stream.Contracts.{Uuid}
use rheo_stream.Refusals.{Refusal}
use rheo_stream.Storage.Tables.{ControlPlane, SessionRow, MembershipRow}
use rheo_stream.Storage.ControlPlane.{get_membership}
use rheo_stream.Storage.ControlPlane.Sessions.{
  get_session, insert_session, touch_session, set_active_workspace,
}
use rheo_stream.Storage.ControlPlane.Sessions.Laws.{Keeps, Keeps-refl}
use rheo_stream.Storage.ControlPlane.Sessions.Statements.{
  touch_session-Keeps, set_active_workspace-Keeps,
}
use rheo_stream.Sessions.Service.{
  Host, compute_expiry, create_session, touch, touch_found, switch_workspace, switch_found,
  switch_member,
}

module _ (host : Host) (c : ControlPlane) where
  pub create_session-steps :
      (now : ℤ) (id account_id : Uuid) (d : ControlPlane) (row : SessionRow)
      → create_session host now id c account_id ≡ ok (d, row)
      → (mid : ControlPlane) × (drawn : SessionRow) × (expiry : ℤ) × (insert_session now id c
            account_id
          ≡ ok (mid, drawn))
        × (compute_expiry host drawn.created_at drawn.created_at ≡ ok expiry)
        × (touch_session mid drawn.id drawn.created_at expiry ≡ ok d)
  unfolding create_session
  create_session-steps now id account_id d row h =
      let ((mid, drawn), inserted, rest) = >>=-eq-ok (insert_session now id c account_id) _ h in
      let (expiry, computed, rest2) =
        >>=-eq-ok (compute_expiry host drawn.created_at drawn.created_at) _ rest in
      let (touched, done, last) =
        >>=-eq-ok (touch_session mid drawn.id drawn.created_at expiry) _ rest2 in
      (mid, drawn, expiry, inserted, computed, ground arith)

  -- `touch` either finds no session and leaves the tables, or moves the session's deadline.
  module _ (P : ControlPlane → Type 0) where
    touch_found-steps :
        (now : ℤ) (session_id : Uuid) (o : Option SessionRow) (d : ControlPlane)
        → touch_found host now c session_id o ≡ ok d
        → P c
        → ((row : SessionRow) (expiry : ℤ)
            → o ≡ some row
            → compute_expiry host now row.created_at ≡ ok expiry
            → touch_session c session_id now expiry ≡ ok d
            → P d)
        → P d
    unfolding touch_found
    touch_found-steps now session_id none d h p moves = subst P (ok_injective h) p
    touch_found-steps now session_id (some row) d h p moves =
        let (expiry, computed, rest) = >>=-eq-ok (compute_expiry host now row.created_at) _ h in
        moves row expiry refl computed rest

    pub touch-steps :
        (now : ℤ) (session_id : Uuid) (d : ControlPlane)
        → touch host now c session_id ≡ ok d
        → P c
        → ((row : SessionRow) (expiry : ℤ)
            → get_session c session_id ≡ some row
            → compute_expiry host now row.created_at ≡ ok expiry
            → touch_session c session_id now expiry ≡ ok d
            → P d)
        → P d
    unfolding touch
    touch-steps now session_id d h = touch_found-steps now session_id (get_session c session_id) d h

module _ (c : ControlPlane) (P : ControlPlane → Type 0) where
  switch_member-steps :
      (now : ℤ) (session_id target : Uuid) (o : Option MembershipRow) (d : ControlPlane)
      (refusal : Option Refusal)
      → switch_member now c session_id target o ≡ ok (d, refusal)
      → P c
      → (set_active_workspace now c session_id target ≡ ok d → P d)
      → P d
  unfolding switch_member
  switch_member-steps now session_id target none d refusal h p moves =
      subst P (ap (λ x. x.0) (ok_injective h)) p
  switch_member-steps now session_id target (some m) d refusal h p moves =
      let (after, moved, last) = >>=-eq-ok (set_active_workspace now c session_id target) _ h in
      let e : after ≡ d = ap (λ x. x.0) (ok_injective last) in
      moves (subst (λ x. set_active_workspace now c session_id target ≡ ok x) e moved)

  switch_found-steps :
      (now : ℤ) (session_id target : Uuid) (o : Option SessionRow) (d : ControlPlane)
      (refusal : Option Refusal)
      → switch_found now c session_id target o ≡ ok (d, refusal)
      → P c
      → (set_active_workspace now c session_id target ≡ ok d → P d)
      → P d
  unfolding switch_found
  switch_found-steps now session_id target none d refusal h p moves =
      subst P (ap (λ x. x.0) (ok_injective h)) p
  switch_found-steps now session_id target (some row) d refusal h p moves =
      switch_member-steps now session_id target (get_membership c row.account_id target) d refusal h
        p moves

  -- `switch_workspace` either refuses and leaves the tables, or moves the session.
  pub switch_workspace-steps :
      (now : ℤ) (session_id target : Uuid) (d : ControlPlane) (refusal : Option Refusal)
      → switch_workspace now c session_id target ≡ ok (d, refusal)
      → P c
      → (set_active_workspace now c session_id target ≡ ok d → P d)
      → P d
  unfolding switch_workspace
  switch_workspace-steps now session_id target d refusal h =
      switch_found-steps now session_id target (get_session c session_id) d refusal h

pub touch-Keeps :
    (host : Host) (c : ControlPlane) (now : ℤ) (session_id : Uuid) (d : ControlPlane)
    → touch host now c session_id ≡ ok d
    → Keeps c d
touch-Keeps host c now session_id d h =
    touch-steps host c (Keeps c) now session_id d h (Keeps-refl c)
      (λ row expiry found computed touched. touch_session-Keeps c session_id now expiry d touched)

pub switch_workspace-Keeps :
    (c : ControlPlane) (now : ℤ) (session_id target : Uuid) (d : ControlPlane)
    (refusal : Option Refusal)
    → switch_workspace now c session_id target ≡ ok (d, refusal)
    → Keeps c d
switch_workspace-Keeps c now session_id target d refusal h =
    switch_workspace-steps c (Keeps c) now session_id target d refusal h (Keeps-refl c)
      (set_active_workspace-Keeps now c session_id target d)
