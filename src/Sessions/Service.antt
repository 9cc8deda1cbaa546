-- ===== src/Sessions/Service.antt =====
-- sessions/service.py. Each function is one transaction on the control plane: what it raises leaves the
-- tables as they are. The clock and what is drawn at random are arguments.
pub mod Laws
use rheo_stream.Prelude.{ℕ, String, List, Option, none, some, Result, ok, raise, ◌>>=◌}
use rheo_stream.Prelude.Int.{ℤ, pos, ◌+ℤ◌, ◌*ℤ◌, min_ℤ}
use rheo_stream.Contracts.{Uuid}
use rheo_stream.Refusals.{Exn, Refusal, session_missing, not_a_member}
use rheo_stream.Settings.Registry.{Registry}
use rheo_stream.Settings.Deployment.{Deployment}
use rheo_stream.Settings.Resolver.{resolve, get_int}
use rheo_stream.Settings.Exceptions.{of_settings}
use rheo_stream.Storage.Tables.{ControlPlane, SessionRow, MembershipRow}
use rheo_stream.Storage.ControlPlane.{get_membership}
use rheo_stream.Storage.ControlPlane.Sessions.{
  get_session, insert_session, touch_session, revoke_session, set_active_workspace,
  insert_session_secret,
}

-- `timedelta(days=1)` in seconds
abbrev pub day : ℤ
day = pos 86400

-- The settings that the process has, and `hashlib.sha256`.
pub record Host : Type 0 where
  pub settings : Registry
  pub deployment : Deployment
  pub sha256 : List ℕ → String

pub record SessionPolicy : Type 0 where
  pub idle_days : ℤ
  pub max_days : ℤ

-- `_session_policy`
unfoldable pub session_policy : Host → Result Exn SessionPolicy
session_policy host = of_settings (do
  values ← resolve host.settings host.deployment none none none
  idle_days ← get_int host.settings values "identity.session_idle_days"
  max_days ← get_int host.settings values "identity.session_max_days"
  ok (record { idle_days = idle_days; max_days = max_days }))

abbrev pub deadline : SessionPolicy → ℤ → ℤ → ℤ
deadline policy now created_at =
    min_ℤ (now +ℤ day *ℤ policy.idle_days) (created_at +ℤ day *ℤ policy.max_days)

-- `_compute_expiry`
unfoldable pub compute_expiry : Host → ℤ → ℤ → Result Exn ℤ
compute_expiry host now created_at = do
  policy ← session_policy host
  ok (deadline policy now created_at)

-- `create_session`
unfoldable pub create_session :
    Host → ℤ → Uuid → ControlPlane → Uuid → Result Exn (ControlPlane × SessionRow)
create_session host now id c account_id = do
  (inserted, row) ← insert_session now id c account_id
  expiry ← compute_expiry host row.created_at row.created_at
  touched ← touch_session inserted row.id row.created_at expiry
  ok (touched, record row { last_seen_at = row.created_at; expires_at = expiry })

-- `mint_host_secret`, with the bytes that it draws
unfoldable pub mint_host_secret :
    Host → ℤ → List ℕ → ControlPlane → Uuid → String → Result Exn ControlPlane
mint_host_secret host now secret c session_id name =
    insert_session_secret now c (host.sha256 secret) session_id name

touch_found : Host → ℤ → ControlPlane → Uuid → Option SessionRow → Result Exn ControlPlane
touch_found host now c session_id none = ok c
touch_found host now c session_id (some row) = do
  expiry ← compute_expiry host now row.created_at
  touch_session c session_id now expiry

-- `touch`
unfoldable pub touch : Host → ℤ → ControlPlane → Uuid → Result Exn ControlPlane
unfolding touch_found
touch host now c session_id = touch_found host now c session_id (get_session c session_id)

-- `revoke`
unfoldable pub revoke : ℤ → ControlPlane → Uuid → Result Exn ControlPlane
revoke now c session_id = revoke_session now c session_id

switch_member :
    ℤ
    → ControlPlane
    → Uuid
    → Uuid
    → Option MembershipRow
    → Result Exn (ControlPlane × Option Refusal)
switch_member now c session_id target none = ok (c, some (record { state = not_a_member }))
switch_member now c session_id target (some membership) = do
  after ← set_active_workspace now c session_id target
  ok (after, none)

switch_found :
    ℤ → ControlPlane → Uuid → Uuid → Option SessionRow → Result Exn (ControlPlane × Option Refusal)
switch_found now c session_id target none = ok (c, some (record { state = session_missing }))
switch_found now c session_id target (some row) =
    switch_member now c session_id target (get_membership c row.account_id target)

-- `switch_workspace`
unfoldable pub switch_workspace :
    ℤ → ControlPlane → Uuid → Uuid → Result Exn (ControlPlane × Option Refusal)
unfolding switch_found switch_member
switch_workspace now c session_id target =
    switch_found now c session_id target (get_session c session_id)
