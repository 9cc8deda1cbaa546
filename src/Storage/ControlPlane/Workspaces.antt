-- ===== src/Storage/ControlPlane/Workspaces.antt =====
-- storage/control_plane.py: the statements over `workspace` and `membership`.
pub mod Laws
use rheo_stream.Prelude.{
  String, Bool, true, false, not, ◌&&◌, ◌||◌, List, [], ◌∷◌, ◌++◌, Option, none, some, Result, ok,
  raise, ◌>>=◌, str_eq, ◌==◌, ltb, if◌then◌else◌, is_some,
}
use rheo_stream.Prelude.Int.{ℤ, ltb_ℤ, leb_ℤ}
use rheo_stream.Contracts.{Uuid, Role, owner, member}
use rheo_stream.Refusals.{
  Exn, storage_refusal, other_error, account_missing, workspace_missing, workspace_state,
  slug_taken,
}
use rheo_stream.Storage.Tables.{
  ControlPlane, WorkspaceState, provisioning, migrating, active, unavailable, restoring,
  WorkspaceRow, MembershipRow, update_where, has_row, integrity_error,
}
use rheo_stream.Storage.ControlPlane.{get_account, get_membership, get_workspace}

abbrev pub same_state : WorkspaceState → WorkspaceState → Bool
same_state provisioning provisioning = true
same_state migrating migrating = true
same_state active active = true
same_state unavailable unavailable = true
same_state restoring restoring = true
same_state _ _ = false

-- `state in states`
abbrev pub state_in : WorkspaceState → List WorkspaceState → Bool
state_in state [] = false
state_in state (s ∷ states) = same_state state s || state_in state states

abbrev pub fresh_workspace : ℤ → Uuid → String → String → String → String → WorkspaceRow
fresh_workspace now workspace_id slug display_name database_name state_detail = record {
  id = workspace_id;
  slug = slug;
  display_name = display_name;
  database_name = database_name;
  state = provisioning;
  created_at = now;
  state_changed_at = now;
  state_detail = some state_detail;
}

-- `INSERT … ON CONFLICT (id) DO NOTHING`, and whether it has inserted. The other unique columns are
-- checked where the id is new.
insert_on_id : ControlPlane → WorkspaceRow → Result Exn (ControlPlane × Bool)
insert_on_id c row =
    if is_some (get_workspace c row.id)
    then ok (c, false)
    else if has_row (λ r. str_eq r.slug row.slug) c.workspaces
    then raise (storage_refusal slug_taken)
    else if has_row (λ r. str_eq r.database_name row.database_name) c.workspaces
    then raise integrity_error
    else ok (record c { workspaces = c.workspaces ++ row ∷ [] }, true)

present : {A : Type 0} → Option A → Result Exn A
present none = raise (storage_refusal workspace_missing)
present (some row) = ok row

-- `insert_workspace_if_absent`
unfoldable pub insert_workspace_if_absent :
    ℤ
    → ControlPlane
    → Uuid
    → String
    → String
    → String
    → String
    → Result Exn (ControlPlane × WorkspaceRow × Bool)
unfolding insert_on_id present
insert_workspace_if_absent now c workspace_id slug display_name database_name state_detail = do
  (after, inserted) ←
      insert_on_id c (fresh_workspace now workspace_id slug display_name database_name state_detail)
  row ← present (get_workspace after workspace_id)
  ok (after, row, inserted)

-- Whether `x` stands before `y`, by a first key and then by a second one.
abbrev older : ℤ → Uuid → ℤ → Uuid → Bool
older created_x id_x created_y id_y =
    ltb_ℤ created_x created_y || (leb_ℤ created_x created_y && ltb id_x id_y)

insert_by : {A : Type 0} → (A → A → Bool) → A → List A → List A
insert_by before x [] = x ∷ []
insert_by before x (y ∷ ys) =
    let rest = insert_by before x ys in if before y x then y ∷ rest else x ∷ y ∷ ys

-- `ORDER BY`
order_by : {A : Type 0} → (A → A → Bool) → List A → List A
order_by before [] = []
order_by before (x ∷ xs) = insert_by before x (order_by before xs)

select_where : {A : Type 0} → (A → Bool) → List A → List A
select_where p [] = []
select_where p (x ∷ xs) = let rest = select_where p xs in if p x then x ∷ rest else rest

in_state : Option WorkspaceState → WorkspaceRow → Bool
in_state none row = true
in_state (some state) row = same_state row.state state

-- `list_workspaces`
unfoldable pub list_workspaces : ControlPlane → Option WorkspaceState → List WorkspaceRow
unfolding insert_by order_by select_where in_state
list_workspaces c state =
    order_by (λ x y. older x.created_at x.id y.created_at y.id)
      (select_where (in_state state) c.workspaces)

-- The condition of the `UPDATE`: the id, and with `expected_states` the state also.
abbrev pub expected : Uuid → Option (List WorkspaceState) → WorkspaceRow → Bool
expected workspace_id none row = row.id == workspace_id
expected workspace_id (some states) row = row.id == workspace_id && state_in row.state states

abbrev pub in_new_state : ℤ → WorkspaceState → Option String → WorkspaceRow → WorkspaceRow
in_new_state now state state_detail row = record row {
  state = state;
  state_detail = state_detail;
  state_changed_at = now;
}

-- `set_workspace_state`
unfoldable pub set_workspace_state :
    ℤ
    → ControlPlane
    → Uuid
    → WorkspaceState
    → Option String
    → Option (List WorkspaceState)
    → Result Exn ControlPlane
set_workspace_state now c workspace_id state state_detail expected_states =
    if has_row (expected workspace_id expected_states) c.workspaces
    then ok (record c {
      workspaces =
          update_where (expected workspace_id expected_states) (in_new_state now state state_detail)
            c.workspaces;
    })
    else if is_some (get_workspace c workspace_id)
    then raise (storage_refusal workspace_state)
    else raise (storage_refusal workspace_missing)

-- `Role(role).value in MEMBERSHIP_ROLES`
abbrev membership_role : Role → Bool
membership_role owner = true
membership_role member = true
membership_role _ = false

insert_on_pair : ControlPlane → MembershipRow → Result Exn ControlPlane
insert_on_pair c row =
    if is_some (get_membership c row.account_id row.workspace_id)
    then ok c
    else if not (is_some (get_account c row.account_id))
    then raise (storage_refusal account_missing)
    else if not (is_some (get_workspace c row.workspace_id))
    then raise (storage_refusal workspace_missing)
    else ok (record c { memberships = c.memberships ++ row ∷ [] })

-- `insert_membership_if_absent`
unfoldable pub insert_membership_if_absent :
    ℤ → ControlPlane → Uuid → Uuid → Role → Result Exn (ControlPlane × MembershipRow)
unfolding insert_on_pair present
insert_membership_if_absent now c account_id workspace_id role =
    if not (membership_role role) then raise (other_error "ValueError" "") else do
      after ← insert_on_pair c (record {
        account_id = account_id;
        workspace_id = workspace_id;
        role = role;
        created_at = now;
      })
      row ← present (get_membership after account_id workspace_id)
      ok (after, row)

-- `list_memberships`
unfoldable pub list_memberships : ControlPlane → Uuid → List MembershipRow
unfolding insert_by order_by select_where
list_memberships c account_id =
    order_by (λ x y. older x.created_at x.workspace_id y.created_at y.workspace_id)
      (select_where (λ row. row.account_id == account_id) c.memberships)
