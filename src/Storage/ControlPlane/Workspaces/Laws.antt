-- ===== src/Storage/ControlPlane/Workspaces/Laws.antt =====
-- What the statements on workspaces leave as it is, and what they write.
use rheo_stream.Prelude.{
  String, Bool, true, false, List, [], ◌∷◌, ◌++◌, Option, none, some, ok, >>=-eq-ok, ok_injective,
  is_some, ◌==◌, ◌≡◌, refl, ap, sym, ◌∙◌, subst, arith, Bool-cases, if◌then◌else◌, inl, inr,
}
use rheo_stream.Prelude.Int.{ℤ}
use rheo_stream.Contracts.{Uuid, Role}
use rheo_stream.Storage.Tables.{
  ControlPlane, WorkspaceState, WorkspaceRow, MembershipRow, first, update_where,
}
use rheo_stream.Storage.Tables.Laws.{
  first-passes, first-holds, first-grown, updated, first-update_where,
}
use rheo_stream.Storage.ControlPlane.{get_workspace}
use rheo_stream.Storage.ControlPlane.Workspaces.{
  state_in, expected, in_new_state, insert_on_id, present, insert_on_pair, fresh_workspace,
  insert_workspace_if_absent, set_workspace_state, insert_membership_if_absent,
}

module _ (now : ℤ) (c : ControlPlane) (workspace_id : Uuid) (state : WorkspaceState)
    (state_detail : Option String) (states : List WorkspaceState) (d : ControlPlane)
    (h : set_workspace_state now c workspace_id state state_detail (some states) ≡ ok d) where
  set_workspace_state-found :
      (other : Uuid)
      → get_workspace d other
        ≡ updated
            (λ r. r.id == other)
            (expected workspace_id (some states))
            (in_new_state now state state_detail)
            (get_workspace c other)
  unfolding set_workspace_state
  set_workspace_state-found other =
      let e : d ≡ record c {
        workspaces =
            update_where (expected workspace_id (some states)) (in_new_state now state state_detail)
              c.workspaces;
      } =
        ground arith in
      ap (λ x. get_workspace x other) e
      ∙ first-update_where (λ r. r.id == other) (expected workspace_id (some states))
          (in_new_state now state state_detail) (λ r. refl) c.workspaces

  updated-unexpected :
      (other : Uuid) (o : Option WorkspaceRow) (row : WorkspaceRow)
      → o ≡ some row
      → state_in row.state states ≡ false
      → updated
          (λ r. r.id == other)
          (expected workspace_id (some states))
          (in_new_state now state state_detail)
          o
        ≡ some row
  updated-unexpected other none row found outside = cc
  updated-unexpected other (some x) row found outside =
      let e : x ≡ row = cc found in
      let out : state_in x.state states ≡ false =
        subst (λ r. state_in r.state states ≡ false) (sym e) outside in
      ground (arith, out, e)

  -- A row outside the expected states is not written, whichever it is.
  pub set_workspace_state-unexpected :
      (other : Uuid) (row : WorkspaceRow)
      → get_workspace c other ≡ some row
      → state_in row.state states ≡ false
      → get_workspace d other ≡ some row
  set_workspace_state-unexpected other row found outside =
      set_workspace_state-found other
      ∙ updated-unexpected other (get_workspace c other) row found outside

-- A row that is in an expected state is written.
pub set_workspace_state-expected :
    (now : ℤ) (c : ControlPlane) (workspace_id : Uuid) (state : WorkspaceState)
    (state_detail : Option String) (states : List WorkspaceState) (row : WorkspaceRow)
    → get_workspace c workspace_id ≡ some row
    → state_in row.state states ≡ true
    → (d : ControlPlane) × (set_workspace_state now c workspace_id state state_detail (some states)
        ≡ ok d)
      × (get_workspace d workspace_id ≡ some (in_new_state now state state_detail row))
unfolding set_workspace_state
set_workspace_state-expected now c workspace_id state state_detail states row found inside =
    let test = expected workspace_id (some states) in
    let same_id : (row.id == workspace_id) ≡ true =
      first-holds (λ r. r.id == workspace_id) c.workspaces row found in
    let passes : test row ≡ true = ground arith in
    let after : ControlPlane = record c {
      workspaces = update_where test (in_new_state now state state_detail) c.workspaces;
    } in
    let there : is_some (first test c.workspaces) ≡ true =
      first-passes (λ r. r.id == workspace_id) test c.workspaces row found passes in
    (
      after,
      ground (arith, there),
      first-update_where (λ r. r.id == workspace_id) test (in_new_state now state state_detail)
            (λ r. refl) c.workspaces
          ∙ ap (updated (λ r. r.id == workspace_id) test (in_new_state now state state_detail))
              found
          ∙ ap (λ b. some (if b then in_new_state now state state_detail row else row)) passes,
    )

pub insert_workspace_if_absent-grown :
    (now : ℤ) (c : ControlPlane) (workspace_id : Uuid) (slug display_name database_name : String)
    (detail : String) (d : ControlPlane) (at : WorkspaceRow) (inserted : Bool)
    → insert_workspace_if_absent now c workspace_id slug display_name database_name detail
      ≡ ok (d, at, inserted)
    → (other : Uuid) (row : WorkspaceRow) → get_workspace c other ≡ some row
    → get_workspace d other ≡ some row
unfolding insert_workspace_if_absent insert_on_id
insert_workspace_if_absent-grown now c workspace_id slug display_name database_name detail d at
      inserted h other row found =
    let fresh = fresh_workspace now workspace_id slug display_name database_name detail in
    let ((mid, is_new), made, rest) = >>=-eq-ok (insert_on_id c fresh) _ h in
    let (there, looked, last) = >>=-eq-ok (present (get_workspace mid workspace_id)) _ rest in
    let same : mid ≡ d = ap (λ p. p.0) (ok_injective last) in
    subst (λ x. get_workspace x other ≡ some row) same
      (elim (Bool-cases (is_some (get_workspace c workspace_id))) [
        | inl known ↦
            let kept : c ≡ mid = ground arith in
            subst (λ x. get_workspace x other ≡ some row) kept found
        | inr new ↦
            let grown : record c { workspaces = c.workspaces ++ fresh ∷ [] } ≡ mid = ground arith in
            subst (λ x. get_workspace x other ≡ some row) grown
              (first-grown (λ r. r.id == other) c.workspaces (fresh ∷ []) row found)
      ])

pub insert_membership_if_absent-workspaces :
    (now : ℤ) (c : ControlPlane) (account_id workspace_id : Uuid) (role : Role) (d : ControlPlane)
    (at : MembershipRow)
    → insert_membership_if_absent now c account_id workspace_id role ≡ ok (d, at)
    → d.workspaces ≡ c.workspaces
unfolding insert_membership_if_absent insert_on_pair
insert_membership_if_absent-workspaces now c account_id workspace_id role d at h = ground arith
