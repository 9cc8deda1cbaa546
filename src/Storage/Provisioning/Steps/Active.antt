-- ===== src/Storage/Provisioning/Steps/Active.antt =====
-- A workspace that is active is left as it is by every step, of whichever walk.
use rheo_stream.Prelude.{
  ◌==◌, is_some, String, Bool, false, List, [], ◌∷◌, Option, none, some, Result, ok, raise, ◌>>=◌,
  >>=-eq-ok, ok_injective, ◌≡◌, refl, ap, sym, ◌∙◌, subst, arith, Bool-cases, inl, inr,
  Result-cases,
}
use rheo_stream.Prelude.Dict.{lookup}
use rheo_stream.Prelude.Int.{ℤ}
use rheo_stream.Contracts.{Uuid, Role}
use rheo_stream.Refusals.{Exn}
use rheo_stream.Storage.Tables.{
  first, ControlPlane, WorkspaceState, provisioning, active, unavailable, WorkspaceRow,
}
use rheo_stream.Storage.ControlPlane.{get_workspace}
use rheo_stream.Storage.ControlPlane.Workspaces.{
  state_in, set_workspace_state, insert_workspace_if_absent, insert_membership_if_absent,
}
use rheo_stream.Storage.ControlPlane.Workspaces.Laws.{
  set_workspace_state-unexpected, insert_workspace_if_absent-grown,
  insert_membership_if_absent-workspaces,
}
use rheo_stream.Storage.Pools.{Served, engine_for, check_database_name}
use rheo_stream.Storage.Repositories.{WorkspaceDatabase}
use rheo_stream.Storage.Routing.{System}
use rheo_stream.Settings.Registry.{specs, explicit_only}
use rheo_stream.Storage.Provisioning.{
  Cluster, Attempt, and_then, in_control, created, ensure_checked, ensure_database, on_engine,
  in_database,
}
use rheo_stream.Storage.Provisioning.Steps.{
  registry_row, done, record_step, after_insert, insert_row, step_insert_registry_row,
  only_provisioning, step_create_database, migrate, step_migrate_core, default_rows,
  step_write_default_settings, step_activate, database_name_for,
}
use rheo_stream.Storage.Provisioning.Walk.{
  ProvisionStep, insert_registry_row, create_database, migrate_core, write_default_settings,
  activate, WalkInput, run_step,
}

module _ (other : Uuid) (row : WorkspaceRow) (is_active : row.state ≡ active) where
  abbrev pub Lists : System WorkspaceDatabase → Type 0
  Lists world = get_workspace world.control other ≡ some row

  and_then-Lists :
      {A B : Type 0} (m : Attempt A) (f : System WorkspaceDatabase → A → Attempt B)
      → Lists m.0
      → ((w : System WorkspaceDatabase) (a : A) → Lists w → Lists (f w a).0)
      → Lists (and_then m f).0
  and_then-Lists (world, raise e) f h next = h
  and_then-Lists (world, ok a) f h next = next world a h

  in_control-Lists :
      {A : Type 0} (world : System WorkspaceDatabase) (r : Result Exn (ControlPlane × A))
      → Lists world
      → ((c : ControlPlane) (a : A) → r ≡ ok (c, a) → get_workspace c other ≡ some row)
      → Lists (in_control world r).0
  in_control-Lists world (raise e) h after = h
  in_control-Lists world (ok (c, a)) h after = after c a refl

  done-ok :
      (r : Result Exn ControlPlane) (c : ControlPlane) (a : Unit {0})
      → done r ≡ ok (c, a)
      → r ≡ ok c
  done-ok (raise e) c a h = cc
  done-ok (ok d) c a h = ap ok (ap (λ p. p.0) (ok_injective h))

  -- A transaction that writes one of the states that a walk expects.
  stating-Lists :
      (now : ℤ) (world : System WorkspaceDatabase) (workspace_id : Uuid) (state : WorkspaceState)
      (detail : Option String) (states : List WorkspaceState)
      → state_in active states ≡ false
      → Lists world
      → Lists
          (in_control world (
            done (set_workspace_state now world.control workspace_id state detail (some states)))).0
  stating-Lists now world workspace_id state detail states outside h =
      let r = set_workspace_state now world.control workspace_id state detail (some states) in
      in_control-Lists world (done r) h (λ c a finished.
        set_workspace_state-unexpected now world.control workspace_id state detail states c
          (done-ok r c a finished) other row h
          (subst (λ s. state_in s states ≡ false) (sym is_active) outside))

  record_step-Lists :
      (now : ℤ) (world : System WorkspaceDatabase) (workspace_id : Uuid) (step : String)
      → Lists world
      → Lists (record_step now world workspace_id step).0
  unfolding record_step
  record_step-Lists now world workspace_id step h =
      stating-Lists now world workspace_id provisioning (some step)
        (provisioning ∷ unavailable ∷ []) refl h

  on_engine-Lists :
      (cluster : Cluster) (world : System WorkspaceDatabase) (name : String)
      (f : String → WorkspaceDatabase → Result Exn WorkspaceDatabase) (r : Result Exn Served)
      → Lists world
      → Lists (on_engine cluster world name f r).0
  unfolding on_engine
  on_engine-Lists cluster world name f (raise e) h = h
  on_engine-Lists cluster world name f (ok served) h = h

  in_database-Lists :
      (cluster : Cluster) (world : System WorkspaceDatabase) (name : String)
      (f : String → WorkspaceDatabase → Result Exn WorkspaceDatabase)
      → Lists world
      → Lists (in_database cluster world name f).0
  unfolding in_database
  in_database-Lists cluster world name f h =
      on_engine-Lists cluster world name f (engine_for world.pool name) h

  created-Lists :
      (world : System WorkspaceDatabase) (name : String) (r : Result Exn WorkspaceDatabase)
      → Lists world
      → Lists (created world name r).0
  unfolding created
  created-Lists world name (raise e) h = h
  created-Lists world name (ok content) h = h

  ensure_checked-Lists :
      (cluster : Cluster) (world : System WorkspaceDatabase) (name template : Result Exn String)
      → Lists world
      → Lists (ensure_checked cluster world name template).0
  unfolding ensure_checked
  ensure_checked-Lists cluster world (raise e) template h = h
  ensure_checked-Lists cluster world (ok name) (raise e) h = h
  ensure_checked-Lists cluster world (ok name) (ok template) h =
      elim (Bool-cases (is_some (lookup name world.databases))) [
        | inl there ↦ rw there h
        | inr missing ↦
            rw missing (created-Lists world name (cluster.create_database name template) h)
      ]

  after_insert-workspaces :
      (now : ℤ) (workspace_id owner : Uuid) (c d : ControlPlane) (at : WorkspaceRow)
      (inserted : Bool) (a : Unit {0})
      → after_insert now workspace_id owner (c, at, inserted) ≡ ok (d, a)
      → d.workspaces ≡ c.workspaces
  unfolding after_insert
  after_insert-workspaces now workspace_id owner c d at inserted a h =
      elim (Result-cases (insert_membership_if_absent now c owner workspace_id Role.owner)) [
        | inl ((e, m), joined) ↦
            let moved =
              insert_membership_if_absent-workspaces now c owner workspace_id Role.owner e m
                joined in
            ground (arith, joined, moved)
        | inr (e, failed) ↦ ground (arith, failed)
      ]

  insert_row-Lists :
      (cluster : Cluster) (now : ℤ) (world : System WorkspaceDatabase) (workspace_id : Uuid)
      (owner : Option Uuid) (slug : Option String)
      → Lists world
      → Lists (insert_row cluster now world workspace_id owner slug).0
  unfolding insert_row
  insert_row-Lists cluster now world workspace_id none none h = h
  insert_row-Lists cluster now world workspace_id none (some slug) h = h
  insert_row-Lists cluster now world workspace_id (some owner) none h = h
  insert_row-Lists cluster now world workspace_id (some owner) (some slug) h =
      let insert =
        insert_workspace_if_absent now world.control workspace_id slug slug
          (database_name_for cluster workspace_id) "insert_registry_row" in
      in_control-Lists world (insert >>= after_insert now workspace_id owner) h (λ c a finished.
        let ((mid, at, inserted), made, last) = >>=-eq-ok insert _ finished in
        ap (first (λ r. r.id == other))
          (after_insert-workspaces now workspace_id owner mid c at inserted a last)
        ∙ insert_workspace_if_absent-grown now world.control workspace_id slug slug
            (database_name_for cluster workspace_id) "insert_registry_row" mid at inserted made
            other row h)

  -- A workspace that is active keeps its row, unchanged, through every step of a walk, of its own or
  -- of another workspace, whether the step returns or raises.
  pub run_step-Lists :
      (cluster : Cluster) (input : WalkInput) (world : System WorkspaceDatabase)
      (step : ProvisionStep)
      → Lists world
      → Lists (run_step cluster input world step).0
  unfolding run_step step_insert_registry_row step_create_database ensure_database step_migrate_core
      step_write_default_settings step_activate
  run_step-Lists cluster input world insert_registry_row h =
      insert_row-Lists cluster (input.now insert_registry_row) world input.workspace_id
        input.owner_account_id input.slug h
  run_step-Lists cluster input world create_database h =
      and_then-Lists (world, registry_row world input.workspace_id) _ h
        (λ w found hw.
          and_then-Lists (ensure_database cluster w found.database_name) _
            (ensure_checked-Lists cluster w (check_database_name found.database_name)
              (check_database_name cluster.template_database) hw)
            (λ v made hv.
              and_then-Lists (v, only_provisioning made (registry_row v input.workspace_id)) _ hv
                (λ u checked hu.
                  record_step-Lists (input.now create_database) u input.workspace_id
                    "create_database" hu)))
  run_step-Lists cluster input world migrate_core h =
      and_then-Lists (world, registry_row world input.workspace_id) _ h
        (λ w found hw.
          and_then-Lists
            (in_database cluster w found.database_name
              (migrate cluster (input.now migrate_core) found.database_name))
            _
            (in_database-Lists cluster w found.database_name
              (migrate cluster (input.now migrate_core) found.database_name) hw)
            (λ v migrated hv.
              record_step-Lists (input.now migrate_core) v input.workspace_id "migrate_core" hv))
  run_step-Lists cluster input world write_default_settings h =
      and_then-Lists (world, registry_row world input.workspace_id) _ h
        (λ w found hw.
          and_then-Lists
            (in_database cluster w found.database_name (λ actual.
              default_rows cluster (input.now write_default_settings)
                (explicit_only (specs cluster.registry))))
            _
            (in_database-Lists cluster w found.database_name
              (λ actual.
                default_rows cluster (input.now write_default_settings)
                  (explicit_only (specs cluster.registry)))
              hw)
            (λ v written hv.
              record_step-Lists (input.now write_default_settings) v input.workspace_id
                "write_default_settings" hv))
  run_step-Lists cluster input world activate h =
      stating-Lists (input.now activate) world input.workspace_id active (some "activate")
        (provisioning ∷ []) refl h
