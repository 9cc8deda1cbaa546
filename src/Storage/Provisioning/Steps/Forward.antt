-- ===== src/Storage/Provisioning/Steps/Forward.antt =====
-- On a cluster that cooperates, each step succeeds from where the one before has left the workspace.
use rheo_stream.Prelude.{
  String, Bool, true, false, List, [], ◌∷◌, none, some, Result, ok, ◌>>=◌, ◌≡◌, refl, ap, sym, ◌∙◌,
  subst, arith,
}
use rheo_stream.Prelude.Dict.{lookup, insert, lookup-insert_self}
use rheo_stream.Prelude.Text.{is_database_name}
use rheo_stream.Prelude.Int.{ℤ}
use rheo_stream.Contracts.{Uuid}
use rheo_stream.Refusals.{Exn}
use rheo_stream.Settings.Spec.{KeySpec}
use rheo_stream.Settings.Codec.{encode_text}
use rheo_stream.Settings.Exceptions.{of_settings}
use rheo_stream.Storage.Tables.{WorkspaceState, provisioning, active, unavailable, WorkspaceRow}
use rheo_stream.Storage.ControlPlane.{get_workspace}
use rheo_stream.Storage.ControlPlane.Workspaces.{state_in}
use rheo_stream.Storage.ControlPlane.Workspaces.Laws.{set_workspace_state-expected}
use rheo_stream.Storage.Pools.Laws.{IsValid}
use rheo_stream.Storage.Repositories.{
  WorkspaceDatabase, write_composition, insert_workspace_setting_if_absent,
}
use rheo_stream.Storage.Routing.{System, with_databases}
use rheo_stream.Settings.Registry.{specs, explicit_only}
use rheo_stream.Storage.Provisioning.{
  Cluster, Attempt, and_then, in_control, ensure_database, in_database,
}
use rheo_stream.Storage.Provisioning.Success.{
  IsKnown, Cooperates, in_database-ok, ensure_database-ok, run_chain-ok,
}
use rheo_stream.Storage.Provisioning.Steps.{
  registry_row, or_missing, done, record_step, only_provisioning, step_create_database, migrate,
  step_migrate_core, type_value, default_rows, step_write_default_settings, step_activate,
}

abbrev pub resumable_states : List WorkspaceState
resumable_states = provisioning ∷ unavailable ∷ []

-- The workspace is listed in one of the states, and its name and the pool are in order.
pub record IsListed (world : System WorkspaceDatabase) (workspace_id : Uuid)
    (states : List WorkspaceState) : Type 0 where
  pub row : WorkspaceRow
  pub listed : get_workspace world.control workspace_id ≡ some row
  pub good : is_database_name row.database_name ≡ true
  pub state : state_in row.state states ≡ true
  pub pool : IsValid world.pool

-- Its database is there also.
pub record IsReady (world : System WorkspaceDatabase) (workspace_id : Uuid)
    (states : List WorkspaceState) : Type 0 where
  pub at : IsListed world workspace_id states
  pub content : WorkspaceDatabase
  pub there : lookup at.row.database_name world.databases ≡ some content

-- The step returns, and leaves the workspace ready for the next one.
abbrev pub Advances : Attempt (Unit {0}) → (System WorkspaceDatabase → Type 0) → Type 0
Advances r P = (after : System WorkspaceDatabase) × (r ≡ (after, ok tt)) × P after

pub resumable :
    (s : WorkspaceState)
    → state_in s (provisioning ∷ []) ≡ true
    → state_in s resumable_states ≡ true
resumable provisioning h = refl
resumable WorkspaceState.migrating h = cc
resumable active h = cc
resumable unavailable h = cc
resumable WorkspaceState.restoring h = cc

-- The default of every key that has a row per workspace can be encoded.
abbrev pub Encodes : Cluster → List KeySpec → Type 0
Encodes cluster [] = Unit {0}
Encodes cluster (spec ∷ specs) =
    ((value : String) × (encode_text cluster.show spec spec.default ≡ ok value))
    × Encodes cluster specs

default_rows-ok :
    (cluster : Cluster) (now : ℤ) (specs : List KeySpec) (content : WorkspaceDatabase)
    → Encodes cluster specs
    → (after : WorkspaceDatabase) × (default_rows cluster now specs content ≡ ok after)
unfolding default_rows
default_rows-ok cluster now [] content all = (content, refl)
default_rows-ok cluster now (spec ∷ specs) content ((value, encoded), all) =
    let (after, rest) =
      default_rows-ok cluster now specs
        (insert_workspace_setting_if_absent now content spec.key value (type_value spec.type)
          none).0
        all in
    (
      after,
      ap
            (λ x. of_settings x >>= (λ v.
              default_rows cluster now specs
                (insert_workspace_setting_if_absent now content spec.key v (type_value spec.type)
                  none).0))
            encoded
          ∙ rest,
    )

module _ (workspace_id : Uuid) where
  found :
      (world : System WorkspaceDatabase) (states : List WorkspaceState)
      (l : IsListed world workspace_id states)
      → registry_row world workspace_id ≡ ok l.row
  unfolding registry_row
  found world states l = ap or_missing l.listed

  record_step-Advances :
      (now : ℤ) (world : System WorkspaceDatabase) (step : String)
      → (r : IsReady world workspace_id resumable_states)
      → Advances
          (record_step now world workspace_id step)
          (λ w. (next : IsReady w workspace_id (provisioning ∷ [])) × (next.content ≡ r.content))
  unfolding record_step
  record_step-Advances now world step r =
      let (control, written, listed) =
        set_workspace_state-expected now world.control workspace_id provisioning (some step)
          resumable_states r.at.row r.at.listed r.at.state in
      (
        record world { control = control },
        ap (λ x. in_control world (done x)) written,
        (
          record {
            at = record {
              row = _;
              listed = listed;
              good = r.at.good;
              state = refl;
              pool = r.at.pool;
            };
            content = r.content;
            there = r.there;
          },
          refl,
        ),
      )

  -- A transaction on the workspace's database, and then the record of the step.
  in_database-Advances :
      (cluster : Cluster) (cooperates : Cooperates cluster) (now : ℤ)
      (world : System WorkspaceDatabase) (step : String)
      (f : String → String → WorkspaceDatabase → Result Exn WorkspaceDatabase)
      (r : IsReady world workspace_id resumable_states) (after : WorkspaceDatabase)
      → f r.at.row.database_name r.at.row.database_name r.content ≡ ok after
      → Advances
          (and_then
            (world, registry_row world workspace_id)
            (λ w row.
              and_then
                (in_database cluster w row.database_name (f row.database_name))
                (λ v finished. record_step now v workspace_id step)))
          (λ w. IsReady w workspace_id (provisioning ∷ []))
  in_database-Advances cluster cooperates now world step f r after body =
      let name = r.at.row.database_name in
      let (pool, valid, committed) =
        in_database-ok cluster cooperates name r.at.good world r.content after (f name) r.at.pool
          r.there body in
      let next : System WorkspaceDatabase = record {
        databases = insert name after world.databases;
        control = world.control;
        pool = pool;
      } in
      let (last, recorded, (ready, kept)) = record_step-Advances now next step (record {
        at = record {
          row = r.at.row;
          listed = r.at.listed;
          good = r.at.good;
          state = r.at.state;
          pool = valid;
        };
        content = after;
        there = lookup-insert_self name after world.databases;
      }) in
      (
        last,
        ap
              (λ x.
                and_then (world, x)
                  (λ w row.
                    and_then (in_database cluster w row.database_name (f row.database_name))
                      (λ v finished. record_step now v workspace_id step)))
              (found world resumable_states r.at)
            ∙ ap (λ m. and_then m (λ v finished. record_step now v workspace_id step)) committed
            ∙ recorded,
        ready,
      )

  pub step_migrate_core-Advances :
      (cluster : Cluster) (cooperates : Cooperates cluster) (now : ℤ)
      (world : System WorkspaceDatabase) (r : IsReady world workspace_id resumable_states)
      → IsKnown cluster r.content
      → Advances
          (step_migrate_core cluster now world workspace_id)
          (λ w. IsReady w workspace_id (provisioning ∷ []))
  unfolding step_migrate_core
  step_migrate_core-Advances cluster cooperates now world r known =
      let (upgraded, ran) =
        run_chain-ok cluster cooperates r.at.row.database_name r.content known in
      in_database-Advances cluster cooperates now world "migrate_core" (migrate cluster now) r
        (write_composition now upgraded cluster.core_version cluster.contract_version)
        (ap
          (λ x.
            x >>= (λ u. ok (write_composition now u cluster.core_version cluster.contract_version)))
          ran)

  pub step_write_default_settings-Advances :
      (cluster : Cluster) (cooperates : Cooperates cluster)
      → Encodes cluster (explicit_only (specs cluster.registry))
      → (now : ℤ) (world : System WorkspaceDatabase) → IsReady world workspace_id resumable_states
      → Advances
          (step_write_default_settings cluster now world workspace_id)
          (λ w. IsReady w workspace_id (provisioning ∷ []))
  unfolding step_write_default_settings
  step_write_default_settings-Advances cluster cooperates encodes now world r =
      let (after, rows) =
        default_rows-ok cluster now (explicit_only (specs cluster.registry)) r.content encodes in
      in_database-Advances cluster cooperates now world "write_default_settings"
        (λ name actual. default_rows cluster now (explicit_only (specs cluster.registry))) r after
        rows

  checked_ok :
      (made : Bool) (world : System WorkspaceDatabase) (row : WorkspaceRow)
      → registry_row world workspace_id ≡ ok row
      → state_in row.state (provisioning ∷ []) ≡ true
      → only_provisioning made (registry_row world workspace_id) ≡ ok tt
  checked_ok true world row h state = refl
  checked_ok false world row h state = ap (only_provisioning false) h ∙ ground (arith, state)

  pub step_create_database-Advances :
      (cluster : Cluster) (cooperates : Cooperates cluster) (now : ℤ)
      (world : System WorkspaceDatabase) (l : IsListed world workspace_id (provisioning ∷ []))
      → ((content : WorkspaceDatabase)
          → lookup l.row.database_name world.databases ≡ some content
          → IsKnown cluster content)
      → Advances
          (step_create_database cluster now world workspace_id)
          (λ w. (r : IsReady w workspace_id (provisioning ∷ [])) × IsKnown cluster r.content)
  unfolding step_create_database registry_row
  step_create_database-Advances cluster cooperates now world l known =
      let name = l.row.database_name in
      let (made, databases, content, ensured, there, fresh) =
        ensure_database-ok cluster cooperates name l.good world known in
      let next = with_databases databases world in
      let (last, recorded, (ready, kept)) =
        record_step-Advances now next "create_database" (record {
          at = record {
            row = l.row;
            listed = l.listed;
            good = l.good;
            state = resumable l.row.state l.state;
            pool = l.pool;
          };
          content = content;
          there = there;
        }) in
      (
        last,
        ap
              (λ x.
                and_then (world, x)
                  (λ w row. and_then (ensure_database cluster w row.database_name) (λ v b.
                    and_then (v, only_provisioning b (registry_row v workspace_id))
                      (λ u checked. record_step now u workspace_id "create_database"))))
              (found world (provisioning ∷ []) l)
            ∙ ap
                (λ m. and_then m (λ v b.
                  and_then (v, only_provisioning b (registry_row v workspace_id))
                    (λ u checked. record_step now u workspace_id "create_database")))
                ensured
            ∙ ap
                (λ x.
                  and_then (next, x)
                    (λ u checked. record_step now u workspace_id "create_database"))
                (checked_ok made next l.row (ap or_missing l.listed) l.state)
            ∙ recorded,
        (ready, subst (IsKnown cluster) (sym kept) fresh),
      )

  pub step_activate-Advances :
      (now : ℤ) (world : System WorkspaceDatabase)
      → IsListed world workspace_id (provisioning ∷ [])
      → Advances (step_activate now world workspace_id) (λ w.
        (row : WorkspaceRow) × (get_workspace w.control workspace_id ≡ some row)
        × (row.state ≡ active))
  unfolding step_activate
  step_activate-Advances now world l =
      let (control, written, listed) =
        set_workspace_state-expected now world.control workspace_id active (some "activate")
          (provisioning ∷ []) l.row l.listed l.state in
      (
        record world { control = control },
        ap (λ x. in_control world (done x)) written,
        (_, listed, refl),
      )
