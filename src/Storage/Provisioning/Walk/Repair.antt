-- ===== src/Storage/Provisioning/Walk/Repair.antt =====
-- `repair` brings a workspace to `active`, from whichever step it was left at.
use rheo_stream.Prelude.{
  String, true, List, [], ◌∷◌, Option, none, some, ok, str_eq, str_eq_iff, ◌≡◌, ◌≢◌, ◌⊎◌, refl, ap,
  sym, ◌∙◌, subst, Bool-cases, inl, inr,
}
use rheo_stream.Prelude.Dict.{lookup}
use rheo_stream.Prelude.Int.{ℤ}
use rheo_stream.Contracts.{Uuid}
use rheo_stream.Storage.Tables.{WorkspaceState, provisioning, active, unavailable, WorkspaceRow}
use rheo_stream.Storage.ControlPlane.{get_workspace}
use rheo_stream.Storage.ControlPlane.Workspaces.{state_in}
use rheo_stream.Storage.Repositories.{WorkspaceDatabase}
use rheo_stream.Storage.Routing.{System}
use rheo_stream.Settings.Registry.{specs, explicit_only}
use rheo_stream.Storage.Provisioning.{Cluster, Attempt, and_then}
use rheo_stream.Storage.Provisioning.Success.{IsKnown, Cooperates}
use rheo_stream.Storage.Provisioning.Steps.{registry_row, or_missing}
use rheo_stream.Storage.Provisioning.Steps.Forward.{
  IsListed, IsReady, Advances, Encodes, resumable, resumable_states, step_create_database-Advances,
  step_migrate_core-Advances, step_write_default_settings-Advances, step_activate-Advances,
}
use rheo_stream.Storage.Provisioning.Walk.{
  ProvisionStep, create_database, migrate_core, write_default_settings, activate, run_step, walk,
  resuming, steps_after, remaining_after, repair_in, repair,
}

-- The steps that can be left, and that none is left only after the last.
left-cases :
    (detail : Option String)
    → (remaining_after detail
        ≡ create_database ∷ migrate_core ∷ write_default_settings ∷ activate ∷ [])
      ⊎ ((remaining_after detail ≡ migrate_core ∷ write_default_settings ∷ activate ∷ [])
          ⊎ ((remaining_after detail ≡ write_default_settings ∷ activate ∷ [])
              ⊎ ((remaining_after detail ≡ activate ∷ []) ⊎ (detail ≡ some "activate"))))
unfolding remaining_after steps_after
left-cases none = inl refl
left-cases (some d) = elim (Bool-cases (str_eq "insert_registry_row" d)) [
  | inl a ↦ inl (rw a refl)
  | inr a ↦ elim (Bool-cases (str_eq "create_database" d)) [
    | inl b ↦ inr (inl (rw a (rw b refl)))
    | inr b ↦ elim (Bool-cases (str_eq "migrate_core" d)) [
      | inl c ↦ inr (inr (inl (rw a (rw b (rw c refl)))))
      | inr c ↦ elim (Bool-cases (str_eq "write_default_settings" d)) [
        | inl e ↦ inr (inr (inr (inl (rw a (rw b (rw c (rw e refl)))))))
        | inr e ↦ elim (Bool-cases (str_eq "activate" d)) [
          | inl f ↦ inr (inr (inr (inr (ap some (sym ((str_eq_iff "activate" d).0 f))))))
          | inr f ↦ inl (rw a (rw b (rw c (rw e (rw f refl)))))
        ]
      ]
    ]
  ]
]

resumable-cases :
    (s : WorkspaceState)
    → state_in s resumable_states ≡ true
    → (s ≡ provisioning) ⊎ (s ≡ unavailable)
resumable-cases provisioning h = inl refl
resumable-cases unavailable h = inr refl
resumable-cases active h = cc
resumable-cases WorkspaceState.migrating h = cc
resumable-cases WorkspaceState.restoring h = cc

module _ (cluster : Cluster) (cooperates : Cooperates cluster)
    (encodes : Encodes cluster (explicit_only (specs cluster.registry))) (now : ProvisionStep → ℤ)
    (workspace_id : Uuid) where
  -- The call returns, and the workspace is active.
  abbrev pub Activates : Attempt (Unit {0}) → Type 0
  Activates r = Advances r (λ w.
      (row : WorkspaceRow) × (get_workspace w.control workspace_id ≡ some row)
      × (row.state ≡ active))

  next :
      (world w : System WorkspaceDatabase) (step : ProvisionStep) (steps : List ProvisionStep)
      → run_step cluster (resuming now workspace_id) world step ≡ (w, ok tt)
      → Activates (walk cluster (resuming now workspace_id) w steps)
      → Activates (walk cluster (resuming now workspace_id) world (step ∷ steps))
  unfolding walk
  next world w step steps h (after, walked, goal) = (
    after,
    ap
          (λ m. and_then m (λ v finished.
            and_then (v, ok tt) (λ u called. walk cluster (resuming now workspace_id) u steps)))
          h
        ∙ walked,
    goal,
  )

  finished :
      (world : System WorkspaceDatabase)
      → (row : WorkspaceRow) × (get_workspace world.control workspace_id ≡ some row)
        × (row.state ≡ active)
      → Activates (walk cluster (resuming now workspace_id) world [])
  unfolding walk
  finished world p = (world, refl, p)

  abbrev weaker :
      (world : System WorkspaceDatabase)
      → IsReady world workspace_id (provisioning ∷ [])
      → IsReady world workspace_id resumable_states
  weaker world r = record {
    at = record {
      row = r.at.row;
      listed = r.at.listed;
      good = r.at.good;
      state = resumable r.at.row.state r.at.state;
      pool = r.at.pool;
    };
    content = r.content;
    there = r.there;
  }

  walk-activate :
      (world : System WorkspaceDatabase)
      → IsListed world workspace_id (provisioning ∷ [])
      → Activates (walk cluster (resuming now workspace_id) world (activate ∷ []))
  unfolding run_step
  walk-activate world l =
      let (w, stepped, goal) = step_activate-Advances workspace_id (now activate) world l in
      next world w activate [] stepped (finished w goal)

  walk-settings :
      (world : System WorkspaceDatabase)
      → IsReady world workspace_id resumable_states
      → Activates
          (walk cluster (resuming now workspace_id) world (write_default_settings ∷ activate ∷ []))
  unfolding run_step
  walk-settings world r =
      let (w, stepped, ready) =
        step_write_default_settings-Advances workspace_id cluster cooperates encodes
          (now write_default_settings) world r in
      next world w write_default_settings (activate ∷ []) stepped (walk-activate w ready.at)

  walk-migrate :
      (world : System WorkspaceDatabase) (r : IsReady world workspace_id resumable_states)
      → IsKnown cluster r.content
      → Activates (
          walk cluster
            (resuming now workspace_id)
            world
            (migrate_core ∷ write_default_settings ∷ activate ∷ []))
  unfolding run_step
  walk-migrate world r known =
      let (w, stepped, ready) =
        step_migrate_core-Advances workspace_id cluster cooperates (now migrate_core) world r
          known in
      next world w migrate_core (write_default_settings ∷ activate ∷ []) stepped
        (walk-settings w (weaker w ready))

  walk-create :
      (world : System WorkspaceDatabase) (l : IsListed world workspace_id (provisioning ∷ []))
      → ((content : WorkspaceDatabase)
          → lookup l.row.database_name world.databases ≡ some content
          → IsKnown cluster content)
      → Activates (
          walk cluster
            (resuming now workspace_id)
            world
            (create_database ∷ migrate_core ∷ write_default_settings ∷ activate ∷ []))
  unfolding run_step
  walk-create world l known =
      let (w, stepped, (ready, fresh)) =
        step_create_database-Advances workspace_id cluster cooperates (now create_database) world l
          known in
      next world w create_database (migrate_core ∷ write_default_settings ∷ activate ∷ []) stepped
        (walk-migrate w (weaker w ready) fresh)

  module _ (world : System WorkspaceDatabase) (l : IsListed world workspace_id resumable_states)
      (known : (content : WorkspaceDatabase)
        → lookup l.row.database_name world.databases ≡ some content
        → IsKnown cluster content) where
    ready :
        (content : WorkspaceDatabase)
        → lookup l.row.database_name world.databases ≡ some content
        → (r : IsReady world workspace_id resumable_states) × IsKnown cluster r.content
    ready content there = (record { at = l; content = content; there = there }, known content there)

    provisioning_in : l.row.state ≡ provisioning → state_in l.row.state (provisioning ∷ []) ≡ true
    provisioning_in e = ap (λ s. state_in s (provisioning ∷ [])) e

    abbrev narrowed : l.row.state ≡ provisioning → IsListed world workspace_id (provisioning ∷ [])
    narrowed e = record {
      row = l.row;
      listed = l.listed;
      good = l.good;
      state = provisioning_in e;
      pool = l.pool;
    }

    walk-left :
        l.row.state ≡ provisioning
        → l.row.state_detail ≢ some "activate"
        → ((content : WorkspaceDatabase) × (lookup l.row.database_name world.databases
              ≡ some content))
          ⊎ (remaining_after l.row.state_detail
              ≡ create_database ∷ migrate_core ∷ write_default_settings ∷ activate ∷ [])
        → Activates
            (walk cluster (resuming now workspace_id) world (remaining_after l.row.state_detail))
    walk-left e open_end placed = elim (left-cases l.row.state_detail) [
      | inl all ↦
          subst (λ steps. Activates (walk cluster (resuming now workspace_id) world steps))
            (sym all) (walk-create world (narrowed e) known)
      | inr (inr (inr (inl one))) ↦
          subst (λ steps. Activates (walk cluster (resuming now workspace_id) world steps))
            (sym one) (walk-activate world (narrowed e))
      | inr (inr (inr (inr over))) ↦ absurd (open_end over)
      | inr (inr (inl two)) ↦ elim placed [
        | inl (content, there) ↦
            subst (λ steps. Activates (walk cluster (resuming now workspace_id) world steps))
              (sym two) (walk-settings world (ready content there).0)
        | inr all ↦ cc (sym all ∙ two)
      ]
      | inr (inl three) ↦ elim placed [
        | inl (content, there) ↦
            subst (λ steps. Activates (walk cluster (resuming now workspace_id) world steps))
              (sym three) (walk-migrate world (ready content there).0 (ready content there).1)
        | inr all ↦ cc (sym all ∙ three)
      ]
    ]

    -- Let the cluster cooperate: engines connect where they say, commits succeed, the template can
    -- be copied and is not ahead of the code, a database that is not ahead is upgraded, and the
    -- defaults to write can be encoded. Then `repair` of a workspace that is listed as provisioning
    -- or unavailable under a valid database name returns and leaves it active, where the pool is
    -- valid, its database is there and not ahead of the code (or not there, with the step that
    -- creates it still to come), and the last recorded step of a provisioning one is not
    -- `activate`.
    pub repair-Activates :
        ((content : WorkspaceDatabase) × (lookup l.row.database_name world.databases
              ≡ some content))
          ⊎ ((l.row.state ≡ provisioning)
              × (remaining_after l.row.state_detail
                  ≡ create_database ∷ migrate_core ∷ write_default_settings ∷ activate ∷ []))
        → (l.row.state ≡ provisioning → l.row.state_detail ≢ some "activate")
        → Activates (repair cluster now world workspace_id)
    unfolding repair repair_in registry_row
    repair-Activates placed open_end =
        let rest : Attempt (Unit {0}) =
          repair_in cluster now world workspace_id l.row.state_detail l.row.state in
        let looked : repair cluster now world workspace_id ≡ rest =
          ap
            (λ x.
              and_then (world, or_missing x)
                (λ w row. repair_in cluster now w workspace_id row.state_detail row.state))
            l.listed in
        subst Activates (sym looked) (elim (resumable-cases l.row.state l.state) [
          | inl e ↦
              subst (λ s. Activates (repair_in cluster now world workspace_id l.row.state_detail s))
                (sym e)
                (walk-left e (open_end e)
                  (elim placed [ inl there ↦ inl there | inr (p, all) ↦ inr all ]))
          | inr e ↦
              subst (λ s. Activates (repair_in cluster now world workspace_id l.row.state_detail s))
                (sym e)
                (elim placed [
                  | inl (content, there) ↦
                      walk-migrate world (ready content there).0 (ready content there).1
                  | inr (p, all) ↦ cc (sym p ∙ e)
                ])
        ])
