-- ===== src/Storage/Provisioning/Success.antt =====
-- A cluster that does what it is asked, and the transactions that then succeed.
use rheo_stream.Prelude.{
  String, Bool, true, false, [], none, some, Result, ok, ◌>>=◌, str_eq, str_eq_iff, str_eq_refl,
  diff, ◌≡◌, refl, ap, ◌∙◌, subst, Bool-cases, Option-cases, inl, inr,
}
use rheo_stream.Prelude.Dict.{lookup, insert, lookup-insert_self}
use rheo_stream.Prelude.Text.{is_database_name}
use rheo_stream.Refusals.{Exn}
use rheo_stream.Storage.Pools.{Engine, EnginePool, check_database_name}
use rheo_stream.Storage.Pools.Laws.{IsValid, engine_for-IsServed, engine_for-accepts}
use rheo_stream.Storage.UnitOfWork.{Databases, UnitOfWork}
use rheo_stream.Storage.UnitOfWork.Laws.{enter-opens, connected-commits}
use rheo_stream.Storage.Repositories.{WorkspaceDatabase}
use rheo_stream.Storage.Routing.{System}
use rheo_stream.Storage.Provisioning.{
  Cluster, committing, entering, on_engine, finishing, in_database, created, ensure_checked,
  ensure_database, run_chain,
}

-- No revision of the database is unknown to the code.
abbrev pub IsKnown : Cluster → WorkspaceDatabase → Type 0
IsKnown cluster content = diff content.alembic_version_core cluster.known_revisions ≡ []

-- Engines connect where they say, commits succeed, the template can be copied and is not ahead of the
-- code, and a database that is not ahead can be upgraded.
pub record Cooperates (cluster : Cluster) : Type 0 where
  pub directed : (e : Engine) → cluster.server.current_database e ≡ e.database
  pub commits : (content : WorkspaceDatabase) → cluster.server.commit_error content ≡ none
  pub template : is_database_name cluster.template_database ≡ true
  pub creates :
      (name : String)
      → (content : WorkspaceDatabase) × (cluster.create_database name cluster.template_database
          ≡ ok content)
        × IsKnown cluster content
  pub upgrades :
      (content : WorkspaceDatabase)
      → IsKnown cluster content
      → (after : WorkspaceDatabase) × (cluster.upgrade content ≡ ok after)

abbrev pub opened_at : Engine → String → WorkspaceDatabase → UnitOfWork WorkspaceDatabase
opened_at engine name content = record {
  engine = engine;
  expected_database = name;
  connection = some name;
  transaction = some content;
}

named : (name : String) → is_database_name name ≡ true → str_eq name "" ≡ false
unfolding is_database_name
named name h = elim (Bool-cases (str_eq name "")) [
  | inl blank ↦
      let e = (str_eq_iff name "").0 blank in cc (subst (λ s. is_database_name s ≡ true) e h)
  | inr other ↦ other
]

module _ (cluster : Cluster) (cooperates : Cooperates cluster) (name : String)
    (good : is_database_name name ≡ true) where
  committing-ok :
      (databases : Databases WorkspaceDatabase) (engine : Engine)
      (content after : WorkspaceDatabase)
      (f : String → WorkspaceDatabase → Result Exn WorkspaceDatabase)
      → f name content ≡ ok after
      → committing cluster databases f (opened_at engine name content)
        ≡ (insert name after databases, ok tt)
  unfolding finishing committing
  committing-ok databases engine content after f finished =
      let (reads, writes) =
        connected-commits cluster.server databases (opened_at engine name content) name content
          after refl refl (cooperates.commits after) in
      ap (finishing cluster databases (opened_at engine name content))
        (ap (λ r. r >>= f name) reads ∙ finished)
      ∙ ap (λ r. (r.0, r.2)) writes

  -- On a database that is there, a transaction whose body returns is committed.
  pub in_database-ok :
      (world : System WorkspaceDatabase) (content after : WorkspaceDatabase)
      (f : String → WorkspaceDatabase → Result Exn WorkspaceDatabase)
      → IsValid world.pool
      → lookup name world.databases ≡ some content
      → f name content ≡ ok after
      → (pool : EnginePool) × IsValid pool
        × (in_database cluster world name f ≡ (
          record {
            databases = insert name after world.databases;
            control = world.control;
            pool = pool;
          },
          ok tt,
        ))
  unfolding in_database on_engine entering
  in_database-ok world content after f valid found finished =
      let (served, given) = engine_for-accepts world.pool name good in
      let all = engine_for-IsServed world.pool name valid served given in
      let entered =
        enter-opens cluster.verify cluster.server world.databases served.engine name content
          (named name good) (cooperates.directed served.engine ∙ all.2) found in
      (
        served.pool,
        all.0,
        ap (on_engine cluster world name f) given
            ∙ ap
                (λ r. (
                  record {
                    databases = (entering cluster world.databases f r).0;
                    control = world.control;
                    pool = served.pool;
                  },
                  (entering cluster world.databases f r).1,
                ))
                entered
            ∙ ap
                (λ p.
                  (record { databases = p.0; control = world.control; pool = served.pool }, p.1))
                (committing-ok world.databases served.engine content after f finished),
      )

  -- The database is there afterwards, and not ahead of the code.
  pub ensure_database-ok :
      (world : System WorkspaceDatabase)
      → ((content : WorkspaceDatabase)
          → lookup name world.databases ≡ some content
          → IsKnown cluster content)
      → (made : Bool) × (databases : Databases WorkspaceDatabase) × (content : WorkspaceDatabase)
        × (ensure_database cluster world name ≡ (record world { databases = databases }, ok made))
        × (lookup name databases ≡ some content)
        × IsKnown cluster content
  unfolding ensure_database ensure_checked created check_database_name
  ensure_database-ok world known = elim (Option-cases (lookup name world.databases)) [
    | inl missing ↦
        let (content, copied, fresh) = cooperates.creates name in
        let fine = cooperates.template in
        (
          true,
          insert name content world.databases,
          content,
          rw good (rw fine (rw missing (rw copied refl))),
          lookup-insert_self name content world.databases,
          fresh,
        )
    | inr (content, found) ↦
        let fine = cooperates.template in
        (
          false,
          world.databases,
          content,
          rw good (rw fine (rw found refl)),
          found,
          known content found,
        )
  ]

pub run_chain-ok :
    (cluster : Cluster) (cooperates : Cooperates cluster) (name : String)
    (content : WorkspaceDatabase)
    → IsKnown cluster content
    → (after : WorkspaceDatabase) × (run_chain cluster name name content ≡ ok after)
unfolding run_chain
run_chain-ok cluster cooperates name content known =
    let (after, upgraded) = cooperates.upgrades content known in
    let equal = str_eq_refl name in (after, rw equal (rw known upgraded))
