-- ===== src/Storage/UnitOfWork/Laws.antt =====
-- What a unit of work does to the databases, one call at a time.
use rheo_stream.Prelude.{
  String, Bool, true, false, Option, none, some, Result, ok, raise, ◌>>=◌, str_eq, str_eq_refl,
  str_eq_iff, ◌≡◌, ◌⊎◌, refl, ap, ◌∙◌, arith, inl, inr, Option-cases,
}
use rheo_stream.Prelude.Dict.{lookup, insert}
use rheo_stream.Refusals.{Exn}
use rheo_stream.Storage.UnitOfWork.{
  Databases, Server, UnitOfWork, with_transaction, enter, begin, exit, commit, commit_open,
  conclude, rollback, new_unit_of_work, connected, open_content,
}
use rheo_stream.Storage.Pools.{Engine}

module _ {S : Type 0} where
  -- A commit that raises leaves the databases; one that returns has written the transaction's content
  -- into the database of the connection.
  abbrev pub Committed :
      Databases S
      → Option String
      → Option S
      → Databases S × UnitOfWork S × Result Exn (Unit {0})
      → Type 0
  Committed databases c t r =
      ((e : Exn) × (r.2 ≡ raise e) × (r.0 ≡ databases))
      ⊎ ((database : String) × (content : S) × (c ≡ some database)
          × (t ≡ some content)
          × (r.2 ≡ ok tt)
          × (r.0 ≡ insert database content databases))

  conclude-Committed :
      (o : Option Exn) (databases : Databases S) (uow : UnitOfWork S) (database : String)
      (content : S)
      → Committed databases
          (some database)
          (some content)
          (conclude o databases uow database content)
  unfolding conclude
  conclude-Committed none databases uow database content =
      inr (database, content, refl, refl, refl, refl)
  conclude-Committed (some e) databases uow database content = inl (e, refl, refl)

  commit_open-Committed :
      (c : Option String) (t : Option S) (server : Server S) (databases : Databases S)
      (uow : UnitOfWork S)
      → Committed databases c t (commit_open c t server databases uow)
  unfolding commit_open
  commit_open-Committed (some database) (some content) server databases uow =
      conclude-Committed (server.commit_error content) databases uow database content
  commit_open-Committed none t server databases uow = inl (_, refl, refl)
  commit_open-Committed (some database) none server databases uow = inl (_, refl, refl)

  pub commit-Committed :
      (server : Server S) (databases : Databases S) (uow : UnitOfWork S)
      → Committed databases uow.connection uow.transaction (commit server databases uow)
  unfolding commit
  commit-Committed server databases uow =
      commit_open-Committed uow.connection uow.transaction server databases uow

  -- What an entered unit of work is connected to: the database of its engine, with the content found
  -- there, which is the expected one where the name is verified.
  pub record IsEntered (verify : Bool) (server : Server S) (databases : Databases S)
      (uow entered : UnitOfWork S) : Type 0 where
    pub fresh : uow.connection ≡ none
    pub engine : entered.engine ≡ uow.engine
    pub connection : entered.connection ≡ some (server.current_database uow.engine)
    pub content :
        (v : S) × (lookup (server.current_database uow.engine) databases ≡ some v)
        × (entered.transaction ≡ some v)
    pub verified : verify ≡ true → server.current_database uow.engine ≡ uow.expected_database

  pub enter-IsEntered :
      (verify : Bool) (server : Server S) (databases : Databases S) (uow entered : UnitOfWork S)
      → enter verify server databases uow ≡ ok entered
      → IsEntered verify server databases uow entered
  unfolding enter begin
  enter-IsEntered verify server databases uow entered h = record {
    fresh = ground arith;
    engine = ground arith;
    connection = ground arith;
    content = elim (Option-cases (lookup (server.current_database uow.engine) databases)) [
      | inl missing ↦ ground arith
      | inr (v, found) ↦ (v, found, ground arith)
    ];
    verified = λ v. (str_eq_iff _ uow.expected_database).0 (ground arith);
  }

  -- A rollback and a commit both end the transaction, whatever they raise.
  pub rollback-exit : (uow : UnitOfWork S) → (rollback uow).0 ≡ exit uow
  unfolding rollback
  rollback-exit uow = elim (Option-cases uow.transaction) [
    | inl over ↦ rw over refl
    | inr (content, under_way) ↦ rw under_way refl
  ]

  commit_open-exit :
      (c : Option String) (t : Option S) (server : Server S) (databases : Databases S)
      (uow : UnitOfWork S)
      → (c ≡ none → t ≡ none)
      → uow.transaction ≡ t
      → (commit_open c t server databases uow).1 ≡ exit uow
  unfolding commit_open conclude
  commit_open-exit none t server databases uow h e = ap (λ x. with_transaction x uow) (e ∙ h refl)
  commit_open-exit (some database) none server databases uow h e =
      ap (λ x. with_transaction x uow) e
  commit_open-exit (some database) (some v) server databases uow h e =
      elim (Option-cases (server.commit_error v)) [
        | inl done ↦ rw done refl
        | inr (error, failed) ↦ rw failed refl
      ]

  pub commit-exit :
      (server : Server S) (databases : Databases S) (uow : UnitOfWork S)
      → (uow.connection ≡ none → uow.transaction ≡ none)
      → (commit server databases uow).1 ≡ exit uow
  unfolding commit
  commit-exit server databases uow h =
      commit_open-exit uow.connection uow.transaction server databases uow h refl

  -- On a database that is there, and where the connection is to the expected one, a new unit of work
  -- opens with the database's content.
  pub enter-opens :
      (verify : Bool) (server : Server S) (databases : Databases S) (engine : Engine)
      (name : String) (content : S)
      → str_eq name "" ≡ false
      → server.current_database engine ≡ name
      → lookup name databases ≡ some content
      → (new_unit_of_work engine name >>= enter verify server databases)
        ≡ ok (record {
          engine = engine;
          expected_database = name;
          connection = some name;
          transaction = some content;
        })
  unfolding new_unit_of_work enter begin
  enter-opens verify server databases engine name content nonempty connects found =
      let equal = str_eq_refl name in ground (arith, connects, nonempty, equal, found)

  -- A transaction whose body returns a content that the server commits.
  pub connected-commits :
      (server : Server S) (databases : Databases S) (uow : UnitOfWork S) (name : String)
      (before content : S)
      → uow.connection ≡ some name
      → uow.transaction ≡ some before
      → server.commit_error content ≡ none
      → (connected uow ≡ ok before)
        × (commit server databases (with_transaction (some content) uow)
            ≡ (insert name content databases, with_transaction none uow, ok tt))
  unfolding connected open_content commit commit_open conclude
  connected-commits server databases uow name before content at there fine =
      (rw at (rw there refl), rw at (rw fine refl))
