-- ===== src/Storage/UnitOfWork.antt =====
-- `UnitOfWork` of storage/backend.py: one connection in one transaction. `S` is the content of a
-- workspace database; what SQLAlchemy and the server do is the parameter `Server`.
pub mod Laws
pub mod Steps
use rheo_stream.Prelude.{
  String, Bool, true, false, not, ◌&&◌, ◌||◌, Option, none, some, Result, ok, raise, ◌>>=◌, str_eq,
  if◌then◌else◌,
}
use rheo_stream.Prelude.Dict.{Dict, lookup, insert}
use rheo_stream.Refusals.{Exn, storage_refusal, other_error, unit_of_work_closed, database_mismatch}
use rheo_stream.Storage.Pools.{Engine}

-- The committed content of every workspace database.
abbrev pub Databases : Type 0 → Type 0
Databases S = Dict S

-- `current_database()` of a connection of the engine, what connecting to a database that is not
-- there raises, and whether a commit of a content raises (it has then been rolled back).
pub record Server (S : Type 0) : Type 0 where
  pub current_database : Engine → String
  pub connect_error : Exn
  pub commit_error : S → Option Exn

-- `connection` is the database that the open connection is to, `transaction` the content that the
-- open transaction would commit. After the end of the transaction the connection is still set.
pub record UnitOfWork (S : Type 0) : Type 0 where
  pub engine : Engine
  pub expected_database : String
  pub connection : Option String
  pub transaction : Option S

module _ {S : Type 0} where
  -- `UnitOfWork(engine, expected_database)`
  unfoldable pub new_unit_of_work : Engine → String → Result Exn (UnitOfWork S)
  new_unit_of_work engine expected_database =
      if str_eq expected_database ""
      then raise (other_error "TypeError" "UnitOfWork needs the expected database name")
      else ok (record {
        engine = engine;
        expected_database = expected_database;
        connection = none;
        transaction = none;
      })

  abbrev pub with_transaction : Option S → UnitOfWork S → UnitOfWork S
  with_transaction t uow = record {
    engine = uow.engine;
    expected_database = uow.expected_database;
    connection = uow.connection;
    transaction = t;
  }

  -- What `__enter__` does with the content of the database that it connects to.
  begin : Bool → Server S → Option S → UnitOfWork S → Result Exn (UnitOfWork S)
  begin verify server none uow = raise server.connect_error
  begin verify server (some content) uow =
      let actual = server.current_database uow.engine in
      if verify && not (str_eq actual uow.expected_database)
      then raise (storage_refusal database_mismatch)
      else ok (record {
        engine = uow.engine;
        expected_database = uow.expected_database;
        connection = some actual;
        transaction = some content;
      })

  -- `__enter__`; `verify` is `UnitOfWork.verify_database`.
  unfoldable pub enter : Bool → Server S → Databases S → UnitOfWork S → Result Exn (UnitOfWork S)
  unfolding begin
  enter verify server databases uow = elim uow.connection [
    | some database ↦ raise (storage_refusal unit_of_work_closed)
    | none ↦ begin verify server (lookup (server.current_database uow.engine) databases) uow
  ]

  -- `__exit__`: an open transaction is rolled back, and the connection is closed.
  abbrev pub exit : UnitOfWork S → UnitOfWork S
  exit uow = with_transaction none uow

  open_content : Option String → Option S → Result Exn S
  open_content (some database) (some content) = ok content
  open_content _ _ = raise (storage_refusal unit_of_work_closed)

  -- The content that the property `connection` gives access to.
  unfoldable pub connected : UnitOfWork S → Result Exn S
  unfolding open_content
  connected uow = open_content uow.connection uow.transaction

  -- The end of `commit`: the transaction of the connection is over in any case.
  conclude :
      Option Exn
      → Databases S
      → UnitOfWork S
      → String
      → S
      → Databases S × UnitOfWork S × Result Exn (Unit {0})
  conclude (some e) databases uow database content = (databases, with_transaction none uow, raise e)
  conclude none databases uow database content =
      (insert database content databases, with_transaction none uow, ok tt)

  commit_open :
      Option String
      → Option S
      → Server S
      → Databases S
      → UnitOfWork S
      → Databases S × UnitOfWork S × Result Exn (Unit {0})
  commit_open (some database) (some content) server databases uow =
      conclude (server.commit_error content) databases uow database content
  commit_open _ _ server databases uow =
      (databases, uow, raise (storage_refusal unit_of_work_closed))

  -- `commit`. A transaction is only ever set together with its connection.
  unfoldable pub commit :
      Server S → Databases S → UnitOfWork S → Databases S × UnitOfWork S × Result Exn (Unit {0})
  unfolding conclude commit_open
  commit server databases uow = commit_open uow.connection uow.transaction server databases uow

  -- `rollback`
  unfoldable pub rollback : UnitOfWork S → UnitOfWork S × Result Exn (Unit {0})
  rollback uow = elim uow.transaction [
    | none ↦ (uow, raise (storage_refusal unit_of_work_closed))
    | some content ↦ (with_transaction none uow, ok tt)
  ]
