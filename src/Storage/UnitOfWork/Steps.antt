-- ===== src/Storage/UnitOfWork/Steps.antt =====
-- Every sequence of calls on one unit of work: it writes at most one database, at most once.
use rheo_stream.Prelude.{String, Bool, Option, none, some, ok, ◌≡◌, ◌⊎◌}
use rheo_stream.Prelude.Dict.{insert}
use rheo_stream.Storage.Pools.{Engine}
use rheo_stream.Storage.UnitOfWork.{
  Databases, Server, UnitOfWork, with_transaction, enter, exit, commit, rollback,
}

module _ {S : Type 0} where
  -- What the code that holds a unit of work can do: the calls of its methods, and writes through the
  -- open connection.
  pub data Step (verify : Bool) (server : Server S)
      : Databases S × UnitOfWork S → Databases S × UnitOfWork S → Type 0 where
    entering :
        {databases : Databases S} {uow entered : UnitOfWork S}
        → enter verify server databases uow ≡ ok entered
        → Step verify server (databases, uow) (databases, entered)
    writing :
        {databases : Databases S} {uow : UnitOfWork S} (before after : S)
        → uow.transaction ≡ some before
        → Step verify server (databases, uow) (databases, with_transaction (some after) uow)
    committing :
        {databases : Databases S} {uow : UnitOfWork S}
        → Step verify server
            (databases, uow)
            ((commit server databases uow).0, (commit server databases uow).1)
    rolling_back :
        {databases : Databases S} {uow : UnitOfWork S}
        → Step verify server (databases, uow) (databases, (rollback uow).0)
    exiting :
        {databases : Databases S} {uow : UnitOfWork S}
        → Step verify server (databases, uow) (databases, exit uow)

  pub data Steps (verify : Bool) (server : Server S) (start : Databases S × UnitOfWork S)
      : Databases S × UnitOfWork S → Type 0 where
    none_yet : Steps verify server start start
    later :
        {t u : Databases S × UnitOfWork S}
        → Steps verify server start t
        → Step verify server t u
        → Steps verify server start u

  -- One database may have got one content.
  abbrev pub IsWritten : Databases S → String → Databases S → Type 0
  IsWritten before database after =
      (after ≡ before) ⊎ ((content : S) × (after ≡ insert database content before))

  -- Not yet entered; open, with nothing written; or over.
  abbrev Phase : Databases S → String → Databases S → Option String → Option S → Type 0
  Phase before database after c t =
      ((c ≡ none) × (t ≡ none) × (after ≡ before))
      ⊎ ((content : S) × (c ≡ some database) × (t ≡ some content) × (after ≡ before))
      ⊎ ((c ≡ some database) × (t ≡ none) × IsWritten before database after)

  module _ (verify : Bool) (server : Server S) (before : Databases S) (engine : Engine) where
    abbrev IsTracked : Databases S × UnitOfWork S → Type 0
    IsTracked s =
        (s.1.engine ≡ engine)
        × Phase before (server.current_database engine) s.0 s.1.connection s.1.transaction
