-- ===== src/Tests/Storage.antt =====
-- The pool of engines and the unit of work, on databases with a counter as content.
use rheo_stream.Prelude.{ℕ, String, List, [], ◌∷◌, none, some, ok, ◌≡◌, refl, arith}
use rheo_stream.Prelude.Dict.{Dict, lookup}
use rheo_stream.Refusals.{other_error}
use rheo_stream.Storage.Pools.{cached, EnginePool, Served, engine_for}
use rheo_stream.Storage.Pools.Names.{recent}
use rheo_stream.Storage.Pools.Recency.{history, serve_all, serve_all-recent}
use rheo_stream.Storage.Pools.Laws.{IsValid, engine_for-IsServed}
use rheo_stream.Tests.World.{control}
use rheo_stream.Storage.UnitOfWork.{Databases, Server, UnitOfWork, commit, with_transaction}
use rheo_stream.Storage.UnitOfWork.Steps.{Steps}
use rheo_stream.Storage.Routing.{System}

abbrev pub server : Server ℕ
server = record {
  current_database = λ e. e.database;
  connect_error = other_error "OperationalError" "";
  commit_error = λ n. none;
}

abbrev pool : EnginePool
pool = record { cache_size = 1; engines = [] }

pool-IsValid : IsValid pool
pool-IsValid = record { keyed = tt; bounded = omega arith; positive = omega arith }

abbrev full_pool : EnginePool
full_pool = record { cache_size = 1; engines = ("ws_1", record { database = "ws_1" }) ∷ [] }

full_pool-IsValid : IsValid full_pool
unfolding rheo_stream.Prelude.elem rheo_stream.Prelude.Dict.keys
full_pool-IsValid = record {
  keyed = (refl, refl, tt);
  bounded = omega arith;
  positive = omega arith;
}

-- A pool of one engine gives up that of another database.
abbrev served : Served
served = record {
  pool = record { cache_size = 1; engines = ("ws_2", record { database = "ws_2" }) ∷ [] };
  engine = record { database = "ws_2" };
  disposed = record { database = "ws_1" } ∷ [];
}

evicted : engine_for full_pool "ws_2" ≡ ok served
unfolding engine_for rheo_stream.Storage.Pools.check_database_name
    rheo_stream.Prelude.Text.is_database_name lookup rheo_stream.Storage.Pools.evict
evicted = refl

engine_for-IsServed_example :
    IsValid served.pool
    × (served.pool.cache_size ≡ 1)
    × (served.engine.database ≡ "ws_2")
    × (lookup "ws_2" served.pool.engines ≡ some served.engine)
engine_for-IsServed_example = engine_for-IsServed full_pool "ws_2" full_pool-IsValid served evicted

abbrev pub system : System ℕ
system = record { databases = ("ws_1", 40) ∷ ("ws_2", 7) ∷ []; control = control; pool = pool }

abbrev fresh : UnitOfWork ℕ
fresh = record {
  engine = record { database = "ws_1" };
  expected_database = "ws_1";
  connection = none;
  transaction = none;
}

abbrev entered : UnitOfWork ℕ
entered = record {
  engine = record { database = "ws_1" };
  expected_database = "ws_1";
  connection = some "ws_1";
  transaction = some 40;
}

abbrev end_state : Databases ℕ × UnitOfWork ℕ
end_state = (
  (commit server system.databases (with_transaction (some 41) entered)).0,
  (commit server system.databases (with_transaction (some 41) entered)).1,
)

-- Three calls on a pool of one engine.
abbrev requests : List String
requests = "ws_1" ∷ "ws_2" ∷ "ws_1" ∷ []

serve_all-recent_example : cached (serve_all pool requests) ≡ recent 1 (history [] requests)
unfolding recent rheo_stream.Prelude.Dict.keys
serve_all-recent_example = serve_all-recent pool [] tt refl requests
