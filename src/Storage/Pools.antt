-- ===== src/Storage/Pools.antt =====
-- storage/pools.py: one engine per database name, least recently used first. The lock, and the
-- cluster URL and pool size that every engine is made with, are left out.
pub mod Laws
pub mod Names
pub mod Recency
use rheo_stream.Prelude.{
  ℕ, zero, suc, String, Bool, true, false, not, ◌&&◌, ◌||◌, List, [], ◌∷◌, ◌++◌, Option, none, some,
  Result, ok, raise, ◌>>=◌, str_eq, ltb, leb, if◌then◌else◌,
}
use rheo_stream.Prelude.Dict.{Dict, lookup, keys}
use rheo_stream.Prelude.Text.{is_database_name}
use rheo_stream.Refusals.{Exn, other_error}

-- What an engine connects to.
pub record Engine : Type 0 where
  pub database : String

pub record EnginePool : Type 0 where
  pub cache_size : ℕ
  pub engines : Dict Engine

-- `check_database_name`, for a text
unfoldable pub check_database_name : String → Result Exn String
check_database_name name =
    if is_database_name name
    then ok name
    else raise
        (other_error "ValueError" "database names are lowercase identifiers of at most 63 chars")

-- `EnginePool(cluster_url, cache_size=…, pool_size=…)`; a size below 1 is the number 0.
unfoldable pub new_pool : ℕ → ℕ → Result Exn EnginePool
new_pool cache_size pool_size =
    if ltb cache_size 1 || ltb pool_size 1
    then raise (other_error "ValueError" "cache_size and pool_size must be positive")
    else ok (record { cache_size = cache_size; engines = [] })

abbrev pub size : Dict Engine → ℕ
size [] = 0
size (e ∷ d) = suc (size d)

-- `del d[name]`
unfoldable pub without : String → Dict Engine → Dict Engine
without name [] = []
without name ((k, e) ∷ d) =
    let rest = without name d in if str_eq k name then rest else (k, e) ∷ rest

-- The loop of `engine_for`: while the dictionary is larger than the cache, its first entry goes.
unfoldable pub evict : ℕ → Dict Engine → Dict Engine × List Engine
evict cache_size [] = ([], [])
evict cache_size ((k, e) ∷ d) =
    let rest = evict cache_size d in
    if ltb cache_size (size ((k, e) ∷ d)) then (rest.0, e ∷ rest.1) else ((k, e) ∷ d, [])

-- What `engine_for` leaves, returns and disposes of.
pub record Served : Type 0 where
  pub pool : EnginePool
  pub engine : Engine
  pub disposed : List Engine

-- `create_engine(self._cluster_url.set(database=name), …)`
abbrev pub create_engine : String → Engine
create_engine name = record { database = name }

serve : Option Engine → EnginePool → String → Served
serve (some engine) pool name = record {
  pool = record {
    cache_size = pool.cache_size;
    engines = without name pool.engines ++ (name, engine) ∷ [];
  };
  engine = engine;
  disposed = [];
}
serve none pool name =
    let engine = create_engine name in
    let after = evict pool.cache_size (pool.engines ++ (name, engine) ∷ []) in
    record {
      pool = record { cache_size = pool.cache_size; engines = after.0 };
      engine = engine;
      disposed = after.1;
    }

unfoldable pub engine_for : EnginePool → String → Result Exn Served
unfolding serve
engine_for pool database_name = do
  name ← check_database_name database_name
  ok (serve (lookup name pool.engines) pool name)

-- `cached()`
abbrev pub cached : EnginePool → List String
cached pool = keys pool.engines

engines_of : Dict Engine → List Engine
engines_of [] = []
engines_of ((k, e) ∷ d) = e ∷ engines_of d

-- `dispose_all()`, with what it disposes of
unfoldable pub dispose_all : EnginePool → EnginePool × List Engine
unfolding engines_of
dispose_all pool = (record { cache_size = pool.cache_size; engines = [] }, engines_of pool.engines)
