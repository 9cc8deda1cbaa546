-- ===== src/Storage/Pools/Recency.antt =====
-- The pool against what it promises: it caches the names used last, as many as it has room for.
use rheo_stream.Prelude.{
  ℕ, suc, String, true, false, List, [], ◌∷◌, ◌++◌, Option, none, some, Result, ok, raise, str_eq,
  elem, if◌then◌else◌, is_some, ◌≡◌, refl, ap, sym, ◌∙◌, arith, Bool-cases, inl, inr,
}
use rheo_stream.Prelude.Dict.{Dict, lookup, keys, elem-keys}
use rheo_stream.Prelude.Text.{is_database_name}
use rheo_stream.Refusals.{Exn}
use rheo_stream.Storage.Pools.{
  Engine, EnginePool, Served, create_engine, serve, check_database_name, size, without, evict,
  serve, engine_for, cached,
}
use rheo_stream.Storage.Pools.Names.{
  AreDistinct, append-AreDistinct, count, elem-removed_self, recent, recent-hit, recent-miss,
  recent-recent, removed, removed-AreDistinct,
}

-- The names by their last use, the last one at the end.
unfoldable pub history : List String → List String → List String
history names [] = names
history names (name ∷ requests) =
    history (if is_database_name name then removed name names ++ name ∷ [] else names) requests

-- What a sequence of calls of `engine_for` leaves; a call that raises leaves the pool.
abbrev pub served_pool : EnginePool → Result Exn Served → EnginePool
served_pool pool (raise e) = pool
served_pool pool (ok served) = served.pool

unfoldable pub serve_all : EnginePool → List String → EnginePool
serve_all pool [] = pool
serve_all pool (name ∷ requests) = serve_all (served_pool pool (engine_for pool name)) requests

keys-without : (name : String) (d : Dict Engine) → keys (without name d) ≡ removed name (keys d)
unfolding keys without
keys-without name [] = refl
keys-without name ((k, e) ∷ d) = elim (Bool-cases (str_eq k name)) [
  | inl gone ↦ let rest = keys-without name d in ground (arith, rest)
  | inr kept ↦ let rest = keys-without name d in ground (arith, rest)
]

keys-last :
    (d : Dict Engine) (name : String) (e : Engine)
    → keys (d ++ (name, e) ∷ []) ≡ keys d ++ name ∷ []
unfolding keys
keys-last [] name e = refl
keys-last ((k, f) ∷ d) name e = ap (λ ks. k ∷ ks) (keys-last d name e)

size-keys : (d : Dict Engine) → size d ≡ count (keys d)
unfolding keys
size-keys [] = refl
size-keys ((k, e) ∷ d) = ap suc (size-keys d)

keys-evict : (n : ℕ) (d : Dict Engine) → keys (evict n d).0 ≡ recent n (keys d)
unfolding keys evict recent
keys-evict n [] = refl
keys-evict n ((k, e) ∷ d) =
    let rest = keys-evict n d in let same = size-keys d in ground (arith, rest, same)

-- One call: the names that are cached follow the names by their last use.
serve-recent :
    (pool : EnginePool) (name : String) (seen : List String) (o : Option Engine)
    → AreDistinct seen
    → keys pool.engines ≡ recent pool.cache_size seen
    → lookup name pool.engines ≡ o
    → keys (serve o pool name).pool.engines
      ≡ recent pool.cache_size (removed name seen ++ name ∷ [])
unfolding serve
serve-recent pool name seen (some e) d h found =
    let among : elem name (recent pool.cache_size seen) ≡ true =
      sym (ap (elem name) h) ∙ elem-keys name pool.engines ∙ ap is_some found in
    keys-last (without name pool.engines) name e
    ∙ ap (λ ks. ks ++ name ∷ []) (keys-without name pool.engines ∙ ap (removed name) h)
    ∙ sym (recent-hit pool.cache_size name seen d among)
serve-recent pool name seen none d h missing =
    let absent : elem name (recent pool.cache_size seen) ≡ false =
      sym (ap (elem name) h) ∙ elem-keys name pool.engines ∙ ap is_some missing in
    keys-evict pool.cache_size (pool.engines ++ (name, create_engine name) ∷ [])
    ∙ ap (recent pool.cache_size)
        (keys-last pool.engines name (create_engine name) ∙ ap (λ ks. ks ++ name ∷ []) h)
    ∙ recent-recent pool.cache_size seen name
    ∙ sym (recent-miss pool.cache_size name seen d absent)

serve-size :
    (pool : EnginePool) (name : String) (o : Option Engine)
    → (serve o pool name).pool.cache_size ≡ pool.cache_size
unfolding serve
serve-size pool name none = refl
serve-size pool name (some e) = refl

-- Let the cached names of a pool be the last ones of some history of distinct names, as many as the
-- pool has room for (for example, an empty pool and an empty history). After any sequence of calls
-- of `engine_for` they are the last ones of that history continued by the accepted names of the
-- calls, each at its last use only.
pub serve_all-recent :
    (pool : EnginePool) (seen : List String)
    → AreDistinct seen
    → cached pool ≡ recent pool.cache_size seen
    → (requests : List String)
    → cached (serve_all pool requests) ≡ recent pool.cache_size (history seen requests)
unfolding serve_all history engine_for check_database_name
serve_all-recent pool seen d h [] = h
serve_all-recent pool seen d h (name ∷ requests) = elim (Bool-cases (is_database_name name)) [
  | inl good ↦
      let next = (serve (lookup name pool.engines) pool name).pool in
      let names = removed name seen ++ name ∷ [] in
      let same = serve-size pool name (lookup name pool.engines) in
      let one = serve-recent pool name seen (lookup name pool.engines) d h refl in
      let apart =
        append-AreDistinct name (removed name seen) (removed-AreDistinct name seen d)
          (elem-removed_self name seen) in
      let moves : served_pool pool (engine_for pool name) ≡ next = ground arith in
      ap (λ p. cached (serve_all p requests)) moves
      ∙ serve_all-recent next names apart (one ∙ ap (λ n. recent n names) (sym same)) requests
      ∙ ap (λ n. recent n (history names requests)) same
      ∙ ap (λ b. recent pool.cache_size (history (if b then names else seen) requests)) (sym good)
  | inr bad ↦
      let stays : served_pool pool (engine_for pool name) ≡ pool = ground arith in
      ap (λ p. cached (serve_all p requests)) stays
      ∙ serve_all-recent pool seen d h requests
      ∙ ap
          (λ b.
            recent pool.cache_size
              (history (if b then removed name seen ++ name ∷ [] else seen) requests))
          (sym bad)
]
