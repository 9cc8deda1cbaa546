-- ===== src/Storage/Pools/Laws.antt =====
-- The pool holds one engine per name, for that name, and never more than its size.
use rheo_stream.Prelude.{
  ℕ, suc, ◌≤◌, ◌<◌, String, true, false, not, ◌&&◌, [], ◌∷◌, ◌++◌, Option, none, some, ok,
  >>=-eq-ok, ok_injective, str_eq, str_eq_iff, str_eq_refl, ◌≡◌, refl, ◌∙◌, ap, subst, sym, is_some,
  ltb, arith, elem, elem-append, Bool-cases, inl, inr,
}
use rheo_stream.Prelude.Dict.{Dict, lookup, keys, elem-keys}
use rheo_stream.Prelude.Text.{is_database_name}
use rheo_stream.Storage.Pools.{
  Engine, EnginePool, Served, create_engine, check_database_name, size, without, evict, serve,
  engine_for,
}

-- Every entry is for its name, and no name stands twice.
abbrev pub IsKeyed : Dict Engine → Type 0
IsKeyed [] = Unit
IsKeyed ((k, e) ∷ d) = (e.database ≡ k) × (elem k (keys d) ≡ false) × IsKeyed d

pub record IsValid (pool : EnginePool) : Type 0 where
  pub keyed : IsKeyed pool.engines
  pub bounded : size pool.engines ≤ pool.cache_size
  pub positive : 1 ≤ pool.cache_size

elem-keys-without :
    (k name : String) (d : Dict Engine)
    → elem k (keys (without name d)) ≡ (elem k (keys d) && not (str_eq k name))
unfolding elem keys without
elem-keys-without k name [] = refl
elem-keys-without k name ((j, e) ∷ d) =
    ground (arith, elem-keys-without k name d, str_eq_iff j name, str_eq_iff k j, str_eq_iff k name)

without-IsKeyed : (name : String) (d : Dict Engine) → IsKeyed d → IsKeyed (without name d)
unfolding without keys
without-IsKeyed name [] h = tt
without-IsKeyed name ((j, e) ∷ d) h = elim (Bool-cases (str_eq j name)) [
  | inl same ↦ rw same (without-IsKeyed name d h.2)
  | inr other ↦
      rw other (h.0, rw (elem-keys-without j name d, h.1) refl, without-IsKeyed name d h.2)
]

keys-append : (d f : Dict Engine) → keys (d ++ f) ≡ keys d ++ keys f
unfolding keys
keys-append [] f = refl
keys-append ((k, e) ∷ d) f = ap (λ ks. k ∷ ks) (keys-append d f)

append-IsKeyed :
    (d : Dict Engine) (name : String) (e : Engine)
    → IsKeyed d
    → e.database ≡ name
    → elem name (keys d) ≡ false
    → IsKeyed (d ++ (name, e) ∷ [])
unfolding keys elem
append-IsKeyed [] name e h same new = (same, refl, tt)
append-IsKeyed ((k, f) ∷ d) name e h same new = (
  h.0,
  rw (keys-append d ((name, e) ∷ []), elem-append k (keys d) (name ∷ []), h.1)
      (ground (arith, str_eq_iff k name, str_eq_iff name k)),
  append-IsKeyed d name e h.2 same (ground arith),
)

size-append : (d : Dict Engine) (p : String × Engine) → size (d ++ p ∷ []) ≡ suc (size d)
size-append [] p = refl
size-append (e ∷ d) p = ap suc (size-append d p)

size-without_le : (name : String) (d : Dict Engine) → size (without name d) ≤ size d
unfolding without
size-without_le name [] = omega arith
size-without_le name ((k, e) ∷ d) = ground (arith, size-without_le name d)

size-without_lt :
    (name : String) (d : Dict Engine) → elem name (keys d) ≡ true → size (without name d) < size d
unfolding without keys elem
size-without_lt name [] h = ground arith
size-without_lt name ((k, e) ∷ d) h =
    ground
      (arith, size-without_lt name d, size-without_le name d, str_eq_iff k name, str_eq_iff name k)

evict-IsKeyed : (n : ℕ) (d : Dict Engine) → IsKeyed d → IsKeyed (evict n d).0
unfolding evict
evict-IsKeyed n [] h = tt
evict-IsKeyed n ((k, e) ∷ d) h = elim (Bool-cases (ltb n (size ((k, e) ∷ d)))) [
  | inl over ↦ rw over (evict-IsKeyed n d h.2)
  | inr fits ↦ rw fits h
]

size-evict : (n : ℕ) (d : Dict Engine) → size (evict n d).0 ≤ n
unfolding evict
size-evict n [] = omega arith
size-evict n ((k, e) ∷ d) = ground (arith, size-evict n d)

lookup-last :
    (d : Dict Engine) (name : String) (e : Engine)
    → elem name (keys d) ≡ false
    → lookup name (d ++ (name, e) ∷ []) ≡ some e
unfolding lookup keys elem
lookup-last [] name e new = ground (arith, str_eq_refl name)
lookup-last ((k, f) ∷ d) name e new =
    ground (arith, lookup-last d name e, str_eq_iff k name, str_eq_iff name k)

-- The last entry, which is the one just used, stays.
lookup-evict :
    (n : ℕ) (d : Dict Engine) (name : String) (e : Engine)
    → 1 ≤ n
    → elem name (keys d) ≡ false
    → lookup name (evict n (d ++ (name, e) ∷ [])).0 ≡ some e
unfolding evict lookup keys elem
lookup-evict n [] name e h new = ground (arith, str_eq_refl name)
lookup-evict n ((k, f) ∷ d) name e h new = ground (
  arith,
  lookup-evict n d name e h,
  lookup-last d name e,
  str_eq_iff k name,
  str_eq_iff name k,
  size-append d (name, e),
)

lookup-database :
    (d : Dict Engine) (name : String) (e : Engine)
    → IsKeyed d
    → lookup name d ≡ some e
    → e.database ≡ name
unfolding lookup
lookup-database [] name e h found = ground arith
lookup-database ((k, f) ∷ d) name e h found = elim (Bool-cases (str_eq k name)) [
  | inl same ↦ ground (arith, str_eq_iff k name, h.0)
  | inr differs ↦ lookup-database d name e h.2 (rw differs at found)
]

elem-without : (name : String) (d : Dict Engine) → elem name (keys (without name d)) ≡ false
elem-without name d = ground (arith, elem-keys-without name name d, str_eq_refl name)

accepted_name : (name accepted : String) → check_database_name name ≡ ok accepted → name ≡ accepted
unfolding check_database_name
accepted_name name accepted h = ground arith

-- What a call leaves: a valid pool of the same size, in which the engine returned stands under its
-- name, and connects to it.
abbrev IsServed : EnginePool → String → Served → Type 0
IsServed pool name s =
    IsValid s.pool
    × (s.pool.cache_size ≡ pool.cache_size)
    × (s.engine.database ≡ name)
    × (lookup name s.pool.engines ≡ some s.engine)

module _ (pool : EnginePool) (name : String) (valid : IsValid pool) where
  serve-IsServed :
      (o : Option Engine) → lookup name pool.engines ≡ o → IsServed pool name (serve o pool name)
  unfolding serve
  serve-IsServed (some e) found =
      let same = lookup-database pool.engines name e valid.keyed found in
      let others = without-IsKeyed name pool.engines valid.keyed in
      let absent = elem-without name pool.engines in
      (
        record {
          keyed = append-IsKeyed (without name pool.engines) name e others same absent;
          bounded = ground (
            arith,
            size-append (without name pool.engines) (name, e),
            size-without_lt name pool.engines (elem-keys name pool.engines ∙ ap is_some found),
            valid.bounded,
          );
          positive = valid.positive;
        },
        refl,
        same,
        lookup-last (without name pool.engines) name e absent,
      )
  serve-IsServed none missing =
      let e = create_engine name in
      let absent = elem-keys name pool.engines ∙ ap is_some missing in
      (
        record {
          keyed =
              evict-IsKeyed pool.cache_size (pool.engines ++ (name, e) ∷ [])
                (append-IsKeyed pool.engines name e valid.keyed refl absent);
          bounded = size-evict pool.cache_size (pool.engines ++ (name, e) ∷ []);
          positive = valid.positive;
        },
        refl,
        refl,
        lookup-evict pool.cache_size pool.engines name e valid.positive absent,
      )

  -- Where `engine_for` returns from a valid pool, it leaves a valid pool (one engine per name, each
  -- for its name, no more than the size) of the same size, and returns an engine for the name,
  -- which the pool keeps.
  pub engine_for-IsServed : (s : Served) → engine_for pool name ≡ ok s → IsServed pool name s
  unfolding engine_for check_database_name
  engine_for-IsServed s h =
      let (accepted, checked, done) = >>=-eq-ok (check_database_name name) _ h in
      let same = accepted_name name accepted checked in
      subst (IsServed pool name)
        (subst (λ x. serve (lookup x pool.engines) pool x ≡ s) (sym same) (ok_injective done))
        (serve-IsServed (lookup name pool.engines) refl)

-- A name of the accepted shape is always served.
pub engine_for-accepts :
    (pool : EnginePool) (name : String)
    → is_database_name name ≡ true
    → (s : Served) × (engine_for pool name ≡ ok s)
unfolding engine_for check_database_name
engine_for-accepts pool name good = (serve (lookup name pool.engines) pool name, ground arith)
