-- ===== src/Settings/Registry/Laws.antt =====
-- Registration keeps the table well formed and never changes a declaration.
use rheo_stream.Prelude.{
  String, ◌≡◌, refl, ◌∙◌, ap, sorted, elem, elem-sorted, sym, subst, Option-cases, List, [], ◌∷◌,
  raise, Bool-cases, true, ok, some, none, Result, arith, str_eq, str_eq_iff, str_eq_refl, is_some,
  ◌⊎◌, inl, inr, Option,
}
use mathlib.Core.List.{Memᴰ}
use rheo_stream.Prelude.Dict.{
  keys, elem-keys, lookup, insert, lookup-insert, lookup-insert_ne, lookup-insert_self,
  insert-cases,
}
use rheo_stream.Settings.Value.{Error, same_value_refl}
use rheo_stream.Settings.Spec.{KeySpec, IsDeclared}
use rheo_stream.Settings.Registry.{
  Registry, empty, register, test_harness_origin, same_spec, is_origin, same_texts, same_choices,
  pick, specs,
}

-- Every key has a well declared spec of its own name, and an origin.
pub record IsValid (reg : Registry) : Type 0 where
  pub at_key :
      (k : String) (s : KeySpec) → lookup k reg.declared ≡ some s → IsDeclared s × (s.key ≡ k)
  pub has_origin : (k : String) → is_some (lookup k reg.declared) ≡ is_some (lookup k reg.origins)

pub IsValid-empty : IsValid empty
unfolding lookup
IsValid-empty = record { at_key = λ k s h. ground arith; has_origin = λ k. refl }

abbrev added : Registry → KeySpec → String → Registry
added reg spec origin = record {
  declared = insert spec.key spec reg.declared;
  origins = insert spec.key origin reg.origins;
}

added-IsValid :
    (reg : Registry) (spec : KeySpec) (origin : String)
    → IsValid reg
    → IsDeclared spec
    → IsValid (added reg spec origin)
added-IsValid reg spec origin valid declared = record {
  at_key = λ k s e. elim (insert-cases spec.key k spec s reg.declared e) [
    | inl (key, same) ↦ rw (← same) (declared, key)
    | inr (other, old) ↦ valid.at_key k s old
  ];
  has_origin = λ k. ground (
    arith,
    lookup-insert spec.key k spec reg.declared,
    lookup-insert spec.key k origin reg.origins,
    valid.has_origin k,
  );
}

same_texts_refl : (xs : List String) → same_texts xs xs ≡ true
same_texts_refl [] = refl
same_texts_refl (x ∷ xs) = rw (str_eq_refl x, same_texts_refl xs)

same_choices_refl : (c : Option (List String)) → same_choices c c ≡ true
same_choices_refl none = refl
same_choices_refl (some xs) = same_texts_refl xs

same_spec_refl : (s : KeySpec) → same_spec s s ≡ true
unfolding same_spec
same_spec_refl s =
    ground (arith, str_eq_refl s.key, same_value_refl s.default, same_choices_refl s.choices)

-- What a registration that returns has done: nothing, for the spec that is there under the same
-- origin, or one new entry.
abbrev Registered : Registry → KeySpec → String → Registry → Type 0
Registered reg spec origin r =
    ((s : KeySpec) × (lookup spec.key reg.declared ≡ some s)
      × (same_spec s spec ≡ true)
      × (is_origin (lookup spec.key reg.origins) origin ≡ true)
      × (r ≡ reg))
    ⊎ ((lookup spec.key reg.declared ≡ none) × (r ≡ added reg spec origin))

module _ (profile : Result Error String) (reg : Registry) (spec : KeySpec) (origin : String)
    (r : Registry) (h : register profile reg spec origin ≡ ok r) where
  register-cases : Registered reg spec origin r
  unfolding register
  register-cases = go (lookup spec.key reg.declared) refl
    where
      go : (o : Option KeySpec) → lookup spec.key reg.declared ≡ o → Registered reg spec origin r
      go none e = inr (e, ground arith)
      go (some s) e = inl (s, e, ground arith, ground arith, ground arith)

  -- A registration of a well declared spec that returns keeps the table of settings valid: every
  -- key has a well declared spec of its own name, and an origin.
  pub register-IsValid : IsValid reg → IsDeclared spec → IsValid r
  register-IsValid valid declared = elim register-cases [
    | inl (s, found, same, origin_same, unchanged) ↦ rw unchanged valid
    | inr (new, grown) ↦ rw grown (added-IsValid reg spec origin valid declared)
  ]

  -- After a registration of a spec that returns, every key declared before has the same spec and
  -- the same origin.
  pub register_keeps :
      (k : String) (s : KeySpec)
      → lookup k reg.declared ≡ some s
      → (lookup k r.declared ≡ some s) × (lookup k r.origins ≡ lookup k reg.origins)
  register_keeps k s e = elim register-cases [
    | inl (s', found, same, origin_same, unchanged) ↦ rw unchanged (e, refl)
    | inr (new, grown) ↦ elim (Bool-cases (str_eq spec.key k)) [
      | inl same ↦ cc ((str_eq_iff spec.key k).0 same)
      | inr other ↦ rw grown (
        lookup-insert_ne spec.key k spec reg.declared other ∙ e,
        lookup-insert_ne spec.key k origin reg.origins other,
      )
    ]
  ]

  -- After a registration the key has a spec equal to the one given, under the origin given.
  pub register_declares :
      (s : KeySpec) × (lookup spec.key r.declared ≡ some s)
      × (same_spec s spec ≡ true)
      × (is_origin (lookup spec.key r.origins) origin ≡ true)
  register_declares = elim register-cases [
    | inl (s, found, same, origin_same, unchanged) ↦
        (s, rw unchanged found, same, rw unchanged origin_same)
    | inr (new, grown) ↦ (
      spec,
      rw grown (lookup-insert_self spec.key spec reg.declared),
      same_spec_refl spec,
      rw (grown, lookup-insert_self, str_eq_refl),
    )
  ]

  -- A registration of a spec that returns, repeated on the table that it returned, returns that
  -- table.
  pub register_twice : register profile r spec origin ≡ ok r
  unfolding register
  register_twice =
      let (s, found, same, origin_same) = register_declares in
      ground (arith, found, same, origin_same)

-- A registration of a spec under the harness origin returns only where the resolved profile is
-- "test".
pub register_harness :
    (profile : Result Error String) (reg : Registry) (spec : KeySpec) (r : Registry)
    → register profile reg spec test_harness_origin ≡ ok r
    → profile ≡ ok "test"
unfolding register
register_harness (ok name) reg spec r h = ap ok ((str_eq_iff name "test").0 (ground arith))
register_harness (raise e) reg spec r h = ground arith

-- The specs stand in the table under their own keys.
abbrev pub AreListed : Registry → List KeySpec → Type 0
AreListed reg [] = Unit
AreListed reg (s ∷ ss) = (lookup s.key reg.declared ≡ some s) × AreListed reg ss

module _ (reg : Registry) (valid : IsValid reg) where
  pick-AreListed : (ks : List String) → AreListed reg (pick reg.declared ks)
  unfolding pick
  pick-AreListed [] = tt
  pick-AreListed (k ∷ ks) = elim (Option-cases (lookup k reg.declared)) [
    | inl missing ↦ rw (missing, pick) (pick-AreListed ks)
    | inr (s, found) ↦
        rw (found, pick)
          (
            subst (λ x. lookup x reg.declared ≡ some s) (sym (valid.at_key k s found).1) found,
            pick-AreListed ks,
          )
  ]

  pub specs-AreListed : AreListed reg (specs reg)
  unfolding specs
  specs-AreListed = pick-AreListed (sorted (keys reg.declared))

  -- Every declared spec is among the specs.
  mem-pick :
      (k : String) (s : KeySpec) (ks : List String)
      → lookup k reg.declared ≡ some s
      → elem k ks ≡ true
      → Memᴰ s (pick reg.declared ks)
  unfolding pick elem
  mem-pick k s [] found m = cc
  mem-pick k s (j ∷ ks) found m = elim (Bool-cases (str_eq k j)) [
    | inl same ↦
        let at_j = subst (λ x. lookup x reg.declared ≡ some s) ((str_eq_iff k j).0 same) found in
        rw (at_j, pick) (Memᴰ.head refl)
    | inr other ↦
        let later = mem-pick k s ks found (rw other at m) in
        elim (Option-cases (lookup j reg.declared)) [
          | inl missing ↦ rw (missing, pick) later
          | inr (t, at_j) ↦ rw (at_j, pick) (Memᴰ.tail later)
        ]
  ]

  pub mem-specs : (k : String) (s : KeySpec) → lookup k reg.declared ≡ some s → Memᴰ s (specs reg)
  unfolding specs
  mem-specs k s found =
      mem-pick k s (sorted (keys reg.declared)) found
        (elem-sorted k (keys reg.declared) ∙ elem-keys k reg.declared ∙ ap is_some found)
