-- ===== src/Settings/Resolver/Rows.antt =====
-- The bounds that the override rows keep: a value of the declared type, no looser than the base
-- value under its floor, and the base value itself for a deployment key.
use rheo_stream.Prelude.{
  subst, String, true, [], ◌∷◌, Option, none, some, ok, ◌≡◌, ◌≢◌, refl, sym, ◌∙◌, arith, inl, inr,
  Bool-cases, Option-cases, Result-cases, str_eq, str_eq_iff,
}
use rheo_stream.Prelude.Dict.{Dict, lookup, insert, lookup-insert_self, lookup-insert_ne}
use rheo_stream.Settings.Value.{
  Scope, deployment, Floor, ValueType, Value, HasType, str_type, int_type, bool_type, str_list_type,
  floor_type, same_scope, same_type,
}
use rheo_stream.Settings.Spec.{KeySpec, IsDeclared, floor_fits}
use rheo_stream.Settings.Codec.{decode_text}
use rheo_stream.Settings.Codec.Typing.{decode_text-HasType}
use rheo_stream.Settings.Registry.{Registry}
use rheo_stream.Settings.Registry.Laws.{IsValid}
use rheo_stream.Settings.Floor.Laws.{
  Within, Within-trans, apply_floor-Within, apply_floor_exact, SameMeaning,
}
use rheo_stream.Settings.Resolver.{store, row_value, floored, or_key_error, apply_rows}

-- `v` stands for a key of `spec` whose base value is `d`.
abbrev pub FloorHolds : Option Floor → Value → Value → Type 0
FloorHolds none d v = Unit
FloorHolds (some f) d v = Within f d v

pub record IsBounded (spec : KeySpec) (d v : Value) : Type 0 where
  pub base_typed : HasType spec.type d
  pub typed : HasType spec.type v
  pub floor_holds : FloorHolds spec.floor d v
  pub deployment_only : spec.scope ≡ deployment → v ≡ d

-- Every declared key has a base value and a value within its bounds.
pub record IsGood (reg : Registry) (base values : Dict Value) : Type 0 where
  pub at_key :
      (k : String) (spec : KeySpec)
      → lookup k reg.declared ≡ some spec
      → (d : Value) × (v : Value) × (lookup k base ≡ some d)
        × (lookup k values ≡ some v)
        × IsBounded spec d v

pub same_type→eq : (s t : ValueType) → same_type s t ≡ true → s ≡ t
same_type→eq s t h = ground arith

same_scope→eq : (s t : Scope) → same_scope s t ≡ true → s ≡ t
same_scope→eq s t h = ground arith

-- The value under a floor exists, has the type and holds the floor.
floored-FloorHolds :
    (values : Dict Value) (key : String) (fl : Option Floor) (t : ValueType) (d v o : Value)
    → floor_fits fl t ≡ true
    → HasType t d
    → HasType t v
    → HasType t o
    → FloorHolds fl d v
    → lookup key values ≡ some v
    → (w : Value) × (floored fl values key o ≡ ok w) × HasType t w × FloorHolds fl d w
unfolding floored or_key_error
floored-FloorHolds values key none t d v o fits hd hv ho holds e = (o, refl, ho, tt)
floored-FloorHolds values key (some f) t d v o fits hd hv ho holds e =
    let p = same_type→eq (floor_type f) t fits in
    let (w, applied, typed, within) = apply_floor-Within f v o (rw p hv) (rw p ho) in
    (w, rw e applied, rw (← p) typed, Within-trans f d v w (rw p hd) (rw p hv) typed holds within)

module _ (reg : Registry) (base values : Dict Value) where
  -- Storing a value within its bounds keeps every key good.
  IsGood-insert :
      (key : String) (spec : KeySpec) (d v : Value)
      → IsGood reg base values
      → lookup key reg.declared ≡ some spec
      → lookup key base ≡ some d
      → IsBounded spec d v
      → IsGood reg base (insert key v values)
  IsGood-insert key spec d v good found based bounded = record {
    at_key = λ k s e. elim (Bool-cases (str_eq key k)) [
      | inl same ↦
          let p = (str_eq_iff key k).0 same in
          let q : spec ≡ s = cc (p, found, e) in
          (d, v, rw (← p) based, rw (← p) (lookup-insert_self key v values), rw (← q) bounded)
      | inr other ↦
          let (d', v', at_base, at_values, within) = good.at_key k s e in
          (d', v', at_base, lookup-insert_ne key k v values other ∙ at_values, within)
    ];
  }

  -- A row for a declared key of the scope, whose text decodes, is stored under its floor.
  row-IsGood :
      (scope : Scope) (key : String) (spec : KeySpec) (o : Value)
      → IsDeclared spec
      → scope ≢ deployment
      → IsGood reg base values
      → lookup key reg.declared ≡ some spec
      → spec.scope ≡ scope
      → HasType spec.type o
      → (w : Value) × (floored spec.floor values key o ≡ ok w)
        × IsGood reg base (insert key w values)
  row-IsGood scope key spec o declared movable good found in_scope typed =
      let (d, v, at_base, at_values, within) = good.at_key key spec found in
      let (w, stored, has_type, holds) =
        floored-FloorHolds values key spec.floor spec.type d v o declared.floored within.base_typed
          within.typed typed within.floor_holds at_values in
      (
        w,
        stored,
        IsGood-insert key spec d w good found at_base (record {
          base_typed = within.base_typed;
          typed = has_type;
          floor_holds = holds;
          deployment_only = λ e. absurd (movable (sym in_scope ∙ e));
        }),
      )

  store-IsGood :
      (scope : Scope) (key t : String)
      → IsValid reg
      → scope ≢ deployment
      → IsGood reg base values
      → (out : Dict Value) × (store values key (row_value reg scope values key t) ≡ ok out)
        × IsGood reg base out
  unfolding store row_value
  store-IsGood scope key t valid movable good = elim (Option-cases (lookup key reg.declared)) [
    | inl missing ↦ (values, rw (missing, store, row_value), good)
    | inr (spec, found) ↦ elim (Bool-cases (same_scope spec.scope scope)) [
      | inr elsewhere ↦ (values, rw (found, elsewhere, store, row_value), good)
      | inl here ↦ elim (Result-cases (decode_text spec t)) [
        | inr (e, failed) ↦ (values, rw (found, here, failed, store, row_value), good)
        | inl (o, decoded) ↦
            let (w, stored, kept) =
              row-IsGood scope key spec o (valid.at_key key spec found).0 movable good found
                (same_scope→eq spec.scope scope here) (decode_text-HasType spec t o decoded).0 in
            (insert key w values, rw (found, here, decoded, stored, store, row_value), kept)
      ]
    ]
  ]

-- Applying rows never raises, and keeps every declared key within its bounds.
pub apply_rows-IsGood :
    (reg : Registry) (base : Dict Value) (scope : Scope) (rows : Dict String) (values : Dict Value)
    → IsValid reg
    → scope ≢ deployment
    → IsGood reg base values
    → (out : Dict Value) × (apply_rows reg scope rows values ≡ ok out) × IsGood reg base out
unfolding apply_rows
apply_rows-IsGood reg base scope [] values valid movable good = (values, refl, good)
apply_rows-IsGood reg base scope ((key, t) ∷ rows) values valid movable good =
    let (mid, stored, kept) = store-IsGood reg base values scope key t valid movable good in
    let (out, applied, still) = apply_rows-IsGood reg base scope rows mid valid movable kept in
    (out, rw stored applied, still)

SameMeaning-refl : (t : ValueType) (v : Value) → HasType t v → SameMeaning t v v
SameMeaning-refl str_type v h = refl
SameMeaning-refl int_type v h = refl
SameMeaning-refl bool_type v h = refl
SameMeaning-refl str_list_type v (xs, e) = (xs, xs, e, e, λ x. refl)

-- An override that holds the floor is what the floor gives, up to the order of a list.
floored_exact :
    (values : Dict Value) (key : String) (fl : Option Floor) (t : ValueType) (d o : Value)
    → floor_fits fl t ≡ true
    → HasType t d
    → HasType t o
    → FloorHolds fl d o
    → lookup key values ≡ some d
    → (w : Value) × (floored fl values key o ≡ ok w) × SameMeaning t w o
unfolding floored or_key_error
floored_exact values key none t d o fits hd ho holds e = (o, refl, SameMeaning-refl t o ho)
floored_exact values key (some f) t d o fits hd ho holds e =
    let p = same_type→eq (floor_type f) t fits in
    let (w, applied, typed, within) = apply_floor-Within f d o (rw p hd) (rw p ho) in
    (
      w,
      rw e applied,
      subst (λ y. SameMeaning y w o) p
          (apply_floor_exact f d o w (rw p hd) (rw p ho) holds applied),
    )

-- One row whose text decodes to an override that holds the floor: the key then means the override.
pub apply_rows_one :
    (reg : Registry) (scope : Scope) (values : Dict Value) (key t : String) (spec : KeySpec)
    (d o : Value)
    → IsDeclared spec
    → lookup key reg.declared ≡ some spec
    → same_scope spec.scope scope ≡ true
    → decode_text spec t ≡ ok o
    → lookup key values ≡ some d
    → HasType spec.type d
    → FloorHolds spec.floor d o
    → (out : Dict Value) × (apply_rows reg scope ((key, t) ∷ []) values ≡ ok out)
      × (w : Value) × (lookup key out ≡ some w)
      × SameMeaning spec.type w o
unfolding apply_rows
apply_rows_one reg scope values key t spec d o declared found here decoded at_key hd holds =
    let (w, stored, same) =
      floored_exact values key spec.floor spec.type d o declared.floored hd
        (decode_text-HasType spec t o decoded).0 holds at_key in
    (
      insert key w values,
      rw (found, here, decoded, stored, store, row_value),
      w,
      lookup-insert_self key w values,
      same,
    )
