-- ===== src/Settings/WritePath/Laws.antt =====
-- What acceptance by `validate_override` means, for the stored row and for the next read of it.
use rheo_stream.Prelude.{
  String, true, false, not, ◌||◌, List, [], ◌∷◌, Option, none, some, ok, ◌≡◌, sym, ◌∙◌, ap, subst,
  arith, Bool-cases, Option-cases, inl, inr, ok_injective, >>=-eq-ok,
}
use rheo_stream.Prelude.Dict.{Dict, lookup}
use rheo_stream.Settings.Value.{
  Scope, deployment, Floor, ValueType, Value, HasType, same_scope, matches_type, freeze_value,
  freeze_value-HasType, matches_type-freeze,
}
use rheo_stream.Settings.Spec.{KeySpec, allows, check_value}
use rheo_stream.Settings.Codec.{decode_text, encode_text}
use rheo_stream.Settings.Codec.RoundTrip.{IsEncodable, encode_text-decode_text}
use rheo_stream.Settings.Registry.{Registry}
use rheo_stream.Settings.Registry.Laws.{IsValid}
use rheo_stream.Settings.Floor.{is_looser}
use rheo_stream.Settings.Floor.Laws.{Within, SameMeaning}
use rheo_stream.Settings.Resolver.{apply_rows}
use rheo_stream.Settings.Resolver.Rows.{FloorHolds, apply_rows_one}
use rheo_stream.Settings.WritePath.{accepted, accept, under_floor, validate_spec, validate_override}

-- The floor holds between the deployment value, once it is checked, and the accepted value.
abbrev FloorChecked : Option Floor → KeySpec → Value → Value → Type 0
FloorChecked none spec deployed v = Unit
FloorChecked (some f) spec deployed v =
    (base : Value) × (check_value spec deployed ≡ ok base) × Within f base v

module _ (show : Value → String) where
  accept-eq :
      (spec : KeySpec) (key k : String) (frozen v : Value) (t : String) (y : ValueType)
      → accept show spec key frozen ≡ ok (accepted k v t y)
      → (frozen ≡ v) × (encode_text show spec v ≡ ok t) × (y ≡ spec.type)
  unfolding accept
  accept-eq spec key k frozen v t y h =
      let (u, encoded, same) = >>=-eq-ok (encode_text show spec frozen) _ h in
      let frozen_eq : frozen ≡ v = cc same in (frozen_eq, cc (encoded, frozen_eq, same), cc same)

  under_floor-eq :
      (fl : Option Floor) (spec : KeySpec) (key k : String) (deployed frozen v : Value) (t : String)
      (y : ValueType)
      → under_floor show fl spec key deployed frozen ≡ ok (accepted k v t y)
      → (frozen ≡ v)
        × (encode_text show spec v ≡ ok t)
        × (y ≡ spec.type)
        × FloorChecked fl spec deployed v
  unfolding under_floor
  under_floor-eq none spec key k deployed frozen v t y h =
      let (e, encoded, typed) = accept-eq spec key k frozen v t y h in (e, encoded, typed, tt)
  under_floor-eq (some f) spec key k deployed frozen v t y h =
      let (base, checked, h') = >>=-eq-ok (check_value spec deployed) _ h in
      let (b, tested, h'') = >>=-eq-ok (is_looser f base frozen) _ h' in
      let not_looser : b ≡ false = ground arith in
      let (e, encoded, typed) = accept-eq spec key k frozen v t y (rw not_looser at h'') in
      (
        e,
        encoded,
        typed,
        (base, checked, subst (λ u. Within f base u) e (tested ∙ ap ok not_looser)),
      )

check_value-freeze :
    (spec : KeySpec) (v w : Value) → check_value spec v ≡ ok w → freeze_value v ≡ ok w
unfolding check_value
check_value-freeze spec v w h = ground arith

-- A check that returned gave the frozen deployment value.
FloorHolds-checked :
    (fl : Option Floor) (spec : KeySpec) (deployed d v : Value)
    → freeze_value deployed ≡ ok d
    → FloorChecked fl spec deployed v
    → FloorHolds fl d v
FloorHolds-checked none spec deployed d v froze h = tt
FloorHolds-checked (some f) spec deployed d v froze (base, checked, within) =
    let same : base ≡ d =
      ok_injective (sym (check_value-freeze spec deployed base checked) ∙ froze) in
    subst (λ b. Within f b v) same within

allows-freeze :
    (cs : Option (List String)) (v w : Value) → freeze_value v ≡ ok w → allows cs v ≡ allows cs w
unfolding freeze_value
allows-freeze cs v w h = ground arith

-- What an accepted write has passed.
pub record IsAdmitted (show : Value → String) (reg : Registry) (key : String) (deployed : Value)
    (scope : Scope) (v : Value) (t : String) (y : ValueType) : Type 0 where
  pub spec : KeySpec
  pub declared : lookup key reg.declared ≡ some spec
  pub not_deployment : same_scope scope deployment ≡ false
  pub in_scope : same_scope spec.scope scope ≡ true
  pub typed : HasType spec.type v
  pub allowed : allows spec.choices v ≡ true
  pub encoded : encode_text show spec v ≡ ok t
  pub type_named : y ≡ spec.type
  pub floor_checked : FloorChecked spec.floor spec deployed v

module _ (show : Value → String) (reg : Registry) (key : String) (value deployed : Value)
    (scope : Scope) (k : String) (v : Value) (t : String) (y : ValueType) (spec : KeySpec)
    (found : lookup key reg.declared ≡ some spec) where
  admitted_value :
      (frozen : Value)
      → freeze_value value ≡ ok frozen
      → (same_scope scope deployment || not (same_scope spec.scope scope)) ≡ false
      → (not (matches_type spec.type value) || not (allows spec.choices value)) ≡ false
      → under_floor show spec.floor spec key deployed frozen ≡ ok (accepted k v t y)
      → IsAdmitted show reg key deployed scope v t y
  admitted_value frozen froze scoped fits h =
      let (e, encoded, typed, checked) =
        under_floor-eq show spec.floor spec key k deployed frozen v t y h in
      let froze' : freeze_value value ≡ ok v = froze ∙ ap ok e in
      record {
        spec = spec;
        declared = found;
        not_deployment = ground arith;
        in_scope = ground arith;
        typed =
            freeze_value-HasType spec.type value v froze'
              (sym (matches_type-freeze spec.type value v froze') ∙ ground arith);
        allowed = sym (allows-freeze spec.choices value v froze') ∙ ground arith;
        encoded = encoded;
        type_named = typed;
        floor_checked = checked;
      }

  admitted_spec :
      validate_spec show (some spec) key value deployed scope ≡ ok (accepted k v t y)
      → IsAdmitted show reg key deployed scope v t y
  unfolding validate_spec
  admitted_spec h =
      elim (Bool-cases (same_scope scope deployment || not (same_scope spec.scope scope))) [
        | inl bad ↦ cc (rw bad at h)
        | inr scoped ↦
            elim (Bool-cases
              (not (matches_type spec.type value) || not (allows spec.choices value))) [
                | inl bad ↦ cc (rw (scoped, bad) at h)
                | inr fits ↦
                    let (frozen, froze, h') =
                      >>=-eq-ok (freeze_value value) _ (rw (scoped, fits) at h) in
                    admitted_value frozen froze scoped fits h'
              ]
      ]

module _ (show : Value → String) (reg : Registry) (key : String) (value deployed : Value)
    (scope : Scope) (k : String) (v : Value) (t : String) (y : ValueType)
    (h : validate_override show reg key value deployed scope ≡ ok (accepted k v t y)) where
  -- A write that is accepted is of a declared key in its own scope, which is not the deployment's;
  -- the value has the declared type, is among the choices, is no looser than the deployment value
  -- under the floor, and the text is its encoding.
  pub validate_override-IsAdmitted : IsAdmitted show reg key deployed scope v t y
  unfolding validate_override
  validate_override-IsAdmitted = elim (Option-cases (lookup key reg.declared)) [
    | inl missing ↦ cc (rw missing at h)
    | inr (spec, found) ↦
        admitted_spec show reg key value deployed scope k v t y spec found (rw found at h)
  ]

  -- Over a valid table, let a write be accepted whose value is encodable (the items of a list are
  -- clean), and let the resolved values hold the deployment value that it was checked against, of
  -- the declared type. Then applying the stored row to them returns, and the key has the value that
  -- was accepted, up to the order of a list.
  pub accepted_takes_effect :
      IsValid reg
      → IsEncodable v
      → (values : Dict Value) (d : Value) → lookup key values ≡ some d
      → freeze_value deployed ≡ ok d
      → HasType y d
      → (out : Dict Value) × (apply_rows reg scope ((key, t) ∷ []) values ≡ ok out)
        × (w : Value) × (lookup key out ≡ some w)
        × SameMeaning y w v
  accepted_takes_effect valid clean values d at_key froze hd =
      let a = validate_override-IsAdmitted in
      let (u, encoded, decoded) = encode_text-decode_text show a.spec v a.typed a.allowed clean in
      let same_text : u ≡ t = ok_injective (sym encoded ∙ a.encoded) in
      subst
        (λ z.
          (out : Dict Value) × (apply_rows reg scope ((key, t) ∷ []) values ≡ ok out)
          × (w : Value) × (lookup key out ≡ some w)
          × SameMeaning z w v)
        (sym a.type_named)
        (apply_rows_one reg scope values key t a.spec d v (valid.at_key key a.spec a.declared).0
          a.declared a.in_scope (subst (λ z. decode_text a.spec z ≡ ok v) same_text decoded) at_key
          (subst (λ z. HasType z d) a.type_named hd)
          (FloorHolds-checked a.spec.floor a.spec deployed d v froze a.floor_checked))
