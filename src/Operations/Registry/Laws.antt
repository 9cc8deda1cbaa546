-- ===== src/Operations/Registry/Laws.antt =====
-- What the table of operations keeps, and who can register under which origin.
use rheo_stream.Prelude.{
  String, Bool, true, false, not, ◌||◌, List, [], ◌∷◌, Option, none, some, Result, ok, raise, ◌>>◌,
  >>=-eq-ok, str_eq, str_eq_iff, ◌≡◌, ◌⊎◌, refl, ap, ◌∙◌, sym, subst, arith, inl, inr, Bool-cases,
}
use rheo_stream.Prelude.Dict.{lookup, insert, insert-cases, lookup-insert_self, lookup-insert_ne}
use rheo_stream.Contracts.{Model, OperationDeclaration}
use rheo_stream.Settings.Value.{Error}
use rheo_stream.Settings.Registry.{core_origin, test_harness_origin}
use rheo_stream.Operations.Registry.{
  Handler, RegisteredOperation, OperationRegistry, RegistrationError, refuse_unless, check_origin,
  check_origin_profile, check_profile_name, check_model, core_module_id, harness_module_id,
  has_class, module_id_for_origin, name_prefix, record_operation, register, register_under,
  reserved_of, same_registration, Reason,
}

-- A check that is followed by more passed.
refuse_unless-passed :
    {B : Type 0} (b : Bool) (name : String) (why : Reason) (k : Result RegistrationError B) (v : B)
    → (refuse_unless b name why >> k) ≡ ok v
    → (b ≡ true) × (k ≡ ok v)
refuse_unless-passed true name why k v h = (refl, h)
refuse_unless-passed false name why k v h = cc

-- What a registration has checked of an entry.
pub record IsChecked {H : Type 0} (op : RegisteredOperation H) : Type 0 where
  pub prefix : name_prefix op.declaration.name ≡ some op.module_id
  pub owner : module_id_for_origin op.origin ≡ ok op.module_id
  pub core_only : (str_eq op.module_id core_module_id) ≡ true → op.origin ≡ core_origin
  pub harness_only :
      (str_eq op.module_id harness_module_id) ≡ true → op.origin ≡ test_harness_origin
  pub classed : has_class op.declaration.safety_class ≡ true
  pub input :
      (m : Model) × (op.declaration.input_model ≡ some m)
      × (reserved_of m ≡ [])
      × (m.extra_allow ≡ false)

checked-or : (b c : Bool) → (not b || c) ≡ true → b ≡ true → c ≡ true
checked-or b c h e = ground arith

check_model-ok :
    (name : String) (o : Option Model)
    → check_model name o ≡ ok tt
    → (m : Model) × (o ≡ some m) × (reserved_of m ≡ []) × (m.extra_allow ≡ false)
unfolding check_model
check_model-ok name none h = cc
check_model-ok name (some m) h = go (reserved_of m) refl
  where
    go :
        (xs : List String)
        → reserved_of m ≡ xs
        → (n : Model) × (some m ≡ some n) × (reserved_of n ≡ []) × (n.extra_allow ≡ false)
    go [] e = (m, refl, e, ground (arith, refuse_unless))
    go (x ∷ xs) e = ground (arith, check_model)

check_origin-ok :
    (profile : Result Error String) (origin module_id name : String)
    → check_origin profile origin module_id name ≡ ok tt
    → (module_id_for_origin origin ≡ ok module_id)
      × (str_eq module_id core_module_id ≡ true → origin ≡ core_origin)
      × (str_eq module_id harness_module_id ≡ true → origin ≡ test_harness_origin)
      × (check_origin_profile profile origin ≡ ok tt)
unfolding check_origin
check_origin-ok profile origin module_id name h =
    let (expected, found, h1) = >>=-eq-ok (module_id_for_origin origin) _ h in
    let (same, h2) = refuse_unless-passed (str_eq module_id expected) _ _ _ _ h1 in
    let (harness, h3) = refuse_unless-passed _ _ _ _ _ h2 in
    let (core, h4) = refuse_unless-passed _ _ _ _ _ h3 in
    let e = (str_eq_iff module_id expected).0 same in
    (
      rw e found,
      λ c.
          (str_eq_iff origin core_origin).0 (checked-or (str_eq module_id core_module_id) _ core c),
      λ c. (str_eq_iff origin test_harness_origin).0 (checked-or _ _ harness c),
      h4,
    )

test_profile :
    (profile : Result Error String)
    → check_origin_profile profile test_harness_origin ≡ ok tt
    → profile ≡ ok "test"
unfolding check_origin_profile check_profile_name
test_profile (ok name) h = ap ok ((str_eq_iff name "test").0 (ground (arith, refuse_unless)))
test_profile (raise e) h = ground arith

module _ {H : Type 0} where
  -- Every entry stands under its own name, checked.
  abbrev pub IsValid : OperationRegistry H → Type 0
  IsValid reg =
      (name : String) (op : RegisteredOperation H)
      → lookup name reg ≡ some op
      → IsChecked op × (op.declaration.name ≡ name)

  -- The checks passed, with nothing left but what stands under the name.
  register_under-ok :
      (profile : Result Error String) (o : Option String) (reg : OperationRegistry H)
      (decl : OperationDeclaration) (handler : Handler H) (origin : String)
      (r : OperationRegistry H × RegisteredOperation H)
      → name_prefix decl.name ≡ o
      → register_under profile o reg decl handler origin ≡ ok r
      → (op : RegisteredOperation H) × (op.declaration ≡ decl)
        × (op.origin ≡ origin)
        × (op.handler ≡ handler)
        × IsChecked op
        × (check_origin_profile profile origin ≡ ok tt)
        × (record_operation (lookup decl.name reg) reg op ≡ ok r)
  unfolding register_under
  register_under-ok profile none reg decl handler origin r p h = cc
  register_under-ok profile (some module_id) reg decl handler origin r p h =
      let (u1, c1, h1) = >>=-eq-ok (check_origin profile origin module_id decl.name) _ h in
      let (owner, core_only, harness_only, profiled) =
        check_origin-ok profile origin module_id decl.name c1 in
      let (classed, h2) = refuse_unless-passed (has_class decl.safety_class) _ _ _ _ h1 in
      let (u3, c3, h3) = >>=-eq-ok (check_model decl.name decl.input_model) _ h2 in
      (
        record { declaration = decl; handler = handler; origin = origin; module_id = module_id },
        refl,
        refl,
        refl,
        record {
          prefix = p;
          owner = owner;
          core_only = core_only;
          harness_only = harness_only;
          classed = classed;
          input = check_model-ok decl.name decl.input_model c3;
        },
        profiled,
        h3,
      )

  -- What stands under the name is returned unchanged, or the entry is added.
  abbrev Recorded :
      OperationRegistry H
      → OperationDeclaration
      → RegisteredOperation H
      → OperationRegistry H × RegisteredOperation H
      → Type 0
  Recorded reg decl op r =
      ((old : RegisteredOperation H) × (lookup decl.name reg ≡ some old)
        × (same_registration old decl op.handler op.origin ≡ true)
        × (r ≡ (reg, old)))
      ⊎ ((lookup decl.name reg ≡ none) × (r ≡ (insert decl.name op reg, op)))

  record_operation-cases :
      (o : Option (RegisteredOperation H)) (reg : OperationRegistry H) (op : RegisteredOperation H)
      (r : OperationRegistry H × RegisteredOperation H)
      → lookup op.declaration.name reg ≡ o
      → record_operation o reg op ≡ ok r
      → Recorded reg op.declaration op r
  unfolding record_operation
  record_operation-cases none reg op r e h = inr (e, ground arith)
  record_operation-cases (some old) reg op r e h = inl (old, e, ground arith, ground arith)

  module _ (profile : Result Error String) (reg : OperationRegistry H) (decl : OperationDeclaration)
      (handler : Handler H) (origin : String) (r : OperationRegistry H × RegisteredOperation H)
      (h : register profile reg decl handler origin ≡ ok r) where
    register-cases :
        (op : RegisteredOperation H) × (op.declaration ≡ decl)
        × (op.origin ≡ origin)
        × (op.handler ≡ handler)
        × IsChecked op
        × (check_origin_profile profile origin ≡ ok tt)
        × Recorded reg decl op r
    unfolding register
    register-cases =
        let (op, d, o, t, checked, profiled, recorded) =
          register_under-ok profile (name_prefix decl.name) reg decl handler origin r refl h in
        (
          op,
          d,
          o,
          t,
          checked,
          profiled,
          subst (λ x. Recorded reg x op r) d
              (record_operation-cases (lookup op.declaration.name reg) reg op r refl
                (subst (λ x. record_operation (lookup x.name reg) reg op ≡ ok r) (sym d) recorded)),
        )

    -- A registration that returns keeps the table of operations valid: every entry stands under its
    -- own name, is prefixed with the module of its origin (the core's and the harness's only under
    -- theirs), has a safety class, and has a model that declares no reserved field and allows no
    -- extra one.
    pub register-keeps_IsValid : IsValid reg → IsValid r.0
    register-keeps_IsValid valid name found e =
        let (op, d, o, t, checked, profiled, recorded) = register-cases in
        elim recorded [
          | inl (old, there, same, unchanged) ↦ valid name found (rw (unchanged) at e)
          | inr (new, grown) ↦ elim (insert-cases decl.name name op found reg (rw (grown) at e)) [
            | inl (key, value) ↦ rw (← value) (checked, rw d key)
            | inr (other, old) ↦ valid name found old
          ]
        ]

    -- After a registration that returns, every operation of the table before stands in it
    -- unchanged.
    pub register-keeps_operation :
        (name : String) (old : RegisteredOperation H)
        → lookup name reg ≡ some old
        → lookup name r.0 ≡ some old
    register-keeps_operation name old e =
        let (op, d, o, t, checked, profiled, recorded) = register-cases in
        elim recorded [
          | inl (there, found, same, unchanged) ↦ rw unchanged e
          | inr (new, grown) ↦ elim (Bool-cases (str_eq decl.name name)) [
            | inl same ↦ cc ((str_eq_iff decl.name name).0 same)
            | inr other ↦ rw grown (lookup-insert_ne decl.name name op reg other ∙ e)
          ]
        ]

    -- The operation returned stands under the declared name.
    pub register-registers : lookup decl.name r.0 ≡ some r.1
    register-registers =
        let (op, d, o, t, checked, profiled, recorded) = register-cases in
        elim recorded [
          | inl (old, found, same, unchanged) ↦ rw unchanged found
          | inr (new, grown) ↦ rw grown (lookup-insert_self decl.name op reg)
        ]

  -- A registration of an operation under the harness origin returns only where the resolved profile
  -- is "test".
  pub register-harness_profile :
      (profile : Result Error String) (reg : OperationRegistry H) (decl : OperationDeclaration)
      (handler : Handler H) (r : OperationRegistry H × RegisteredOperation H)
      → register profile reg decl handler test_harness_origin ≡ ok r
      → profile ≡ ok "test"
  register-harness_profile profile reg decl handler r h =
      let (op, d, o, t, checked, profiled, recorded) =
        register-cases profile reg decl handler test_harness_origin r h in
      test_profile profile profiled
