-- ===== src/Operations/Registry.antt =====
-- operations/registry.py: registration and `authorize`. A handler is an object of type `H`, compared
-- by its identity.
pub mod Laws
pub mod Authorize
use rheo_stream.Prelude.{
  ℕ, String, Bool, true, false, not, ◌&&◌, ◌||◌, List, [], ◌∷◌, ◌++◌, Option, none, some, Result,
  ok, raise, ◌>>=◌, ◌>>◌, str_eq, ◌==◌, if◌then◌else◌, elem, inter,
}
use rheo_stream.Prelude.Dict.{Dict, lookup, insert, keys}
use rheo_stream.Prelude.Text.{split, is_segment}
use rheo_stream.Contracts.{
  Role, same_role, Field, Model, OperationDeclaration, OperationSet, all_operations, only,
  SafetyClass, read, draft, mutate, destructive, external, financial, Idempotency, not_idempotent,
  natural, WorkspaceContext, reserved_input_fields,
}
use rheo_stream.Settings.Value.{Error}
use rheo_stream.Settings.Registry.{core_origin, test_harness_origin}

abbrev pub core_module_id : String
core_module_id = "core"

abbrev pub harness_module_id : String
harness_module_id = "harness"

-- Why a declaration is refused.
pub data Reason : Type 0 where
  bad_name wrong_prefix harness_reserved core_reserved profile_not_test no_safety_class : Reason
  not_a_model extra_allowed already_registered : Reason
  declares_reserved : List String → Reason

-- `RegistrationRefused` with the name it gives, Python's `ValueError`, and what reading the profile
-- raises.
pub data RegistrationError : Type 0 where
  value_error : RegistrationError
  refused : String → Reason → RegistrationError
  profile_error : Error → RegistrationError

abbrev pub refuse_unless : Bool → String → Reason → Result RegistrationError (Unit {0})
refuse_unless true name why = ok tt
refuse_unless false name why = raise (refused name why)

unfoldable pub module_id_for_origin : String → Result RegistrationError String
module_id_for_origin origin =
    if str_eq origin ""
    then raise value_error
    else if str_eq origin core_origin
    then ok core_module_id
    else if str_eq origin test_harness_origin
    then ok harness_module_id
    else ok origin

check_profile_name : Result Error String → String → Result RegistrationError (Unit {0})
check_profile_name (raise e) origin = raise (profile_error e)
check_profile_name (ok profile) origin =
    refuse_unless (str_eq profile "test") origin profile_not_test

-- `profile` is what `current_profile()` returns or raises; it is read for the harness origin only.
unfoldable pub check_origin_profile :
    Result Error String → String → Result RegistrationError (Unit {0})
unfolding check_profile_name
check_origin_profile profile origin =
    if str_eq origin test_harness_origin then check_profile_name profile origin else ok tt

unfoldable pub check_origin :
    Result Error String → String → String → String → Result RegistrationError (Unit {0})
unfolding module_id_for_origin check_origin_profile
check_origin profile origin module_id name = do
  expected ← module_id_for_origin origin
  refuse_unless (str_eq module_id expected) name wrong_prefix
  refuse_unless (not (str_eq module_id harness_module_id) || str_eq origin test_harness_origin) name
      harness_reserved
  refuse_unless (not (str_eq module_id core_module_id) || str_eq origin core_origin) name
      core_reserved
  check_origin_profile profile origin

-- `_alias_names`
unfoldable pub alias_names : List Field → List String
alias_names [] = []
alias_names (f ∷ fs) =
    let more = f.validation_aliases ++ alias_names fs in
    f.name ∷ elim f.alias [ none ↦ more | some a ↦ a ∷ more ]

-- `reserved_input_fields(model)`
unfoldable pub reserved_of : Model → List String
reserved_of m = inter (alias_names m.fields) reserved_input_fields

-- The module id of a name of the shape `<module_id>.<noun>.<verb>`.
prefix_of_parts : List String → Option String
prefix_of_parts (a ∷ b ∷ c ∷ []) =
    if is_segment a && is_segment b && is_segment c then some a else none
prefix_of_parts _ = none

unfoldable pub name_prefix : String → Option String
unfolding prefix_of_parts
name_prefix name = prefix_of_parts (split b'.' name)

pub record Handler (H : Type 0) : Type 0 where
  pub id : ℕ
  pub run : H

pub record RegisteredOperation (H : Type 0) : Type 0 where
  pub declaration : OperationDeclaration
  pub handler : Handler H
  pub origin : String
  pub module_id : String

abbrev pub OperationRegistry : Type 0 → Type 0
OperationRegistry H = Dict (RegisteredOperation H)

abbrev pub role_in : Role → List Role → Bool
role_in r [] = false
role_in r (s ∷ ss) = same_role r s || role_in r ss

abbrev roles_subset : List Role → List Role → Bool
roles_subset [] ss = true
roles_subset (r ∷ rs) ss = role_in r ss && roles_subset rs ss

abbrev class_code : SafetyClass → ℕ
class_code read = 0
class_code draft = 1
class_code mutate = 2
class_code destructive = 3
class_code external = 4
class_code financial = 5

abbrev same_class : Option SafetyClass → Option SafetyClass → Bool
same_class none none = true
same_class (some a) (some b) = class_code a == class_code b
same_class _ _ = false

abbrev same_model : Option Model → Option Model → Bool
same_model none none = true
same_model (some a) (some b) = a.id == b.id
same_model _ _ = false

abbrev same_idempotency : Idempotency → Idempotency → Bool
same_idempotency not_idempotent not_idempotent = true
same_idempotency natural natural = true
same_idempotency _ _ = false

abbrev same_audit : Option (Option String) → Option (Option String) → Bool
same_audit none none = true
same_audit (some none) (some none) = true
same_audit (some (some a)) (some (some b)) = str_eq a b
same_audit _ _ = false

-- `existing.declaration == decl`; model classes are compared by identity.
pub same_declaration : OperationDeclaration → OperationDeclaration → Bool
same_declaration a b =
    str_eq a.name b.name
    && same_class a.safety_class b.safety_class
    && (roles_subset a.roles b.roles && roles_subset b.roles a.roles)
    && same_model a.input_model b.input_model
    && a.output == b.output
    && same_idempotency a.idempotency b.idempotency
    && same_audit a.audit b.audit

check_model : String → Option Model → Result RegistrationError (Unit {0})
check_model name none = raise (refused name not_a_model)
check_model name (some m) = elim (reserved_of m) [
  | x ∷ xs ↦ raise (refused name (declares_reserved (reserved_of m)))
  | [] ↦ refuse_unless (not m.extra_allow) name extra_allowed
]

abbrev has_class : Option SafetyClass → Bool
has_class none = false
has_class (some c) = true

module _ {H : Type 0} where
  same_registration : RegisteredOperation H → OperationDeclaration → Handler H → String → Bool
  same_registration existing decl handler origin =
      same_declaration existing.declaration decl
      && existing.handler.id == handler.id
      && str_eq existing.origin origin

  -- The end of `register`, over what stands under the name.
  record_operation :
      Option (RegisteredOperation H)
      → OperationRegistry H
      → RegisteredOperation H
      → Result RegistrationError (OperationRegistry H × RegisteredOperation H)
  record_operation none reg op = ok (insert op.declaration.name op reg, op)
  record_operation (some existing) reg op =
      if same_registration existing op.declaration op.handler op.origin
      then ok (reg, existing)
      else raise (refused op.declaration.name already_registered)

  register_under :
      Result Error String
      → Option String
      → OperationRegistry H
      → OperationDeclaration
      → Handler H
      → String
      → Result RegistrationError (OperationRegistry H × RegisteredOperation H)
  register_under profile none reg decl handler origin = raise (refused decl.name bad_name)
  register_under profile (some module_id) reg decl handler origin = do
    check_origin profile origin module_id decl.name
    refuse_unless (has_class decl.safety_class) decl.name no_safety_class
    check_model decl.name decl.input_model
    record_operation (lookup decl.name reg) reg
        (record { declaration = decl; handler = handler; origin = origin; module_id = module_id })

  unfoldable pub register :
      Result Error String
      → OperationRegistry H
      → OperationDeclaration
      → Handler H
      → String
      → Result RegistrationError (OperationRegistry H × RegisteredOperation H)
  unfolding register_under record_operation same_registration check_model same_declaration
  register profile reg decl handler origin =
      register_under profile (name_prefix decl.name) reg decl handler origin
