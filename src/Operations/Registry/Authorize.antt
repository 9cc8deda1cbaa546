-- ===== src/Operations/Registry/Authorize.antt =====
-- `authorize` of operations/registry.py, and what it decides.
use rheo_stream.Prelude.{
  String, Bool, true, not, ◌&&◌, ◌||◌, Option, none, some, str_eq, ◌≡◌, ◌↔◌, ◌⊎◌, refl, inl, inr,
  false, arith, if◌then◌else◌, elem,
}
use rheo_stream.Prelude.Dict.{lookup}
use rheo_stream.Contracts.{WorkspaceContext, OperationSet, all_operations, only}
use rheo_stream.Refusals.{
  Refusal, context_required, operation_unknown, operation_not_permitted, module_disabled,
  role_not_permitted,
}
use rheo_stream.Operations.Registry.{
  RegisteredOperation, OperationRegistry, role_in, core_module_id,
}

pub data Authorization (H : Type 0) : Type 0 where
  authorized : RegisteredOperation H → Authorization H
  refused : Refusal → Authorization H

abbrev pub permits : OperationSet → String → Bool
permits all_operations name = true
permits (only names) name = elem name names

module _ {H : Type 0} where
  authorize_found : WorkspaceContext → String → Option (RegisteredOperation H) → Authorization H
  authorize_found ctx name none = refused (record { state = operation_unknown })
  authorize_found ctx name (some op) =
      if not (permits ctx.operation_set name)
      then refused (record { state = operation_not_permitted })
      else if not (str_eq op.module_id core_module_id)
          && not (elem op.module_id ctx.enabled_modules)
      then refused (record { state = module_disabled })
      else if not (role_in ctx.role op.declaration.roles)
      then refused (record { state = role_not_permitted })
      else authorized op

  -- `none` is an argument that is no `WorkspaceContext`.
  unfoldable pub authorize :
      OperationRegistry H → Option WorkspaceContext → String → Authorization H
  unfolding authorize_found
  authorize reg none name = refused (record { state = context_required })
  authorize reg (some ctx) name = authorize_found ctx name (lookup name reg)

  -- What lets a context run an operation.
  pub record MayRun (reg : OperationRegistry H) (ctx : WorkspaceContext) (name : String)
      (op : RegisteredOperation H) : Type 0 where
    pub registered : lookup name reg ≡ some op
    pub permitted : permits ctx.operation_set name ≡ true
    pub enabled :
        (str_eq op.module_id core_module_id || elem op.module_id ctx.enabled_modules) ≡ true
    pub role_allowed : role_in ctx.role op.declaration.roles ≡ true

  -- An operation is authorized for a context exactly if it is registered under the name, the
  -- context's operation set permits the name, its module is the core or enabled, and it declares
  -- the context's role.
  pub authorize_iff :
      (reg : OperationRegistry H) (ctx : WorkspaceContext) (name : String)
      (op : RegisteredOperation H)
      → (authorize reg (some ctx) name ≡ authorized op) ↔ MayRun reg ctx name op
  unfolding authorize
  authorize_iff reg ctx name op = (
    λ h. record {
      registered = ground arith;
      permitted = ground arith;
      enabled = ground arith;
      role_allowed = ground arith;
    },
    λ m. ground (arith, m.registered, m.permitted, m.enabled, m.role_allowed),
  )

  authorize_found-withheld :
      (ctx : WorkspaceContext) (name : String) (o : Option (RegisteredOperation H))
      → permits ctx.operation_set name ≡ false
      → (state : String) × (authorize_found ctx name o ≡ refused (record { state = state }))
        × ((state ≡ operation_not_permitted) ⊎ (state ≡ operation_unknown))
  unfolding authorize_found
  authorize_found-withheld ctx name none h = (operation_unknown, refl, inr refl)
  authorize_found-withheld ctx name (some op) h = (operation_not_permitted, ground arith, inl refl)

  -- Outside the operation set, an operation is refused before its module or the role is looked at.
  pub authorize-withheld :
      (reg : OperationRegistry H) (ctx : WorkspaceContext) (name : String)
      → permits ctx.operation_set name ≡ false
      → (state : String) × (authorize reg (some ctx) name ≡ refused (record { state = state }))
        × ((state ≡ operation_not_permitted) ⊎ (state ≡ operation_unknown))
  unfolding authorize
  authorize-withheld reg ctx name h = authorize_found-withheld ctx name (lookup name reg) h
