-- ===== src/Boundary/Factories/Withheld.antt =====
-- A context from a token, and what dispatch does with it.
use rheo_stream.Prelude.{
  ℕ, String, Bool, true, false, List, Option, some, ok, elem, ◌≡◌, ◌⊎◌, refl, ap, sym, ◌∙◌,
  Bool-cases, inl, inr,
}
use rheo_stream.Prelude.Int.{ℤ}
use rheo_stream.Contracts.{Uuid, Entry, WorkspaceContext, only}
use rheo_stream.Refusals.{operation_unknown, operation_not_permitted}
use rheo_stream.Storage.Tables.{ControlPlane}
use rheo_stream.Storage.UnitOfWork.{Server}
use rheo_stream.Storage.Repositories.{WorkspaceDatabase}
use rheo_stream.Operations.Registry.{OperationRegistry}
use rheo_stream.Operations.Registry.Authorize.{permits, authorize-withheld}
use rheo_stream.Operations.Dispatch.{Run, Pydantic, refused_as, dispatch}
use rheo_stream.Operations.Dispatch.Laws.{dispatch-refused}
use rheo_stream.Tokens.Policy.{non_token_issuable}
use rheo_stream.Tokens.Format.{Base64}
use rheo_stream.Tokens.Presentation.{Resolution, resolved, ResolvedToken, resolve_token}
use rheo_stream.Tokens.Presentation.Laws.{resolve_token-IsPresented}
use rheo_stream.Boundary.Factories.{
  World, active_workspace_modules, with_control, token_context, for_token, surface_name,
  context_from_token,
}
use rheo_stream.Boundary.Factories.Laws.{with_modules-context}

module _ (verify : Bool) (server : Server WorkspaceDatabase) (world after : World) (entry : Entry)
    (request_id : Uuid) (ctx : WorkspaceContext) where
  for_token-resolved :
      (resolution : Resolution)
      → for_token verify server world entry request_id resolution ≡ (after, ok (ok ctx))
      → (control : ControlPlane) × (token : ResolvedToken) × (resolution ≡ resolved control token)
        × (ctx.operation_set ≡ only token.operation_set)
  unfolding for_token
  for_token-resolved (Resolution.refused refusal) h = cc (ap (λ p. p.1) h)
  for_token-resolved (Resolution.raised e) h = cc (ap (λ p. p.1) h)
  for_token-resolved (resolved control token) h =
      let (enabled, modules, e) =
        with_modules-context verify server (token_context verify server token entry request_id)
          (active_workspace_modules verify server (with_control control world) token.workspace_id)
          after ctx h in
      (control, token, refl, ap (λ c. c.operation_set) (sym e))

  -- With a context from a token, the dispatch of an operation that is withheld from tokens changes
  -- nothing and is refused, as not permitted, or as unknown where nothing is registered under the
  -- name, whatever the payload is and whatever system it is dispatched on.
  pub context_from_token-withholds :
      {P I O : Type 0} (now : ℤ) (sha256 : List ℕ → String) (base64 : Base64) (value : String)
      → context_from_token verify server now sha256 base64 world value entry request_id
        ≡ (after, ok (ok ctx))
      → (pydantic : Pydantic P I O) (reg : OperationRegistry (Run WorkspaceDatabase I O))
        (system : World) (name : String) (payload : Option P)
      → elem name non_token_issuable ≡ true
      → (state : String) × (dispatch verify server pydantic reg system (some ctx) name payload
          ≡ (system, ok (refused_as state)))
        × ((state ≡ operation_not_permitted) ⊎ (state ≡ operation_unknown))
  unfolding context_from_token
  context_from_token-withholds now sha256 base64 value h pydantic reg system name payload withheld =
      let (control, token, found, same) =
        for_token-resolved
          (resolve_token now sha256 base64 world.control value (surface_name verify server entry))
          h in
      let (parsed, row, p, f, presented) =
        resolve_token-IsPresented now sha256 base64 world.control value
          (surface_name verify server entry) token control found in
      let not_in : elem name token.operation_set ≡ false =
        elim (Bool-cases (elem name token.operation_set)) [
          | inl held ↦ cc (presented.issuable name held)
          | inr absent ↦ absent
        ] in
      let (state, is_refused, which) =
        authorize-withheld reg ctx name (ap (λ s. permits s name) same ∙ not_in) in
      (
        state,
        dispatch-refused verify server pydantic reg system ctx name payload state is_refused,
        which,
      )
