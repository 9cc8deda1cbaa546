-- ===== src/Tokens/Policy.antt =====
-- tokens/policy.py and the package sets of tokens/sets.py, over the registry of operations.
use rheo_stream.Prelude.{
  String, Bool, true, false, List, [], ◌∷◌, Option, some, inter, diff, if◌then◌else◌,
}
use rheo_stream.Prelude.Dict.{keys}
use rheo_stream.Contracts.{Role, SafetyClass, read}
use rheo_stream.Operations.Registry.{OperationRegistry, role_in}

-- `NON_TOKEN_ISSUABLE`
abbrev pub non_token_issuable : List String
non_token_issuable =
    "core.approval.approve" ∷ "core.approval.refuse" ∷ "core.standing_grant.create"
    ∷ "core.standing_grant.revoke" ∷ "core.token.issue" ∷ "core.token.revoke" ∷ []

-- The operations that `REGISTERED_TOOLS` names
abbrev tool_operations : List String
tool_operations = "core.workspace.status" ∷ "harness.note.get" ∷ []

abbrev is_read : Option SafetyClass → Bool
is_read (some read) = true
is_read _ = false

module _ {H : Type 0} where
  unfoldable pub read_only : OperationRegistry H → List String
  read_only [] = []
  read_only ((name, op) ∷ reg) =
      let rest = read_only reg in if is_read op.declaration.safety_class then name ∷ rest else rest

  unfoldable pub agent_default : OperationRegistry H → List String
  agent_default reg = inter tool_operations (keys reg)

  unfoldable pub cli_full : OperationRegistry H → List String
  cli_full reg = diff (keys reg) non_token_issuable

  -- `_role_permitted_set` of tokens/issue.py
  unfoldable pub role_permitted_set : OperationRegistry H → Role → List String
  role_permitted_set [] role = []
  role_permitted_set ((name, op) ∷ reg) role =
      let rest = role_permitted_set reg role in
      if role_in role op.declaration.roles then name ∷ rest else rest
