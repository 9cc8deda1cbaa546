-- ===== src/Contracts.antt =====
-- packages/contracts/src/rheo_contracts: the context that every boundary resolves (context.py), the
-- safety classes (safety.py) and the operation declaration (manifest.py).
use rheo_stream.Prelude.{ℕ, String, Bool, true, false, List, [], ◌∷◌, Option}

-- A UUID is compared, and nothing else.
abbrev pub Uuid : Type 0
Uuid = ℕ

pub data Role : Type 0 where
  owner member operator service : Role

pub data ActorKind : Type 0 where
  account token operator system connection : ActorKind

pub data Entry : Type 0 where
  web api mcp cli job intake channel : Entry

pub data AudienceKind : Type 0 where
  session token job channel : AudienceKind

pub record Actor : Type 0 where
  pub kind : ActorKind
  pub id : Option Uuid

pub record Audience : Type 0 where
  pub kind : AudienceKind
  pub id : Option Uuid

-- `ALL_OPERATIONS`, or a frozenset of names.
pub data OperationSet : Type 0 where
  all_operations : OperationSet
  only : List String → OperationSet

pub record WorkspaceContext : Type 0 where
  pub workspace_id : Uuid
  pub actor : Actor
  pub role : Role
  pub entry : Entry
  pub audience : Option Audience
  pub operation_set : OperationSet
  pub enabled_modules : List String
  pub request_id : Uuid

pub data SafetyClass : Type 0 where
  read draft mutate destructive external financial : SafetyClass

pub data Idempotency : Type 0 where
  not_idempotent natural : Idempotency

-- `role in roles`
abbrev pub same_role : Role → Role → Bool
same_role owner owner = true
same_role member member = true
same_role operator operator = true
same_role service service = true
same_role _ _ = false

-- What a payload key could bind to a field by: `alias`, and `validation_alias` as a text or choices.
pub record Field : Type 0 where
  pub name : String
  pub alias : Option String
  pub validation_aliases : List String

-- A pydantic model class: its identity, its fields, and whether `extra` is "allow".
pub record Model : Type 0 where
  pub id : ℕ
  pub fields : List Field
  pub extra_allow : Bool

-- `safety_class` is missing on a declaration made by `model_construct`; `input_model` is missing
-- where it is no pydantic model. `audit` holds the subject field of an `AuditSpec`.
pub record OperationDeclaration : Type 0 where
  pub name : String
  pub safety_class : Option SafetyClass
  pub roles : List Role
  pub input_model : Option Model
  pub output : ℕ
  pub idempotency : Idempotency
  pub audit : Option (Option String)

-- `RESERVED_INPUT_FIELDS`
abbrev pub reserved_input_fields : List String
reserved_input_fields =
    "workspace_id" ∷ "workspace" ∷ "actor_id" ∷ "actor" ∷ "tenant_id" ∷ "database" ∷ "schema"
    ∷ "connection_string" ∷ "dsn" ∷ "sql" ∷ "table_name" ∷ "statement" ∷ []
