-- ===== src/Refusals.antt =====
-- The refusal that crosses every seam (boundary/context.py), its states, and the states of
-- operations/refusals.py and storage/backend.py. The detail texts are not modelled.
use rheo_stream.Prelude.{String}

pub record Refusal : Type 0 where
  pub state : String

abbrev pub context_required : String
context_required = "context_required"

abbrev pub workspace_unavailable : String
workspace_unavailable = "workspace_unavailable"

abbrev pub membership_missing : String
membership_missing = "membership_missing"

abbrev pub profile_required : String
profile_required = "profile_required"

abbrev pub session_missing : String
session_missing = "session_missing"

abbrev pub session_expired : String
session_expired = "session_expired"

abbrev pub session_revoked : String
session_revoked = "session_revoked"

abbrev pub workspace_unselected : String
workspace_unselected = "workspace_unselected"

abbrev pub not_a_member : String
not_a_member = "not_a_member"

abbrev pub invalid_return : String
invalid_return = "invalid_return"

abbrev pub invalid_state : String
invalid_state = "invalid_state"

abbrev pub invalid_grant : String
invalid_grant = "invalid_grant"

abbrev pub signup_closed : String
signup_closed = "signup_closed"

abbrev pub token_malformed : String
token_malformed = "token_malformed"

abbrev pub token_expired : String
token_expired = "token_expired"

abbrev pub token_revoked : String
token_revoked = "token_revoked"

abbrev pub token_wrong_kind : String
token_wrong_kind = "token_wrong_kind"

abbrev pub token_scope_invalid : String
token_scope_invalid = "token_scope_invalid"

abbrev pub operation_unknown : String
operation_unknown = "operation_unknown"

abbrev pub operation_not_permitted : String
operation_not_permitted = "operation_not_permitted"

abbrev pub module_disabled : String
module_disabled = "module_disabled"

abbrev pub role_not_permitted : String
role_not_permitted = "role_not_permitted"

abbrev pub input_invalid : String
input_invalid = "input_invalid"

abbrev pub output_invalid : String
output_invalid = "output_invalid"

abbrev pub succeeded : String
succeeded = "succeeded"

abbrev pub failed : String
failed = "failed"

abbrev pub handler_failed : String
handler_failed = "handler_failed"

abbrev pub workspace_missing : String
workspace_missing = "workspace_missing"

abbrev pub workspace_exists : String
workspace_exists = "workspace_exists"

abbrev pub workspace_state : String
workspace_state = "workspace_state"

abbrev pub account_missing : String
account_missing = "account_missing"

abbrev pub identity_exists : String
identity_exists = "identity_exists"

abbrev pub slug_taken : String
slug_taken = "slug_taken"

abbrev pub database_mismatch : String
database_mismatch = "database_mismatch"

abbrev pub schema_ahead : String
schema_ahead = "schema_ahead"

abbrev pub unit_of_work_closed : String
unit_of_work_closed = "unit_of_work_closed"

abbrev pub session_row_missing : String
session_row_missing = "session_row_missing"

abbrev pub session_secret_exists : String
session_secret_exists = "session_secret_exists"

abbrev pub access_token_missing : String
access_token_missing = "access_token_missing"

abbrev pub set_not_issuable : String
set_not_issuable = "set_not_issuable"

abbrev pub set_empty : String
set_empty = "set_empty"

abbrev pub set_selection_invalid : String
set_selection_invalid = "set_selection_invalid"

abbrev pub account_required : String
account_required = "account_required"

abbrev pub not_found : String
not_found = "not_found"

-- What a call can raise: `OperationRefused` and `StorageRefusal` with their states, and any other
-- exception with its class name and its message.
pub data Exn : Type 0 where
  operation_refused : String → Exn
  storage_refusal : String → Exn
  other_error : String → String → Exn
