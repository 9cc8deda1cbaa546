-- ===== src/Tests/World.antt =====
-- The rows that the witnesses run on.
use rheo_stream.Prelude.{[], ◌∷◌, none, some}
use rheo_stream.Prelude.Int.{pos}
use rheo_stream.Contracts.{owner}
use rheo_stream.Refusals.{other_error}
use rheo_stream.Storage.UnitOfWork.{Server}
use rheo_stream.Storage.Repositories.{WorkspaceDatabase}
use rheo_stream.Storage.Tables.{active, AccountRow, WorkspaceRow, MembershipRow, ControlPlane}

abbrev pub server : Server WorkspaceDatabase
server = record {
  current_database = λ engine. engine.database;
  connect_error = other_error "OperationalError" "";
  commit_error = λ content. none;
}

abbrev pub database : WorkspaceDatabase
database = record {
  alembic_version_core = "0001_core" ∷ [];
  workspace_composition = none;
  module_state =
      record {
        module_id = "notes";
        package_version = "1";
        state = "enabled";
        installed_at = pos 100;
        enabled_at = some (pos 100);
        disabled_at = none;
        state_detail = none;
      }
      ∷ [];
  workspace_setting = [];
  member_setting = [];
}

abbrev pub person : AccountRow
person = record { id = 5; display_name = "Ada"; created_at = pos 100; disabled_at = none }

abbrev pub workspace_row : WorkspaceRow
workspace_row = record {
  id = 1;
  slug = "one";
  display_name = "One";
  database_name = "ws_1";
  state = active;
  created_at = pos 100;
  state_changed_at = pos 100;
  state_detail = none;
}

abbrev pub membership : MembershipRow
membership = record { account_id = 5; workspace_id = 1; role = owner; created_at = pos 100 }

abbrev pub control : ControlPlane
control = record {
  accounts = person ∷ [];
  identities = [];
  workspaces = workspace_row ∷ [];
  memberships = membership ∷ [];
  sessions = [];
  session_secrets = [];
  session_grants = [];
  access_tokens = [];
  access_token_operations = [];
  identity_providers = [];
}
