-- ===== src/Storage/Repositories.antt =====
-- storage/repositories.py over the tables of storage/core_tables.py: a workspace database. The order of
-- module rows is the database's collation and is not modelled.
use rheo_stream.Prelude.{
  ℕ, String, Bool, true, false, ◌&&◌, List, [], ◌∷◌, ◌++◌, Option, some, str_eq, ◌==◌,
  if◌then◌else◌,
}
use rheo_stream.Prelude.Int.{ℤ}
use rheo_stream.Prelude.Dict.{Dict}
use rheo_stream.Contracts.{Uuid}
use rheo_stream.Storage.Tables.{update_where, has_row}

pub record CompositionRow : Type 0 where
  pub core_version : String
  pub core_contract_version : ℕ
  pub updated_at : ℤ

pub record ModuleStateRow : Type 0 where
  pub module_id : String
  pub package_version : String
  pub state : String
  pub installed_at : ℤ
  pub enabled_at : Option ℤ
  pub disabled_at : Option ℤ
  pub state_detail : Option String

-- The table `workspace_setting`
pub record WorkspaceSettingRow : Type 0 where
  pub key : String
  pub value : String
  pub value_type : String
  pub updated_by : Option Uuid
  pub updated_at : ℤ

-- The table `member_setting`
pub record MemberSettingRow : Type 0 where
  pub account_id : Uuid
  pub key : String
  pub value : String
  pub value_type : String
  pub updated_at : ℤ

-- The tables of `CORE_TABLES` that the repositories read or write, and the version table of the `core`
-- chain (storage/core_tables.py); a database that is not migrated has them empty. The one composition row is unique
-- by its key.
pub record WorkspaceDatabase : Type 0 where
  pub alembic_version_core : List String
  pub workspace_composition : Option CompositionRow
  pub module_state : List ModuleStateRow
  pub workspace_setting : List WorkspaceSettingRow
  pub member_setting : List MemberSettingRow

-- `write_composition`
unfoldable pub write_composition : ℤ → WorkspaceDatabase → String → ℕ → WorkspaceDatabase
write_composition now db core_version core_contract_version = record db {
  workspace_composition = some (record {
    core_version = core_version;
    core_contract_version = core_contract_version;
    updated_at = now;
  });
}

-- `read_composition`
abbrev pub read_composition : WorkspaceDatabase → Option CompositionRow
read_composition db = db.workspace_composition

-- `list_module_states`
abbrev pub list_module_states : WorkspaceDatabase → List ModuleStateRow
list_module_states db = db.module_state

pairs : List WorkspaceSettingRow → Dict String
pairs [] = []
pairs (row ∷ rows) = (row.key, row.value) ∷ pairs rows

-- `workspace_settings`
unfoldable pub workspace_settings : WorkspaceDatabase → Dict String
unfolding pairs
workspace_settings db = pairs db.workspace_setting

abbrev setting_key : String → WorkspaceSettingRow → Bool
setting_key key row = str_eq row.key key

abbrev pub has_setting : WorkspaceDatabase → String → Bool
has_setting db key = has_row (setting_key key) db.workspace_setting

abbrev setting_row : ℤ → String → String → String → Option Uuid → WorkspaceSettingRow
setting_row now key value value_type updated_by = record {
  key = key;
  value = value;
  value_type = value_type;
  updated_by = updated_by;
  updated_at = now;
}

-- `upsert_workspace_setting`
unfoldable pub upsert_workspace_setting :
    ℤ → WorkspaceDatabase → String → String → String → Option Uuid → WorkspaceDatabase
upsert_workspace_setting now db key value value_type updated_by =
    let row = setting_row now key value value_type updated_by in
    if has_setting db key
    then record db {
      workspace_setting = update_where (setting_key key) (λ old. row) db.workspace_setting;
    }
    else record db { workspace_setting = db.workspace_setting ++ row ∷ [] }

-- `insert_workspace_setting_if_absent`, and whether it has inserted
unfoldable pub insert_workspace_setting_if_absent :
    ℤ → WorkspaceDatabase → String → String → String → Option Uuid → WorkspaceDatabase × Bool
insert_workspace_setting_if_absent now db key value value_type updated_by =
    let row = setting_row now key value value_type updated_by in
    if has_setting db key
    then (db, false)
    else (record db { workspace_setting = db.workspace_setting ++ row ∷ [] }, true)

member_pairs : Uuid → List MemberSettingRow → Dict String
member_pairs account_id [] = []
member_pairs account_id (row ∷ rows) =
    let rest = member_pairs account_id rows in
    if row.account_id == account_id then (row.key, row.value) ∷ rest else rest

-- `member_settings`
unfoldable pub member_settings : WorkspaceDatabase → Uuid → Dict String
unfolding member_pairs
member_settings db account_id = member_pairs account_id db.member_setting

abbrev member_key : Uuid → String → MemberSettingRow → Bool
member_key account_id key row = row.account_id == account_id && str_eq row.key key

-- `upsert_member_setting`
unfoldable pub upsert_member_setting :
    ℤ → WorkspaceDatabase → Uuid → String → String → String → WorkspaceDatabase
upsert_member_setting now db account_id key value value_type =
    let row : MemberSettingRow = record {
      account_id = account_id;
      key = key;
      value = value;
      value_type = value_type;
      updated_at = now;
    } in
    if has_row (member_key account_id key) db.member_setting
    then record db {
      member_setting = update_where (member_key account_id key) (λ old. row) db.member_setting;
    }
    else record db { member_setting = db.member_setting ++ row ∷ [] }
