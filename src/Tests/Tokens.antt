-- ===== src/Tests/Tokens.antt =====
-- A token issued by an account and presented at the API.
use rheo_stream.Prelude.{
  ℕ, String, Bool, true, false, List, [], ◌∷◌, Option, none, some, Result, ok, raise, ◌≡◌, ◌≢◌,
  refl, elem, subst, sym, ◌∙◌, ok_injective,
}
use rheo_stream.Prelude.Int.{ℤ, pos, leb_ℤ}
use rheo_stream.Settings.Value.{workspace, min_floor, int_type, int}
use rheo_stream.Settings.Registry.{Registry, core_origin}
use rheo_stream.Settings.Deployment.{Deployment}
use rheo_stream.Settings.Resolver.{OverrideSource}
use rheo_stream.Contracts.{
  owner, ActorKind, web, api, WorkspaceContext, all_operations, only, OperationDeclaration, read,
  natural,
}
use rheo_stream.Tests.World.{membership, control}
use rheo_stream.Storage.Tables.{ControlPlane, MembershipRow, AccessTokenRow, active}
use rheo_stream.Storage.ControlPlane.{
  get_access_token_by_hash, get_membership, list_access_token_operations,
}
use rheo_stream.Operations.Registry.{RegisteredOperation, OperationRegistry, core_module_id}
use rheo_stream.Operations.Registry.Authorize.{authorize, authorized}
use rheo_stream.Tokens.Policy.{non_token_issuable}
use rheo_stream.Tokens.Format.{Base64, ParsedToken, render, parse}
use rheo_stream.Tokens.Format.RoundTrip.{is_kind, parse-render}
use rheo_stream.Tokens.Issue.{
  Surroundings, TokenIssueInput, TokenIssued, Issuer, issue_handler, issuer_permitted_set,
}
use rheo_stream.Tokens.Issue.Laws.{IsIssued, issue_handler-IsIssued}
use rheo_stream.Tokens.Presentation.{ResolvedToken, resolved, resolve_token, surface_accepts}
use rheo_stream.Tokens.Presentation.Laws.{
  IsPresented, resolve_token-IsPresented, resolve_token-withholds,
}
use rheo_stream.Tokens.Presentation.Issued.{AreDrawn, issued-resolves}

-- 32 bytes, and the 43 characters that stand for them here.
abbrev bytes : List ℕ
bytes =
    1 ∷ 2 ∷ 3 ∷ 4 ∷ 5 ∷ 6 ∷ 7 ∷ 8 ∷ 9 ∷ 10 ∷ 11 ∷ 12 ∷ 13 ∷ 14 ∷ 15 ∷ 16 ∷ 17 ∷ 18 ∷ 19 ∷ 20 ∷ 21
    ∷ 22 ∷ 23 ∷ 24 ∷ 25 ∷ 26 ∷ 27 ∷ 28 ∷ 29 ∷ 30 ∷ 31 ∷ 32 ∷ []

abbrev pub base64 : Base64
base64 = record {
  encode = λ raw. "AQIDBAUGBwgJCgsMDQ4PEBESExQVFhcYGRobHB0eHyA";
  decode = λ value. some bytes;
}

abbrev settings : Registry
settings = record {
  declared =
      (
        "identity.token_max_days.cli",
        record {
          key = "identity.token_max_days.cli";
          type = int_type;
          scope = workspace;
          floor = some min_floor;
          explicit_per_workspace = false;
          default = int (pos 90);
          choices = none;
        },
      )
      ∷ [];
  origins = ("identity.token_max_days.cli", core_origin) ∷ [];
}

abbrev around : Surroundings
around = record {
  now = pos 1000;
  new_id = 77;
  random = bytes;
  sha256 = λ raw. "digest";
  base64 = base64;
  settings = settings;
  deployment = record { environ = []; toml = none };
  overrides = record { workspace_overrides = λ w. ok []; member_overrides = λ w a. ok [] };
}

abbrev declaration : String → OperationDeclaration
declaration name = record {
  name = name;
  safety_class = some read;
  roles = owner ∷ [];
  input_model = some (record { id = 7; fields = []; extra_allow = false });
  output = 1;
  idempotency = natural;
  audit = none;
}

abbrev registered : String → RegisteredOperation ℕ
registered name = record {
  declaration = declaration name;
  handler = record { id = 1; run = 0 };
  origin = core_origin;
  module_id = core_module_id;
}

abbrev operations : OperationRegistry ℕ
operations =
    ("core.workspace.status", registered "core.workspace.status")
    ∷ ("core.token.issue", registered "core.token.issue")
    ∷ []

abbrev ctx : WorkspaceContext
ctx = record {
  workspace_id = 1;
  actor = record { kind = ActorKind.account; id = some 5 };
  role = owner;
  entry = web;
  audience = none;
  operation_set = all_operations;
  enabled_modules = [];
  request_id = 9;
}

abbrev input : TokenIssueInput
input = record {
  kind = "cli";
  set_name = some "read_only";
  operations = none;
  account_id = none;
  purpose = none;
}

abbrev pub value : String
value = "rheo_cli_AQIDBAUGBwgJCgsMDQ4PEBESExQVFhcYGRobHB0eHyA"

abbrev issued : TokenIssued
issued = record {
  token_id = 77;
  value = value;
  kind = "cli";
  expires_at = pos 7777000;
  operations = "core.workspace.status" ∷ [];
}

abbrev row : AccessTokenRow
row = record {
  id = 77;
  token_hash = "digest";
  account_id = 5;
  workspace_id = 1;
  kind = "cli";
  issued_from = "session";
  set_name = some "read_only";
  purpose = none;
  created_at = pos 1000;
  expires_at = pos 7777000;
  revoked_at = none;
  last_used_at = none;
}

abbrev pub after : ControlPlane
after = record control {
  access_tokens = row ∷ [];
  access_token_operations = (77, "core.workspace.status") ∷ [];
}

kind_lower : is_kind "cli" ≡ true
unfolding rheo_stream.Tokens.Format.RoundTrip.all_lower
kind_lower = refl

no_snapshot : list_access_token_operations control 77 ≡ []
unfolding list_access_token_operations
no_snapshot = refl

api_accepts : elem "cli" (surface_accepts "api") ≡ true
unfolding elem
api_accepts = refl

pub issue_withheld : elem "core.token.issue" non_token_issuable ≡ true
unfolding elem
issue_withheld = refl

-- The package set has two operations of the class "read"; the one withheld from tokens is left out.
token_issued : issue_handler operations around control ctx input ≡ ok (after, issued)
unfolding issue_handler rheo_stream.Tokens.Issue.expand issuer_permitted_set
    rheo_stream.Prelude.keep rheo_stream.Tokens.Policy.read_only elem
    rheo_stream.Tokens.Policy.role_permitted_set rheo_stream.Tokens.Issue.max_days
    rheo_stream.Settings.Resolver.resolve rheo_stream.Settings.Resolver.base_values
    rheo_stream.Settings.Deployment.deployment_layer
    rheo_stream.Settings.Deployment.load_deployment_toml
    rheo_stream.Settings.Deployment.load_environment rheo_stream.Settings.Registry.specs
    rheo_stream.Prelude.sorted rheo_stream.Prelude.Dict.keys rheo_stream.Prelude.Dict.lookup
    rheo_stream.Prelude.Dict.insert rheo_stream.Prelude.Dict.update rheo_stream.Prelude.Int.◌*ℤ◌
    rheo_stream.Prelude.Int.◌+ℤ◌ rheo_stream.Prelude.Text.bars_to_dots
    rheo_stream.Prelude.Text.dots_to_bars rheo_stream.Prelude.Text.is_space
    rheo_stream.Prelude.Text.join rheo_stream.Prelude.Text.lower rheo_stream.Prelude.Text.split
    rheo_stream.Prelude.Text.strip rheo_stream.Prelude.Text.strip_left
    rheo_stream.Prelude.Text.strip_right rheo_stream.Prelude.Text.upper
    rheo_stream.Settings.Codec.Decimal.parse_int rheo_stream.Settings.Codec.decode_text
    rheo_stream.Settings.Codec.read_items rheo_stream.Settings.Deployment.env_variable_names
    rheo_stream.Settings.Deployment.flatten_table rheo_stream.Settings.Floor.apply_floor
    rheo_stream.Settings.Floor.elem_item rheo_stream.Settings.Floor.keep_items
    rheo_stream.Settings.Registry.get rheo_stream.Settings.Resolver.apply_rows
    rheo_stream.Settings.Resolver.get_int rheo_stream.Settings.Spec.check_value
    rheo_stream.Settings.Value.freeze_value rheo_stream.Settings.Value.matches_type
    rheo_stream.Storage.Tables.first rheo_stream.Storage.ControlPlane.insert_access_token
    rheo_stream.Storage.ControlPlane.insert_access_token_operations render
    rheo_stream.Tokens.Issue.distinct rheo_stream.Tokens.Policy.agent_default
    rheo_stream.Tokens.Policy.cli_full
token_issued = refl

issue_handler-IsIssued_example : IsIssued operations around control ctx input after issued
issue_handler-IsIssued_example =
    issue_handler-IsIssued operations around control ctx input after issued token_issued

drawn-AreDrawn : AreDrawn around
unfolding rheo_stream.Tokens.Format.is_value
drawn-AreDrawn = record { length = refl; encoded = refl; decoded = refl }

parse-render_example :
    parse base64 (render base64 "cli" bytes) ≡ some (record { kind = "cli"; raw = bytes })
parse-render_example =
    parse-render base64 "cli" bytes kind_lower drawn-AreDrawn.length drawn-AreDrawn.encoded
      drawn-AreDrawn.decoded

abbrev resolved_token : ResolvedToken
resolved_token = record {
  account_id = 5;
  workspace_id = 1;
  role = owner;
  operation_set = "core.workspace.status" ∷ [];
}

abbrev session_issuer : Issuer
session_issuer = record {
  account_id = 5;
  issued_from = "session";
  permitted = "core.workspace.status" ∷ "core.token.issue" ∷ [];
}

issuer_computed : issuer_permitted_set operations control ctx input ≡ ok session_issuer
unfolding issuer_permitted_set rheo_stream.Tokens.Policy.role_permitted_set
issuer_computed = refl

membership_found : get_membership control 5 1 ≡ some membership
unfolding rheo_stream.Storage.Tables.first
membership_found = refl

issuer_member :
    (issuer : Issuer)
    → issuer_permitted_set operations control ctx input ≡ ok issuer
    → get_membership control issuer.account_id 1 ≡ some membership
issuer_member issuer h =
    subst (λ i. get_membership control i.account_id 1 ≡ some membership)
      (ok_injective (sym issuer_computed ∙ h)) membership_found

issued-resolves_example :
    (issuer : Issuer) × (later : ControlPlane) × (issuer_permitted_set operations control ctx input
      ≡ ok issuer)
    × (resolve_token (pos 2000) around.sha256 base64 after value "api"
        ≡ resolved later (record {
          account_id = issuer.account_id;
          workspace_id = 1;
          role = owner;
          operation_set = "core.workspace.status" ∷ [];
        }))
issued-resolves_example =
    issued-resolves operations around control ctx input after issued (pos 2000) "api" membership
      token_issued drawn-AreDrawn kind_lower no_snapshot api_accepts refl issuer_member

abbrev touched_row : AccessTokenRow
touched_row = record row { last_used_at = some (pos 2000) }

abbrev pub later : ControlPlane
later = record after { access_tokens = touched_row ∷ [] }

token_resolved :
    resolve_token (pos 2000) around.sha256 base64 after value "api" ≡ resolved later resolved_token
unfolding resolve_token parse rheo_stream.Tokens.Format.after_prefix
    rheo_stream.Tokens.Format.parse_kind rheo_stream.Tokens.Format.is_value
    rheo_stream.Storage.Tables.first elem rheo_stream.Prelude.keep list_access_token_operations
    rheo_stream.Storage.ControlPlane.touch_access_token_last_used
    rheo_stream.Storage.Tables.update_where
token_resolved = refl

resolve_token-IsPresented_example :
    (parsed : ParsedToken) × (r : AccessTokenRow) × (parse base64 value ≡ some parsed)
    × (get_access_token_by_hash after "digest" ≡ some r)
    × IsPresented (pos 2000) after "api" r resolved_token later
resolve_token-IsPresented_example =
    resolve_token-IsPresented (pos 2000) around.sha256 base64 after value "api" resolved_token later
      token_resolved

abbrev token_ctx : WorkspaceContext
token_ctx = record ctx {
  actor = record { kind = ActorKind.token; id = some 77 };
  entry = api;
  operation_set = only ("core.workspace.status" ∷ []);
}

resolve_token-withholds_example :
    authorize operations (some token_ctx) "core.token.issue"
    ≢ authorized (registered "core.token.issue")
resolve_token-withholds_example =
    resolve_token-withholds (pos 2000) around.sha256 base64 after value "api" resolved_token later
      token_resolved operations token_ctx "core.token.issue" (registered "core.token.issue") refl
      issue_withheld
