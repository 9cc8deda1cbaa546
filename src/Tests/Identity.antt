-- ===== src/Tests/Identity.antt =====
-- The first person signs up, and signs in again.
use rheo_stream.Prelude.{String, List, [], ◌∷◌, Option, none, some, ok, raise, false, ◌≡◌, refl}
use rheo_stream.Prelude.Int.{pos}
use rheo_stream.Refusals.{signup_closed}
use rheo_stream.Settings.Value.{deployment, bool_type, bool}
use rheo_stream.Settings.Registry.{core_origin}
use rheo_stream.Storage.Tables.{ControlPlane, AccountRow}
use rheo_stream.Sessions.Service.{Host}
use rheo_stream.Identity.Accounts.{ProviderIdentity, Drawn, resolve_or_create}
use rheo_stream.Identity.Accounts.Laws.{resolve_or_create-again}
use rheo_stream.Tests.World.{control}

-- Sign-up is closed once there is an account.
abbrev host : Host
host = record {
  settings = record {
    declared =
        (
          "identity.allow_signup",
          record {
            key = "identity.allow_signup";
            type = bool_type;
            scope = deployment;
            floor = none;
            explicit_per_workspace = false;
            default = bool false;
            choices = none;
          },
        )
        ∷ [];
    origins = ("identity.allow_signup", core_origin) ∷ [];
  };
  deployment = record { environ = []; toml = none };
  sha256 = λ bytes. "digest";
}

abbrev octo : ProviderIdentity
octo = record {
  provider_id = "github";
  subject = "1";
  display_name = "Octo";
  email = none;
  email_verified = false;
}

abbrev drawn : Drawn
drawn = record { account_id = 31; identity_id = 32; account_at = pos 700; identity_at = pos 701 }

abbrev no_one : ControlPlane
no_one = record control { accounts = []; memberships = [] }

abbrev octo_account : AccountRow
octo_account = record { id = 31; display_name = "Octo"; created_at = pos 700; disabled_at = none }

abbrev signed_up : ControlPlane
signed_up = record no_one {
  accounts = octo_account ∷ [];
  identities =
      record {
        id = 32;
        account_id = 31;
        provider_id = "github";
        provider_subject = "1";
        email = none;
        email_verified = false;
        created_at = pos 701;
      }
      ∷ [];
}

octo_signs_up : resolve_or_create host drawn no_one no_one octo ≡ ok (signed_up, ok octo_account)
unfolding resolve_or_create rheo_stream.Storage.Tables.first
    rheo_stream.Identity.Accounts.signup_open
    rheo_stream.Storage.ControlPlane.Accounts.insert_account rheo_stream.Prelude.Text.strip
    rheo_stream.Storage.ControlPlane.Accounts.insert_identity
octo_signs_up = refl

resolve_or_create-again_example :
    resolve_or_create host (record drawn { account_id = 40 }) signed_up signed_up octo
    ≡ ok (signed_up, ok octo_account)
resolve_or_create-again_example =
    resolve_or_create-again host octo drawn (record drawn { account_id = 40 }) no_one signed_up
      octo_account octo_signs_up

second_refused :
    resolve_or_create host drawn signed_up signed_up (record octo { subject = "2" })
    ≡ ok (signed_up, raise (record { state = signup_closed }))
unfolding resolve_or_create rheo_stream.Storage.Tables.first
    rheo_stream.Identity.Accounts.signup_open rheo_stream.Settings.Resolver.resolve
    rheo_stream.Settings.Resolver.base_values rheo_stream.Settings.Deployment.deployment_layer
    rheo_stream.Settings.Deployment.load_deployment_toml
    rheo_stream.Settings.Deployment.load_environment rheo_stream.Settings.Registry.specs
    rheo_stream.Prelude.sorted rheo_stream.Prelude.Dict.keys rheo_stream.Prelude.Dict.lookup
    rheo_stream.Prelude.keep rheo_stream.Settings.Resolver.get_bool
    rheo_stream.Settings.Registry.get rheo_stream.Prelude.Dict.update
    rheo_stream.Prelude.Dict.insert rheo_stream.Prelude.elem rheo_stream.Prelude.Text.bars_to_dots
    rheo_stream.Prelude.Text.dots_to_bars rheo_stream.Prelude.Text.is_space
    rheo_stream.Prelude.Text.lower rheo_stream.Prelude.Text.split rheo_stream.Prelude.Text.strip
    rheo_stream.Prelude.Text.strip_left rheo_stream.Prelude.Text.strip_right
    rheo_stream.Prelude.Text.upper rheo_stream.Settings.Codec.Decimal.parse_int
    rheo_stream.Settings.Codec.decode_text rheo_stream.Settings.Codec.read_items
    rheo_stream.Settings.Deployment.env_variable_names rheo_stream.Settings.Deployment.flatten_table
    rheo_stream.Settings.Floor.apply_floor rheo_stream.Settings.Floor.elem_item
    rheo_stream.Settings.Floor.keep_items rheo_stream.Settings.Resolver.apply_rows
    rheo_stream.Settings.Spec.check_value rheo_stream.Settings.Value.freeze_value
    rheo_stream.Settings.Value.matches_type rheo_stream.Storage.ControlPlane.Accounts.insert_account
    rheo_stream.Storage.ControlPlane.Accounts.insert_identity
second_refused = refl
