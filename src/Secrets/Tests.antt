-- ===== src/Secrets/Tests.antt =====
-- A run of the verifier in stored-key mode, where the admin token is a placeholder.
use vault_transit_unseal_ope.Base.Dict
use vault_transit_unseal_ope.Base.Dict.{Dict}
use vault_transit_unseal_ope.Base.{
  none, String, [], false, if◌then◌else◌, some, true, ℕ, refl, ◌==◌, ◌∷◌, ◌≡◌,
}
use vault_transit_unseal_ope.Kube.{KubeError, Secret}
use mathlib.Core.Option
use vault_transit_unseal_ope.Spec.{is_stored_key_mode, stored_key_secret_ref, Spec}
use vault_transit_unseal_ope.Secrets.Verifier.{
  is_unusable, is_usable_token, missing_keys, Report, get_expected_secrets, verify_expected_secrets,
  restore, stored_key_expected_secrets, check_secret,
}
use vault_transit_unseal_ope.Secrets.Verifier.Complete.{AllFine, verify_expected_secrets_complete}
use vault_transit_unseal_ope.Token.World.{Result, ok}

abbrev spec : Spec
spec = record {
  mode = "stored-key";
  pod_namespace = "vault";
  transit_secret_name = "transit";
  transit_secret_key = "token";
  stored_key_ref = none;
  initialization = record {
    recovery_shares = 1;
    recovery_threshold = 1;
    secret_names = record {
      admin_token = "vault-admin-token";
      recovery_keys = "vault-keys";
      store_recovery_keys = true;
      skip_admin_token_creation = false;
      admin_token_annotations = Dict.empty;
      recovery_keys_annotations = Dict.empty;
    };
    force_reinitialize = false;
    token_recovery = record { is_enabled = false; backup_to_transit = false };
  };
  check_interval = "30s";
  post_unseal_config = record {
    enable_kv = false;
    enable_external_secrets_operator = false;
    enable_vault_config_operator_bootstrap = false;
  };
  token_management = some true;
}

abbrev decimal : ℕ → String
decimal n = "0"

abbrev secret : String → Secret
secret token = record {
  data_of = Dict.put (Dict.put Dict.empty "unseal-keys.txt" "one") "token" token;
  annotations = Dict.empty;
  resource_version = 1;
}

abbrev cluster : String → String → Result KubeError Secret
cluster ns name = ok (secret (if name == "vault-admin-token" then "placeholder-token" else ""))

abbrev report : Report
report = record {
  missing = record { name = "vault-admin-token"; namespace = "vault"; optional = false } ∷ [];
  incomplete = [];
  all_present = false;
  recovery_plan =
      record { type = restore; secret_name = "vault-admin-token"; namespace = "vault" } ∷ [];
}

verify_expected_secrets_complete_example :
    (report.all_present ≡ true → AllFine spec cluster (get_expected_secrets spec decimal))
    × (AllFine spec cluster (get_expected_secrets spec decimal) → report.all_present ≡ true)
unfolding verify_expected_secrets get_expected_secrets is_stored_key_mode
    stored_key_expected_secrets Option.bind check_secret is_unusable stored_key_secret_ref
    Dict.holds Dict.put is_usable_token Dict.empty missing_keys
verify_expected_secrets_complete_example =
    verify_expected_secrets_complete spec cluster decimal report refl
