-- ===== src/Configuration/Tests.antt =====
-- A run of the configuration on a new Vault.
use vault_transit_unseal_ope.Base.Exec.{Exec}
use vault_transit_unseal_ope.Base.{[], false, none, refl, some, true, ◌≡◌}
use vault_transit_unseal_ope.Base.Dict
use vault_transit_unseal_ope.Base.Dict.{Dict}
use vault_transit_unseal_ope.Base.Try
use vault_transit_unseal_ope.Base.Exec
use vault_transit_unseal_ope.Base.Try.{Try, Result, ok, err}
use vault_transit_unseal_ope.Configuration.World.{Setup, World, Env}
use vault_transit_unseal_ope.Configuration.Configurator.{
  configure, configure_part, configure_kv, configure_external_secrets_operator,
  bootstrap_vault_config_operator,
}
use vault_transit_unseal_ope.Configuration.Configurator.Again.{configure-configure}
use vault_transit_unseal_ope.Kube.{pos, gtb}
use vault_transit_unseal_ope.Configuration.World.{ask, set_status}

abbrev new_vault : Env
new_vault = record {
  list_mounts = λ h. ok Dict.empty;
  mount = λ h p. none;
  list_auth = λ h. ok Dict.empty;
  enable_auth = λ h p. none;
  put_policy = λ h n p. none;
  write = λ h p d. none;
  read_file = λ h p. some "text";
  clock = λ h. "now";
}

abbrev setup : Setup
setup = record {
  env = new_vault;
  post_unseal = record {
    enable_kv = true;
    enable_external_secrets_operator = true;
    enable_vault_config_operator_bootstrap = true;
  };
  kv = record { path = ""; version = pos 0; max_versions = pos 5; delete_version_after = "30d" };
  external_secrets = record {
    policy_name = "";
    kubernetes_auth = record {
      role_name = "";
      service_accounts = [];
      ttl = "24h";
      max_ttl = "24h";
    };
  };
}

abbrev start : World
start = record {
  calls = [];
  status = record {
    kv_configured = false;
    kv_configured_time = "";
    external_secrets_operator_configured = false;
    external_secrets_operator_configured_time = "";
    vault_config_operator_bootstrapped = false;
    vault_config_operator_bootstrapped_time = "";
  };
}

configure-configure_example :
    configure setup (configure setup start).1 ≡ (ok tt, (configure setup start).1)
unfolding configure Try.◌>>=◌ configure_kv Try.or_fail ask Dict.get Dict.empty Try.or_error gtb
    Try.lift Try.return set_status Try.attempt configure_external_secrets_operator Dict.holds
    bootstrap_vault_config_operator Try.or_missing Dict.find Exec.pure Try.continue configure_part
configure-configure_example = configure-configure setup start refl
