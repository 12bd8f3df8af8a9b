-- ===== src/Secrets/Recovery/Tests.antt =====
-- Runs of the recovery, in a cluster that has lost the admin token.
use Prim.Native.String
use vault_transit_unseal_ope.Base.{String, [], false, none, refl, some, true, ◌∷◌, ◌≡◌}
use vault_transit_unseal_ope.Base.Dict
use vault_transit_unseal_ope.Base.Dict.{Dict}
use vault_transit_unseal_ope.Base.Try.{ok, err}
use vault_transit_unseal_ope.Kube.{Secret, not_found}
use vault_transit_unseal_ope.Spec.{Spec}
use vault_transit_unseal_ope.Transit
use vault_transit_unseal_ope.Transit.Cluster.{keeping-IsDurable}
use vault_transit_unseal_ope.Transit.Backup.{backup_token_to_transit}
use vault_transit_unseal_ope.Secrets.World.{Call, Env, Setup, World}
use vault_transit_unseal_ope.Secrets.Verifier.{Action, create, is_usable_token}
use vault_transit_unseal_ope.Secrets.Placeholder.{placeholder_token}
use vault_transit_unseal_ope.Secrets.Restore.{cleaned, restore_admin_token, token_text}
use vault_transit_unseal_ope.Secrets.Restore.Mistaken.{IsPlaceholder, restore_admin_token-mistakes}
use vault_transit_unseal_ope.Secrets.Recovery.{recover_admin_token, recover_secrets}
use vault_transit_unseal_ope.Secrets.Recovery.Scoped.{IsScoped}
use vault_transit_unseal_ope.Secrets.Recovery.Restored.{
  IsLost, IsRestored, recover_admin_token-restores,
}
use vault_transit_unseal_ope.Secrets.Recovery.Allowed.{recover_secrets-AreAllowed}
use vault_transit_unseal_ope.Secrets.Trace.{AreAllowed}
use vault_transit_unseal_ope.Secrets.Manager.{create_or_update}
use vault_transit_unseal_ope.Secrets.Manager.Written.{Outcome, create_or_update-Outcome}

abbrev spec : Spec
spec = record {
  mode = "transit";
  pod_namespace = "vault";
  transit_secret_name = "transit";
  transit_secret_key = "token";
  stored_key_ref = none;
  initialization = record {
    recovery_shares = 1;
    recovery_threshold = 1;
    secret_names = record {
      admin_token = "vault-admin-token";
      recovery_keys = "vault-keys";
      store_recovery_keys = true;
      skip_admin_token_creation = false;
      admin_token_annotations = Dict.empty;
      recovery_keys_annotations = Dict.empty;
    };
    force_reinitialize = false;
    token_recovery = record { is_enabled = true; backup_to_transit = true };
  };
  check_interval = "30s";
  post_unseal_config = record {
    enable_kv = false;
    enable_external_secrets_operator = false;
    enable_vault_config_operator_bootstrap = false;
  };
  token_management = none;
}

abbrev empty_cluster : Env
empty_cluster = record {
  get_secret = λ h ns n. err not_found;
  create_secret = λ h s. none;
  update_secret = λ h ns n s. none;
  delete_secret = λ h ns n. none;
  check_status = λ h. some (record { initialized = true; sealed = false });
  lookup_self = λ h t. none;
  create_scoped = λ h t. none;
  clock = λ h. 0;
}

abbrev setup : Setup
setup = record {
  env = empty_cluster;
  spec = spec;
  backup = Transit.Cluster.setup;
  can_own = true;
  has_token_manager = true;
  has_api_client = true;
  instructions = "";
  describe = λ a. "";
  format_time = λ t. "now";
}

abbrev missing : Action
missing = record { type = create; secret_name = "vault-admin-token"; namespace = "vault" }

abbrev before : World
before = record {
  calls = [];
  transit = Transit.Cluster.start;
  vault_token = "";
  admin_token_annotations = none;
}

abbrev backed_up : World
backed_up = record before {
  transit = (backup_token_to_transit Transit.Cluster.setup "hvs.admin" Transit.Cluster.start).1;
}

missing-IsLost : IsLost setup missing
missing-IsLost = record {
  reason = not_found;
  gone = λ h. refl;
  created = λ h s. refl;
  owned = refl;
}

recover_admin_token-restores_example :
    ((recover_admin_token setup missing backed_up).0 ≡ ok tt)
    × (t : String) × IsScoped setup "hvs.admin" t
    × IsRestored setup missing missing-IsLost t (recover_admin_token setup missing backed_up).1
recover_admin_token-restores_example =
    recover_admin_token-restores setup missing missing-IsLost "hvs.admin" before backed_up
      keeping-IsDurable Transit.Cluster.backed_up refl refl refl refl

recover_secrets-AreAllowed_example :
    AreAllowed setup
      (recover_secrets setup
        (record {
          missing = [];
          incomplete = [];
          all_present = false;
          recovery_plan = missing ∷ [];
        })
        backed_up).1.calls
recover_secrets-AreAllowed_example =
    recover_secrets-AreAllowed setup
      (record { missing = []; incomplete = []; all_present = false; recovery_plan = missing ∷ [] })
      backed_up tt

-- The placeholder that the operator leaves
abbrev left : Secret
left = record {
  data_of =
      Dict.put
        (Dict.put Dict.empty "placeholder" "RECOVERY-REQUIRED: See recovery-instructions.txt")
        "token" placeholder_token;
  annotations = Dict.put Dict.empty "vault.homelab.io/recovery-required" "true";
  resource_version = 1;
}

left-IsPlaceholder : IsPlaceholder left
unfolding Dict.get Dict.put Dict.empty Dict.holds
left-IsPlaceholder = record { token = refl; required = refl; complete = refl; no_root = refl }

abbrev marked : Setup
marked = record setup { env = record empty_cluster { get_secret = λ h ns n. ok left } }

restore_admin_token-mistakes_example :
    (is_usable_token left (token_text left) ≡ false)
    × (restore_admin_token marked missing "hvs.admin" before ≡ (
      ok tt,
      record before {
        calls =
            Call.update_secret "vault" "vault-admin-token" (cleaned left)
            ∷ Call.get_secret "vault" "vault-admin-token"
            ∷ [];
      },
    ))
    × (is_usable_token (cleaned left) (token_text (cleaned left)) ≡ true)
restore_admin_token-mistakes_example =
    restore_admin_token-mistakes marked missing "hvs.admin" before left refl left-IsPlaceholder

abbrev texts : Dict String
texts = Dict.put Dict.empty "token" "hvs.admin"

create_or_update-Outcome_example :
    Outcome setup "vault" "vault-admin-token" texts Dict.empty
      (record before { calls = Call.get_secret "vault" "vault-admin-token" ∷ [] })
      (err not_found)
      (create_or_update setup "vault" "vault-admin-token" texts Dict.empty before)
create_or_update-Outcome_example =
    create_or_update-Outcome setup "vault" "vault-admin-token" texts Dict.empty before

abbrev keys : Secret
keys = record {
  data_of = Dict.put Dict.empty "recovery-key-0" "share ";
  annotations = Dict.empty;
  resource_version = 1;
}
