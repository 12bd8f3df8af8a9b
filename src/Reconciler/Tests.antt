-- ===== src/Reconciler/Tests.antt =====
-- Runs of the reconciler against a sealed Vault whose shares are in a Secret.
use vault_transit_unseal_ope.Reconciler.Loop.Written.{reconcile-written}
use vault_transit_unseal_ope.Reconciler.Init.{initialize_vault}
use vault_transit_unseal_ope.Reconciler.Init.Conflict.{
  after, first_write, initialize_vault-conflict, request,
}
use vault_transit_unseal_ope.Reconciler.Shamir.{unseal_with_stored_key}
use vault_transit_unseal_ope.Reconciler.Shamir.Reported.{Reported, unseal_with_stored_key-Reported}
use vault_transit_unseal_ope.Base.Dict
use vault_transit_unseal_ope.Base.{
  Option, refl, All, List, String, [], false, if◌then◌else◌, nat_eq, none, some, suc, true, ℕ, ◌==◌,
  ◌∷◌, ◌≡◌, ◌≢◌, ◌⊎◌,
}
use vault_transit_unseal_ope.Base.Dict.{Dict}
use vault_transit_unseal_ope.Base.Exec.{Keeps-pure, pure}
use vault_transit_unseal_ope.Kube.{conflict, pos}
use vault_transit_unseal_ope.Reconciler.Conditions.{
  Wanted, fresh, get_condition, remove_condition, set_condition,
}
use vault_transit_unseal_ope.Reconciler.Conditions.Laws.{
  Has, remove_condition-laws, set_condition-laws,
}
use vault_transit_unseal_ope.Reconciler.Loop.{is_success, reconcile}
use vault_transit_unseal_ope.Reconciler.Loop.Allowed.{reconcile-Allowed}
use vault_transit_unseal_ope.Reconciler.Setup.{init_refused, Parts, Setup}
use vault_transit_unseal_ope.Reconciler.Trace.{Allowed, AreAllowed}
use vault_transit_unseal_ope.Spec.{Condition, SecretNames, Spec, unset}
use vault_transit_unseal_ope.StoredKey.Submit.{no_keys, unseal, untouched}
use vault_transit_unseal_ope.StoredKey.Submit.Steps.{unseal-Ended}
use vault_transit_unseal_ope.StoredKey.Submit.Ended.{Ended}
use vault_transit_unseal_ope.System.{
  Metric, update_status, InitResponse, Call, Env, Pod, World, submit_share,
}

abbrev pod : Pod
pod = record {
  name = "vault-0";
  containers = "vault" ∷ [];
  is_running = true;
  statuses = record { name = "vault"; started = some true; running_since = some 3 } ∷ [];
  is_terminating = false;
}

abbrev names : SecretNames
names = record {
  admin_token = "vault-admin-token";
  recovery_keys = "vault-keys";
  store_recovery_keys = true;
  skip_admin_token_creation = false;
  admin_token_annotations = Dict.empty;
  recovery_keys_annotations = Dict.empty;
}

abbrev spec : Spec
spec = record {
  mode = "stored-key";
  pod_namespace = "vault";
  transit_secret_name = "transit";
  transit_secret_key = "token";
  stored_key_ref = none;
  initialization = record {
    recovery_shares = 5;
    recovery_threshold = 3;
    secret_names = names;
    force_reinitialize = false;
    token_recovery = record { is_enabled = false; backup_to_transit = false };
  };
  check_interval = "30s";
  post_unseal_config = record {
    enable_kv = false;
    enable_external_secrets_operator = false;
    enable_vault_config_operator_bootstrap = false;
  };
  token_management = some true;
}

-- Vault takes two shares; the second one opens it.
abbrev submissions_in : List Call → ℕ
submissions_in [] = 0
submissions_in (submit_share k ∷ h) = suc (submissions_in h)
submissions_in (k ∷ h) = submissions_in h

abbrev env : Env
env = record {
  get_key = λ h r. some "one\ntwo\nthree\n";
  store = λ h. none;
  list_pods = λ h. some (pod ∷ []);
  new_client = λ h n. true;
  check_status = λ h n. some (record { initialized = true; sealed = true });
  initialize = λ h. none;
  submit_share = λ h k. some (record {
    sealed = nat_eq (submissions_in h) 0;
    progress = suc (submissions_in h);
    threshold = 2;
  });
  delete_pod = λ h n. none;
  clock = λ h. 7;
}

abbrev parts : Parts
parts = record {
  has_verifier = true;
  has_token_manager = true;
  has_configurator = true;
  has_recovery = true;
  verify = pure (some true);
  generate_root_token = λ n. pure true;
  backup_token = λ t. pure true;
  check_drift = pure (some false);
  reconcile_initial_token = pure none;
  renew_if_needed = pure true;
  rotate_if_due = pure true;
  configure = λ t. pure tt;
  recover_secrets = pure true;
}

abbrev toy : Setup
toy = record {
  env = env;
  codec = record {
    message = λ m. "message";
    decimal = λ n. "0";
    format_time = λ t. "now";
    sha256 = λ s. s;
    parse_duration = λ s. pos 30;
  };
  spec = spec;
  parts = parts;
  grace = pos 0;
  retry_steps = 5;
}

abbrev start : World
start = record {
  calls = [];
  status = record {
    sealed = true;
    last_check_time = "";
    unseal_mode = "";
    last_unseal_time = "";
    token_state = unset;
    token_error = "";
    recovery_keys_hash = "";
    conditions = [];
  };
}

-- In transit mode the sealed pod, which runs since before the grace, is restarted.
abbrev restarting : Setup
restarting = record toy { spec = record spec { mode = "transit" }; grace = pos 2 }

parts-AreAllowed : AreAllowed restarting
parts-AreAllowed = record {
  verify = Keeps-pure _;
  generate_root_token = λ n. Keeps-pure _;
  backup_token = λ t. Keeps-pure _;
  check_drift = Keeps-pure _;
  reconcile_initial_token = Keeps-pure _;
  renew_if_needed = Keeps-pure _;
  rotate_if_due = Keeps-pure _;
  configure = λ t. Keeps-pure _;
  recover_secrets = Keeps-pure _;
}

reconcile-Allowed_example : All (Allowed restarting) (reconcile restarting start).1.calls
reconcile-Allowed_example = reconcile-Allowed restarting parts-AreAllowed start tt

abbrev shares : List String
shares = "one" ∷ "two" ∷ "three" ∷ []

unseal-Ended_example :
    ((shares ≡ []) × (unseal env shares start ≡ ((untouched, some no_keys), start)))
    ⊎ Ended env shares 0 [] (unseal env shares start).1.calls (unseal env shares start).0
unseal-Ended_example = unseal-Ended env shares start

abbrev wanted : Wanted
wanted = record { status = "True"; reason = "VaultReady"; message = "ready" }

abbrev sealed_condition : Condition
sealed_condition =
    fresh "Ready" (record { status = "False"; reason = "VaultSealed"; message = "sealed" }) "then"

set_condition-laws_example :
    Has "Ready" wanted (set_condition "Ready" wanted "now" (sealed_condition ∷ []))
    × ((looked : String)
        → "Ready" ≢ looked
        → get_condition looked (set_condition "Ready" wanted "now" (sealed_condition ∷ []))
          ≡ get_condition looked (sealed_condition ∷ []))
    × (set_condition "Ready" wanted "later"
          (set_condition "Ready" wanted "now" (sealed_condition ∷ []))
        ≡ set_condition "Ready" wanted "now" (sealed_condition ∷ []))
set_condition-laws_example = set_condition-laws "Ready" wanted "now" "later" (sealed_condition ∷ [])

remove_condition-laws_example :
    get_condition "Ready" (remove_condition "Ready" (sealed_condition ∷ []))
    ≡ (if "Ready" == "Ready" then none else get_condition "Ready" (sealed_condition ∷ []))
remove_condition-laws_example = remove_condition-laws "Ready" "Ready" (sealed_condition ∷ [])

unseal_with_stored_key-Reported_example :
    Reported (unseal_with_stored_key toy start).0 (unseal_with_stored_key toy start).1.status
unseal_with_stored_key-Reported_example = unseal_with_stored_key-Reported toy start

abbrev root : InitResponse
root = record { root_token = "hvs.root"; recovery_keys = "key" ∷ [] }

-- A Vault that initializes once, and an API server that answers writes with a conflict
abbrev first_only : List Call → Option InitResponse
first_only [] = some root
first_only (k ∷ h) = none

abbrev contended : Setup
contended = record toy { env = record env { initialize = first_only; store = λ h. some conflict } }

initialize_vault-conflict_example : initialize_vault contended start ≡ (
  some init_refused,
  after contended start (request contended ∷ first_write contended root ∷ request contended ∷ []),
)
initialize_vault-conflict_example =
    initialize_vault-conflict contended start root 3 refl refl refl refl

reconcile-written_example :
    (h : List Call) × ((reconcile toy start).1.calls
      ≡ Call.metric (Metric.reconciliation (is_success (reconcile toy start).0))
        ∷ update_status (reconcile toy start).1.status
        ∷ h)
reconcile-written_example = reconcile-written toy start
