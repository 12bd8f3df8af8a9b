-- ===== src/Token/Cluster.antt =====
-- A cluster in which every call is answered, as data for runs of pkg/token.
use vault_transit_unseal_ope.Base.{ℕ, ◌*◌, true, false, none, some, [], ◌∷◌, ◌==◌, if◌then◌else◌}
use vault_transit_unseal_ope.Base.Dict
use vault_transit_unseal_ope.Base.Dict.{Dict}
use vault_transit_unseal_ope.Kube.{Secret, pos, second}
use vault_transit_unseal_ope.Spec.{TokenState}
use vault_transit_unseal_ope.Token.World.{
  Pod, TokenStatus, ok, scheduled, unresolved, superseded, unresolved_mint, LedgerEntry, response,
  Auth, Env, Codec, delayed, Setup, text, int64,
}
use vault_transit_unseal_ope.Token.Pass.{View, Pass}

abbrev pub retired : LedgerEntry
retired = record {
  accessor = "acc-old";
  not_before = 5 * second;
  reason = superseded;
  state = scheduled;
  swap_id = "s0";
}

abbrev pub waiting : LedgerEntry
waiting = record {
  accessor = "acc-minted";
  not_before = 0;
  reason = unresolved_mint;
  state = unresolved;
  swap_id = "s1";
}

abbrev pub secret : Secret
secret = record {
  data_of = Dict.put Dict.empty "token" "hvs.current-token";
  annotations = Dict.empty;
  resource_version = 7;
}

abbrev pub new_auth : Auth
new_auth = record {
  client_token = "hvs.minted-token";
  accessor = "acc-new";
  lease_duration = pos 3600;
}

abbrev pub keys_secret : Secret
keys_secret = record {
  data_of = Dict.put (Dict.put Dict.empty "root-token" "hvs.root-token") "recovery-key-0" "key";
  annotations = Dict.empty;
  resource_version = 3;
}

abbrev pub pod : Pod
pod = record { name = "vault-0"; is_running = true; conditions = ("Ready", "True") ∷ [] }

abbrev pub obliging : Env
obliging = record {
  get_secret = λ h. ok secret;
  update_secret = λ h s. ok 8;
  lookup_self = λ h t. ok (
      some (
        Dict.put (Dict.put Dict.empty "accessor" (text "acc-now")) "creation_time"
          (int64 (pos 0))));
  create_token = λ h q. ok (some new_auth);
  revoke_accessor = λ h a. none;
  lookup_accessor = λ h a. some (response 400 ("invalid accessor" ∷ []));
  renew_self = λ h n. ok (some (pos 3600));
  backup_fails = λ h. false;
  get_keys = λ h. ok keys_secret;
  update_keys = λ h s. none;
  create_secret = λ h s. none;
  list_pods = λ h. some (pod ∷ []);
  new_client = λ h n. some "";
  put_policy = λ h n. none;
  login = λ h t. ok (some "hvs.self-heal");
  revoke_self = λ h t. none;
  read_jwt = λ h. some "jwt";
  recover_backup = λ h. none;
  set_owner = λ h. true;
  get_deployment = λ h. ok (pos 1);
  swap_id = λ h. "s2";
  clock = λ h. 9 * second;
}

-- A codec that reads back one ledger only
abbrev pub codec : Codec
codec = record {
  marshal = λ es. "[retired]";
  unmarshal = λ t. if t == "[retired]" then some (retired ∷ []) else none;
  parse_duration = λ t. some (pos 0);
  format_duration = λ d. "0s";
  parse_time = λ t. none;
  format_time = λ t. "then";
  format_time_nano = λ t. "then";
  error_text = λ e. "refused";
}

abbrev pub toy : Setup
toy = record {
  env = obliging;
  codec = codec;
  vtu = record {
    namespace = "vault";
    name = "main";
    pod_namespace = "vault";
    admin_token_name = "vault-admin-token";
    recovery_enabled = false;
    backup_to_transit = false;
    annotations = Dict.empty;
    has_selector = true;
    recovery_keys_name = "vault-keys";
    store_recovery_keys = true;
    admin_token_annotations = Dict.empty;
  };
  tm = record {
    enabled = true;
    strategy = delayed;
    policy_name = "vault-admin";
    ttl = "168h";
    auto_renew = true;
    auto_rotate = true;
    rotation_period = "720h";
    rotation_grace_period = "1h";
    creation_delay = "0s";
    deployments = [];
  };
  has_backup = false;
}

abbrev pub status : TokenStatus
status = record {
  state = TokenState.pending;
  created_at = "";
  last_renewed_at = "";
  expires_at = "";
  accessor = "";
  error = "";
  is_initialized = false;
}

abbrev pub view : View
view = record { token = "hvs.current-token"; accessor = "acc-now"; now = 9 * second }

abbrev pub start : Pass
start = record {
  world = record {
    calls = [];
    client_token = "hvs.current-token";
    backoff = Dict.empty;
    status = status;
  };
  secret = secret;
  ledger = retired ∷ [];
}

-- A Secret whose ledger holds a swap of unknown outcome
abbrev pub stuck_secret : ℕ → Secret
stuck_secret version = record {
  data_of = Dict.put Dict.empty "token" "hvs.current-token";
  annotations = Dict.put Dict.empty "vault.homelab.io/revoke-ledger" "[waiting]";
  resource_version = version;
}

-- The cluster whose Secret holds that ledger
abbrev pub stuck : Setup
stuck = record toy {
  codec = record codec {
    marshal = λ es. "[waiting]";
    unmarshal = λ t. if t == "[waiting]" then some (waiting ∷ []) else none;
  };
}
