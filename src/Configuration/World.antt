-- ===== src/Configuration/World.antt =====
-- What pkg/configuration reads and calls: Vault, two files and the clock, as functions of the history of
-- calls; and the parts of api/v1alpha1 that it uses.
use vault_transit_unseal_ope.Base.{Bool, List, Option, String, ◌∷◌}
use vault_transit_unseal_ope.Base.Exec.{Exec}
use vault_transit_unseal_ope.Base.Dict.{Dict}
use vault_transit_unseal_ope.Base.Try.{Result, Try}
use vault_transit_unseal_ope.Spec.{PostUnsealConfig}
use vault_transit_unseal_ope.Token.World.{VaultError}
use vault_transit_unseal_ope.Transit.World.{Mount}
use vault_transit_unseal_ope.Kube.{ℤ}

pub record KvConfig : Type 0 where
  pub path : String
  pub version : ℤ
  pub max_versions : ℤ
  pub delete_version_after : String

pub record ServiceAccountRef : Type 0 where
  pub name : String
  pub namespace : String

pub record KubernetesAuthConfig : Type 0 where
  pub role_name : String
  pub service_accounts : List ServiceAccountRef
  pub ttl : String
  pub max_ttl : String

pub record ExternalSecretsOperatorConfig : Type 0 where
  pub policy_name : String
  pub kubernetes_auth : KubernetesAuthConfig

-- The three flags and their times
pub record ConfigurationStatus : Type 0 where
  pub kv_configured : Bool
  pub kv_configured_time : String
  pub external_secrets_operator_configured : Bool
  pub external_secrets_operator_configured_time : String
  pub vault_config_operator_bootstrapped : Bool
  pub vault_config_operator_bootstrapped_time : String

-- The two policies that are written: to read all secrets, and to do anything
pub data Policy : Type 0 where
  reads_secrets administers : Policy

-- What is written to a path: the limits of a KV engine, the settings of the Kubernetes auth method with a
-- reviewer's token and certificate or without, or a role
pub data Payload : Type 0 where
  kv_limits : Option ℤ → Option String → Payload
  auth_settings : String → Option (String × String) → Payload
  role : List String → List String → List String → String → String → Payload

pub data Call : Type 0 where
  list_mounts list_auth clock : Call
  mount enable_auth read_file : String → Call
  put_policy : String → Policy → Call
  write : String → Payload → Call

pub record Env : Type 0 where
  pub list_mounts : List Call → Result VaultError (Dict Mount)
  pub mount : List Call → String → Option VaultError
  pub list_auth : List Call → Result VaultError (Dict String)
  pub enable_auth : List Call → String → Option VaultError
  pub put_policy : List Call → String → Policy → Option VaultError
  pub write : List Call → String → Payload → Option VaultError
  -- none where the file cannot be read
  pub read_file : List Call → String → Option String
  -- the time as RFC 3339 prints it
  pub clock : List Call → String

pub record World : Type 0 where
  pub calls : List Call
  pub status : ConfigurationStatus

pub record Setup : Type 0 where
  pub env : Env
  pub post_unseal : PostUnsealConfig
  pub kv : KvConfig
  pub external_secrets : ExternalSecretsOperatorConfig

pub data ConfigureError : Type 0 where
  listing_mounts mounting writing_policy listing_auth enabling_auth writing :
      VaultError → ConfigureError
  other_mount no_token no_certificate : ConfigureError

abbrev pub Configuring : Type 0 → Type 0
Configuring A = Try World ConfigureError A

unfoldable pub ask : {A : Type 0} → Call → (List Call → A) → Exec World A
ask k answer w = (answer w.calls, record w { calls = k ∷ w.calls })

unfoldable pub set_status : (ConfigurationStatus → ConfigurationStatus) → Exec World (Unit {0})
set_status f w = (tt, record w { status = f w.status })
