-- ===== src/Token/World.antt =====
-- What pkg/token calls and keeps: the manager's spec and memory, and the API server, Vault, the
-- clock and the codecs as parameters. A parameter answers by the whole history of calls, so it may
-- fail, lag, or change between two calls as it likes.
use vault_transit_unseal_ope.Base.{ℕ, String, Bool, Option, List, ◌∷◌}
use vault_transit_unseal_ope.Base.Exec.{Exec}
pub use vault_transit_unseal_ope.Base.Try.{Result, ok, err}
use vault_transit_unseal_ope.Base.Dict.{Dict}
use vault_transit_unseal_ope.Kube.{KubeError, Secret, ℤ, Instant}
use vault_transit_unseal_ope.Spec.{TokenState}

pub data State : Type 0 where
  scheduled unresolved : State
  other_state : String → State

pub data Reason : Type 0 where
  superseded forced unresolved_mint : Reason
  other_reason : String → Reason

pub record LedgerEntry : Type 0 where
  pub accessor : String
  pub not_before : Instant
  pub reason : Reason
  pub state : State
  pub swap_id : String

-- `*vaultapi.ResponseError`, or any other failure of a request
pub data VaultError : Type 0 where
  response : ℕ → List String → VaultError
  transport : VaultError

-- A field of a Vault response, by its Go type; a `json.Number` that is no int64 has no value.
pub data Value : Type 0 where
  json_number : Option ℤ → Value
  float64 int64 int : ℤ → Value
  text : String → Value
  flag : Bool → Value
  nil other : Value

pub record TokenRequest : Type 0 where
  pub policies : List String
  pub period : String
  pub ttl : String
  pub purpose : String
  pub no_parent : Bool
  pub renewable : Bool
  pub source : String

-- The client token, the accessor and the lease in seconds of `resp.Auth`
pub record Auth : Type 0 where
  pub client_token : String
  pub accessor : String
  pub lease_duration : ℤ

-- A pod: whether its phase is Running, and the type and status of each of its conditions
pub record Pod : Type 0 where
  pub name : String
  pub is_running : Bool
  pub conditions : List (String × String)

pub data EventType : Type 0 where
  normal warning : EventType

-- Messages are not modelled.
pub data Metric : Type 0 where
  admin_token_observation : Instant → Instant → ℤ → Bool → Metric
  admin_token_rotation : Bool → Metric
  admin_token_ledger : ℕ → ℕ → Instant → Metric
  admin_token_ttl : ℤ → Metric
  revoke_skipped_current backup_failure : Metric

-- A request to Vault carries the client token under which it is sent.
pub data Call : Type 0 where
  get_secret : String → String → Call
  update_secret : Secret → Call
  lookup_self : String → Call
  create_token : String → TokenRequest → Call
  revoke_accessor lookup_accessor : String → String → Call
  renew_self : String → ℤ → Call
  backup : String → Call
  create_secret update_keys : Secret → Call
  list_pods read_jwt recover_backup set_owner : Call
  new_client : String → Call
  put_policy login : String → String → Call
  revoke_self : String → Call
  get_deployment : String → String → Call
  sleep : ℤ → Call
  swap_id clock : Call
  event : EventType → String → Call
  metric : Metric → Call

-- The answers, each by the calls made before, the latest first. `none` for an empty response.
pub record Env : Type 0 where
  pub get_secret : List Call → Result KubeError Secret
  -- the resourceVersion that the API server gave the written Secret
  pub update_secret : List Call → Secret → Result KubeError ℕ
  pub lookup_self : List Call → String → Result VaultError (Option (Dict Value))
  pub create_token : List Call → TokenRequest → Result VaultError (Option Auth)
  pub revoke_accessor : List Call → String → Option VaultError
  pub lookup_accessor : List Call → String → Option VaultError
  -- the lease, in seconds
  pub renew_self : List Call → ℤ → Result VaultError (Option ℤ)
  pub backup_fails : List Call → Bool
  -- the Secret of the recovery keys, and writing it
  pub get_keys : List Call → Result KubeError Secret
  pub update_keys : List Call → Secret → Option KubeError
  pub create_secret : List Call → Secret → Option KubeError
  pub list_pods : List Call → Option (List Pod)
  -- the token that a new client for the pod starts with, or none for an error
  pub new_client : List Call → String → Option String
  pub put_policy : List Call → String → Option VaultError
  -- the client token of an answered login
  pub login : List Call → String → Result VaultError (Option String)
  pub revoke_self : List Call → String → Option VaultError
  -- the file of the ServiceAccount token
  pub read_jwt : List Call → Option String
  -- `AdminTokenBackup.Recover`
  pub recover_backup : List Call → Option String
  -- whether `SetControllerReference` succeeds
  pub set_owner : List Call → Bool
  -- `ReadyReplicas` of a deployment
  pub get_deployment : List Call → Result KubeError ℤ
  pub swap_id : List Call → String
  pub clock : List Call → Instant

-- encoding/json on a ledger, and the `time` package's parsers and printers
pub record Codec : Type 0 where
  pub marshal : List LedgerEntry → String
  pub unmarshal : String → Option (List LedgerEntry)
  pub parse_duration : String → Option ℤ
  pub format_duration : ℤ → String
  pub parse_time : String → Option Instant
  pub format_time : Instant → String
  pub format_time_nano : Instant → String
  -- the text of an error from Vault's client library
  pub error_text : VaultError → String

pub data Strategy : Type 0 where
  immediate delayed external : Strategy

-- `DeploymentDependency`
pub record Dependency : Type 0 where
  pub name : String
  pub namespace : String
  pub min_ready_replicas : ℤ

pub record TokenManagement : Type 0 where
  pub enabled : Bool
  pub strategy : Strategy
  pub policy_name : String
  pub ttl : String
  pub auto_renew : Bool
  pub auto_rotate : Bool
  pub rotation_period : String
  pub rotation_grace_period : String
  pub creation_delay : String
  pub deployments : List Dependency

-- The fields of a VaultTransitUnseal that pkg/token reads beside `TokenManagement`
pub record Vtu : Type 0 where
  pub namespace : String
  pub name : String
  pub pod_namespace : String
  pub admin_token_name : String
  pub recovery_enabled : Bool
  pub backup_to_transit : Bool
  pub annotations : Dict String
  -- whether `VaultPod.Selector` is not nil
  pub has_selector : Bool
  pub recovery_keys_name : String
  pub store_recovery_keys : Bool
  pub admin_token_annotations : Dict String

-- `TokenStatus`, as far as it is written
pub record TokenStatus : Type 0 where
  pub state : TokenState
  pub created_at : String
  pub last_renewed_at : String
  pub expires_at : String
  pub accessor : String
  pub error : String
  pub is_initialized : Bool

-- One call's surroundings: the environment, the spec, and whether a backup is wired.
pub record Setup : Type 0 where
  pub env : Env
  pub codec : Codec
  pub vtu : Vtu
  pub tm : TokenManagement
  pub has_backup : Bool

pub record BackoffState : Type 0 where
  pub failures : ℕ
  pub until : Instant

-- The calls made so far, the latest first; the Vault client's token; `m.rotationBackoff`;
-- `vtu.Status.TokenStatus`.
pub record World : Type 0 where
  pub calls : List Call
  pub client_token : String
  pub backoff : Dict BackoffState
  pub status : TokenStatus

-- Make a call and read its answer.
unfoldable pub ask : {A : Type 0} → Call → (List Call → A) → Exec World A
ask k answer w = (answer w.calls, record w { calls = k ∷ w.calls })

unfoldable pub tell : Call → Exec World (Unit {0})
tell k w = (tt, record w { calls = k ∷ w.calls })

unfoldable pub set_token : String → Exec World (Unit {0})
set_token t w = (tt, record w { client_token = t })

unfoldable pub set_status : (TokenStatus → TokenStatus) → Exec World (Unit {0})
set_status f w = (tt, record w { status = f w.status })
