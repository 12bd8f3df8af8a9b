-- ===== src/System.antt =====
-- The surroundings of the reconciler: the Vault server of a pod, the API server, the clock and the
-- status of the resource. An answer depends on the whole history of calls, as in Token/World.antt.
use vault_transit_unseal_ope.Base.{Bool, List, Option, String, ℕ, ◌∷◌}
use vault_transit_unseal_ope.Base.Dict.{Dict}
use vault_transit_unseal_ope.Base.Exec.{Exec}
use vault_transit_unseal_ope.Kube.{Instant, KubeError}
use vault_transit_unseal_ope.Spec.{Status, StoredKeySecretRef, UnsealMode}
use vault_transit_unseal_ope.Token.World.{EventType}

-- `SealStatusResponse` of sys/unseal, as far as it is read
pub record SealStatus : Type 0 where
  pub sealed : Bool
  pub progress : ℕ
  pub threshold : ℕ

-- `vault.Status`
pub record VaultStatus : Type 0 where
  pub initialized : Bool
  pub sealed : Bool

-- `vault.InitResponse`
pub record InitResponse : Type 0 where
  pub root_token : String
  pub recovery_keys : List String

-- `running_since` is none unless the container is running since a known time.
pub record ContainerStatus : Type 0 where
  pub name : String
  pub started : Option Bool
  pub running_since : Option Instant

pub record Pod : Type 0 where
  pub name : String
  pub containers : List String
  -- whether the phase is Running
  pub is_running : Bool
  pub statuses : List ContainerStatus
  -- whether there is a deletion timestamp
  pub is_terminating : Bool

pub data Metric : Type 0 where
  vault_status : Bool → Bool → Metric
  initialization : Bool → Metric
  unseal_attempt : UnsealMode → Bool → Metric
  reconciliation : Bool → Metric

pub data Call : Type 0 where
  get_key : String → String → String → Call
  store : String → String → Dict String → Dict String → Call
  list_pods new_client : String → Call
  check_status : String → Call
  initialize : ℕ → ℕ → Call
  submit_share : String → Call
  reset_unseal : Call
  delete_pod : String → Call
  update_status : Status → Call
  clock : Call
  event : EventType → String → Call
  metric : Metric → Call

pub record Env : Type 0 where
  -- `SecretManager.Get` and `CreateOrUpdateWithOptions`
  pub get_key : List Call → StoredKeySecretRef → Option String
  pub store : List Call → Option KubeError
  pub list_pods : List Call → Option (List Pod)
  pub new_client : List Call → String → Bool
  -- none where the request fails
  pub check_status : List Call → String → Option VaultStatus
  pub initialize : List Call → Option InitResponse
  pub submit_share : List Call → String → Option SealStatus
  pub delete_pod : List Call → String → Option KubeError
  pub clock : List Call → Instant

pub record World : Type 0 where
  pub calls : List Call
  pub status : Status

unfoldable pub ask : {A : Type 0} → Call → (List Call → A) → Exec World A
ask k answer w = (answer w.calls, record w { calls = k ∷ w.calls })

unfoldable pub tell : Call → Exec World (Unit {0})
tell k w = (tt, record w { calls = k ∷ w.calls })

unfoldable pub set_status : (Status → Status) → Exec World (Unit {0})
set_status f w = (tt, record w { status = f w.status })
