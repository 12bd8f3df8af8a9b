-- ===== src/Secrets/World.antt =====
-- What pkg/secrets calls while it recovers Secrets: the API server, the Vault to be unsealed and the
-- token manager, as functions of the history of calls; and the transit Vault of Transit/World.antt.
use vault_transit_unseal_ope.Base.{Bool, List, Option, String, ◌∷◌}
use vault_transit_unseal_ope.Kube.{Instant, KubeError, Secret}
use vault_transit_unseal_ope.Secrets.Verifier.{Action}
use vault_transit_unseal_ope.Base.Exec.{Exec}
use vault_transit_unseal_ope.Token.World.{EventType}
use vault_transit_unseal_ope.Base.Dict.{Dict}
use vault_transit_unseal_ope.Spec.{Spec}
use vault_transit_unseal_ope.System.{VaultStatus}
use vault_transit_unseal_ope.Base.Try.{Result, Try}
use vault_transit_unseal_ope.Transit

-- A Secret to be created, and whether it has the controller reference
pub record NewSecret : Type 0 where
  pub name : String
  pub namespace : String
  pub data_of : Dict String
  pub annotations : Dict String
  pub is_owned : Bool

pub data Call : Type 0 where
  get_secret : String → String → Call
  create_secret : NewSecret → Call
  update_secret : String → String → Secret → Call
  delete_secret : String → String → Call
  check_status clock sleep : Call
  lookup_self create_scoped : String → Call
  event : EventType → String → Call

-- The policies of a looked up token, if they are a list; each is a text or nothing that is read.
pub data Policies : Type 0 where
  no_policies : Policies
  policies : List (Option String) → Policies

pub record Env : Type 0 where
  pub get_secret : List Call → String → String → Result KubeError Secret
  pub create_secret : List Call → NewSecret → Option KubeError
  pub update_secret : List Call → String → String → Secret → Option KubeError
  pub delete_secret : List Call → String → String → Option KubeError
  -- none where the request fails
  pub check_status : List Call → Option VaultStatus
  pub lookup_self : List Call → String → Option Policies
  -- `CreateScopedTokenFromRoot`
  pub create_scoped : List Call → String → Option String
  pub clock : List Call → Instant

pub record World : Type 0 where
  pub calls : List Call
  pub transit : Transit.World.World
  -- the client token of the Vault client
  pub vault_token : String
  -- `AdminTokenAnnotations` of the resource in memory: none for a nil map
  pub admin_token_annotations : Option (Dict String)

pub record Setup : Type 0 where
  pub env : Env
  pub spec : Spec
  -- the transit Vault, and the namespace and name of the resource
  pub backup : Transit.Backup.Setup
  -- whether `SetControllerReference` succeeds
  pub can_own : Bool
  pub has_token_manager : Bool
  -- whether the Vault client gives API access
  pub has_api_client : Bool
  -- the text of the recovery instructions, and the descriptions of the actions
  pub instructions : String
  pub describe : Action → String
  pub format_time : Instant → String

pub data RecoveryError : Type 0 where
  transit_token_missing unknown_secret not_owned panicked : RecoveryError
  creating updating deleting getting : KubeError → RecoveryError

abbrev pub Recovering : Type 0 → Type 0
Recovering A = Try World RecoveryError A

unfoldable pub ask : {A : Type 0} → Call → (List Call → A) → Exec World A
ask k answer w = (answer w.calls, record w { calls = k ∷ w.calls })

unfoldable pub tell : Call → Exec World (Unit {0})
tell k w = (tt, record w { calls = k ∷ w.calls })

-- An action on the transit Vault
unfoldable pub on_transit : {A : Type 0} → Exec Transit.World.World A → Exec World A
on_transit m w = ((m w.transit).0, record w { transit = (m w.transit).1 })

module _ (c : Setup) where
  abbrev pub read_secret : String → String → Exec World (Result KubeError Secret)
  read_secret ns name = ask (Call.get_secret ns name) (λ h. c.env.get_secret h ns name)

  abbrev pub write_new : NewSecret → Exec World (Option KubeError)
  write_new s = ask (Call.create_secret s) (λ h. c.env.create_secret h s)

  abbrev pub write_secret : String → String → Secret → Exec World (Option KubeError)
  write_secret ns name s = ask (Call.update_secret ns name s) (λ h. c.env.update_secret h ns name s)

  abbrev pub drop_secret : String → String → Exec World (Option KubeError)
  drop_secret ns name = ask (Call.delete_secret ns name) (λ h. c.env.delete_secret h ns name)

  abbrev pub now : Exec World String
  now = ask Call.clock (λ h. c.format_time (c.env.clock h))
