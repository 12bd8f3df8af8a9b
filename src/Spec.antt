-- ===== src/Spec.antt =====
-- api/v1alpha1: the parts of a VaultTransitUnseal that the reconciler reads and writes.
use vault_transit_unseal_ope.Base.{
  Bool, List, Option, String, false, if◌then◌else◌, none, not, some, true, ℕ, ◌==◌,
}
use vault_transit_unseal_ope.Base.Dict.{Dict}

pub data UnsealMode : Type 0 where
  transit stored_key : UnsealMode

abbrev pub mode_text : UnsealMode → String
mode_text transit = "transit"
mode_text stored_key = "stored-key"

abbrev pub default_secret_name : String
default_secret_name = "vault-unseal-keys"

abbrev pub default_secret_key : String
default_secret_key = "unseal-keys.txt"

-- A reference to the Secret with the unseal key shares; empty texts are left to the defaults.
pub record StoredKeySecretRef : Type 0 where
  pub name : String
  pub key : String
  pub namespace : String

pub record SecretNames : Type 0 where
  pub admin_token : String
  pub recovery_keys : String
  pub store_recovery_keys : Bool
  pub skip_admin_token_creation : Bool
  pub admin_token_annotations : Dict String
  pub recovery_keys_annotations : Dict String

pub record TokenRecovery : Type 0 where
  pub is_enabled : Bool
  pub backup_to_transit : Bool

pub record Initialization : Type 0 where
  pub recovery_shares : ℕ
  pub recovery_threshold : ℕ
  pub secret_names : SecretNames
  pub force_reinitialize : Bool
  pub token_recovery : TokenRecovery

pub record PostUnsealConfig : Type 0 where
  pub enable_kv : Bool
  pub enable_external_secrets_operator : Bool
  pub enable_vault_config_operator_bootstrap : Bool

pub record Spec : Type 0 where
  pub mode : String
  pub pod_namespace : String
  pub transit_secret_name : String
  pub transit_secret_key : String
  pub stored_key_ref : Option StoredKeySecretRef
  pub initialization : Initialization
  pub check_interval : String
  pub post_unseal_config : PostUnsealConfig
  -- `TokenManagement`, if it is present: its `Enabled`
  pub token_management : Option Bool

pub record Condition : Type 0 where
  pub type : String
  pub status : String
  pub reason : String
  pub message : String
  pub last_transition_time : String

pub data TokenState : Type 0 where
  unset pending waiting active renewing rotating failed : TokenState
  other_state : String → TokenState

pub record Status : Type 0 where
  pub sealed : Bool
  pub last_check_time : String
  pub unseal_mode : String
  pub last_unseal_time : String
  pub token_state : TokenState
  pub token_error : String
  pub recovery_keys_hash : String
  pub conditions : List Condition

-- `EffectiveUnsealMode`
unfoldable pub effective_unseal_mode : Spec → UnsealMode
effective_unseal_mode s = if s.mode == "stored-key" then stored_key else transit

unfoldable pub is_stored_key_mode : Spec → Bool
unfolding effective_unseal_mode
is_stored_key_mode s = elim (effective_unseal_mode s) [ stored_key ↦ true | transit ↦ false ]

-- The given text, or the default where it is empty
abbrev pub given : String → String → String
given t default = if not (t == "") then t else default

-- `StoredKeySecretRef`
unfoldable pub stored_key_secret_ref : Spec → StoredKeySecretRef
stored_key_secret_ref s = elim s.stored_key_ref [
  | none ↦ record {
    name = default_secret_name;
    key = default_secret_key;
    namespace = s.pod_namespace;
  }
  | some r ↦ record {
    name = given r.name default_secret_name;
    key = given r.key default_secret_key;
    namespace = given r.namespace s.pod_namespace;
  }
]
