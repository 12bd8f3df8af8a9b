-- ===== src/Reconciler/Setup.antt =====
-- What a VaultReconciler is built with, and how its methods report.
use vault_transit_unseal_ope.Base.{Bool, Option, String, ℕ}
use vault_transit_unseal_ope.Base.Exec.{Exec, ◌>>=◌}
use vault_transit_unseal_ope.Kube.{Instant, KubeError, ℤ}
use vault_transit_unseal_ope.Reconciler.Conditions.{set_condition}
use vault_transit_unseal_ope.Spec.{Spec, StoredKeySecretRef}
use vault_transit_unseal_ope.StoredKey.Submit.{Progress, UnsealError}
use vault_transit_unseal_ope.System.{Call, Env, World, ask, set_status, tell}
use vault_transit_unseal_ope.Token.World.{warning}

-- Texts that `fmt.Sprintf` builds for the conditions
pub data Message : Type 0 where
  cannot_read no_share : StoredKeySecretRef → Message
  available : ℕ → StoredKeySecretRef → Message
  fixed : String → Message
  -- the text of the error of `Unseal`, told apart by what was achieved
  unseal_error : UnsealError → Progress → Message

-- `fmt`, `time` and SHA-256
pub record Codec : Type 0 where
  pub message : Message → String
  pub decimal : ℕ → String
  pub format_time : Instant → String
  pub sha256 : String → String
  -- `time.ParseDuration`, whose result is 0 beside an error
  pub parse_duration : String → ℤ

-- The verifier, the recovery, the token manager and the configurator, as the reconciler calls them.
-- Their methods may make any calls and change the status.
pub record Parts : Type 0 where
  pub has_verifier : Bool
  pub has_token_manager : Bool
  pub has_configurator : Bool
  -- none for an error, otherwise `AllPresent`
  pub verify : Exec World (Option Bool)
  -- whether it succeeded
  pub generate_root_token : String → Exec World Bool
  pub backup_token : String → Exec World Bool
  -- none for an error or for a check that was skipped, otherwise `Drifted`
  pub check_drift : Exec World (Option Bool)
  -- the text of the error
  pub reconcile_initial_token : Exec World (Option String)
  pub renew_if_needed : Exec World Bool
  pub rotate_if_due : Exec World Bool
  pub configure : String → Exec World (Unit {0})
  -- `RecoverSecrets`, through a client for the first pod: whether it succeeded
  pub has_recovery : Bool
  pub recover_secrets : Exec World Bool

pub record Setup : Type 0 where
  pub env : Env
  pub codec : Codec
  pub spec : Spec
  pub parts : Parts
  -- `SealedRestartGrace`
  pub grace : ℤ
  -- the steps of `retry.DefaultRetry`
  pub retry_steps : ℕ

pub data InitError : Type 0 where
  init_refused : InitError
  store_failed : KubeError → InitError

pub data ReconcileError : Type 0 where
  verification_failed unseal_key_invalid transit_token_invalid list_failed : ReconcileError

pub data ProcessError : Type 0 where
  not_started client_failed status_failed root_token_failed : ProcessError
  initialization_failed : InitError → ProcessError
  unseal_key_unavailable : ProcessError
  unseal_failed : UnsealError → ProcessError
  restart_failed : KubeError → ProcessError

module _ (c : Setup) where
  -- `NewConditionManager(vtu).SetCondition`, at the current time
  unfoldable pub condition : String → String → String → Message → Exec World (Unit {0})
  condition type status reason message = do
    now ← ask Call.clock c.env.clock
    set_status (λ s. record s {
      conditions =
          set_condition type
            (record { status = status; reason = reason; message = c.codec.message message })
            (c.codec.format_time now) s.conditions;
    })

abbrev pub warn : String → Exec World (Unit {0})
warn reason = tell (Call.event warning reason)
