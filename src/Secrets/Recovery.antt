-- ===== src/Secrets/Recovery.antt =====
-- pkg/secrets/recovery.go: `RecoverSecrets`, `recoverMissingSecret`, `recoverAdminToken`,
-- `recoverRecoveryKeys` and `isRootToken`, for a Vault client that is not nil.
pub mod Restored
pub mod Scoped
mod Tests
pub mod Allowed
use vault_transit_unseal_ope.Base.{
  Bool, List, Option, String, [], false, if◌then◌else◌, none, not, some, true, ◌&&◌, ◌==◌, ◌||◌,
  ◌∷◌,
}
use vault_transit_unseal_ope.Reconciler.Init.{is_enabled}
use vault_transit_unseal_ope.System.{VaultStatus}
use vault_transit_unseal_ope.Token.World.{normal, warning}
use vault_transit_unseal_ope.Base.Exec.{Exec, pure, gets}
use vault_transit_unseal_ope.Base.Exec
use vault_transit_unseal_ope.Base.Try.{Result, ok, err, lift, return, throw, ◌>>=◌, ◌>>◌}
use vault_transit_unseal_ope.Secrets.World.{
  Call, ask, tell, on_transit, RecoveryError, Setup, World, Recovering, Policies, no_policies,
  policies,
}
use vault_transit_unseal_ope.Secrets.Placeholder.{
  create_recovery_placeholder, recover_transit_token, update_incomplete_secret,
}
use vault_transit_unseal_ope.Secrets.Restore.{restore_admin_token}
use vault_transit_unseal_ope.Secrets.Verifier.{Action, ActionType, Report, create, restore, update}
use vault_transit_unseal_ope.Transit.Kv.{KvError}
use vault_transit_unseal_ope.Transit.Backup.{BackupError, kv_failed, recover_token_from_transit}

has_root : List (Option String) → Bool
has_root [] = false
has_root (none ∷ ps) = has_root ps
has_root (some p ∷ ps) = p == "root" || has_root ps

-- none where the lookup fails
unfoldable pub root_in : Option Policies → Option Bool
unfolding has_root
root_in none = none
root_in (some no_policies) = some false
root_in (some (policies ps)) = some (has_root ps)

abbrev pub assumed : Option Bool → Bool
assumed none = true
assumed (some b) = b

abbrev pub scoped_or : String → Option String → String
scoped_or token none = token
scoped_or token (some t) = t

set_vault_token : String → Exec World (Unit {0})
set_vault_token t w = (tt, record w { vault_token = t })

-- An error is reported; a panic ends the run.
report_failure : String → Result RecoveryError (Unit {0}) → Recovering (Unit {0})
report_failure reason (ok u) = return tt
report_failure reason (err RecoveryError.panicked) = throw RecoveryError.panicked
report_failure reason (err e) = do lift (tell (Call.event warning reason)); throw e

module _ (c : Setup) where
  lookup_with : String → String → Exec World (Option Bool)
  unfolding Exec.◌>>=◌ set_vault_token
  lookup_with token old = Exec.◌>>=◌ (set_vault_token token) λ _.
      Exec.◌>>=◌ (ask (Call.lookup_self token) (λ h. c.env.lookup_self h token))
        λ answer. Exec.◌>>=◌ (set_vault_token old) λ _. pure (root_in answer)

  -- `isRootToken`; none for an error
  unfoldable pub is_root_token : String → Exec World (Option Bool)
  unfolding lookup_with
  is_root_token token =
      if not c.has_api_client
      then pure none
      else Exec.◌>>=◌ (gets (λ w. w.vault_token)) (lookup_with token)

  abbrev pub scopes : Bool
  scopes = c.has_token_manager && is_enabled c.spec.token_management

  scope_if : String → Bool → Exec World String
  scope_if token root =
      if root
      then Exec.◌>>=◌ (ask (Call.create_scoped token) (λ h. c.env.create_scoped h token))
          (λ t. pure (scoped_or token t))
      else pure token

  -- The token to be restored: a scoped one in the place of a root token
  unfoldable pub scoped_token : String → Exec World String
  unfolding scope_if is_root_token
  scoped_token token =
      if scopes
      then Exec.◌>>=◌ (is_root_token token) (λ root. scope_if token (assumed root))
      else pure token

  manual_recovery : Action → Recovering (Unit {0})
  manual_recovery a = do
    lift (tell (Call.event warning "ManualRecoveryRequired"))
    create_recovery_placeholder c a c.instructions

  unfoldable pub on_backup : Action → Result BackupError String → Recovering (Unit {0})
  unfolding manual_recovery scoped_token
  on_backup a (err (kv_failed KvError.panicked)) = throw RecoveryError.panicked
  on_backup a (err e) = manual_recovery a
  on_backup a (ok token) =
      if not (token == "")
      then (do t ← lift (scoped_token token); restore_admin_token c a t)
      else manual_recovery a

  abbrev pub uses_backup : Bool
  uses_backup =
      let recovery = c.spec.initialization.token_recovery in
      recovery.is_enabled && recovery.backup_to_transit

  unfoldable pub recover_unsealed : Action → Recovering (Unit {0})
  unfolding on_backup manual_recovery
  recover_unsealed a =
      if uses_backup
      then (do backup ← lift (on_transit (recover_token_from_transit c.backup)); on_backup a backup)
      else manual_recovery a

  unfoldable pub on_admin_status : Action → Option VaultStatus → Recovering (Unit {0})
  unfolding recover_unsealed
  on_admin_status a none = return tt
  on_admin_status a (some s) =
      if not s.initialized || s.sealed then return tt else recover_unsealed a

  -- `recoverAdminToken`
  unfoldable pub recover_admin_token : Action → Recovering (Unit {0})
  unfolding on_admin_status
  recover_admin_token a = do
    status ← lift (ask Call.check_status c.env.check_status)
    on_admin_status a status

  on_keys_status : Action → Option VaultStatus → Recovering (Unit {0})
  on_keys_status a none = return tt
  on_keys_status a (some s) =
      if not s.initialized
      then return tt
      else create_recovery_placeholder c a
          "Recovery keys missing - requires re-initialization or restore from backup"

  -- `recoverRecoveryKeys`
  unfoldable pub recover_recovery_keys : Action → Recovering (Unit {0})
  unfolding on_keys_status
  recover_recovery_keys a = do
    status ← lift (ask Call.check_status c.env.check_status)
    on_keys_status a status

  -- `recoverMissingSecret`
  unfoldable pub recover_missing_secret : Action → Recovering (Unit {0})
  recover_missing_secret a =
      let names = c.spec.initialization.secret_names in
      if a.secret_name == c.spec.transit_secret_name
      then recover_transit_token c a
      else if a.secret_name == names.admin_token
      then (if names.skip_admin_token_creation then return tt else recover_admin_token a)
      else if a.secret_name == names.recovery_keys
      then recover_recovery_keys a
      else throw RecoveryError.unknown_secret

  recover_action : ActionType → Action → Recovering (Unit {0})
  unfolding report_failure
  recover_action create a =
      Exec.◌>>=◌ (recover_missing_secret a) (report_failure "SecretRecoveryFailed")
  recover_action update a = update_incomplete_secret c a
  recover_action restore a =
      Exec.◌>>=◌ (recover_missing_secret a) (report_failure "SecretRestoreFailed")

  recover_plan : List Action → Recovering (Unit {0})
  unfolding recover_action
  recover_plan [] = return tt
  recover_plan (a ∷ rest) = do recover_action a.type a; recover_plan rest

  -- `RecoverSecrets`
  unfoldable pub recover_secrets : Report → Recovering (Unit {0})
  unfolding recover_plan
  recover_secrets r =
      if r.all_present
      then return tt
      else (do recover_plan r.recovery_plan; lift (tell (Call.event normal "SecretsRecovered")))
