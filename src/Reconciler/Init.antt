-- ===== src/Reconciler/Init.antt =====
-- pkg/reconciler/vault_reconciler.go: `InitializeVault` and `StoreSecrets`.
pub mod Allowed
pub mod Conflict
use vault_transit_unseal_ope.Spec.{given}
use vault_transit_unseal_ope.Base.Dict
use vault_transit_unseal_ope.Base.{
  Bool, List, Option, String, [], false, if◌then◌else◌, nat_eq, none, some, suc, true, zero, ℕ,
  ◌&&◌, ◌||◌, ◌∷◌,
}
use vault_transit_unseal_ope.Base.Dict.{Dict}
use vault_transit_unseal_ope.Base.Exec.{Exec, pure, ◌>>=◌, ◌>>◌}
use vault_transit_unseal_ope.Base.Text.{is_empty}
use vault_transit_unseal_ope.Kube.{is_conflict, KubeError, conflict}
use vault_transit_unseal_ope.Reconciler.Setup.{InitError, Setup, init_refused, store_failed, warn}
use vault_transit_unseal_ope.System.{Call, InitResponse, World, ask, set_status, tell}
use vault_transit_unseal_ope.Token.World.{normal}
use Prim.Native.String.{[], ◌∷◌, ◌++◌}
use Prim.Native.Char.{code}

-- `recovery-key-<i>`, from index `i` on
unfoldable pub number_keys : (ℕ → String) → ℕ → List String → Dict String → Dict String
number_keys decimal i [] d = d
number_keys decimal i (k ∷ ks) d =
    number_keys decimal (suc i) ks (Dict.put d ("recovery-key-" ++ decimal i) k)

abbrev pub is_trimmed_byte : ℕ → Bool
is_trimmed_byte n = nat_eq n 10 || nat_eq n 13 || nat_eq n 32 || nat_eq n 9

-- `HashRecoveryShare` (pkg/secrets/drift.go) hashes a share without the white space behind it.
unfoldable pub trim_share : String → String
trim_share [] = []
trim_share (ch ∷ s) =
    let rest = trim_share s in if is_empty rest && is_trimmed_byte (code ch) then [] else ch ∷ rest

abbrev pub first_hash : (String → String) → List String → String → String
first_hash sha256 [] old = old
first_hash sha256 (k ∷ ks) old = sha256 (trim_share k)

abbrev pub is_retried : Option InitError → Bool
is_retried (some (store_failed e)) = is_conflict e
is_retried _ = false

-- Whether `TokenManagement` is present and enabled
abbrev pub is_enabled : Option Bool → Bool
is_enabled none = false
is_enabled (some b) = b

module _ (c : Setup) where
  -- The annotations of the admin Secret mark a root token that token management is to replace.
  unfoldable pub admin_annotations : Dict String
  admin_annotations =
      let given = c.spec.initialization.secret_names.admin_token_annotations in
      if c.parts.has_token_manager && is_enabled c.spec.token_management
      then Dict.put (Dict.put given "vault.homelab.io/root-token" "true")
          "vault.homelab.io/needs-replacement" "true"
      else given

  store_call : String → Dict String → Dict String → Exec World (Option KubeError)
  store_call name values annotations =
      ask (Call.store c.spec.pod_namespace name values annotations) c.env.store

  after_keys : InitResponse → Option KubeError → Exec World (Option InitError)
  after_keys r (some e) = pure (some (store_failed e))
  after_keys r none = do
    set_status (λ s. record s {
      recovery_keys_hash = first_hash c.codec.sha256 r.recovery_keys s.recovery_keys_hash;
    })
    pure none

  store_keys : InitResponse → Exec World (Option InitError)
  unfolding store_call after_keys number_keys
  store_keys r =
      if c.spec.initialization.secret_names.store_recovery_keys
      then (do
        e ←
            store_call c.spec.initialization.secret_names.recovery_keys
              (number_keys c.codec.decimal 0 r.recovery_keys
                (Dict.put Dict.empty "root-token" r.root_token))
              c.spec.initialization.secret_names.recovery_keys_annotations
        after_keys r e)
      else pure none

  report_backup : Bool → Exec World (Unit {0})
  report_backup true = tell (Call.event normal "TokenBackupSuccess")
  report_backup false = warn "TokenBackupFailed"

  backup_root_token : InitResponse → Exec World (Unit {0})
  unfolding report_backup
  backup_root_token r =
      if c.spec.initialization.token_recovery.is_enabled
        && c.spec.initialization.token_recovery.backup_to_transit
      then (do done ← c.parts.backup_token r.root_token; report_backup done)
      else pure tt

  after_token : InitResponse → Option KubeError → Exec World (Option InitError)
  unfolding backup_root_token store_keys
  after_token r (some e) = pure (some (store_failed e))
  after_token r none = do backup_root_token r; store_keys r

  -- `StoreSecrets`
  unfoldable pub store_secrets : InitResponse → Exec World (Option InitError)
  unfolding after_token admin_annotations store_call
  store_secrets r = do
    e ←
        store_call c.spec.initialization.secret_names.admin_token
          (Dict.put Dict.empty "token" r.root_token) admin_annotations
    after_token r e

  report_initialized : Option InitError → Exec World (Option InitError)
  report_initialized (some e) = pure (some e)
  report_initialized none = do tell (Call.event normal "Initialized"); pure none

  on_response : Option InitResponse → Exec World (Option InitError)
  unfolding store_secrets report_initialized
  on_response none = pure (some init_refused)
  on_response (some r) = do e ← store_secrets r; report_initialized e

  initialize_once : Exec World (Option InitError)
  unfolding on_response
  initialize_once = do
    answer ←
        ask
          (Call.initialize c.spec.initialization.recovery_shares
            c.spec.initialization.recovery_threshold)
          c.env.initialize
    on_response answer

  -- `retry.RetryOnConflict`, by the steps left; the error of the last step is the result.
  unfoldable pub initialize_steps : ℕ → Option InitError → Exec World (Option InitError)
  unfolding initialize_once
  initialize_steps zero last = pure last
  initialize_steps (suc n) last = do
    result ← initialize_once
    if is_retried result then initialize_steps n result else pure result

  -- `InitializeVault`
  unfoldable pub initialize_vault : Exec World (Option InitError)
  unfolding initialize_steps
  initialize_vault = initialize_steps c.retry_steps none
