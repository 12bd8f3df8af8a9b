-- ===== src/Configuration/Configurator.antt =====
-- pkg/configuration/configurator.go: `Configure`.
pub mod Again
pub mod Kept
use vault_transit_unseal_ope.Base.{
  Bool, List, Option, String, [], if◌then◌else◌, none, not, some, true, ◌&&◌, ◌==◌, ◌||◌, ◌∷◌,
}
use vault_transit_unseal_ope.Secrets.Placeholder.{mark}
use vault_transit_unseal_ope.Base.Dict
use vault_transit_unseal_ope.Base.Exec
use vault_transit_unseal_ope.Base.Dict.{Dict}
use vault_transit_unseal_ope.Base.Exec.{Exec}
use vault_transit_unseal_ope.Base.Try.{
  Result, Try, ok, err, attempt, lift, or_error, or_fail, or_missing, return, throw, ◌>>=◌, ◌>>◌,
}
use vault_transit_unseal_ope.Configuration.World.{
  Setup, World, Call, Env, Payload, Policy, ConfigureError, Configuring, ConfigurationStatus,
  ServiceAccountRef, ask, set_status,
}
use vault_transit_unseal_ope.Spec.{given}
use vault_transit_unseal_ope.Kube.{gtb, pos}
use vault_transit_unseal_ope.Transit.Kv.{is_version_two}
use vault_transit_unseal_ope.Transit.World.{Mount}
use Prim.Native.String

abbrev pub is_kv_two : Mount → Bool
is_kv_two m = m.type == "kv" && is_version_two m.version

names_of : List ServiceAccountRef → List String
names_of [] = []
names_of (s ∷ ss) = s.name ∷ names_of ss

namespaces_of : List ServiceAccountRef → List String
namespaces_of [] = []
namespaces_of (s ∷ ss) = s.namespace ∷ namespaces_of ss

abbrev pub default_accounts : List ServiceAccountRef
default_accounts =
    record { name = "external-secrets"; namespace = "external-secrets" }
    ∷ record { name = "external-secrets-operator"; namespace = "external-secrets" }
    ∷ []

accounts_or : List ServiceAccountRef → List ServiceAccountRef
accounts_or [] = default_accounts
accounts_or (s ∷ ss) = s ∷ ss

abbrev pub operator_name : String
operator_name = "external-secrets-operator"

abbrev pub when_some : {A : Type 0} → Bool → A → Option A
when_some b x = if b then some x else none

abbrev pub mark_kv : String → ConfigurationStatus → ConfigurationStatus
mark_kv time s = record s { kv_configured = true; kv_configured_time = time }

abbrev pub mark_external_secrets : String → ConfigurationStatus → ConfigurationStatus
mark_external_secrets time s = record s {
  external_secrets_operator_configured = true;
  external_secrets_operator_configured_time = time;
}

abbrev pub mark_bootstrap : String → ConfigurationStatus → ConfigurationStatus
mark_bootstrap time s = record s {
  vault_config_operator_bootstrapped = true;
  vault_config_operator_bootstrapped_time = time;
}

module _ (c : Setup) where
  write : String → Payload → Configuring (Unit {0})
  write path p =
      or_error ConfigureError.writing (ask (Call.write path p) (λ h. c.env.write h path p))

  put_policy : String → Policy → Configuring (Unit {0})
  put_policy name p =
      or_error ConfigureError.writing_policy
        (ask (Call.put_policy name p) (λ h. c.env.put_policy h name p))

  abbrev pub kv_path : String
  kv_path = given c.kv.path "secret"

  -- The limits are set as far as they are given; a failure is only logged.
  limit_kv : Configuring (Unit {0})
  unfolding write
  limit_kv =
      let has_versions = gtb c.kv.max_versions (pos 0) in
      let has_deletion = not (c.kv.delete_version_after == "") in
      if has_versions || has_deletion
      then (do
        lift (
            attempt (
              write (String.◌++◌ "/" (String.◌++◌ kv_path "/config")) (
                Payload.kv_limits (when_some has_versions c.kv.max_versions)
                  (when_some has_deletion c.kv.delete_version_after))))
        return tt)
      else return tt

  on_kv_mount : Option Mount → Configuring (Unit {0})
  unfolding limit_kv
  on_kv_mount (some m) = if is_kv_two m then return tt else throw ConfigureError.other_mount
  on_kv_mount none = do
    or_error ConfigureError.mounting (ask (Call.mount kv_path) (λ h. c.env.mount h kv_path))
    limit_kv

  -- `configureKV`, which always makes version 2
  unfoldable pub configure_kv : Configuring (Unit {0})
  unfolding on_kv_mount
  configure_kv = do
    mounts ← or_fail ConfigureError.listing_mounts (ask Call.list_mounts c.env.list_mounts)
    on_kv_mount (Dict.get mounts (String.◌++◌ kv_path "/"))

  enable_if : Bool → Configuring (Unit {0})
  enable_if exists =
      if exists
      then return tt
      else or_error ConfigureError.enabling_auth
          (ask (Call.enable_auth "kubernetes") (λ h. c.env.enable_auth h "kubernetes"))

  -- Both of the following see to it that Kubernetes auth is enabled.
  ensure_kubernetes_auth : Configuring (Unit {0})
  unfolding enable_if
  ensure_kubernetes_auth = do
    auths ← or_fail ConfigureError.listing_auth (ask Call.list_auth c.env.list_auth)
    enable_if (Dict.holds auths "kubernetes/")

  -- `configureExternalSecretsOperator`
  unfoldable pub configure_external_secrets_operator : Configuring (Unit {0})
  unfolding write put_policy ensure_kubernetes_auth names_of namespaces_of accounts_or
  configure_external_secrets_operator =
      let policy_name = given c.external_secrets.policy_name operator_name in
      let auth = c.external_secrets.kubernetes_auth in
      let accounts = accounts_or auth.service_accounts in
      do
        put_policy policy_name Policy.reads_secrets
        ensure_kubernetes_auth
        write "auth/kubernetes/config"
            (Payload.auth_settings "https://kubernetes.default.svc:443" none)
        write (String.◌++◌ "auth/kubernetes/role/" (given auth.role_name operator_name)) (
            Payload.role (names_of accounts) (namespaces_of accounts) (policy_name ∷ []) auth.ttl
              auth.max_ttl)

  abbrev pub account_folder : String
  account_folder = "/var/run/secrets/kubernetes.io/serviceaccount/"

  -- `readServiceAccountToken`, `readKubernetesCACert`
  read_file : ConfigureError → String → Configuring String
  read_file e name =
      let path = String.◌++◌ account_folder name in
      or_missing e (ask (Call.read_file path) (λ h. c.env.read_file h path))

  -- `configureVaultConfigOperatorBootstrap`
  unfoldable pub bootstrap_vault_config_operator : Configuring (Unit {0})
  unfolding write put_policy ensure_kubernetes_auth read_file
  bootstrap_vault_config_operator = do
    ensure_kubernetes_auth
    reviewer ← read_file ConfigureError.no_token "token"
    certificate ← read_file ConfigureError.no_certificate "ca.crt"
    write "auth/kubernetes/config" (
        Payload.auth_settings "https://kubernetes.default.svc.cluster.local:443"
          (some (reviewer, certificate)))
    put_policy "vault-admin" Policy.administers
    write "auth/kubernetes/role/controller-manager" (
        Payload.role ("controller-manager" ∷ []) ("vault-config-operator" ∷ []) ("vault-admin" ∷ [])
          "1h" "24h")

  -- One part: not enabled, already done, or done now
  unfoldable pub configure_part :
      Bool
      → (ConfigurationStatus → Bool)
      → Configuring (Unit {0})
      → (String → ConfigurationStatus → ConfigurationStatus)
      → Configuring (Unit {0})
  configure_part enabled is_done work mark w =
      if enabled && not (is_done w.status)
      then (do work; time ← lift (ask Call.clock c.env.clock); lift (set_status (mark time))) w
      else return tt w

  abbrev pub kv_part : Configuring (Unit {0})
  kv_part = configure_part c.post_unseal.enable_kv (λ s. s.kv_configured) configure_kv mark_kv

  abbrev pub external_secrets_part : Configuring (Unit {0})
  external_secrets_part =
      configure_part c.post_unseal.enable_external_secrets_operator
        (λ s. s.external_secrets_operator_configured) configure_external_secrets_operator
        mark_external_secrets

  abbrev pub bootstrap_part : Configuring (Unit {0})
  bootstrap_part =
      configure_part c.post_unseal.enable_vault_config_operator_bootstrap
        (λ s. s.vault_config_operator_bootstrapped) bootstrap_vault_config_operator mark_bootstrap

  -- `Configure`
  unfoldable pub configure : Configuring (Unit {0})
  unfolding configure_part
  configure = do kv_part; external_secrets_part; bootstrap_part
