-- ===== src/Configuration/Configurator/Kept.antt =====
-- What the parts of the configuration do to Vault leaves the status as it is.
use vault_transit_unseal_ope.Base.Dict.{Dict}
use Prim.Native.String
use vault_transit_unseal_ope.Base.Dict
use vault_transit_unseal_ope.Configuration.Configurator.{kv_path}
use vault_transit_unseal_ope.Base.{Bool, List, Option, String, none, some}
use vault_transit_unseal_ope.Transit.World.{Mount}
use vault_transit_unseal_ope.Base.Exec.{Keeps, Keeps-if}
use vault_transit_unseal_ope.Base.Try.{
  Keeps-try, Keeps-lift, Keeps-attempt, Keeps-return, Keeps-throw, Keeps-or_fail, Keeps-or_error,
  Keeps-or_missing,
}
use vault_transit_unseal_ope.Configuration.World.{
  Setup, World, Call, Payload, Policy, ConfigureError, ConfigurationStatus, ask, set_status,
}
use vault_transit_unseal_ope.Configuration.Configurator.{
  configure_kv, configure_external_secrets_operator, bootstrap_vault_config_operator, on_kv_mount,
  limit_kv, write, put_policy, enable_if, ensure_kubernetes_auth, read_file,
}

-- The status has the property `P`.
abbrev pub Has : (ConfigurationStatus → Type 0) → World → Type 0
Has P w = P w.status

module _ (c : Setup) (P : ConfigurationStatus → Type 0) where
  pub ask-Has : {A : Type 0} (k : Call) (answer : List Call → A) → Keeps (Has P) (ask k answer)
  unfolding ask
  ask-Has k answer = record { at = λ w h. h }

  write-Has : (path : String) (p : Payload) → Keeps (Has P) (write c path p)
  unfolding write
  write-Has path p = Keeps-or_error _ _ (ask-Has _ _)

  policy-Has : (name : String) (p : Policy) → Keeps (Has P) (put_policy c name p)
  unfolding put_policy
  policy-Has name p = Keeps-or_error _ _ (ask-Has _ _)

  limit-Has : Keeps (Has P) (limit_kv c)
  unfolding limit_kv
  limit-Has =
      Keeps-if _ _ _
        (Keeps-try _ _ (Keeps-lift _ (Keeps-attempt _ (write-Has _ _))) λ _. Keeps-return tt)
        (Keeps-return tt)

  mount-Has : (o : Option Mount) → Keeps (Has P) (on_kv_mount c o)
  unfolding on_kv_mount
  mount-Has none = Keeps-try _ _ (Keeps-or_error _ _ (ask-Has _ _)) λ _. limit-Has
  mount-Has (some m) = Keeps-if _ _ _ (Keeps-return tt) (Keeps-throw _)

  kv-Has : Keeps (Has P) (configure_kv c)
  unfolding configure_kv
  kv-Has =
      Keeps-try _ _ (Keeps-or_fail _ _ (ask-Has _ _))
        λ mounts. mount-Has (Dict.get mounts (String.◌++◌ (kv_path c) "/"))

  enable-Has : (b : Bool) → Keeps (Has P) (enable_if c b)
  unfolding enable_if
  enable-Has b = Keeps-if _ _ _ (Keeps-return tt) (Keeps-or_error _ _ (ask-Has _ _))

  auth-Has : Keeps (Has P) (ensure_kubernetes_auth c)
  unfolding ensure_kubernetes_auth
  auth-Has =
      Keeps-try _ _ (Keeps-or_fail _ _ (ask-Has _ _))
        λ auths. enable-Has (Dict.holds auths "kubernetes/")

  pub external_secrets-Has : Keeps (Has P) (configure_external_secrets_operator c)
  unfolding configure_external_secrets_operator
  external_secrets-Has =
      Keeps-try _ _ (policy-Has _ _)
        λ _. Keeps-try _ _ auth-Has λ _. Keeps-try _ _ (write-Has _ _) λ _. write-Has _ _

  file-Has : (e : ConfigureError) (name : String) → Keeps (Has P) (read_file c e name)
  unfolding read_file
  file-Has e name = Keeps-or_missing _ _ (ask-Has _ _)

  pub bootstrap-Has : Keeps (Has P) (bootstrap_vault_config_operator c)
  unfolding bootstrap_vault_config_operator
  bootstrap-Has = Keeps-try _ _ auth-Has λ _.
      Keeps-try _ _ (file-Has ConfigureError.no_token "token") λ reviewer.
        Keeps-try _ _ (file-Has ConfigureError.no_certificate "ca.crt") λ certificate.
          Keeps-try _ _ (write-Has _ _) λ _. Keeps-try _ _ (policy-Has _ _) λ _. write-Has _ _

pub set-Has :
    (P : ConfigurationStatus → Type 0) (f : ConfigurationStatus → ConfigurationStatus)
    → ((s : ConfigurationStatus) → P s → P (f s))
    → Keeps (Has P) (set_status f)
unfolding set_status
set-Has P f k = record { at = λ w h. k w.status h }
