-- ===== src/Secrets/Placeholder.antt =====
-- pkg/secrets/recovery.go: `recoverTransitToken`, `createRecoveryPlaceholder`, `updateIncompleteSecret`.
pub mod Allowed
use vault_transit_unseal_ope.Kube.{Secret}
use vault_transit_unseal_ope.Base.{String, false, if◌then◌else◌, true, ◌==◌}
use vault_transit_unseal_ope.Token.World.{warning}
use vault_transit_unseal_ope.Base.Dict
use vault_transit_unseal_ope.Base.Dict.{Dict}
use vault_transit_unseal_ope.Base.Try.{Result, ok, err, lift, or_error, or_fail, throw, ◌>>=◌, ◌>>◌}
use vault_transit_unseal_ope.Secrets.World.{
  Recovering, Call, write_new, read_secret, write_secret, now, tell, RecoveryError, Setup,
  NewSecret,
}
use vault_transit_unseal_ope.Secrets.Verifier.{Action}
use Prim.Native.String

abbrev pub mark : String → String → Dict String → Dict String
mark k v m = Dict.put m k v

abbrev pub recovery_marks : String → String → Dict String
recovery_marks reason time = mark "vault.homelab.io/recovery-time" time (
    mark "vault.homelab.io/recovery-reason" reason
      (mark "vault.homelab.io/recovery-required" "true" Dict.empty))

abbrev pub incomplete_marks : String → String → Dict String → Dict String
incomplete_marks reason time m =
    mark "vault.homelab.io/incomplete-time" time (
      mark "vault.homelab.io/incomplete-reason" reason
        (mark "vault.homelab.io/incomplete" "true" m))

abbrev pub placeholder_token : String
placeholder_token = "PLACEHOLDER-MANUAL-RECOVERY-REQUIRED"

module _ (c : Setup) where
  -- Under the controller reference, or in another namespace with a note of the resource
  abbrev pub with_owner : NewSecret → Result RecoveryError NewSecret
  with_owner s =
      if c.backup.namespace == s.namespace
      then (if c.can_own then ok (record s { is_owned = true }) else err RecoveryError.not_owned)
      else ok (record s {
        annotations =
            mark "vault.homelab.io/managed-by"
              (String.◌++◌ c.backup.namespace (String.◌++◌ "/" c.backup.name)) s.annotations;
      })

  unfoldable pub create_owned : Result RecoveryError NewSecret → Recovering (Unit {0})
  create_owned (err e) = throw e
  create_owned (ok s) = or_error RecoveryError.creating (write_new c s)

  abbrev pub placeholder : Action → Dict String → String → String → NewSecret
  placeholder a texts reason time = record {
    name = a.secret_name;
    namespace = a.namespace;
    data_of = texts;
    annotations = recovery_marks reason time;
    is_owned = false;
  }

  unfoldable pub create_placeholder : Action → Dict String → String → Recovering (Unit {0})
  unfolding create_owned
  create_placeholder a texts reason = do
    time ← lift (now c)
    create_owned (with_owner (placeholder a texts reason time))

  -- `recoverTransitToken`, which always is an error
  unfoldable pub recover_transit_token : Action → Recovering (Unit {0})
  unfolding create_placeholder
  recover_transit_token a = do
    create_placeholder a
        (Dict.put Dict.empty c.spec.transit_secret_key "PLACEHOLDER-REQUIRES-MANUAL-RECOVERY")
        "Transit token missing - manual recovery required"
    throw RecoveryError.transit_token_missing

  abbrev pub placeholder_data : Action → String → Dict String
  placeholder_data a reason =
      let texts =
        Dict.put Dict.empty "placeholder" "RECOVERY-REQUIRED: See recovery-instructions.txt" in
      if a.secret_name == c.spec.initialization.secret_names.admin_token
      then Dict.put (Dict.put texts "token" placeholder_token) "recovery-instructions.txt" reason
      else texts

  -- `createRecoveryPlaceholder`
  unfoldable pub create_recovery_placeholder : Action → String → Recovering (Unit {0})
  unfolding create_placeholder
  create_recovery_placeholder a reason =
      create_placeholder a (placeholder_data a reason)
        "Manual intervention required - see recovery-instructions.txt in secret data"

  mark_incomplete : Action → Secret → Recovering (Unit {0})
  mark_incomplete a s = do
    time ← lift (now c)
    or_error RecoveryError.updating (
        write_secret c a.namespace a.secret_name
          (record s { annotations = incomplete_marks (c.describe a) time s.annotations }))
    lift (tell (Call.event warning "IncompleteSecret"))

  -- `updateIncompleteSecret`
  unfoldable pub update_incomplete_secret : Action → Recovering (Unit {0})
  unfolding mark_incomplete
  update_incomplete_secret a = do
    s ← or_fail RecoveryError.getting (read_secret c a.namespace a.secret_name)
    mark_incomplete a s
