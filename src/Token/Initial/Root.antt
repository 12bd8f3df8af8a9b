-- ===== src/Token/Initial/Root.antt =====
-- manager_simple.go: the paths on which a scoped token is made from the root token,
-- `replaceInvalidToken` and `replaceRootToken`.
pub mod Allowed
pub mod Reported
pub mod Lost
use vault_transit_unseal_ope.Base.Dict
use vault_transit_unseal_ope.Base.{
  Bool, List, Option, String, [], false, if◌then◌else◌, not, some, true, ◌==◌, ◌∷◌,
}
use vault_transit_unseal_ope.Base.Dict.{Dict}
use vault_transit_unseal_ope.Base.Exec.{Exec}
use vault_transit_unseal_ope.Base.Text.{trim_space}
use vault_transit_unseal_ope.Kube.{KubeError, Secret, text_at}
use vault_transit_unseal_ope.Token.Backoff.{get_admin_secret, update}
use vault_transit_unseal_ope.Token.Initial.Client.{
  Fallible, InitialError, accessor_in, new_client, try_backup_admin_token, under,
}
use vault_transit_unseal_ope.Token.Initial.Create.{note, note_management}
use vault_transit_unseal_ope.Token.Initial.Recover.{
  activate, installed, try_recover_from_transit_backup, try_recover_via_k8s_auth,
}
use vault_transit_unseal_ope.Token.Initial.Scoped.{create_scoped_token, first_pod, from, validated}
use vault_transit_unseal_ope.Token.Mint.{call_lookup_self}
use vault_transit_unseal_ope.Token.World.{Call, Setup, TokenStatus, World, ask, set_status}
use text.Mathlib.Text.{starts_with}
use vault_transit_unseal_ope.Base.Exec
use vault_transit_unseal_ope.Base.Try.{
  Result, err, lift, ok, or_error, or_fail, or_missing, return, throw, ◌>>=◌, ◌>>◌,
}

abbrev drop_all : List String → Dict String → Dict String
drop_all [] m = m
drop_all (k ∷ ks) m = drop_all ks (Dict.remove m k)

abbrev unusable_marks : List String
unusable_marks =
    "vault.homelab.io/recovery-required" ∷ "vault.homelab.io/incomplete"
    ∷ "vault.homelab.io/root-token" ∷ "vault.homelab.io/needs-replacement"
    ∷ "vault.homelab.io/recovery-reason" ∷ "vault.homelab.io/recovery-time" ∷ []

abbrev root_marks : List String
root_marks = "vault.homelab.io/root-token" ∷ "vault.homelab.io/needs-replacement" ∷ []

module _ (c : Setup) where
  format_now : Fallible String
  format_now = do now ← lift (ask Call.clock c.env.clock); return (c.codec.format_time now)

  -- The Secret with a scoped token in it, without the marks given
  unfoldable pub scoped_secret : List String → Secret → String → String → String → Secret
  unfolding note_management
  scoped_secret marks secret token replaced_at created_at = record (installed secret token) {
    annotations = note_management c (
        note "vault.homelab.io/token-created" created_at (
          note "vault.homelab.io/replaced-at" replaced_at
            (note "vault.homelab.io/scoped-token" "true" (drop_all marks secret.annotations))));
  }

  -- Write a scoped token over the Secret's token.
  write_scoped : List String → Secret → String → Fallible (Unit {0})
  unfolding format_now
  write_scoped marks secret token = do
    replaced_at ← format_now
    created_at ← format_now
    or_fail InitialError.update_failed
        (update c (scoped_secret marks secret token replaced_at created_at))
    return tt

  report_active : Fallible (Unit {0})
  unfolding format_now
  report_active = do now ← format_now; lift (set_status (activate now))

  -- The root token that the recovery Secret holds, or why there is none
  abbrev pub stored_root : Secret → Result InitialError String
  stored_root keys =
      if Dict.holds keys.annotations "vault.homelab.io/root-token-revoked"
      then err InitialError.root_revoked
      else if text_at keys.data_of "root-token" == ""
      then (if Dict.any_key (λ k. starts_with k "recovery-key-") keys.data_of
          then err InitialError.root_missing
          else err InitialError.nothing_stored)
      else ok (text_at keys.data_of "root-token")

  get_keys_secret : Exec World (Result KubeError Secret)
  get_keys_secret =
      ask (Call.get_secret c.vtu.pod_namespace c.vtu.recovery_keys_name) c.env.get_keys

  require : Bool → InitialError → Fallible (Unit {0})
  require b e = if b then return tt else throw e

  abbrev known_accessor : String → Result InitialError String
  known_accessor a = if a == "" then err InitialError.no_accessor else ok a

  -- `lookupTokenAccessor`
  lookup_token_accessor : String → Fallible String
  lookup_token_accessor token = do
    pod ← first_pod c
    own ← or_missing InitialError.client_failed (new_client c pod)
    info ← from validated (under own (under token (call_lookup_self c)))
    from known_accessor (Exec.pure (accessor_in (some info)))

  -- The accessor goes into the status where it can be looked up.
  note_accessor : Result InitialError String → TokenStatus → TokenStatus
  note_accessor (err e) s = s
  note_accessor (ok a) s = record s { accessor = a }

  report_accessor : String → Exec World (Unit {0})
  unfolding lookup_token_accessor note_accessor
  report_accessor token w =
      let (r, w') = lookup_token_accessor token w in
      (tt, record w' { status = note_accessor r w'.status })

  -- `replaceInvalidToken`, where neither recovery has helped
  from_recovery_keys : Fallible (Unit {0})
  unfolding get_keys_secret require write_scoped report_active report_accessor
  from_recovery_keys = do
    require c.vtu.store_recovery_keys InitialError.keys_not_stored
    keys ← or_fail InitialError.keys_unreadable get_keys_secret
    root ← from stored_root (Exec.pure keys)
    scoped ← create_scoped_token c (trim_space root) false
    secret ← or_fail InitialError.secret_unreadable (get_admin_secret c)
    write_scoped unusable_marks secret scoped
    report_active
    lift (report_accessor scoped)

  unless : Bool → Fallible (Unit {0}) → Fallible (Unit {0})
  unless true m w = (ok tt, w)
  unless false m w = m w

  -- `replaceInvalidToken`
  unfoldable pub replace_invalid_token : Fallible (Unit {0})
  unfolding from_recovery_keys unless
  replace_invalid_token = do
    recovered ← lift (try_recover_from_transit_backup c)
    unless recovered
        (do healed ← lift (try_recover_via_k8s_auth c); unless healed from_recovery_keys)

  unfoldable pub without_root : Secret → String → Secret
  without_root keys now = record keys {
    data_of = Dict.remove keys.data_of "root-token";
    annotations =
        note "vault.homelab.io/root-token-revoked-at" now
          (note "vault.homelab.io/root-token-revoked" "true" keys.annotations);
  }

  update_keys : Secret → Exec World (Option KubeError)
  update_keys s = ask (Call.update_keys s) (λ h. c.env.update_keys h s)

  -- `markRootTokenRevoked`
  unfoldable pub mark_root_token_revoked : Fallible (Unit {0})
  unfolding get_keys_secret format_now update_keys
  mark_root_token_revoked = if not c.vtu.store_recovery_keys then return tt else (do
    keys ← or_fail InitialError.keys_unreadable get_keys_secret
    now ← format_now
    or_error InitialError.update_failed (update_keys (without_root keys now)))

  abbrev pub bootstrap_complete : Bool
  bootstrap_complete = text_at c.vtu.annotations "vault.homelab.io/bootstrap-complete" == "true"

  -- A failure to mark is only logged.
  mark_if : Bool → Exec World (Unit {0})
  unfolding mark_root_token_revoked
  mark_if false w = (tt, w)
  mark_if true w = (tt, (mark_root_token_revoked w).1)

  -- `replaceRootToken`
  unfoldable pub replace_root_token : Fallible (Unit {0})
  unfolding require write_scoped mark_if report_active
  replace_root_token = do
    secret ← or_fail InitialError.secret_unreadable (get_admin_secret c)
    require (not (text_at secret.data_of "token" == "")) InitialError.empty_token
    scoped ← create_scoped_token c (text_at secret.data_of "token") bootstrap_complete
    write_scoped root_marks secret scoped
    lift (try_backup_admin_token c scoped)
    lift (mark_if bootstrap_complete)
    report_active
