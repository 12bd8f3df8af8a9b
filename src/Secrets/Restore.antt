-- ===== src/Secrets/Restore.antt =====
-- pkg/secrets/recovery.go: `restoreAdminToken` and `cleanupMixedStateSecret`.
pub mod Mistaken
pub mod Allowed
use vault_transit_unseal_ope.Base.{
  Option, Bool, String, if◌then◌else◌, ltb, none, not, some, ◌&&◌, ◌==◌, ◌||◌,
}
use vault_transit_unseal_ope.Base.Exec.{Exec}
use vault_transit_unseal_ope.Token.World.{normal}
use vault_transit_unseal_ope.Base.Dict
use vault_transit_unseal_ope.Base.Dict.{Dict}
use vault_transit_unseal_ope.Base.Try.{
  Result, ok, err, attempt, lift, or_error, return, throw, ◌>>=◌, ◌>>◌,
}
use vault_transit_unseal_ope.Secrets.World.{
  Call, write_new, read_secret, write_secret, drop_secret, now, tell, RecoveryError, Setup, World,
  NewSecret, Recovering,
}
use vault_transit_unseal_ope.Secrets.Placeholder.{mark}
use vault_transit_unseal_ope.Secrets.Verifier.{Action}
use vault_transit_unseal_ope.Kube.{KubeError, Secret, text_at}
use text.Mathlib.Text.{starts_with}
use Prim.Native.String.{len}

-- A text that is not empty and has none of the two prefixes
abbrev pub is_unmarked : String → Bool
is_unmarked t =
    not (t == "") && not (starts_with t "placeholder-") && not (starts_with t "RECOVERY-REQUIRED:")

-- The test by which an existing token is kept; for the length, which is in bytes, it is taken to be ASCII.
abbrev pub looks_valid : String → Bool
looks_valid t = is_unmarked t && ltb 10 (len t)

abbrev pub token_text : Secret → String
token_text s = text_at s.data_of "token"

abbrev pub has_placeholder : Secret → Bool
has_placeholder s = looks_valid (token_text s) && Dict.holds s.data_of "placeholder"

abbrev pub without_placeholder : Secret → Secret
without_placeholder s =
    if has_placeholder s then record s { data_of = Dict.remove s.data_of "placeholder" } else s

abbrev pub is_marked : String → Secret → Bool
is_marked k s = is_unmarked (token_text s) && Dict.holds s.annotations k

abbrev pub without_incomplete : Secret → Secret
without_incomplete s =
    if is_marked "vault.homelab.io/incomplete" s
    then record s {
      annotations =
          Dict.remove
            (Dict.remove (Dict.remove s.annotations "vault.homelab.io/incomplete")
              "vault.homelab.io/incomplete-reason")
            "vault.homelab.io/incomplete-time";
    }
    else s

abbrev pub without_required : Secret → Secret
without_required s =
    if is_marked "vault.homelab.io/recovery-required" s
    then record s { annotations = Dict.remove s.annotations "vault.homelab.io/recovery-required" }
    else s

-- The Secret without the marks that a valid token contradicts
unfoldable pub cleaned : Secret → Secret
cleaned s = without_required (without_incomplete (without_placeholder s))

unfoldable pub needs_cleaning : Secret → Bool
needs_cleaning s =
    has_placeholder s
    || is_marked "vault.homelab.io/incomplete" s
    || is_marked "vault.homelab.io/recovery-required" s

abbrev pub restored_marks : String → Dict String → Dict String
restored_marks time m =
    mark "vault.homelab.io/recovery-time" time (mark "vault.homelab.io/recovered" "true" m)

module _ (c : Setup) (a : Action) where
  -- `cleanupMixedStateSecret`
  unfoldable pub cleanup_mixed_state_secret : Secret → Recovering (Unit {0})
  cleanup_mixed_state_secret s =
      if needs_cleaning s
      then or_error RecoveryError.updating (write_secret c a.namespace a.secret_name (cleaned s))
      else return tt

  share : String → Option (Dict String) → Exec World (Dict String)
  share time none w = (restored_marks time Dict.empty, w)
  share time (some m) w =
      (restored_marks time m, record w { admin_token_annotations = some (restored_marks time m) })

  -- The annotations of the new Secret, which are the resource's own map where it has one
  unfoldable pub share_annotations : String → Exec World (Dict String)
  unfolding share
  share_annotations time w = share time w.admin_token_annotations w

  -- In another namespace without a note of the resource
  abbrev pub restored : String → Dict String → Bool → NewSecret
  restored token annotations is_owned = record {
    name = a.secret_name;
    namespace = a.namespace;
    data_of = Dict.put Dict.empty "token" token;
    annotations = annotations;
    is_owned = is_owned;
  }

  unfoldable pub install : String → Recovering (Unit {0})
  unfolding share_annotations
  install token = do
    time ← lift (now c)
    marks ← lift (share_annotations time)
    let is_local = c.backup.namespace == a.namespace
    if is_local && not c.can_own
        then throw RecoveryError.not_owned
        else or_error RecoveryError.creating (write_new c (restored token marks is_local))
    lift (tell (Call.event normal "TokenRecovered"))

  unfoldable pub on_existing : String → Result KubeError Secret → Recovering (Unit {0})
  unfolding cleanup_mixed_state_secret install
  on_existing token (err e) = install token
  on_existing token (ok s) =
      if looks_valid (token_text s)
      then (do lift (attempt (cleanup_mixed_state_secret s)); return tt)
      else (do
        or_error RecoveryError.deleting (drop_secret c a.namespace a.secret_name)
        lift (tell Call.sleep)
        install token)

  -- `restoreAdminToken`
  unfoldable pub restore_admin_token : String → Recovering (Unit {0})
  unfolding on_existing
  restore_admin_token token = do
    existing ← lift (read_secret c a.namespace a.secret_name)
    on_existing token existing
