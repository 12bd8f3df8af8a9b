-- ===== src/Secrets/Drift.antt =====
-- pkg/secrets/drift.go: `CheckRecoveryKeyDrift`, with the API server as a function of the namespace and
-- the name.
pub mod Blank
use vault_transit_unseal_ope.Base.{Bool, String, false, if◌then◌else◌, not, true, ◌==◌, ◌||◌}
use vault_transit_unseal_ope.Base.Dict.{get}
use vault_transit_unseal_ope.Base.Try.{Result, ok, err}
use vault_transit_unseal_ope.Kube.{KubeError, Secret, is_not_found, text_at}
use vault_transit_unseal_ope.Spec.{Spec}
use vault_transit_unseal_ope.Reconciler.Init.{trim_share}

pub record DriftCheckResult : Type 0 where
  pub checked : Bool
  pub drifted : Bool
  pub expected_hash : String
  pub observed_hash : String

abbrev pub unchecked : String → DriftCheckResult
unchecked expected = record {
  checked = false;
  drifted = false;
  expected_hash = expected;
  observed_hash = "";
}

abbrev pub compared : String → String → DriftCheckResult
compared expected observed = record {
  checked = true;
  drifted = not (observed == expected);
  expected_hash = expected;
  observed_hash = observed;
}

module _ (sha256 : String → String) where
  -- An empty share reads like a missing one.
  on_share : String → String → DriftCheckResult
  on_share expected share =
      if share == "" then unchecked expected else compared expected (sha256 (trim_share share))

  on_keys_secret : String → Result KubeError Secret → Result KubeError DriftCheckResult
  unfolding on_share
  on_keys_secret expected (ok s) = ok (on_share expected (text_at s.data_of "recovery-key-0"))
  on_keys_secret expected (err e) = if is_not_found e then ok (unchecked expected) else err e

  -- `CheckRecoveryKeyDrift`, of the hash on the status
  unfoldable pub check_recovery_key_drift :
      Spec
      → String
      → (String → String → Result KubeError Secret)
      → Result KubeError DriftCheckResult
  unfolding on_keys_secret
  check_recovery_key_drift spec expected get =
      let names = spec.initialization.secret_names in
      if expected == ""
      then ok (unchecked expected)
      else if names.recovery_keys == "" || not names.store_recovery_keys
      then ok (unchecked expected)
      else on_keys_secret expected (get spec.pod_namespace names.recovery_keys)
