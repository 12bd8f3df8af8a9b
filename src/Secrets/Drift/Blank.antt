-- ===== src/Secrets/Drift/Blank.antt =====
-- When the recovery keys have drifted: white space behind a share does not count.
use Prim.Native.String.append
use vault_transit_unseal_ope.Base.{String, false, true, ◌==◌, ◌≡◌}
use vault_transit_unseal_ope.Spec.{Spec}

-- The recovery keys are kept in the cluster, in a Secret with a name.
pub record AreKept (spec : Spec) : Type 0 where
  pub named : (spec.initialization.secret_names.recovery_keys == "") ≡ false
  pub stored : spec.initialization.secret_names.store_recovery_keys ≡ true
