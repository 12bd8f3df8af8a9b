-- ===== src/Reconciler/Loop/Written.antt =====
-- `Reconcile` writes the status back on every path.
use vault_transit_unseal_ope.Base.{List, refl, ◌∷◌, ◌≡◌}
use vault_transit_unseal_ope.Base.Exec.{gets, pure, ◌>>=◌}
use vault_transit_unseal_ope.Reconciler.Loop.{finish, is_success, reconcile}
use vault_transit_unseal_ope.Reconciler.Setup.{Setup}
use vault_transit_unseal_ope.System.{Call, Metric, World, ask, set_status, tell, update_status}

-- However a reconcile ends, with an error of the verifier, a missing credential, no pods or failed
-- pods, the last thing that it does is to write the status in which it ends, and to record whether
-- it succeeded.
pub reconcile-written :
    (c : Setup) (w : World)
    → (h : List Call) × ((reconcile c w).1.calls
        ≡ Call.metric (Metric.reconciliation (is_success (reconcile c w).0))
          ∷ update_status (reconcile c w).1.status
          ∷ h)
unfolding reconcile finish ◌>>=◌ tell gets set_status ask pure
reconcile-written c w = (_, refl)
