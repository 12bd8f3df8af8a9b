-- ===== src/Token/Pass/Revoking.antt =====
-- Reporting a failure and exporting the ledger revoke nothing.
use vault_transit_unseal_ope.Base.{String}
use vault_transit_unseal_ope.Base.Exec.{Keeps}
use vault_transit_unseal_ope.Token.World.{Setup}
use vault_transit_unseal_ope.Token.Backoff.Revoking.{
  extend_backoff-Revokes, persist_backoff-Revokes,
}
use vault_transit_unseal_ope.Token.Pass.{View, RotateError, fail, publish_ledger}
use vault_transit_unseal_ope.Token.Trace.{Revokes, PassTraced, trace_rules}

module _ (R : String → Type 0) (c : Setup) (v : View) where
  pub fail-Revokes : (e : RotateError) → Keeps (PassTraced (Revokes R)) (fail c v e)
  unfolding fail
  fail-Revokes e = search (trace_rules, extend_backoff-Revokes, persist_backoff-Revokes, tt) depth 8

  pub publish_ledger-Revokes : Keeps (PassTraced (Revokes R)) (publish_ledger c v)
  unfolding publish_ledger
  publish_ledger-Revokes = search (trace_rules, tt)
