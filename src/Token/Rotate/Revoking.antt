-- ===== src/Token/Rotate/Revoking.antt =====
-- A whole pass revokes no token but those that are due and those that it has minted itself.
use vault_transit_unseal_ope.Base.{All-of, String, Bool, Option, none, some}
use vault_transit_unseal_ope.Base.Exec.{Keeps}
use vault_transit_unseal_ope.Kube.{Instant, ℤ}
use vault_transit_unseal_ope.Token.World.{LedgerEntry, Setup}
use vault_transit_unseal_ope.Token.Mint.Revoking.{Creates}
use vault_transit_unseal_ope.Token.Pass.{View}
use vault_transit_unseal_ope.Token.Pass.Revoking.{publish_ledger-Revokes}
use vault_transit_unseal_ope.Token.Fence.Revoking.{resolve_unresolved-Revokes}
use vault_transit_unseal_ope.Token.Revoke.{revoke_due}
use vault_transit_unseal_ope.Token.Revoke.Revoking.{IsDue, revoke_due-Revokes}
use vault_transit_unseal_ope.Token.Swap.Revoking.{mint_and_swap-Revokes}
use vault_transit_unseal_ope.Token.Rotate.{
  quiet, gate_grace, gate_backoff, gate_ledger, gate_owner, rotate_if_due, after_resolve, run_pass,
}
use vault_transit_unseal_ope.Token.Trace.{Revokes, PassTraced, trace_rules}

module _ (R : String → Type 0) (c : Setup) (v : View) (new : Creates R c)
    (due : (e : LedgerEntry) → IsDue v e → R e.accessor) where
  quiet-Revokes : (f : Bool) → Keeps (PassTraced (Revokes R)) (quiet c v f)
  unfolding quiet
  quiet-Revokes f = search (trace_rules, tt)

  gate_grace-Revokes :
      (s : String) (g : Option ℤ) → Keeps (PassTraced (Revokes R)) (gate_grace c v s g)
  unfolding gate_grace
  gate_grace-Revokes s none = search trace_rules
  gate_grace-Revokes s (some g) = mint_and_swap-Revokes R c v new _ g

  gate_owner-Revokes : (f : Bool) (s : String) → Keeps (PassTraced (Revokes R)) (gate_owner c v f s)
  unfolding gate_owner gate_ledger gate_backoff
  gate_owner-Revokes f s = search (trace_rules, quiet-Revokes, gate_grace-Revokes, tt) depth 9

  rotate_if_due-Revokes :
      (created : Instant) (period : ℤ)
      → Keeps (PassTraced (Revokes R)) (rotate_if_due c v created period)
  unfolding rotate_if_due
  rotate_if_due-Revokes created period = search (trace_rules, gate_owner-Revokes, tt) depth 9

  revoke_due-Keeps : Keeps (PassTraced (Revokes R)) (revoke_due c v)
  revoke_due-Keeps = record {
    at = λ p h. revoke_due-Revokes R c v p (All-of (λ e. IsDue v e → R e.accessor) due p.ledger) h;
  }

  pub run_pass-Revokes :
      (created : Instant) (period : ℤ)
      → Keeps (PassTraced (Revokes R)) (run_pass c v created period)
  unfolding run_pass after_resolve
  run_pass-Revokes created period =
      search
        (
          trace_rules, resolve_unresolved-Revokes, revoke_due-Keeps, rotate_if_due-Revokes,
          publish_ledger-Revokes,
        )
        depth 9
