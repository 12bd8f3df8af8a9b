-- ===== src/Token/Ledger/Revoking.antt =====
-- Which accessors `revoke_and_verify` revokes.
use vault_transit_unseal_ope.Base.{String, Option, none, some}
use vault_transit_unseal_ope.Base.Exec.{Keeps}
use vault_transit_unseal_ope.Token.World.{Setup, VaultError, ask}
use vault_transit_unseal_ope.Token.Ledger.{
  call_revoke, call_lookup_accessor, verify, revoke_and_verify,
}
use vault_transit_unseal_ope.Token.Trace.{Revokes, Traced, trace_rules}

module _ (R : String → Type 0) (c : Setup) where
  call_revoke-Revokes : (a : String) → R a → Keeps (Traced (Revokes R)) (call_revoke c a)
  unfolding call_revoke ask
  call_revoke-Revokes a r = record { at = λ w h. (r, h) }

  call_lookup_accessor-Revokes :
      (a : String) → Keeps (Traced (Revokes R)) (call_lookup_accessor c a)
  unfolding call_lookup_accessor ask
  call_lookup_accessor-Revokes a = record { at = λ w h. (tt, h) }

  verify-Revokes : (a : String) (o : Option VaultError) → Keeps (Traced (Revokes R)) (verify c a o)
  unfolding verify
  verify-Revokes a none = search (trace_rules, call_lookup_accessor-Revokes)
  verify-Revokes a (some e) = search trace_rules

  pub revoke_and_verify-Revokes :
      (a : String) → R a → Keeps (Traced (Revokes R)) (revoke_and_verify c a)
  unfolding revoke_and_verify
  revoke_and_verify-Revokes a r = search (trace_rules, call_revoke-Revokes a r, verify-Revokes)
