-- ===== src/Token/Ledger/Tracked.antt =====
-- Revoking an accessor writes no Secret.
use vault_transit_unseal_ope.Base.{Option, String, none, some}
use vault_transit_unseal_ope.Base.Exec.{Keeps}
use vault_transit_unseal_ope.Token.Ledger.{
  verify, call_lookup_accessor, call_revoke, revoke_and_verify,
}
use vault_transit_unseal_ope.Token.Pass.{View}
use vault_transit_unseal_ope.Token.Trace.{Traced, trace_rules}
use vault_transit_unseal_ope.Token.Tracked.{Tracked}
use vault_transit_unseal_ope.Token.World.{Setup, VaultError, ask}

module _ (c : Setup) (v : View) (first : String) where
  call_lookup_accessor-Tracked :
      (a : String) → Keeps (Traced (Tracked c v first)) (call_lookup_accessor c a)
  unfolding call_lookup_accessor ask
  call_lookup_accessor-Tracked a = record { at = λ w h. (tt, h) }

  call_revoke-Tracked : (a : String) → Keeps (Traced (Tracked c v first)) (call_revoke c a)
  unfolding call_revoke ask
  call_revoke-Tracked a = record { at = λ w h. (tt, h) }

  verify-Tracked :
      (a : String) (o : Option VaultError) → Keeps (Traced (Tracked c v first)) (verify c a o)
  unfolding verify
  verify-Tracked a none = search (trace_rules, call_lookup_accessor-Tracked)
  verify-Tracked a (some e) = search trace_rules

  pub revoke_and_verify-Tracked :
      (a : String) → Keeps (Traced (Tracked c v first)) (revoke_and_verify c a)
  unfolding revoke_and_verify
  revoke_and_verify-Tracked a = search (trace_rules, call_revoke-Tracked, verify-Tracked)
