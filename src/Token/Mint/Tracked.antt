-- ===== src/Token/Mint/Tracked.antt =====
-- Minting writes no Secret.
use vault_transit_unseal_ope.Base.{Option, String, none, some}
use vault_transit_unseal_ope.Base.Exec.{Keeps}
use vault_transit_unseal_ope.Token.Mint.{
  check_created, validate, call_create, call_lookup_self, mint_admin_token,
}
use vault_transit_unseal_ope.Token.Pass.{View}
use vault_transit_unseal_ope.Token.Trace.{Traced, trace_rules}
use vault_transit_unseal_ope.Token.Tracked.{Tracked}
use vault_transit_unseal_ope.Token.World.{
  Auth, Result, Setup, TokenRequest, VaultError, ask, err, ok,
}

module _ (c : Setup) (v : View) (first : String) where
  call_lookup_self-Tracked : Keeps (Traced (Tracked c v first)) (call_lookup_self c)
  unfolding call_lookup_self ask
  call_lookup_self-Tracked = record { at = λ w h. (tt, h) }

  call_create-Tracked : (q : TokenRequest) → Keeps (Traced (Tracked c v first)) (call_create c q)
  unfolding call_create ask
  call_create-Tracked q = record { at = λ w h. (tt, h) }

  validate-Tracked : (auth : Auth) → Keeps (Traced (Tracked c v first)) (validate c auth)
  unfolding validate
  validate-Tracked auth = search (trace_rules, call_lookup_self-Tracked) depth 8

  check_created-Tracked :
      (r : Result VaultError (Option Auth)) → Keeps (Traced (Tracked c v first)) (check_created c r)
  unfolding check_created
  check_created-Tracked (err e) = search trace_rules
  check_created-Tracked (ok none) = search trace_rules
  check_created-Tracked (ok (some auth)) = search (trace_rules, validate-Tracked)

  pub mint_admin_token-Tracked :
      (source : String) → Keeps (Traced (Tracked c v first)) (mint_admin_token c source)
  unfolding mint_admin_token
  mint_admin_token-Tracked source = search (trace_rules, call_create-Tracked, check_created-Tracked)
