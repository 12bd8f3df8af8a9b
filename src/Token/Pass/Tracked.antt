-- ===== src/Token/Pass/Tracked.antt =====
-- Reporting a failure and exporting the ledger write no new token.
use vault_transit_unseal_ope.Base.{String}
use vault_transit_unseal_ope.Base.Exec.{Keeps}
use vault_transit_unseal_ope.Token.Backoff.Tracked.{extend_backoff-Tracked, persist_backoff-Tracked}
use vault_transit_unseal_ope.Token.Pass.{RotateError, View, fail, publish_ledger}
use vault_transit_unseal_ope.Token.Tracked.{IsGood, good_rules}
use vault_transit_unseal_ope.Token.World.{Setup}

module _ (c : Setup) (v : View) (first : String) where
  pub fail-IsGood : (e : RotateError) → Keeps (IsGood c v first) (fail c v e)
  unfolding fail
  fail-IsGood e = search (good_rules, extend_backoff-Tracked, persist_backoff-Tracked, tt) depth 8

  pub publish_ledger-IsGood : Keeps (IsGood c v first) (publish_ledger c v)
  unfolding publish_ledger
  publish_ledger-IsGood = search (good_rules, tt)
