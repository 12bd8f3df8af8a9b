-- ===== src/Token/Rotate/Bounds.antt =====
-- The ledger stays within its cap through a whole pass.
use vault_transit_unseal_ope.Base.{
  String, Bool, Option, none, some, ◌<◌, arith, any, length, ltb, leb, if_cases,
}
use vault_transit_unseal_ope.Base.Exec.{
  Keeps, Keeps-pure, Keeps-gets, Keeps-if, Keeps-bind, pure, ◌>>=◌, ◌>>◌,
}
use vault_transit_unseal_ope.Kube.{Instant, ℤ}
use vault_transit_unseal_ope.Token.World.{Setup}
use vault_transit_unseal_ope.Token.Ledger.{ledger_full}
use vault_transit_unseal_ope.Token.Backoff.{backoff_until}
use vault_transit_unseal_ope.Token.Pass.{
  Pass, View, RotateError, is_unresolved, skipped, publish_ledger,
}
use vault_transit_unseal_ope.Token.Fence.Bounds.{
  IsCapped, ServesCapped, on_world-IsCapped, resolve_unresolved-IsCapped,
}
use vault_transit_unseal_ope.Token.Revoke.Bounds.{revoke_due-IsCapped}
use vault_transit_unseal_ope.Token.Swap.Bounds.{mint_and_swap-IsCapped}
use vault_transit_unseal_ope.Token.Rotate.{
  quiet, gate_grace, gate_backoff, gate_ledger, gate_owner, rotate_if_due, after_resolve, run_pass,
}

module _ (c : Setup) (serves : ServesCapped c) (v : View) where
  quiet-IsCapped : (f : Bool) → Keeps IsCapped (quiet c v f)
  unfolding quiet
  quiet-IsCapped f = search (Keeps-if, Keeps-bind, Keeps-pure, on_world-IsCapped)

  gate_grace-IsCapped :
      (s : String) (g : Option ℤ) (p : Pass)
      → length p.ledger < ledger_full
      → IsCapped (gate_grace c v s g p).1
  unfolding gate_grace pure
  gate_grace-IsCapped s none p h = omega arith
  gate_grace-IsCapped s (some g) p h = mint_and_swap-IsCapped c serves v _ g p h

  gate_backoff-IsCapped :
      (f : Bool) (s : String) (p : Pass)
      → length p.ledger < ledger_full
      → IsCapped (gate_backoff c v f s p).1
  unfolding gate_backoff ◌>>=◌
  gate_backoff-IsCapped f s p h =
      if_cases (λ m. IsCapped (m p).1) (ltb v.now (backoff_until c p.world p.secret)) (quiet c v f)
        _ (λ _. (quiet-IsCapped f).at p (omega arith)) (λ _. gate_grace-IsCapped s _ p h)

  stop-IsCapped : Keeps IsCapped (do skipped; pure {A = Option RotateError} none)
  stop-IsCapped = search (Keeps-bind, Keeps-pure, on_world-IsCapped)

  gate_ledger-IsCapped : (f : Bool) (s : String) → Keeps IsCapped (gate_ledger c v f s)
  unfolding gate_ledger ◌>>=◌
  gate_ledger-IsCapped f s = record {
    at = λ p h.
        if_cases (λ m. IsCapped (m p).1) (any (λ e. is_unresolved e.state) p.ledger)
          (do skipped; pure {A = Option RotateError} none) _ (λ _. stop-IsCapped.at p h)
          λ _.
            if_cases (λ m. IsCapped (m p).1) (leb ledger_full (length p.ledger))
              (do skipped; pure {A = Option RotateError} none) (gate_backoff c v f s)
              (λ _. stop-IsCapped.at p h) (λ u. gate_backoff-IsCapped f s p (ground arith));
  }

  gate_owner-IsCapped : (f : Bool) (s : String) → Keeps IsCapped (gate_owner c v f s)
  unfolding gate_owner
  gate_owner-IsCapped f s = search (Keeps-if, quiet-IsCapped, gate_ledger-IsCapped)

  rotate_if_due-IsCapped :
      (created : Instant) (period : ℤ) → Keeps IsCapped (rotate_if_due c v created period)
  unfolding rotate_if_due
  rotate_if_due-IsCapped created period =
      search (Keeps-bind, Keeps-if, Keeps-gets, Keeps-pure, on_world-IsCapped, gate_owner-IsCapped)
        depth 9

  publish_ledger-IsCapped : Keeps IsCapped (publish_ledger c v)
  unfolding publish_ledger
  publish_ledger-IsCapped = search (Keeps-bind, Keeps-gets, on_world-IsCapped)

  pass-IsCapped : (created : Instant) (period : ℤ) → Keeps IsCapped (run_pass c v created period)
  unfolding run_pass after_resolve
  pass-IsCapped created period =
      search
        (
          Keeps-bind, Keeps-if, Keeps-pure, resolve_unresolved-IsCapped, revoke_due-IsCapped,
          rotate_if_due-IsCapped, publish_ledger-IsCapped,
        )
        depth 9

  -- A pass that starts from a ledger of at most 16 entries ends with one of at most 16, on every
  -- path, provided that the API server serves no longer one.
  pub run_pass-IsCapped :
      (created : Instant) (period : ℤ) (p : Pass)
      → IsCapped p
      → IsCapped (run_pass c v created period p).1
  run_pass-IsCapped created period p h = (pass-IsCapped created period).at p h
