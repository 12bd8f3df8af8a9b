-- ===== src/Token/Rotate/Tracked.antt =====
-- A whole pass writes no token but known ones and that of a swap which schedules the old one.
use vault_transit_unseal_ope.Base.{
  All, Bool, Option, String, any, if◌then◌else◌, inl, leb, length, ltb, none, not, refl, some, ◌&&◌,
  ◌==◌, ◌||◌,
}
use vault_transit_unseal_ope.Base.Exec.{
  Triple-bind, Keeps, Keeps-bind, Keeps-gets, Keeps-pure, Triple, Triple-if, gets, pure, ◌>>=◌,
  ◌>>◌,
}
use vault_transit_unseal_ope.Base.Text.{trim_space}
use vault_transit_unseal_ope.Kube.{Instant, text_at, younger_than, ℤ}
use vault_transit_unseal_ope.Token.Backoff.{backoff_until}
use vault_transit_unseal_ope.Token.Fence.{resolve_unresolved}
use vault_transit_unseal_ope.Token.Fence.Tracked.{resolve_unresolved-IsGood}
use vault_transit_unseal_ope.Token.Ledger.{ledger_full, rotate_now_annotation}
use vault_transit_unseal_ope.Token.Pass.{
  Pass, RotateError, View, bad_grace_period, is_unresolved, publish_ledger, skipped,
}
use vault_transit_unseal_ope.Token.Revoke.{revoke_due}
use vault_transit_unseal_ope.Token.Revoke.Tracked.{revoke_due-IsGood}
use vault_transit_unseal_ope.Token.Rotate.{
  is_external, gate_backoff, gate_ledger, gate_owner, quiet, gate_grace, after_resolve, is_forced,
  or_default, rotate_if_due, run_pass,
}
use vault_transit_unseal_ope.Token.Swap.Tracked.{Ends, IsGood-Ends, mint_and_swap-Ends}
use vault_transit_unseal_ope.Token.Trace.{PassTraced, trace_rules}
use vault_transit_unseal_ope.Token.Tracked.{IsGood, Tracked, good_rules, token_of}
use vault_transit_unseal_ope.Token.World.{Setup}

module _ (c : Setup) (v : View) (first : String) where
  quiet-IsGood : (f : Bool) → Keeps (IsGood c v first) (quiet c v f)
  unfolding quiet
  quiet-IsGood f = search (good_rules, tt)

  quiet-Ends : (f : Bool) → Triple (IsGood c v first) (quiet c v f) (Ends c v first)
  quiet-Ends f = IsGood-Ends c v first (quiet c v f) (quiet-IsGood f)

  stop-Ends :
      Triple (IsGood c v first) (do skipped; pure {A = Option RotateError} none) (Ends c v first)
  stop-Ends =
      IsGood-Ends c v first (do skipped; pure {A = Option RotateError} none)
        (search (good_rules, tt))

  gate_grace-Ends :
      (s : String) (g : Option ℤ) → Triple (IsGood c v first) (gate_grace c v s g) (Ends c v first)
  unfolding gate_grace
  gate_grace-Ends s none =
      IsGood-Ends c v first (pure (some bad_grace_period)) (Keeps-pure (some bad_grace_period))
  gate_grace-Ends s (some g) = mint_and_swap-Ends c v first (s == "immediate") g

  gate_owner-Ends :
      (f : Bool) (s : String) → Triple (IsGood c v first) (gate_owner c v f s) (Ends c v first)
  unfolding gate_owner gate_ledger gate_backoff ◌>>=◌ gets
  gate_owner-Ends f s = Triple-if (not c.tm.enabled) (quiet c v f) _ (quiet-Ends f) (
      Triple-if (is_external c.tm.strategy) (quiet c v f) (gate_ledger c v f s) (quiet-Ends f)
        (record {
          at = λ p g.
              (Triple-if (any (λ e. is_unresolved e.state) p.ledger)
                  (do skipped; pure {A = Option RotateError} none) _ stop-Ends
                  (Triple-if (leb ledger_full (length p.ledger))
                    (do skipped; pure {A = Option RotateError} none) (gate_backoff c v f s)
                    stop-Ends
                    (record {
                      at = λ q h.
                          (Triple-if (ltb v.now (backoff_until c q.world q.secret)) (quiet c v f)
                              (gate_grace c v s (
                                c.codec.parse_duration
                                  (or_default c.tm.rotation_grace_period "1h")))
                              (quiet-Ends f) (gate_grace-Ends s _)).at
                            q h;
                    }))).at
                p g;
        }))

  noted-IsGood : (b : Bool) → Keeps (IsGood c v first) (if b then skipped else pure tt)
  noted-IsGood b = search (good_rules, tt)

  rotate_if_due-Ends :
      (created : Instant) (period : ℤ)
      → Triple (IsGood c v first) (rotate_if_due c v created period) (Ends c v first)
  unfolding rotate_if_due
  rotate_if_due-Ends created period =
      Triple-bind
        (gets (λ (p : Pass). trim_space (text_at p.secret.annotations rotate_now_annotation))) _
        (Keeps-gets _)
        λ now.
          Triple-bind (if not (now == "") && not (is_forced now) then skipped else pure tt) _
            (noted-IsGood (not (now == "") && not (is_forced now)))
            λ _.
              Triple-if
                (not (is_forced now) && (not c.tm.auto_rotate || younger_than v.now created period))
                (pure none) (gate_owner c v (is_forced now) now)
                (IsGood-Ends c v first (pure none) (Keeps-pure none))
                (gate_owner-Ends (is_forced now) now)

  after_resolve-Ends :
      (created : Instant) (period : ℤ) (stop : Bool)
      → Triple (IsGood c v first) (after_resolve c v created period stop) (Ends c v first)
  unfolding after_resolve
  after_resolve-Ends created period stop =
      Triple-if stop (pure none) (do revoke_due c v; rotate_if_due c v created period)
        (IsGood-Ends c v first (pure none) (Keeps-pure none))
        (Triple-bind (revoke_due c v) (λ _. rotate_if_due c v created period)
          (revoke_due-IsGood c v first) (λ _. rotate_if_due-Ends created period))

  publish-Tracked : Keeps (PassTraced (Tracked c v first)) (publish_ledger c v)
  unfolding publish_ledger
  publish-Tracked = search (trace_rules, tt)

  pass-Ends :
      (created : Instant) (period : ℤ)
      → Triple (IsGood c v first) (run_pass c v created period) (Ends c v first)
  unfolding run_pass
  pass-Ends created period =
      Triple-bind (resolve_unresolved c v) _ (resolve_unresolved-IsGood c v first) λ stop.
        Triple-bind (after_resolve c v created period stop) _
          (after_resolve-Ends created period stop)
          λ result.
            Keeps-bind (publish_ledger c v) (λ _. pure result) publish-Tracked
              (λ _. Keeps-pure result)

-- Whatever the API server and Vault answer, each Secret that a pass writes holds the token that was
-- on the Secret at the start, or one that the API server returned on a read, or else it is the swap,
-- and the ledger in the same write schedules the revocation of the token that the pass looked up.
-- So no write of the rotation replaces a token and forgets it. The calls before the pass are held
-- to the same.
pub run_pass-Tracked :
    (c : Setup) (v : View) (created : Instant) (period : ℤ) (p : Pass)
    → All (Tracked c v (token_of p.secret)) p.calls
    → All (Tracked c v (token_of p.secret)) (run_pass c v created period p).1.calls
run_pass-Tracked c v created period p h =
    (pass-Ends c v (token_of p.secret) created period).at p (h, inl refl)
