-- ===== src/Token/Revoke/Tracked.antt =====
-- The revocation step writes the token that it finds.
use mathlib.Core.Path.{subst}
use vault_transit_unseal_ope.Base.{
  Bool, List, Option, String, [], if_cases, none, not, refl, some, sym, ◌==◌, ◌||◌, ◌∷◌, ◌≡◌,
}
use vault_transit_unseal_ope.Base.Exec.{
  Exec, Keeps, Keeps-bind, Keeps-if, Keeps-pure, Triple, Triple-bind, pure, ◌>>=◌,
}
use vault_transit_unseal_ope.Base.Text.{trim_space}
use vault_transit_unseal_ope.Kube.{KubeError, Secret, text_at}
use vault_transit_unseal_ope.Token.Backoff.{update}
use vault_transit_unseal_ope.Token.Ledger.{RevokeError, cancel_revoke_annotation, write_ledger}
use vault_transit_unseal_ope.Token.Ledger.Tracked.{revoke_and_verify-Tracked}
use vault_transit_unseal_ope.Token.Pass.{Pass, View, hold, on_world}
use vault_transit_unseal_ope.Token.Revoke.{
  store_revoked, record_revoked, revoke_asked, after_revoke, annotate_lifecycle, apply_cancel,
  apply_lifecycle_annotations, revoke_due, revoke_entries, revoke_entry,
}
use vault_transit_unseal_ope.Token.Trace.{Traced, trace_rules}
use vault_transit_unseal_ope.Token.Tracked.{
  Good-on_world, IsGood, IsKnown, IsKnown-write_ledger, PassKnows, Tracked, token_of,
  update-PassKnows,
}
use vault_transit_unseal_ope.Token.World.{LedgerEntry, Result, Setup, World, err, ok, tell}

module _ (c : Setup) (v : View) (first : String) where
  after_revoke-Tracked :
      (o : Option RevokeError) → Keeps (Traced (Tracked c v first)) (after_revoke c v o)
  unfolding after_revoke
  after_revoke-Tracked none = search (trace_rules, tt)
  after_revoke-Tracked (some e) = search (trace_rules, tt)

  revoke_entry-Tracked : (e : LedgerEntry) → Keeps (Traced (Tracked c v first)) (revoke_entry c v e)
  unfolding revoke_entry
  revoke_entry-Tracked e =
      search (trace_rules, revoke_and_verify-Tracked, after_revoke-Tracked, tt) depth 8

  revoke_entries-Tracked :
      (es : List LedgerEntry) → Keeps (Traced (Tracked c v first)) (revoke_entries c v es)
  unfolding revoke_entries
  revoke_entries-Tracked [] = search trace_rules
  revoke_entries-Tracked (e ∷ es) =
      search (trace_rules, revoke_entry-Tracked e, revoke_entries-Tracked es)

  abbrev IsGoodAfter : Unit {0} → Pass → Type 0
  IsGoodAfter u p = IsGood c v first p

  store_revoked-IsGood :
      (es : List LedgerEntry) (r : Result KubeError Secret)
      → Triple (PassKnows c v first r) (store_revoked c v es r) IsGoodAfter
  unfolding store_revoked pure hold
  store_revoked-IsGood es (ok s) = record { at = λ p k. (k.0.1, k.0.0) }
  store_revoked-IsGood es (err e) = record { at = λ p k. k }

  record_revoked-IsGood :
      (a : Secret × List LedgerEntry × Bool) (r : List LedgerEntry × Bool)
      → IsKnown c first (token_of a.0)
      → Keeps (IsGood c v first) (record_revoked c v a r)
  unfolding record_revoked apply_lifecycle_annotations annotate_lifecycle
  record_revoked-IsGood a r k =
      let annotated = apply_lifecycle_annotations c.tm a.0 in
      Keeps-if (not (a.2 || r.1 || annotated.1)) (pure tt) _ (Keeps-pure tt) (
        Triple-bind (on_world (update c (write_ledger c annotated.0 r.0))) (store_revoked c v r.0)
          (update-PassKnows c v first (write_ledger c annotated.0 r.0)
            (IsKnown-write_ledger c first annotated.0 r.0 k))
          (store_revoked-IsGood r.0))

  revoke_asked-IsGood :
      (a : Secret × List LedgerEntry × Bool)
      → IsKnown c first (token_of a.0)
      → Keeps (IsGood c v first) (revoke_asked c v a)
  unfolding revoke_asked
  revoke_asked-IsGood a k =
      Keeps-bind (on_world (revoke_entries c v a.1)) (record_revoked c v a)
        (Good-on_world c v first (revoke_entries c v a.1) (revoke_entries-Tracked a.1))
        (λ r. record_revoked-IsGood a r k)

  -- Whether or not there is a request, the Secret keeps its token.
  apply_cancel-Good :
      (s : Secret) (es : List LedgerEntry) (w : World)
      → Traced (Tracked c v first) w
      → Traced (Tracked c v first) (apply_cancel s es w).1
        × (token_of (apply_cancel s es w).0.0 ≡ token_of s)
  unfolding apply_cancel ◌>>=◌ tell pure
  apply_cancel-Good s es w h =
      if_cases
        (λ (m : Exec World (Secret × List LedgerEntry × Bool)).
          Traced (Tracked c v first) (m w).1 × (token_of (m w).0.0 ≡ token_of s))
        (trim_space (text_at s.annotations cancel_revoke_annotation) == "") _ _ (λ _. (h, refl))
        (λ _. ((tt, h), refl))

  pub revoke_due-IsGood : Keeps (IsGood c v first) (revoke_due c v)
  unfolding revoke_due ◌>>=◌ on_world
  revoke_due-IsGood = record {
    at = λ p g.
        let (t, e) = apply_cancel-Good p.secret p.ledger p.world g.0 in
        (revoke_asked-IsGood (apply_cancel p.secret p.ledger p.world).0
            (subst (IsKnown c first) (sym e) g.1)).at
          _ (t, g.1);
  }
