-- ===== src/Token/Revoke/Revoking.antt =====
-- Which accessors `revoke_due` revokes: those of scheduled entries whose time has come, and never
-- the one that the pass looked up.
use mathlib.Core.Option
use vault_transit_unseal_ope.Base.{
  true, if◌then◌else◌, ◌&&◌, inr, inl, Bool-cases, Bool, String, false, not, ◌||◌, Option, none,
  some, List, [], ◌∷◌, ◌≡◌, ◌≢◌, ◌≤◌, arith, ltb, All, ◌==◌, eq_iff,
}
use vault_transit_unseal_ope.Base.Exec.{Keeps-bind, ◌>>=◌, Keeps, Keeps-pure, Keeps-if_eq, pure}
use vault_transit_unseal_ope.Kube.{text_at, KubeError, Secret}
use vault_transit_unseal_ope.Token.World.{tell, scheduled, LedgerEntry, Setup}
use vault_transit_unseal_ope.Token.Ledger.{cancel_revoke_annotation, RevokeError}
use vault_transit_unseal_ope.Token.Ledger.Revoking.{revoke_and_verify-Revokes}
use vault_transit_unseal_ope.Token.Pass.{Pass, on_world, View, is_scheduled}
use vault_transit_unseal_ope.Token.Revoke.{
  tell, err, ok, trim_space, Result, World, drop_cancelled, revoke_asked, store_revoked, revoke_due,
  record_revoked, after_drop, apply_cancel, after_revoke, revoke_entry, revoke_entries,
}
use vault_transit_unseal_ope.Token.Backoff.Revoking.{update-Revokes}
use vault_transit_unseal_ope.Token.Trace.{Keeps-on_world, PassTraced, Revokes, Traced, trace_rules}

-- The entry is scheduled, its time has come, and it is not the token that the pass looked up.
pub record IsDue (v : View) (e : LedgerEntry) : Type 0 where
  pub is_scheduled : e.state ≡ scheduled
  pub is_over : e.not_before ≤ v.now
  pub is_retired : e.accessor ≢ v.accessor

module _ (R : String → Type 0) (c : Setup) (v : View) where
  after_revoke-Revokes : (o : Option RevokeError) → Keeps (Traced (Revokes R)) (after_revoke c v o)
  unfolding after_revoke
  after_revoke-Revokes none = search (trace_rules, tt)
  after_revoke-Revokes (some e) = search (trace_rules, tt)

  IsDue-of_tests :
      (e : LedgerEntry)
      → (not (is_scheduled e.state) || ltb v.now e.not_before) ≡ false
      → (e.accessor == v.accessor) ≡ false
      → IsDue v e
  IsDue-of_tests e t u = record {
    is_scheduled = ground arith;
    is_over = ground arith;
    is_retired = λ p. ground (arith, eq_iff e.accessor v.accessor);
  }

  revoke_entry-Revokes :
      (e : LedgerEntry)
      → (IsDue v e → R e.accessor)
      → Keeps (Traced (Revokes R)) (revoke_entry c v e)
  unfolding revoke_entry
  revoke_entry-Revokes e r =
      Keeps-if_eq (not (is_scheduled e.state) || ltb v.now e.not_before) (pure false) _
        (λ _. Keeps-pure false)
        λ t.
          Keeps-if_eq (e.accessor == v.accessor) _ _ (λ _. search (trace_rules, tt))
            λ u. search (
              trace_rules,
              revoke_and_verify-Revokes R c e.accessor (r (IsDue-of_tests e t u)),
              after_revoke-Revokes,
            )

  revoke_entries-Revokes :
      (es : List LedgerEntry)
      → All (λ e. IsDue v e → R e.accessor) es
      → Keeps (Traced (Revokes R)) (revoke_entries c v es)
  unfolding revoke_entries
  revoke_entries-Revokes [] h = search trace_rules
  revoke_entries-Revokes (e ∷ es) h =
      search (trace_rules, revoke_entry-Revokes e h.0, revoke_entries-Revokes es h.1)

  apply_cancel-Revokes :
      (s : Secret) (es : List LedgerEntry) → Keeps (Traced (Revokes R)) (apply_cancel s es)
  unfolding apply_cancel
  apply_cancel-Revokes s es = search (trace_rules, tt)

  abbrev Fits : LedgerEntry → Type 0
  Fits e = IsDue v e → R e.accessor

  abbrev DropFits : Option (List LedgerEntry) → Type 0
  DropFits none = Unit {0}
  DropFits (some es) = All Fits es

  drop_step-DropFits :
      (b : Bool) (e : LedgerEntry) (es : List LedgerEntry) (rest : Option (List LedgerEntry))
      → All Fits (e ∷ es)
      → DropFits rest
      → DropFits (if b then some es else Option.map (λ kept. e ∷ kept) rest)
  drop_step-DropFits true e es rest h r = h.1
  drop_step-DropFits false e es none h r = tt
  drop_step-DropFits false e es (some kept) h r = (h.0, r)

  drop_cancelled-DropFits :
      (cancel : String) (es : List LedgerEntry) → All Fits es → DropFits (drop_cancelled cancel es)
  unfolding drop_cancelled
  drop_cancelled-DropFits cancel [] h = tt
  drop_cancelled-DropFits cancel (e ∷ es) h =
      drop_step-DropFits (e.accessor == cancel && is_scheduled e.state) e es _ h
        (drop_cancelled-DropFits cancel es h.1)

  after_drop-All :
      (es : List LedgerEntry) (o : Option (List LedgerEntry))
      → All Fits es
      → DropFits o
      → All Fits (after_drop es o)
  unfolding after_drop
  after_drop-All es none h d = h
  after_drop-All es (some kept) h d = d

  -- What is left after a cancel request still fits.
  apply_cancel-All :
      (s : Secret) (es : List LedgerEntry) (w : World)
      → All Fits es
      → All Fits (apply_cancel s es w).0.1
  unfolding apply_cancel ◌>>=◌ tell
  apply_cancel-All s es w h =
      let cancel = trim_space (text_at s.annotations cancel_revoke_annotation) in
      elim (Bool-cases (cancel == "")) [
        | inl e ↦ rw e h
        | inr e ↦ rw e (after_drop-All es _ h (drop_cancelled-DropFits cancel es h))
      ]

  store_revoked-Revokes :
      (es : List LedgerEntry) (r : Result KubeError Secret)
      → Keeps (PassTraced (Revokes R)) (store_revoked c v es r)
  unfolding store_revoked
  store_revoked-Revokes es (ok s) = search trace_rules
  store_revoked-Revokes es (err e) = search trace_rules

  record_revoked-Revokes :
      (a : Secret × List LedgerEntry × Bool) (r : List LedgerEntry × Bool)
      → Keeps (PassTraced (Revokes R)) (record_revoked c v a r)
  unfolding record_revoked
  record_revoked-Revokes a r = search (trace_rules, update-Revokes, store_revoked-Revokes)

  revoke_asked-Revokes :
      (a : Secret × List LedgerEntry × Bool)
      → All Fits a.1
      → Keeps (PassTraced (Revokes R)) (revoke_asked c v a)
  unfolding revoke_asked
  revoke_asked-Revokes a h =
      Keeps-bind (on_world (revoke_entries c v a.1)) (record_revoked c v a)
        (Keeps-on_world (revoke_entries c v a.1) (revoke_entries-Revokes a.1 h))
        (record_revoked-Revokes a)

  -- `revoke_due` revokes only accessors that its due entries let it revoke.
  pub revoke_due-Revokes :
      (p : Pass)
      → All (λ e. IsDue v e → R e.accessor) p.ledger
      → PassTraced (Revokes R) p
      → PassTraced (Revokes R) (revoke_due c v p).1
  unfolding revoke_due ◌>>=◌ on_world
  revoke_due-Revokes p fits h =
      (revoke_asked-Revokes _ (apply_cancel-All p.secret p.ledger p.world fits)).at _
        ((apply_cancel-Revokes p.secret p.ledger).at p.world h)
