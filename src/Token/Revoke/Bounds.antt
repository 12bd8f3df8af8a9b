-- ===== src/Token/Revoke/Bounds.antt =====
-- Revoking never grows a ledger.
use mathlib.Core.Option
use vault_transit_unseal_ope.Base.{
  String, Bool, true, false, ◌&&◌, Option, none, some, List, [], ◌∷◌, ◌≤◌, inl, inr, arith, length,
  if◌then◌else◌, ◌==◌, Bool-cases,
}
use vault_transit_unseal_ope.Base.Text.{trim_space}
use vault_transit_unseal_ope.Base.Exec.{Keeps, Keeps-pure, Keeps-if, Keeps-bind, ◌>>=◌}
use vault_transit_unseal_ope.Kube.{KubeError, Secret, text_at}
use vault_transit_unseal_ope.Token.World.{Result, ok, err, LedgerEntry, Setup, World, tell}
use vault_transit_unseal_ope.Token.Ledger.{cancel_revoke_annotation}
use vault_transit_unseal_ope.Token.Pass.{View, is_scheduled, on_world}
use vault_transit_unseal_ope.Token.Fence.Bounds.{IsCapped, on_world-IsCapped, hold-IsCapped}
use vault_transit_unseal_ope.Token.Revoke.{
  drop_cancelled, after_drop, apply_cancel, revoke_entry, revoke_entries, store_revoked,
  record_revoked, revoke_asked, revoke_due,
}

abbrev Shorter : List LedgerEntry → Option (List LedgerEntry) → Type 0
Shorter es none = Unit {0}
Shorter es (some kept) = length kept ≤ length es

step_Shorter :
    (b : Bool) (e : LedgerEntry) (es : List LedgerEntry) (rest : Option (List LedgerEntry))
    → Shorter es rest
    → Shorter (e ∷ es) (if b then some es else Option.map (λ kept. e ∷ kept) rest)
step_Shorter true e es rest h = omega arith
step_Shorter false e es none h = tt
step_Shorter false e es (some kept) h = omega arith

drop_cancelled-Shorter :
    (cancel : String) (es : List LedgerEntry) → Shorter es (drop_cancelled cancel es)
unfolding drop_cancelled
drop_cancelled-Shorter cancel [] = tt
drop_cancelled-Shorter cancel (e ∷ es) =
    step_Shorter (e.accessor == cancel && is_scheduled e.state) e es (drop_cancelled cancel es)
      (drop_cancelled-Shorter cancel es)

length-after_drop-le :
    (es : List LedgerEntry) (o : Option (List LedgerEntry))
    → Shorter es o
    → length (after_drop es o) ≤ length es
unfolding after_drop
length-after_drop-le es none h = omega arith
length-after_drop-le es (some kept) h = h

length-apply_cancel-le :
    (s : Secret) (es : List LedgerEntry) (w : World) → length (apply_cancel s es w).0.1 ≤ length es
unfolding apply_cancel ◌>>=◌ tell
length-apply_cancel-le s es w =
    let cancel = trim_space (text_at s.annotations cancel_revoke_annotation) in
    elim (Bool-cases (cancel == "")) [
      | inl e ↦ rw e (omega arith)
      | inr e ↦ rw e (length-after_drop-le es _ (drop_cancelled-Shorter cancel es))
    ]

module _ (c : Setup) (v : View) where
  pub length-revoke_entries-le :
      (es : List LedgerEntry) (w : World) → length (revoke_entries c v es w).0.0 ≤ length es
  unfolding revoke_entries ◌>>=◌
  length-revoke_entries-le [] w = omega arith
  length-revoke_entries-le (e ∷ es) w =
      ground (arith, length-revoke_entries-le es (revoke_entry c v e w).1)

  store_revoked-IsCapped :
      (es : List LedgerEntry) (r : Result KubeError Secret)
      → length es ≤ 16
      → Keeps IsCapped (store_revoked c v es r)
  unfolding store_revoked
  store_revoked-IsCapped es (ok s) h = hold-IsCapped s es h
  store_revoked-IsCapped es (err e) h = search (Keeps-pure)

  record_revoked-IsCapped :
      (a : Secret × List LedgerEntry × Bool) (r : List LedgerEntry × Bool)
      → length r.0 ≤ 16
      → Keeps IsCapped (record_revoked c v a r)
  unfolding record_revoked
  record_revoked-IsCapped a r h = Keeps-if _ _ _ (Keeps-pure tt) (
      Keeps-bind _ (store_revoked c v r.0) (on_world-IsCapped _)
        (λ x. store_revoked-IsCapped r.0 x h))

  pub revoke_due-IsCapped : Keeps IsCapped (revoke_due c v)
  unfolding revoke_due revoke_asked ◌>>=◌ on_world
  revoke_due-IsCapped = record {
    at = λ p h.
        let (asked, w) = apply_cancel p.secret p.ledger p.world in
        (record_revoked-IsCapped asked (revoke_entries c v asked.1 w).0 (
            omega (
              arith,
              length-apply_cancel-le p.secret p.ledger p.world,
              length-revoke_entries-le asked.1 w,
            ))).at
          _ h;
  }
