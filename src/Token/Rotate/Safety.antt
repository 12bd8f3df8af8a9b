-- ===== src/Token/Rotate/Safety.antt =====
-- Which tokens a pass of `RotateIfDue` can revoke.
use vault_transit_unseal_ope.Base.{
  refl, String, ◌≡◌, ◌≢◌, ◌⊎◌, inl, inr, List, [], ◌∷◌, All, All-map, Some,
}
use vault_transit_unseal_ope.Kube.{Instant, ℤ}
use vault_transit_unseal_ope.Token.World.{Call, LedgerEntry, Setup, revoke_accessor}
use vault_transit_unseal_ope.Token.Mint.Revoking.{Creates}
use vault_transit_unseal_ope.Token.Pass.{View, Pass}
use vault_transit_unseal_ope.Token.Revoke.{revoke_due}
use vault_transit_unseal_ope.Token.Revoke.Revoking.{IsDue, revoke_due-Revokes}
use vault_transit_unseal_ope.Token.Rotate.{run_pass}
use vault_transit_unseal_ope.Token.Rotate.Revoking.{run_pass-Revokes}
use vault_transit_unseal_ope.Token.Trace.{Revokes}

-- A whole pass (settling swaps, revoking, minting and swapping) never revokes the accessor that
-- its lookup confirmed as the current one, whatever the API server and Vault answer, provided that
-- Vault never gives a new token that same accessor. The calls before the pass are held to the
-- same.
pub run_pass-spares_current :
    (c : Setup) (v : View) (created : Instant) (period : ℤ) (p : Pass)
    → Creates (λ a. a ≢ v.accessor) c
    → All (Revokes (λ a. a ≢ v.accessor)) p.calls
    → All (Revokes (λ a. a ≢ v.accessor)) (run_pass c v created period p).1.calls
run_pass-spares_current c v created period p new h =
    (run_pass-Revokes (λ a. a ≢ v.accessor) c v new (λ e d. d.is_retired) created period).at p h

-- The accessor is that of an entry of the ledger which is scheduled, whose time has come, and
-- which is not the current token.
abbrev pub Retired : View → List LedgerEntry → String → Type 0
Retired v ledger a = Some (λ e. IsDue v e × (e.accessor ≡ a)) ledger

Retired-in :
    (v : View) (R : String → Type 0) (es : List LedgerEntry)
    → ((a : String) → Retired v es a → R a)
    → All (λ e. IsDue v e → R e.accessor) es
Retired-in v R [] f = tt
Retired-in v R (e ∷ es) f =
    (λ d. f e.accessor (inl (d, refl)), Retired-in v R es (λ a s. f a (inr s)))

widen :
    (R S : String → Type 0) → ((a : String) → R a → S a) → (k : Call) → Revokes R k → Revokes S k
widen R S f (revoke_accessor t a) h = f a h
widen R S f _ h = tt

-- Every accessor that `revokeDue` revokes is that of a ledger entry which is scheduled, whose time
-- has come and which is not the current token; so never one of a minted token whose swap is
-- unresolved. Revocations before it satisfy any `R`, and still do.
pub revoke_due-only_due :
    (c : Setup) (v : View) (R : String → Type 0) (p : Pass)
    → All (Revokes R) p.calls
    → All (Revokes (λ a. R a ⊎ Retired v p.ledger a)) (revoke_due c v p).1.calls
revoke_due-only_due c v R p h =
    let S : String → Type 0 = λ a. R a ⊎ Retired v p.ledger a in
    revoke_due-Revokes S c v p (Retired-in v S p.ledger (λ a s. inr s))
      (All-map (Revokes R) (Revokes S) (widen R S (λ a r. inl r)) p.calls h)
