-- ===== src/Token/Tests.antt =====
-- Runs of pkg/token in the cluster of Token/Cluster.antt.
use vault_transit_unseal_ope.Token.Rotate.Tracked.{run_pass-Tracked}
use vault_transit_unseal_ope.Token.Tracked.{Tracked}
use vault_transit_unseal_ope.Token.Renew.{on_lookup, renew, renew_token}
use vault_transit_unseal_ope.Token.Renew.Due.{
  IsNoRenewal, IsRenewable, on_lookup-due, renew-restores_token,
}
use vault_transit_unseal_ope.Token.Renew.Recorded.{Recorded, renew_token-Recorded}
use vault_transit_unseal_ope.Token.Rotate.Restore.{rotate-restores_token}
use vault_transit_unseal_ope.Base.{
  ◌*◌, false, none, some, [], ◌∷◌, ◌≡◌, ◌≢◌, ◌⊎◌, arith, eq_iff, All, Some,
}
use vault_transit_unseal_ope.Base.Dict
use vault_transit_unseal_ope.Base.Dict.{Dict}
use vault_transit_unseal_ope.Token.Cluster.{
  obliging, retired, waiting, secret, codec, toy, view, start,
}
use vault_transit_unseal_ope.Base.{ℕ, List, String, Option, refl, min, ◌^◌}
use vault_transit_unseal_ope.Base.Text.{trim_space}
use vault_transit_unseal_ope.Token.World.{Result}
use vault_transit_unseal_ope.Token.Ledger.{read_ledger, write_ledger, ledger_annotation}
use vault_transit_unseal_ope.Token.Ledger.RoundTrip.{IsFaithful, read_ledger-write_ledger}
use vault_transit_unseal_ope.Token.Backoff.{backoff_wait, backoff_base, backoff_max}
use vault_transit_unseal_ope.Token.Backoff.Wait.{backoff_wait-eq-min}
use vault_transit_unseal_ope.Token.Fence.Bounds.{ServesCapped, IsCapped}
use vault_transit_unseal_ope.Token.Revoke.{drop_cancelled, apply_lifecycle_annotations}
use vault_transit_unseal_ope.Token.Revoke.Cancel.{matches, IsFirstDropped, drop_cancelled-Outcome}
use vault_transit_unseal_ope.Token.Revoke.Lifecycle.{
  IsTruthful, apply_lifecycle_annotations-settles,
}
use vault_transit_unseal_ope.Token.Rotate.{rotate, rotate_if_due}
use vault_transit_unseal_ope.Token.Rotate.Bounds.{run_pass-IsCapped}
use vault_transit_unseal_ope.Token.Rotate.Gate.{IsNoMint, IsFree, IsAsked, rotate_if_due-gated}
use vault_transit_unseal_ope.Base.{◌∙◌, ap, length}
use vault_transit_unseal_ope.Kube.{second, KubeError}
use vault_transit_unseal_ope.Token.World.{err}
use vault_transit_unseal_ope.Token.Ledger.{parse_ledger}
use vault_transit_unseal_ope.Kube.{Secret, pos}
use vault_transit_unseal_ope.Token.World.{ok, LedgerEntry}
use vault_transit_unseal_ope.Token.Mint.Revoking.{Creates}
use vault_transit_unseal_ope.Token.Revoke.{revoke_entries, revoke_due}
use vault_transit_unseal_ope.Token.Revoke.Confirmed.{IsSettled, revoke_entries-confirmed}
use vault_transit_unseal_ope.Token.Rotate.{run_pass}
use vault_transit_unseal_ope.Token.Rotate.Safety.{
  run_pass-spares_current, Retired, revoke_due-only_due,
}
use vault_transit_unseal_ope.Token.Trace.{Revokes}

new_accessor : Creates (λ a. a ≢ "acc-now") toy
new_accessor h q auth e p = ground (arith, eq_iff "acc-new" "acc-now")

run_pass-spares_current_example :
    All (Revokes (λ a. a ≢ "acc-now")) (run_pass toy view 0 (pos 0) start).1.calls
run_pass-spares_current_example = run_pass-spares_current toy view 0 (pos 0) start new_accessor tt

revoke_due-only_due_example :
    All (Revokes (λ a. ⊥ ⊎ Retired view (retired ∷ []) a)) (revoke_due toy view start).1.calls
revoke_due-only_due_example = revoke_due-only_due toy view (λ a. ⊥) start tt

revoke_entries-confirmed_example :
    let (r, w) = revoke_entries toy view (retired ∷ waiting ∷ []) start.world in
    All (λ e. Some (λ k. k ≡ e) r.0 ⊎ IsSettled toy view e w.calls) (retired ∷ waiting ∷ [])
revoke_entries-confirmed_example =
    revoke_entries-confirmed toy view (retired ∷ waiting ∷ []) start.world

abbrev answer_of : Result KubeError Secret → Secret
answer_of (ok s) = s
answer_of (err e) = secret

abbrev size_of : Option (List LedgerEntry) → ℕ
size_of none = 0
size_of (some es) = length es

toy-ServesCapped : ServesCapped toy
unfolding read_ledger parse_ledger trim_space Dict.get Dict.empty Dict.find
toy-ServesCapped h s e es r =
    let read : read_ledger toy secret ≡ some es = ap (λ a. read_ledger toy (answer_of a)) e ∙ r in
    omega (arith, ap size_of read)

run_pass-IsCapped_example : IsCapped (run_pass toy view 0 (pos 0) start).1
run_pass-IsCapped_example =
    run_pass-IsCapped toy toy-ServesCapped view 0 (pos 0) start (omega arith)

backoff_wait-eq-min_example : backoff_wait 3 ≡ min (backoff_base * 2 ^ 2) backoff_max
backoff_wait-eq-min_example = backoff_wait-eq-min 3

other_key : "vault.homelab.io/auto-rotate" ≢ ledger_annotation
other_key e = ground (arith, eq_iff "vault.homelab.io/auto-rotate" ledger_annotation)

codec-IsFaithful : IsFaithful codec (retired ∷ [])
unfolding trim_space
codec-IsFaithful = record { not_blank = refl; reads_back = refl }

read_ledger-write_ledger_example :
    (read_ledger toy (write_ledger toy secret (retired ∷ [])) ≡ some (retired ∷ []))
    × ((k : String)
        → k ≢ ledger_annotation
        → Dict.get (write_ledger toy secret (retired ∷ [])).annotations k
          ≡ Dict.get secret.annotations k)
    × ((write_ledger toy secret (retired ∷ [])).data_of ≡ secret.data_of)
    × ((write_ledger toy secret (retired ∷ [])).resource_version ≡ secret.resource_version)
read_ledger-write_ledger_example =
    read_ledger-write_ledger toy secret (retired ∷ []) codec-IsFaithful

drop_cancelled-Outcome_example :
    let es = waiting ∷ retired ∷ [] in
    ((drop_cancelled "acc-old" es ≡ none) × All (λ e. matches "acc-old" e ≡ false) es)
    ⊎ ((kept : List LedgerEntry) × (drop_cancelled "acc-old" es ≡ some kept)
        × IsFirstDropped "acc-old" es kept)
drop_cancelled-Outcome_example = drop_cancelled-Outcome "acc-old" (waiting ∷ retired ∷ [])

apply_lifecycle_annotations-settles_example :
    let s = (apply_lifecycle_annotations toy.tm secret).0 in
    IsTruthful toy.tm s × ((apply_lifecycle_annotations toy.tm s).1 ≡ false)
apply_lifecycle_annotations-settles_example = apply_lifecycle_annotations-settles toy.tm secret

rotate_if_due-gated_example :
    (IsAsked toy view 0 (pos 0) start × IsFree toy view start)
    ⊎ All IsNoMint (rotate_if_due toy view 0 (pos 0) start).1.calls
rotate_if_due-gated_example = rotate_if_due-gated toy view 0 (pos 0) start tt

on_lookup-due_example :
    let answer = obliging.lookup_self [] "hvs.current-token" in
    IsRenewable toy answer ⊎ All IsNoRenewal (on_lookup toy secret answer start.world).1.calls
on_lookup-due_example =
    on_lookup-due toy secret (obliging.lookup_self [] "hvs.current-token") start.world tt

renew-restores_token_example :
    (renew obliging codec toy.vtu false (some toy.tm) start.world).1.client_token
    ≡ "hvs.current-token"
renew-restores_token_example =
    renew-restores_token obliging codec toy.vtu false (some toy.tm) start.world

rotate-restores_token_example :
    (rotate obliging codec toy.vtu false (some toy.tm) start.world).1.client_token
    ≡ "hvs.current-token"
rotate-restores_token_example =
    rotate-restores_token obliging codec toy.vtu false (some toy.tm) start.world

renew_token-Recorded_example :
    Recorded codec "then"
      (renew_token toy secret (pos (9 * second)) start.world).0
      (renew_token toy secret (pos (9 * second)) start.world).1.calls
renew_token-Recorded_example = renew_token-Recorded toy secret (pos (9 * second)) start.world

run_pass-Tracked_example :
    All (Tracked toy view "hvs.current-token") (run_pass toy view 0 (pos 0) start).1.calls
unfolding Dict.get Dict.put Dict.find Dict.empty Dict.drop_key
run_pass-Tracked_example = run_pass-Tracked toy view 0 (pos 0) start tt
