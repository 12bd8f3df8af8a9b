-- ===== src/Reconciler/Keys/Tests.antt =====
-- Runs of `getRecoveryKeys`.
use vault_transit_unseal_ope.Base.{List, String, ap, refl, some, suc, zero, ℕ, ◌≡◌}
use vault_transit_unseal_ope.Base.Dict
use vault_transit_unseal_ope.Base.Dict.{Dict}
use vault_transit_unseal_ope.Base.Try.{ok}
use vault_transit_unseal_ope.Kube.{Secret}
use vault_transit_unseal_ope.Reconciler.Keys.{get_recovery_keys, some_keys}
use vault_transit_unseal_ope.Reconciler.Keys.Complete.{IsRun, PrintsApart, get_recovery_keys-IsRun}
use text.Mathlib.TextLemmas.{nil≢cons, cons≢nil, tail-eq_of_cons-eq}
use Prim.Native.String.{[], ◌∷◌}

-- Strokes, one for each unit
strokes : ℕ → String
strokes zero = []
strokes (suc n) = "|" ∷ strokes n

strokes_apart : PrintsApart strokes
unfolding strokes
strokes_apart zero zero h = refl
strokes_apart zero (suc j) h = absurd (nil≢cons h)
strokes_apart (suc i) zero h = absurd (cons≢nil h)
strokes_apart (suc i) (suc j) h = ap suc (strokes_apart i j (tail-eq_of_cons-eq h))

abbrev keys : Secret
keys = record {
  data_of = Dict.put (Dict.put Dict.empty "recovery-key-" "one") "recovery-key-|" "two";
  annotations = Dict.empty;
  resource_version = 1;
}

get_recovery_keys-IsRun_example :
    (ks : List String) × IsRun strokes keys.data_of 0 ks
    × (get_recovery_keys strokes (ok keys) ≡ some (some_keys strokes ks))
get_recovery_keys-IsRun_example = get_recovery_keys-IsRun strokes strokes_apart keys
