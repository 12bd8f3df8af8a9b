-- ===== src/Reconciler/Keys.antt =====
-- pkg/reconciler/vault_reconciler.go: `getRecoveryKeys`. Its loop has no bound of its own; here it runs on
-- as much fuel as the Secret has entries, and one more. `decimal` prints a number.
pub mod Complete
mod Tests
use vault_transit_unseal_ope.Base.{List, Option, String, [], none, some, suc, zero, ℕ, ◌∷◌}
use vault_transit_unseal_ope.Base.Dict
use vault_transit_unseal_ope.Base.Dict.{Dict}
use vault_transit_unseal_ope.Base.Try.{Result, ok, err}
use vault_transit_unseal_ope.Kube.{KubeError, Secret}
use Prim.Native.String
use mathlib.Core.Option

pub data KeysError : Type 0 where
  unreadable : KubeError → KeysError
  no_keys : KeysError

module _ (decimal : ℕ → String) where
  abbrev pub key_name : ℕ → String
  key_name i = String.◌++◌ "recovery-key-" (decimal i)

  -- The end of the run of keys, or one more key before the rest; none where the fuel has run out
  unfoldable pub cons_key : Option String → Option (List String) → Option (List String)
  cons_key none rest = some []
  cons_key (some v) none = none
  cons_key (some v) (some ks) = some (v ∷ ks)

  unfoldable pub collect_keys : Dict String → ℕ → ℕ → Option (List String)
  unfolding cons_key
  collect_keys m zero i = none
  collect_keys m (suc fuel) i = cons_key (Dict.get m (key_name i)) (collect_keys m fuel (suc i))

  abbrev pub some_keys : List String → Result KeysError (List String)
  some_keys [] = err no_keys
  some_keys (k ∷ ks) = ok (k ∷ ks)

  -- `getRecoveryKeys`; none where the fuel has run out
  unfoldable pub get_recovery_keys :
      Result KubeError Secret → Option (Result KeysError (List String))
  unfolding collect_keys
  get_recovery_keys (err e) = some (err (unreadable e))
  get_recovery_keys (ok s) =
      Option.map some_keys (collect_keys s.data_of (suc (Dict.size s.data_of)) 0)
