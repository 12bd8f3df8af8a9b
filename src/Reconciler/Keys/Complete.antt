-- ===== src/Reconciler/Keys/Complete.antt =====
-- The loop over the recovery keys ends, with the run of keys from the first on.
use vault_transit_unseal_ope.Base.{
  ap, Bool-cases, List, Option, String, [], arith, false, inl, inr, none, refl, some, suc, sym,
  zero, ℕ, ◌<◌, ◌==◌, ◌∙◌, ◌∷◌, ◌≡◌,
}
use vault_transit_unseal_ope.Base.Dict
use vault_transit_unseal_ope.Base.Dict.{Dict}
use vault_transit_unseal_ope.Base.Try.{ok}
use vault_transit_unseal_ope.Kube.{Secret}
use vault_transit_unseal_ope.Reconciler.Keys.{
  collect_keys, cons_key, get_recovery_keys, key_name, some_keys,
}
use text.Mathlib.TextLemmas.{append_cancel_left}
use text.Mathlib.TextEquality.{eq_iff}
use mathlib.Core.Path.{subst}

-- Two numbers do not print alike.
abbrev pub PrintsApart : (ℕ → String) → Type 0
PrintsApart decimal = (i j : ℕ) → decimal i ≡ decimal j → i ≡ j

module _ (decimal : ℕ → String) where
  -- The values under the key of `i` and of the numbers after it, until a key is missing
  abbrev pub IsRun : Dict String → ℕ → List String → Type 0
  IsRun m i [] = Dict.get m (key_name decimal i) ≡ none
  IsRun m i (k ∷ ks) = (Dict.get m (key_name decimal i) ≡ some k) × IsRun m (suc i) ks

  cons-IsRun :
      (m : Dict String) (i : ℕ) (o : Option String) (rest : Option (List String)) (ks : List String)
      → Dict.get m (key_name decimal i) ≡ o
      → ((ls : List String) → rest ≡ some ls → IsRun m (suc i) ls)
      → cons_key decimal o rest ≡ some ks
      → IsRun m i ks
  unfolding cons_key
  cons-IsRun m i none rest [] e ih h = e
  cons-IsRun m i none rest (k ∷ ks) e ih h = cc
  cons-IsRun m i (some v) none ks e ih h = cc
  cons-IsRun m i (some v) (some ls) [] e ih h = cc
  cons-IsRun m i (some v) (some ls) (k ∷ ks) e ih h =
      let v_k : v ≡ k = cc in
      let ls_ks : ls ≡ ks = cc in (e ∙ ap some v_k, subst (IsRun m (suc i)) ls_ks (ih ls refl))

  collect-IsRun :
      (fuel : ℕ) (m : Dict String) (i : ℕ) (ks : List String)
      → collect_keys decimal m fuel i ≡ some ks
      → IsRun m i ks
  unfolding collect_keys
  collect-IsRun zero m i ks h = cc
  collect-IsRun (suc fuel) m i ks h =
      cons-IsRun m i (Dict.get m (key_name decimal i)) (collect_keys decimal m fuel (suc i)) ks refl
        (λ ls e. collect-IsRun fuel m (suc i) ls e) h

  module _ (apart : PrintsApart decimal) where
    names_apart : (i j : ℕ) → i < j → (key_name decimal i == key_name decimal j) ≡ false
    names_apart i j h = elim (Bool-cases (key_name decimal i == key_name decimal j)) [
      | inl t ↦
          absurd (
            omega (arith, h, apart i j (append_cancel_left "recovery-key-" _ _ ((eq_iff _ _).0 t))))
      | inr f ↦ f
    ]

    -- A key before the run is of no matter to it.
    collect-remove :
        (fuel : ℕ) (m : Dict String) (i j : ℕ)
        → i < j
        → collect_keys decimal (Dict.remove m (key_name decimal i)) fuel j
          ≡ collect_keys decimal m fuel j
    unfolding collect_keys
    collect-remove zero m i j h = refl
    collect-remove (suc fuel) m i j h =
        rw
          (
            Dict.get-remove m (key_name decimal i) (key_name decimal j),
            names_apart i j h,
            collect-remove fuel m i (suc j) (omega (arith, h)),
          )
          refl

    cons-total :
        (o : Option String) (rest : Option (List String))
        → ((v : String) → o ≡ some v → (ls : List String) × (rest ≡ some ls))
        → (ks : List String) × (cons_key decimal o rest ≡ some ks)
    unfolding cons_key
    cons-total none rest f = ([], refl)
    cons-total (some v) rest f = let (ls, e) = f v refl in (v ∷ ls, rw e refl)

    -- More fuel than entries is enough.
    collect-total :
        (fuel : ℕ) (m : Dict String) (i : ℕ)
        → Dict.size m < fuel
        → (ks : List String) × (collect_keys decimal m fuel i ≡ some ks)
    unfolding collect_keys
    collect-total zero m i h = absurd (omega (arith, h))
    collect-total (suc fuel) m i h =
        cons-total (Dict.get m (key_name decimal i)) (collect_keys decimal m fuel (suc i)) λ v e.
          let (ks, e') =
            collect-total fuel (Dict.remove m (key_name decimal i)) (suc i)
              (omega (arith, h, Dict.size-remove m (key_name decimal i) e)) in
          (ks, sym (collect-remove fuel m i (suc i) (omega arith)) ∙ e')

    -- Where numbers print apart, the loop of `getRecoveryKeys` ends for every Secret: there is a list of
    -- keys, which are the values under recovery-key-0 and the numbers after it up to the first that is
    -- missing, and the function returns them, or an error where there are none.
    pub get_recovery_keys-IsRun :
        (s : Secret)
        → (ks : List String) × IsRun s.data_of 0 ks
          × (get_recovery_keys decimal (ok s) ≡ some (some_keys decimal ks))
    unfolding get_recovery_keys
    get_recovery_keys-IsRun s =
        let (ks, e) = collect-total (suc (Dict.size s.data_of)) s.data_of 0 (omega arith) in
        (ks, collect-IsRun (suc (Dict.size s.data_of)) s.data_of 0 ks e, rw e refl)
