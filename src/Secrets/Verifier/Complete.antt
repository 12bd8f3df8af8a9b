-- ===== src/Secrets/Verifier/Complete.antt =====
-- What a verification report tells.
use mathlib.Core.Bool.{false≢true}
use mathlib.Core.Option
use mathlib.Core.Path.{subst}
use vault_transit_unseal_ope.Base.Dict
use vault_transit_unseal_ope.Base.{
  ℕ, All, Bool-cases, List, Option, String, [], arith, false, if_cases, inl, inr, none, not, refl,
  some, true, ◌∷◌, ◌≡◌,
}
use vault_transit_unseal_ope.Base.Dict.{get, Dict}
use vault_transit_unseal_ope.Kube.{KubeError, Secret, is_not_found}
use vault_transit_unseal_ope.Secrets.Verifier.{
  get_expected_secrets, verify_expected_secrets, check_secrets, add_missing, add_incomplete,
  ExpectedSecret, Report, check_secret, create, is_unusable, missing_keys, restore,
}
use vault_transit_unseal_ope.Spec.{Spec}
use vault_transit_unseal_ope.Token.World.{Result, err, ok}

module _ (spec : Spec) where
  -- The Secret is as it should be, or is optional and not there.
  abbrev pub IsFine : ExpectedSecret → Result KubeError Secret → Type 0
  IsFine e (err x) = (is_not_found x ≡ true) × (e.optional ≡ true)
  IsFine e (ok s) = (is_unusable spec e s ≡ false) × All (λ k. Dict.holds s.data_of k ≡ true) e.keys

  no_missing :
      (s : Secret) (ks : List String)
      → missing_keys s ks ≡ []
      → All (λ k. Dict.holds s.data_of k ≡ true) ks
  unfolding missing_keys
  no_missing s [] h = tt
  no_missing s (k ∷ ks) h = elim (Bool-cases (Dict.holds s.data_of k)) [
    | inl t ↦ (t, no_missing s ks (ground (arith, t, h)))
    | inr f ↦ ground (arith, f, h)
  ]

  nothing_missing :
      (s : Secret) (ks : List String)
      → All (λ k. Dict.holds s.data_of k ≡ true) ks
      → missing_keys s ks ≡ []
  unfolding missing_keys
  nothing_missing s [] h = refl
  nothing_missing s (k ∷ ks) h = rw h.0 (nothing_missing s ks h.1)

  -- How one turn of the loop changes the verdict
  abbrev Verdict : ExpectedSecret → Result KubeError Secret → Report → Option Report → Type 0
  Verdict e a r none = Unit {0}
  Verdict e a r (some r') =
      (r'.all_present ≡ true → (r.all_present ≡ true) × IsFine e a)
      × (r.all_present ≡ true → IsFine e a → r'.all_present ≡ true)

  add_incomplete-Verdict :
      (e : ExpectedSecret) (s : Secret) (r : Report) (ks : List String)
      → missing_keys s e.keys ≡ ks
      → is_unusable spec e s ≡ false
      → Verdict e (ok s) r (some (add_incomplete spec e ks r))
  unfolding add_incomplete
  add_incomplete-Verdict e s r [] m u = ((λ t. (t, (u, no_missing s e.keys m))), (λ t f. t))
  add_incomplete-Verdict e s r (k ∷ ks) m u = (
    (λ t. absurd (false≢true t)),
    (λ t f. let held : missing_keys s e.keys ≡ [] = nothing_missing s e.keys f.1 in cc (m, held)),
  )

  check_secret-Verdict :
      (e : ExpectedSecret) (a : Result KubeError Secret) (r : Report)
      → Verdict e a r (check_secret spec e a r)
  unfolding check_secret add_missing
  check_secret-Verdict e (err x) r =
      if_cases (Verdict e (err x) r) (is_not_found x) _ none
        (λ n.
          if_cases (Verdict e (err x) r) (not e.optional)
            (some (add_missing spec create e.optional e r)) (some r)
            (λ o. ((λ t. absurd (false≢true t)), (λ t f. ground arith)))
            (λ o. ((λ t. (t, (n, ground arith))), (λ t f. t))))
        (λ _. tt)
  check_secret-Verdict e (ok s) r =
      if_cases (Verdict e (ok s) r) (is_unusable spec e s)
        (some (add_missing spec restore false e r)) _
        (λ u. ((λ t. absurd (false≢true t)), (λ t f. ground arith)))
        (λ u. add_incomplete-Verdict e s r (missing_keys s e.keys) refl u)

  module _ (get : String → String → Result KubeError Secret) where
    abbrev pub AllFine : List ExpectedSecret → Type 0
    AllFine es = All (λ e. IsFine e (get e.namespace e.name)) es

    abbrev Verdicts : List ExpectedSecret → Report → Option Report → Type 0
    Verdicts es r none = Unit {0}
    Verdicts es r (some r') =
        (r'.all_present ≡ true → (r.all_present ≡ true) × AllFine es)
        × (r.all_present ≡ true → AllFine es → r'.all_present ≡ true)

    chain :
        (e : ExpectedSecret) (es : List ExpectedSecret) (r r' : Report) (o : Option Report)
        → Verdict e (get e.namespace e.name) r (some r')
        → Verdicts es r' o
        → Verdicts (e ∷ es) r o
    chain e es r r' none v w = tt
    chain e es r r' (some last) v w = (
      (λ t. let (u, fs) = w.0 t in let (t', f) = v.0 u in (t', (f, fs))),
      (λ t fs. w.1 (v.1 t fs.0) fs.1),
    )

    onto-Verdicts :
        (e : ExpectedSecret) (es : List ExpectedSecret) (r : Report) (o : Option Report)
        → Verdict e (get e.namespace e.name) r o
        → ((r' : Report) → Verdicts es r' (check_secrets spec get es r'))
        → Verdicts (e ∷ es) r (Option.bind o (λ r'. check_secrets spec get es r'))
    unfolding Option.bind
    onto-Verdicts e es r none v ih = tt
    onto-Verdicts e es r (some r') v ih = chain e es r r' (check_secrets spec get es r') v (ih r')

    check_secrets-Verdicts :
        (es : List ExpectedSecret) (r : Report) → Verdicts es r (check_secrets spec get es r)
    unfolding check_secrets
    check_secrets-Verdicts [] r = ((λ t. (t, tt)), (λ t f. t))
    check_secrets-Verdicts (e ∷ es) r =
        onto-Verdicts e es r (check_secret spec e (get e.namespace e.name) r)
          (check_secret-Verdict e (get e.namespace e.name) r) (check_secrets-Verdicts es)

    -- Where the verification ends without an error, it reports that all is present exactly when
    -- every expected Secret is there with all of its keys, optional ones excepted where they are
    -- not there, and the admin token, where it is expected, is a usable one.
    pub verify_expected_secrets_complete :
        (decimal : ℕ → String) (r : Report)
        → verify_expected_secrets spec decimal get ≡ some r
        → (r.all_present ≡ true → AllFine (get_expected_secrets spec decimal))
          × (AllFine (get_expected_secrets spec decimal) → r.all_present ≡ true)
    unfolding verify_expected_secrets
    verify_expected_secrets_complete decimal r e =
        let first : Report = record {
          missing = [];
          incomplete = [];
          all_present = true;
          recovery_plan = [];
        } in
        let v : Verdicts (get_expected_secrets spec decimal) first (some r) =
          subst (Verdicts (get_expected_secrets spec decimal) first) e
            (check_secrets-Verdicts (get_expected_secrets spec decimal) first) in
        ((λ t. (v.0 t).1), (λ f. v.1 refl f))
