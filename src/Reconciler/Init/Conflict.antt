-- ===== src/Reconciler/Init/Conflict.antt =====
-- What a conflict does to an initialization.
use vault_transit_unseal_ope.Kube.{conflict}
use vault_transit_unseal_ope.Base.Dict
use vault_transit_unseal_ope.Base.{
  ◌++◌, List, [], ap, if◌then◌else◌, suc, ℕ, ◌∙◌, ◌∷◌, Option, none, some, ◌≡◌,
}
use vault_transit_unseal_ope.Base.Dict.{Dict}
use vault_transit_unseal_ope.Base.Exec.{◌>>=◌, pure}
use vault_transit_unseal_ope.Reconciler.Init.{
  report_initialized, after_token, store_call, initialize_once, initialize_steps, initialize_vault,
  is_retried, store_secrets, on_response, admin_annotations,
}
use vault_transit_unseal_ope.Reconciler.Setup.{InitError, store_failed, Setup, init_refused}
use vault_transit_unseal_ope.System.{ask, Call, InitResponse, World}

module _ (c : Setup) where
  -- The request for initialization
  abbrev pub request : Call
  request =
      Call.initialize c.spec.initialization.recovery_shares c.spec.initialization.recovery_threshold

  -- The write of the admin Secret
  abbrev pub first_write : InitResponse → Call
  first_write r =
      Call.store c.spec.pod_namespace c.spec.initialization.secret_names.admin_token
        (Dict.put Dict.empty "token" r.root_token) (admin_annotations c)

  abbrev pub after : World → List Call → World
  after w ks = record w { calls = ks ++ w.calls }

  once_conflict :
      (w : World) (r : InitResponse)
      → c.env.initialize w.calls ≡ some r
      → c.env.store (request ∷ w.calls) ≡ some conflict
      → initialize_once c w ≡ (some (store_failed conflict), after w (first_write r ∷ request ∷ []))
  unfolding initialize_once on_response store_secrets store_call after_token report_initialized
      ◌>>=◌ ask pure
  once_conflict w r e s =
      ap (λ a. on_response c a (after w (request ∷ []))) e
      ∙ ap
          (λ a.
            report_initialized c (after_token c r a (after w (first_write r ∷ request ∷ []))).0
              (after_token c r a (after w (first_write r ∷ request ∷ []))).1)
          s

  once_refused :
      (w : World)
      → c.env.initialize w.calls ≡ none
      → initialize_once c w ≡ (some init_refused, after w (request ∷ []))
  unfolding initialize_once on_response ◌>>=◌ ask pure
  once_refused w e = ap (λ a. on_response c a (after w (request ∷ []))) e

  -- `RetryOnConflict` goes on, or stops, by the result of one attempt.
  go_on : ℕ → Option InitError × World → Option InitError × World
  go_on n q = (if is_retried q.0 then initialize_steps c n q.0 else pure q.0) q.1

  -- Where Vault has just been initialized and the write of the admin Secret answers with a
  -- conflict, Vault is asked to initialize a second time. If it refuses that, as an initialized
  -- Vault does, `InitializeVault` fails, and neither the root token nor a recovery key of the first
  -- answer has been written to any Secret.
  pub initialize_vault-conflict :
      (w : World) (r : InitResponse) (n : ℕ)
      → c.retry_steps ≡ suc (suc n)
      → c.env.initialize w.calls ≡ some r
      → c.env.store (request ∷ w.calls) ≡ some conflict
      → c.env.initialize (first_write r ∷ request ∷ w.calls) ≡ none
      → initialize_vault c w ≡ (some init_refused, after w (request ∷ first_write r ∷ request ∷ []))
  unfolding initialize_vault initialize_steps go_on ◌>>=◌ pure
  initialize_vault-conflict w r n k e s e' =
      let w' : World = after w (first_write r ∷ request ∷ []) in
      ap (λ m. initialize_steps c m none w) k
      ∙ ap (go_on (suc n)) (once_conflict w r e s)
      ∙ ap (go_on n) (once_refused w' e')
