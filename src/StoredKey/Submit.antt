-- ===== src/StoredKey/Submit.antt =====
-- pkg/storedkey/unsealer.go: `Unseal`.
pub mod Ended
pub mod Steps
pub mod Allowed
use vault_transit_unseal_ope.Base.{
  Bool, List, Option, String, [], if◌then◌else◌, ltb, none, not, some, suc, true, ℕ, ◌∷◌,
}
use vault_transit_unseal_ope.Base.Exec.{Exec, pure, ◌>>=◌, ◌>>◌}
use vault_transit_unseal_ope.System.{Call, Env, SealStatus, World, ask, tell}

-- What a call of `Unseal` achieved
pub record Progress : Type 0 where
  pub sealed : Bool
  pub progress : ℕ
  pub threshold : ℕ
  pub shares_submitted : ℕ

pub data UnsealError : Type 0 where
  no_keys share_rejected too_few_shares : UnsealError

abbrev pub accepted : SealStatus → Progress → Progress
accepted s p = record {
  sealed = s.sealed;
  progress = s.progress;
  threshold = s.threshold;
  shares_submitted = suc p.shares_submitted;
}

abbrev Outcome : Type 0
Outcome = Progress × Option UnsealError

abbrev pub untouched : Progress
untouched = record { sealed = true; progress = 0; threshold = 0; shares_submitted = 0 }

module _ (env : Env) where
  -- A half-finished attempt is abandoned.
  rejected : Progress → Exec World (Progress × Option UnsealError)
  rejected p =
      if ltb 0 p.shares_submitted
      then (do
        tell Call.reset_unseal
        pure {A = Outcome} (record p { progress = 0 }, some share_rejected))
      else pure {A = Outcome} (p, some share_rejected)

  -- The loop goes on only while Vault is sealed.
  after_submit :
      (Progress → Exec World (Progress × Option UnsealError))
      → Progress
      → Option SealStatus
      → Exec World (Progress × Option UnsealError)
  unfolding rejected
  after_submit next p none = rejected p
  after_submit next p (some s) =
      if not s.sealed then pure {A = Outcome} (accepted s p, none) else next (accepted s p)

  -- `for i, key := range keys`
  submit : List String → Progress → Exec World (Progress × Option UnsealError)
  submit [] p = pure {A = Outcome} (p, some too_few_shares)
  submit (k ∷ ks) p = do
    answer ← ask (Call.submit_share k) (λ h. env.submit_share h k)
    after_submit (submit ks) p answer

  -- `Unseal`
  unfoldable pub unseal : List String → Exec World (Progress × Option UnsealError)
  unfolding submit after_submit
  unseal [] = pure {A = Outcome} (untouched, some no_keys)
  unseal (k ∷ ks) = submit (k ∷ ks) untouched
