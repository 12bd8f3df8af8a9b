-- ===== src/StoredKey/Submit/Steps.antt =====
-- Which shares reach Vault, and in which state a call of `Unseal` leaves it.
use mathlib.Core.Path.{subst}
use vault_transit_unseal_ope.Base.Exec.{pure, ◌>>=◌, ◌>>◌, Exec}
use vault_transit_unseal_ope.Base.{
  inl, inr, ◌⊎◌, if_cases, not, List, Option, String, [], ap, arith, ltb, none, refl, some, suc,
  true, ◌∷◌, ◌≡◌,
}
use vault_transit_unseal_ope.StoredKey.Submit.{
  submit, unseal, after_submit, rejected, accepted, Progress, UnsealError, no_keys, share_rejected,
  untouched,
}
use vault_transit_unseal_ope.System.{
  ask, tell, Env, SealStatus, World, Call, reset_unseal, submit_share,
}
use vault_transit_unseal_ope.StoredKey.Submit.Ended.{onto, Ended}

module _ (env : Env) where
  rejected-Refused :
      (k : String) (ks : List String) (p : Progress) (h : List Call) (w : World)
      → p.sealed ≡ true
      → env.submit_share h k ≡ none
      → w.calls ≡ submit_share k ∷ h
      → Ended env (k ∷ ks) p.shares_submitted h (rejected env p w).1.calls (rejected env p w).0
  unfolding rejected pure ◌>>=◌ tell
  rejected-Refused k ks p h w sealed unanswered e =
      if_cases
        (λ (m : Exec World (Progress × Option UnsealError)).
          Ended env (k ∷ ks) p.shares_submitted h (m w).1.calls (m w).0)
        (ltb 0 p.shares_submitted)
        (do
          tell Call.reset_unseal
          pure {A = Progress × Option UnsealError} (record p { progress = 0 }, some share_rejected))
        (pure {A = Progress × Option UnsealError} (p, some share_rejected))
        (λ t. record {
          before = [];
          refused = k;
          after = ks;
          split = refl;
          stayed = tt;
          answer = unanswered;
          count = omega arith;
          calls = rw t (ap (λ l. reset_unseal ∷ l) e);
          is_sealed = sealed;
        })
        λ t. record {
          before = [];
          refused = k;
          after = ks;
          split = refl;
          stayed = tt;
          answer = unanswered;
          count = omega arith;
          calls = rw t e;
          is_sealed = sealed;
        }

  after_submit-Ended :
      (k : String) (ks : List String) (p : Progress) (h : List Call) (w : World)
      (next : Progress → Exec World (Progress × Option UnsealError)) (answer : Option SealStatus)
      → ((q : Progress)
          → q.sealed ≡ true
          → Ended env ks q.shares_submitted w.calls (next q w).1.calls (next q w).0)
      → p.sealed ≡ true
      → env.submit_share h k ≡ answer
      → w.calls ≡ submit_share k ∷ h
      → Ended env
          (k ∷ ks)
          p.shares_submitted
          h
          (after_submit env next p answer w).1.calls
          (after_submit env next p answer w).0
  unfolding after_submit pure
  after_submit-Ended k ks p h w next none ih sealed a e = rejected-Refused k ks p h w sealed a e
  after_submit-Ended k ks p h w next (some s) ih sealed a e =
      if_cases
        (λ (m : Exec World (Progress × Option UnsealError)).
          Ended env (k ∷ ks) p.shares_submitted h (m w).1.calls (m w).0)
        (not s.sealed) (pure {A = Progress × Option UnsealError} (accepted s p, none))
        (next (accepted s p))
        (λ t. record {
          before = [];
          last = k;
          after = ks;
          split = refl;
          calls = e;
          stayed = tt;
          status = s;
          answer = a;
          is_unsealed = ground arith;
          is_open = ground arith;
          progress = refl;
          threshold = refl;
          count = omega arith;
        })
        λ t.
          let r : Ended env ks (suc p.shares_submitted) w.calls (next (accepted s p) w).1.calls
              (next (accepted s p) w).0 =
            ih (accepted s p) (ground arith) in
          onto env k ks p.shares_submitted h (next (accepted s p) w).1.calls s
            (next (accepted s p) w).0.0 (next (accepted s p) w).0.1 a (ground arith)
            (subst
              (λ l.
                Ended env ks (suc p.shares_submitted) l (next (accepted s p) w).1.calls
                  (next (accepted s p) w).0)
              e r)

  submit-Ended :
      (ks : List String) (p : Progress) (w : World)
      → p.sealed ≡ true
      → Ended env ks p.shares_submitted w.calls (submit env ks p w).1.calls (submit env ks p w).0
  unfolding submit pure ◌>>=◌ ask
  submit-Ended [] p w sealed = record {
    calls = refl;
    stayed = tt;
    count = omega arith;
    is_sealed = sealed;
  }
  submit-Ended (k ∷ ks) p w sealed =
      let w' : World = record w { calls = submit_share k ∷ w.calls } in
      after_submit-Ended k ks p w.calls w' (submit env ks) (env.submit_share w.calls k)
        (λ q s. submit-Ended ks q w' s) sealed refl refl

  -- With no share at hand nothing is sent. Otherwise the shares go to Vault in their order until it
  -- answers one of them with an unsealed status, gives no status for one, or none is left; it has
  -- answered all shares before that it is still sealed. Success is reported exactly in the first
  -- case, with the progress of that answer, and no share is sent after it. Where a share got no
  -- status after others were accepted, the last call resets the attempt.
  pub unseal-Ended :
      (ks : List String) (w : World)
      → ((ks ≡ []) × (unseal env ks w ≡ ((untouched, some no_keys), w)))
        ⊎ Ended env ks 0 w.calls (unseal env ks w).1.calls (unseal env ks w).0
  unfolding unseal pure
  unseal-Ended [] w = inl (refl, refl)
  unseal-Ended (k ∷ ks) w = inr (submit-Ended (k ∷ ks) untouched w refl)
