-- ===== src/StoredKey/Submit/Ended.antt =====
-- pkg/storedkey/unsealer.go: the ways in which a call of `Unseal` ends, by the answers of Vault.
use vault_transit_unseal_ope.Base.{
  ◌++◌, List, Option, String, [], ap, arith, false, if◌then◌else◌, length, ltb, none, some, suc,
  true, ℕ, ◌+◌, ◌∷◌, ◌≡◌,
}
use vault_transit_unseal_ope.StoredKey.Submit.{
  Progress, UnsealError, no_keys, share_rejected, too_few_shares,
}
use vault_transit_unseal_ope.System.{Env, SealStatus, Call, reset_unseal, submit_share}

-- The calls after these shares were submitted in their order, the latest first
abbrev pub submissions : List String → List Call → List Call
submissions [] h = h
submissions (k ∷ ks) h = submissions ks (submit_share k ∷ h)

-- Vault answered each of these shares, submitted in their order, that it was still sealed.
abbrev pub StaysSealed : Env → List String → List Call → Type 0
StaysSealed env [] h = Unit {0}
StaysSealed env (k ∷ ks) h =
    (s : SealStatus) × (env.submit_share h k ≡ some s)
    × (s.sealed ≡ true)
    × StaysSealed env ks (submit_share k ∷ h)

module _ (env : Env) (ks : List String) (n : ℕ) (h h' : List Call) (p : Progress) where
  -- Vault answered to the last of the shares submitted, and to none before, that it is unsealed, and
  -- its answer is what is reported; the shares behind it were not submitted.
  pub record Opened : Type 0 where
    pub before : List String
    pub last : String
    pub after : List String
    pub split : ks ≡ before ++ (last ∷ after)
    pub calls : h' ≡ submit_share last ∷ submissions before h
    pub stayed : StaysSealed env before h
    pub status : SealStatus
    pub answer : env.submit_share (submissions before h) last ≡ some status
    pub is_unsealed : status.sealed ≡ false
    pub is_open : p.sealed ≡ false
    pub progress : p.progress ≡ status.progress
    pub threshold : p.threshold ≡ status.threshold
    pub count : p.shares_submitted ≡ n + suc (length before)

  -- Every share was submitted, and Vault answered each time that it is still sealed.
  pub record RanOut : Type 0 where
    pub calls : h' ≡ submissions ks h
    pub stayed : StaysSealed env ks h
    pub count : p.shares_submitted ≡ n + length ks
    pub is_sealed : p.sealed ≡ true

  -- Vault did not take the last share submitted, and was still sealed after those before it. Where
  -- there was one before it, the attempt is reset.
  pub record Refused : Type 0 where
    pub before : List String
    pub refused : String
    pub after : List String
    pub split : ks ≡ before ++ (refused ∷ after)
    pub stayed : StaysSealed env before h
    pub answer : env.submit_share (submissions before h) refused ≡ none
    pub count : p.shares_submitted ≡ n + length before
    pub calls :
        let tried = submit_share refused ∷ submissions before h in
        h' ≡ (if ltb 0 p.shares_submitted then reset_unseal ∷ tried else tried)
    pub is_sealed : p.sealed ≡ true

abbrev pub Ended :
    Env → List String → ℕ → List Call → List Call → Progress × Option UnsealError → Type 0
Ended env ks n h h' (p, none) = Opened env ks n h h' p
Ended env ks n h h' (p, some too_few_shares) = RanOut env ks n h h' p
Ended env ks n h h' (p, some share_rejected) = Refused env ks n h h' p
Ended env ks n h h' (p, some no_keys) = ⊥

-- One share more in front, after which Vault is still sealed
pub onto :
    (env : Env) (k : String) (ks : List String) (n : ℕ) (h h' : List Call) (s : SealStatus)
    (p : Progress) (e : Option UnsealError)
    → env.submit_share h k ≡ some s
    → s.sealed ≡ true
    → Ended env ks (suc n) (submit_share k ∷ h) h' (p, e)
    → Ended env (k ∷ ks) n h h' (p, e)
onto env k ks n h h' s p none answer sealed r = record {
  before = k ∷ r.before;
  last = r.last;
  after = r.after;
  split = ap (λ l. k ∷ l) r.split;
  calls = r.calls;
  stayed = (s, answer, sealed, r.stayed);
  status = r.status;
  answer = r.answer;
  is_unsealed = r.is_unsealed;
  is_open = r.is_open;
  progress = r.progress;
  threshold = r.threshold;
  count = omega (arith, r.count);
}
onto env k ks n h h' s p (some too_few_shares) answer sealed r = record {
  calls = r.calls;
  stayed = (s, answer, sealed, r.stayed);
  count = omega (arith, r.count);
  is_sealed = r.is_sealed;
}
onto env k ks n h h' s p (some share_rejected) answer sealed r = record {
  before = k ∷ r.before;
  refused = r.refused;
  after = r.after;
  split = ap (λ l. k ∷ l) r.split;
  stayed = (s, answer, sealed, r.stayed);
  answer = r.answer;
  count = omega (arith, r.count);
  calls = r.calls;
  is_sealed = r.is_sealed;
}
onto env k ks n h h' s p (some no_keys) answer sealed r = r
