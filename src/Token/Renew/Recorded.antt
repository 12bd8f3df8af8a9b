-- ===== src/Token/Renew/Recorded.antt =====
-- What a renewal leaves on the admin Secret.
use vault_transit_unseal_ope.Base.Exec.{pure, ◌>>=◌}
use vault_transit_unseal_ope.Token.Backoff.{update}
use vault_transit_unseal_ope.Base.Dict
use vault_transit_unseal_ope.Base.{if_cases, refl, List, Option, String, none, some, ◌∷◌, ◌≡◌}
use vault_transit_unseal_ope.Base.Dict.{Dict}
use vault_transit_unseal_ope.Kube.{
  Instant, KubeError, gtb, pos, quotient, second, seconds, ℤ, Secret,
}
use vault_transit_unseal_ope.Token.Renew.{
  record_success, after_renew, call_renew_self, after_update, renew_token, RenewError, annotate,
  bad_lease, empty_response, last_error_key, renew_failed, update_failed,
}
use vault_transit_unseal_ope.Token.World.{
  Result, VaultError, World, ask, err, ok, renew_self, Call, Codec, Setup, clock, update_secret,
}

abbrev success_key : String
success_key = "vault.homelab.io/last-renewal-success"

abbrev attempt_key : String
attempt_key = "vault.homelab.io/last-renewal-attempt"

-- A Secret that reports an attempt at that time, and that it succeeded
abbrev pub ReportsSuccess : String → Secret → Type 0
ReportsSuccess at s =
    (Dict.get s.annotations last_error_key ≡ none)
    × (Dict.get s.annotations success_key ≡ some at)
    × (Dict.get s.annotations attempt_key ≡ some at)

-- A Secret that reports an attempt at that time, and its error
abbrev pub ReportsError : String → String → Secret → Type 0
ReportsError at t s =
    (Dict.get s.annotations last_error_key ≡ some t)
    × (Dict.get s.annotations attempt_key ≡ some at)

-- The last call, by the outcome of the renewal
abbrev pub Recorded : Codec → String → Option RenewError → List Call → Type 0
Recorded _ at none (update_secret s ∷ h) = ReportsSuccess at s
Recorded _ at (some (update_failed e)) (update_secret s ∷ h) = ReportsSuccess at s
Recorded codecs at (some (renew_failed e)) (update_secret s ∷ h) =
    ReportsError at (codecs.error_text e) s
Recorded _ at (some (bad_lease l)) (update_secret s ∷ h) =
    ReportsError at "renew-self returned non-positive LeaseDuration" s
Recorded _ at (some empty_response) (clock ∷ h) = Unit {0}
Recorded _ _ _ _ = ⊥

module _ (c : Setup) where
  ended-ReportsSuccess :
      (s : Secret) (at e : String)
      → ReportsSuccess at (
          let ended =
            annotate "vault.homelab.io/token-expires" e
              (annotate success_key at (annotate attempt_key at s)) in
          record ended { annotations = Dict.remove ended.annotations last_error_key })
  ended-ReportsSuccess s at e = (simp Dict.dict_laws, simp Dict.dict_laws, simp Dict.dict_laws)

  failed-ReportsError :
      (s : Secret) (at t : String)
      → ReportsError at t (annotate last_error_key t (annotate attempt_key at s))
  failed-ReportsError s at t = (simp Dict.dict_laws, simp Dict.dict_laws)

  after_update-Recorded :
      (s : Secret) (at : String) (r : Result KubeError Secret) (w : World) (h : List Call)
      → ReportsSuccess at s
      → w.calls ≡ update_secret s ∷ h
      → Recorded c.codec at (after_update c r w).0 (after_update c r w).1.calls
  unfolding after_update pure
  after_update-Recorded s at (ok t) w h r e = rw e r
  after_update-Recorded s at (err x) w h r e = rw e r

  after_renew-Recorded :
      (s : Secret) (now : Instant) (r : Result VaultError (Option ℤ)) (w : World) (h : List Call)
      → w.calls ≡ clock ∷ h
      → Recorded c.codec
          (c.codec.format_time now)
          (after_renew c (annotate attempt_key (c.codec.format_time now) s) now r w).0
          (after_renew c (annotate attempt_key (c.codec.format_time now) s) now r w).1.calls
  unfolding after_renew pure ◌>>=◌ update ask record_success
  after_renew-Recorded s now (err e) w h k =
      failed-ReportsError s (c.codec.format_time now) (c.codec.error_text e)
  after_renew-Recorded s now (ok none) w h k = rw k tt
  after_renew-Recorded s now (ok (some lease)) w h k =
      if_cases (λ m. Recorded c.codec (c.codec.format_time now) (m w).0 (m w).1.calls)
        (gtb (seconds lease) (pos 0))
        (record_success c (annotate attempt_key (c.codec.format_time now) s) now lease) _
        (λ _.
          after_update-Recorded _ (c.codec.format_time now) _ _ _
            (ended-ReportsSuccess s (c.codec.format_time now) _) refl)
        λ _.
          failed-ReportsError s (c.codec.format_time now)
            "renew-self returned non-positive LeaseDuration"

  -- Once a renewal has been requested, the admin Secret is written with the time of the attempt: on
  -- success, also where that write is refused, with the same time of success and without the last
  -- error, and on an error of Vault, or a lease that is not positive, with the error. Only an empty
  -- response leaves the Secret unwritten.
  pub renew_token-Recorded :
      (s : Secret) (configured : ℤ) (w : World)
      → Recorded c.codec
          (c.codec.format_time
            (c.env.clock (renew_self w.client_token (quotient configured second) ∷ w.calls)))
          (renew_token c s configured w).0
          (renew_token c s configured w).1.calls
  unfolding renew_token pure ◌>>=◌ ask call_renew_self
  renew_token-Recorded s configured w = after_renew-Recorded s _ _ _ _ refl
