-- ===== src/Token/Backoff/Tracked.antt =====
-- The backoff is recorded beside the token that it finds.
use vault_transit_unseal_ope.Base.{String, if_cases, ◌==◌}
use vault_transit_unseal_ope.Base.Exec.{Exec, Keeps, Triple, Triple-bind, pure, ◌>>=◌}
use vault_transit_unseal_ope.Base.Text.{trim_space}
use vault_transit_unseal_ope.Kube.{Instant, KubeError, Secret, text_at}
use vault_transit_unseal_ope.Token.Backoff.{
  record_backoff, clear_backoff, extend_backoff, get_admin_secret, persist_backoff,
}
use vault_transit_unseal_ope.Token.Pass.{View}
use vault_transit_unseal_ope.Token.Trace.{Traced}
use vault_transit_unseal_ope.Token.Tracked.{Knows, Tracked, get-Knows, update-Knows}
use vault_transit_unseal_ope.Token.World.{Result, Setup, World, err, ok}

module _ (c : Setup) (v : View) (first : String) where
  known-Traced :
      (r : Result KubeError Secret) (w : World) → Knows c v first r w → Traced (Tracked c v first) w
  known-Traced (ok s) w k = k.1
  known-Traced (err e) w k = k

  record_backoff-Tracked :
      (t : Instant) (s : String) (r : Result KubeError Secret)
      → Triple (Knows c v first r) (record_backoff c t s r) (λ _ w. Traced (Tracked c v first) w)
  unfolding record_backoff pure ◌>>=◌
  record_backoff-Tracked t s (err e) = record { at = λ w k. k }
  record_backoff-Tracked t s (ok secret) = record {
    at = λ w k.
        if_cases (λ (m : Exec World (Unit {0})). Traced (Tracked c v first) (m w).1)
          (trim_space (text_at secret.data_of "token") == s) _ (pure tt)
          (λ _. known-Traced _ _ ((update-Knows c v first _ k.0).at w k.1)) (λ _. k.1);
  }

  pub extend_backoff-Tracked :
      (now : Instant) → Keeps (Traced (Tracked c v first)) (extend_backoff c now)
  unfolding extend_backoff
  extend_backoff-Tracked now = record { at = λ w h. h }

  pub clear_backoff-Tracked : Keeps (Traced (Tracked c v first)) (clear_backoff c)
  unfolding clear_backoff
  clear_backoff-Tracked = record { at = λ w h. h }

  pub persist_backoff-Tracked :
      (t : Instant) (s : String) → Keeps (Traced (Tracked c v first)) (persist_backoff c t s)
  unfolding persist_backoff
  persist_backoff-Tracked t s =
      Triple-bind (get_admin_secret c) (record_backoff c t s) (get-Knows c v first)
        (record_backoff-Tracked t s)
