-- ===== src/Token/Backoff/Revoking.antt =====
-- Reading and writing the Secret, and the backoff, revoke nothing.
use vault_transit_unseal_ope.Base.{String}
use vault_transit_unseal_ope.Base.Exec.{Keeps}
use vault_transit_unseal_ope.Kube.{KubeError, Secret, Instant}
use vault_transit_unseal_ope.Token.World.{Result, ok, err, Setup, ask}
use vault_transit_unseal_ope.Token.Backoff.{
  extend_backoff, clear_backoff, get_admin_secret, update, record_backoff, persist_backoff,
}
use vault_transit_unseal_ope.Token.Trace.{Revokes, Traced, trace_rules}

module _ (R : String → Type 0) (c : Setup) where
  pub get_admin_secret-Revokes : Keeps (Traced (Revokes R)) (get_admin_secret c)
  unfolding get_admin_secret ask
  get_admin_secret-Revokes = record { at = λ w h. (tt, h) }

  pub update-Revokes : (s : Secret) → Keeps (Traced (Revokes R)) (update c s)
  unfolding update
  update-Revokes s = search (trace_rules, tt)

  pub extend_backoff-Revokes : (now : Instant) → Keeps (Traced (Revokes R)) (extend_backoff c now)
  unfolding extend_backoff
  extend_backoff-Revokes now = record { at = λ w h. h }

  pub clear_backoff-Revokes : Keeps (Traced (Revokes R)) (clear_backoff c)
  unfolding clear_backoff
  clear_backoff-Revokes = record { at = λ w h. h }

  record_backoff-Revokes :
      (t : Instant) (s : String) (r : Result KubeError Secret)
      → Keeps (Traced (Revokes R)) (record_backoff c t s r)
  unfolding record_backoff
  record_backoff-Revokes t s (ok secret) = search (trace_rules, update-Revokes)
  record_backoff-Revokes t s (err e) = search trace_rules

  pub persist_backoff-Revokes :
      (t : Instant) (s : String) → Keeps (Traced (Revokes R)) (persist_backoff c t s)
  unfolding persist_backoff
  persist_backoff-Revokes t s =
      search (trace_rules, get_admin_secret-Revokes, record_backoff-Revokes)
