-- ===== src/Token/Backoff.antt =====
-- pkg/token/rotate.go: the backoff after a failed rotation, in memory and on the Secret.
pub mod Revoking
pub mod Wait
pub mod Tracked
use vault_transit_unseal_ope.Base.{
  ℕ, zero, suc, ◌+◌, ◌-◌, ◌*◌, String, Option, none, some, ltb, if◌then◌else◌, ◌==◌,
}
use Prim.Native.String.{◌++◌}
use vault_transit_unseal_ope.Base.Text.{trim_space}
use vault_transit_unseal_ope.Base.Dict
use vault_transit_unseal_ope.Base.Dict.{Dict}
use vault_transit_unseal_ope.Base.Exec.{Exec, pure, ◌>>=◌, ◌>>◌}
use vault_transit_unseal_ope.Kube.{Secret, Instant, second, text_at, KubeError}
use vault_transit_unseal_ope.Token.World.{
  Result, ok, err, Call, Setup, Vtu, BackoffState, World, ask,
}
use vault_transit_unseal_ope.Token.Ledger.{backoff_annotation}

abbrev pub backoff_base : ℕ
backoff_base = 60 * second

abbrev pub backoff_max : ℕ
backoff_max = 3600 * second

-- `for i := 1; i < failures && wait < backoffMax; i++ { wait *= 2 }`, by the rounds left
unfoldable pub double_wait : ℕ → ℕ → ℕ
double_wait zero wait = wait
double_wait (suc rounds) wait =
    let rest = double_wait rounds (wait * 2) in if ltb wait backoff_max then rest else wait

-- The wait after so many failures
unfoldable pub backoff_wait : ℕ → ℕ
backoff_wait failures =
    let wait = double_wait (failures - 1) backoff_base in
    if ltb backoff_max wait then backoff_max else wait

abbrev pub backoff_key : Vtu → String
backoff_key vtu = vtu.namespace ++ "/" ++ vtu.name

-- The state of a key that the map does not hold
abbrev pub backoff_at : Dict BackoffState → String → BackoffState
backoff_at d k = elim (Dict.get d k) [ none ↦ record { failures = 0; until = 0 } | some s ↦ s ]

-- The later of the deadline in memory and the one that the Secret records
later_of : Instant → Option Instant → Instant
later_of until none = until
later_of until (some recorded) = if ltb until recorded then recorded else until

module _ (c : Setup) where
  unfoldable pub backoff_until : World → Secret → Instant
  unfolding later_of
  backoff_until w secret =
      later_of (backoff_at w.backoff (backoff_key c.vtu)).until
        (c.codec.parse_time (text_at secret.annotations backoff_annotation))

  unfoldable pub extend_backoff : Instant → Exec World Instant
  unfolding backoff_wait
  extend_backoff now w =
      let key = backoff_key c.vtu in
      let failures = suc (backoff_at w.backoff key).failures in
      let until = now + backoff_wait failures in
      (
        until,
        record w {
          backoff = Dict.put w.backoff key (record { failures = failures; until = until });
        },
      )

  unfoldable pub clear_backoff : Exec World (Unit {0})
  clear_backoff w = (tt, record w { backoff = Dict.remove w.backoff (backoff_key c.vtu) })

  -- `getAdminSecret`: uncached, by the namespace of the Vault pods and the Secret's name
  unfoldable pub get_admin_secret : Exec World (Result KubeError Secret)
  get_admin_secret =
      ask (Call.get_secret c.vtu.pod_namespace c.vtu.admin_token_name) c.env.get_secret

  -- On success the client library stores the new resourceVersion in the object.
  abbrev pub with_version : Secret → Result KubeError ℕ → Result KubeError Secret
  with_version secret (ok v) = ok (record secret { resource_version = v })
  with_version secret (err e) = err e

  unfoldable pub update : Secret → Exec World (Result KubeError Secret)
  update secret = do
    answer ← ask (Call.update_secret secret) (λ h. c.env.update_secret h secret)
    pure (with_version secret answer)

  record_backoff : Instant → String → Result KubeError Secret → Exec World (Unit {0})
  unfolding update
  record_backoff until failed_on (err e) = pure tt
  record_backoff until failed_on (ok secret) =
      if trim_space (text_at secret.data_of "token") == failed_on
      then (do
        update (record secret {
          annotations = Dict.put secret.annotations backoff_annotation (c.codec.format_time until);
        })
        pure tt)
      else pure tt

  unfoldable pub persist_backoff : Instant → String → Exec World (Unit {0})
  unfolding record_backoff get_admin_secret
  persist_backoff until failed_on = do
    answer ← get_admin_secret
    record_backoff until failed_on answer
