-- ===== src/Token/Pass.antt =====
-- pkg/token/rotate.go: one pass's view of the Secret and its ledger, and how it reports failures.
pub mod Revoking
pub mod Tracked
use vault_transit_unseal_ope.Base.{
  ℕ, suc, String, Bool, false, Option, some, List, [], ◌∷◌, ltb, nat_eq, length, not, ◌&&◌, ◌||◌,
  if◌then◌else◌,
}
use vault_transit_unseal_ope.Base.Exec.{Exec, pure, gets, ◌>>=◌, ◌>>◌}
use vault_transit_unseal_ope.Kube.{KubeError, Secret, Instant}
use vault_transit_unseal_ope.Token.World.{
  State, scheduled, unresolved, Reason, unresolved_mint, LedgerEntry, EventType, warning, Metric,
  Call, Setup, World, tell,
}
use vault_transit_unseal_ope.Token.Ledger.{WriteClass}
use vault_transit_unseal_ope.Token.Mint.{MintError}
use vault_transit_unseal_ope.Token.Backoff.{extend_backoff, persist_backoff}

-- The Secret as last read or written, and its ledger
pub record Pass : Type 0 where
  pub world : World
  pub open world use *
  pub secret : Secret
  pub ledger : List LedgerEntry

-- What the lookup of this pass confirmed, and its time
pub record View : Type 0 where
  pub token : String
  pub accessor : String
  pub now : Instant

-- The step at which a rotation failed, and why
pub data RotateError : Type 0 where
  secret_unreadable : KubeError → RotateError
  bad_creation_time bad_rotation_period bad_grace_period ledger_unreadable : RotateError
  failed_mint : MintError → RotateError
  failed_ledger failed_swap : WriteClass → KubeError → RotateError

abbrev pub is_scheduled : State → Bool
is_scheduled scheduled = Bool.true
is_scheduled _ = false

abbrev pub is_unresolved : State → Bool
is_unresolved unresolved = Bool.true
is_unresolved _ = false

abbrev pub is_unresolved_mint : Reason → Bool
is_unresolved_mint unresolved_mint = Bool.true
is_unresolved_mint _ = false

unfoldable pub on_world : {A : Type 0} → Exec World A → Exec Pass A
on_world m p = ((m p.world).0, record p { world = (m p.world).1 })

-- `p.secret, p.ledger = …`
unfoldable pub hold : Secret → List LedgerEntry → Exec Pass (Unit {0})
hold secret ledger p = (tt, record p { secret = secret; ledger = ledger })

abbrev pub event : EventType → String → Exec Pass (Unit {0})
event type reason = on_world (tell (Call.event type reason))

abbrev pub measure : Metric → Exec Pass (Unit {0})
measure m = on_world (tell (Call.metric m))

-- A rotation that is due but cannot run now
abbrev pub skipped : Exec Pass (Unit {0})
skipped = event warning "TokenRotationSkipped"

module _ (c : Setup) (v : View) where
  -- Record a failed step and start or extend the backoff.
  unfoldable pub fail : RotateError → Exec Pass (Option RotateError)
  fail e = do
    measure (Metric.admin_token_rotation false)
    until ← on_world (extend_backoff c v.now)
    event warning "TokenRotationFailed"
    on_world (persist_backoff c until v.token)
    pure (some e)

  -- The number of unresolved entries, and the earliest deadline that has passed (0 if none has)
  unfoldable pub ledger_stats : ℕ → Instant → List LedgerEntry → ℕ × Instant
  ledger_stats count oldest [] = (count, oldest)
  ledger_stats count oldest (e ∷ es) =
      let waiting = is_unresolved e.state in
      let due =
        not waiting
        && not (ltb v.now e.not_before)
        && (nat_eq oldest 0 || ltb e.not_before oldest) in
      ledger_stats (if waiting then suc count else count) (if due then e.not_before else oldest) es

  unfoldable pub publish_ledger : Exec Pass (Unit {0})
  unfolding ledger_stats
  publish_ledger = do
    ledger ← gets (λ (p : Pass). p.ledger)
    measure (
        Metric.admin_token_ledger (length ledger) (ledger_stats 0 0 ledger).0
          (ledger_stats 0 0 ledger).1)
