-- ===== src/Token/Revoke.antt =====
-- pkg/token/rotate.go: the revocation of retired tokens, cancel requests and lifecycle annotations.
pub mod Revoking
pub mod Tracked
pub mod Bounds
pub mod Confirmed
pub mod Cancel
pub mod Lifecycle
use Prim.Native.String.{◌++◌}
use mathlib.Core.Option
use vault_transit_unseal_ope.Base.{
  String, Bool, true, false, ◌&&◌, ◌||◌, not, Option, none, some, List, [], ◌∷◌, ltb, if◌then◌else◌,
  ◌==◌,
}
use vault_transit_unseal_ope.Base.Text.{trim_space}
use vault_transit_unseal_ope.Base.Dict
use vault_transit_unseal_ope.Base.Exec.{Exec, pure, gets, ◌>>=◌, ◌>>◌}
use vault_transit_unseal_ope.Kube.{KubeError, Secret, text_at}
use vault_transit_unseal_ope.Token.World.{
  Result, ok, err, LedgerEntry, normal, warning, Metric, Call, TokenManagement, Setup, World, tell,
}
use vault_transit_unseal_ope.Token.Ledger.{
  cancel_revoke_annotation, RevokeError, write_ledger, revoke_and_verify,
}
use vault_transit_unseal_ope.Token.Backoff.{update}
use vault_transit_unseal_ope.Token.Pass.{Pass, View, is_scheduled, on_world, hold}

-- The entries without the first scheduled one of that accessor, if there is one
unfoldable pub drop_cancelled : String → List LedgerEntry → Option (List LedgerEntry)
drop_cancelled cancel [] = none
drop_cancelled cancel (e ∷ es) =
    let rest = drop_cancelled cancel es in
    if e.accessor == cancel && is_scheduled e.state
    then some es
    else Option.map (λ kept. e ∷ kept) rest

abbrev pub auto_rotate_key : String
auto_rotate_key = "vault.homelab.io/auto-rotate"

abbrev pub rotation_period_key : String
rotation_period_key = "vault.homelab.io/rotation-period"

abbrev pub next_rotation_key : String
next_rotation_key = "vault.homelab.io/next-rotation"

-- The text by which `applyLifecycleAnnotations` compares before and after
unfoldable pub lifecycle_text : Secret → String
lifecycle_text s =
    text_at s.annotations auto_rotate_key
    ++ "|"
    ++ text_at s.annotations rotation_period_key
    ++ "|"
    ++ text_at s.annotations next_rotation_key

unfoldable pub annotate_lifecycle : TokenManagement → Secret → Secret
annotate_lifecycle tm s =
    let set =
      if tm.auto_rotate
      then Dict.put (Dict.put s.annotations auto_rotate_key "true") rotation_period_key
          tm.rotation_period
      else Dict.remove (Dict.remove s.annotations auto_rotate_key) rotation_period_key in
    record s { annotations = Dict.remove set next_rotation_key }

-- The annotated Secret, and whether the annotations changed
unfoldable pub apply_lifecycle_annotations : TokenManagement → Secret → Secret × Bool
unfolding annotate_lifecycle lifecycle_text
apply_lifecycle_annotations tm s =
    let after = annotate_lifecycle tm s in (after, not (lifecycle_text s == lifecycle_text after))

-- The Secret and the entries after a cancel request, and whether there was one
abbrev Cancelled : Type 0
Cancelled = Secret × List LedgerEntry × Bool

after_drop : List LedgerEntry → Option (List LedgerEntry) → List LedgerEntry
after_drop entries none = entries
after_drop entries (some kept) = kept

-- A request that names no scheduled entry is answered and removed as well.
unfoldable pub apply_cancel :
    Secret → List LedgerEntry → Exec World (Secret × List LedgerEntry × Bool)
unfolding after_drop
apply_cancel secret entries =
    let cancel = trim_space (text_at secret.annotations cancel_revoke_annotation) in
    if cancel == "" then pure {A = Cancelled} (secret, entries, false) else (do
      tell (Call.event warning "TokenRevokeCancelled")
      pure {A = Cancelled} (
        record secret { annotations = Dict.remove secret.annotations cancel_revoke_annotation },
        after_drop entries (drop_cancelled cancel entries),
        true,
      ))

module _ (c : Setup) (v : View) where
  after_revoke : Option RevokeError → Exec World Bool
  after_revoke (some e) = do
    tell (Call.event warning "TokenRotationFailed")
    tell (Call.metric (Metric.admin_token_rotation false))
    pure false
  after_revoke none = do tell (Call.event normal "TokenRevoked"); pure true

  -- Whether the entry leaves the ledger
  unfoldable pub revoke_entry : LedgerEntry → Exec World Bool
  unfolding after_revoke
  revoke_entry e =
      if not (is_scheduled e.state) || ltb v.now e.not_before
      then pure false
      else if e.accessor == v.accessor
      then (do
        tell (Call.event warning "TokenRevokeSkippedCurrent")
        tell (Call.metric Metric.revoke_skipped_current)
        pure true)
      else (do failure ← revoke_and_verify c e.accessor; after_revoke failure)

  -- The entries that stay, and whether one left
  unfoldable pub revoke_entries : List LedgerEntry → Exec World (List LedgerEntry × Bool)
  revoke_entries [] = pure {A = List LedgerEntry × Bool} ([], false)
  revoke_entries (e ∷ es) = do
    dropped ← revoke_entry e
    rest ← revoke_entries es
    pure {A = List LedgerEntry × Bool} (if dropped then rest.0 else e ∷ rest.0, dropped || rest.1)

  store_revoked : List LedgerEntry → Result KubeError Secret → Exec Pass (Unit {0})
  store_revoked kept (err e) = pure tt
  store_revoked kept (ok fresh) = hold fresh kept

  -- The write that records what was revoked, if anything changed
  record_revoked : Secret × List LedgerEntry × Bool → List LedgerEntry × Bool → Exec Pass (Unit {0})
  unfolding store_revoked
  record_revoked asked revoked =
      let annotated = apply_lifecycle_annotations c.tm asked.0 in
      if not (asked.2 || revoked.1 || annotated.1) then pure tt else (do
        answer ← on_world (update c (write_ledger c annotated.0 revoked.0))
        store_revoked revoked.0 answer)

  revoke_asked : Secret × List LedgerEntry × Bool → Exec Pass (Unit {0})
  unfolding record_revoked
  revoke_asked asked = do revoked ← on_world (revoke_entries asked.1); record_revoked asked revoked

  unfoldable pub revoke_due : Exec Pass (Unit {0})
  unfolding revoke_asked
  revoke_due p = ◌>>=◌ (on_world (apply_cancel p.secret p.ledger)) revoke_asked p
