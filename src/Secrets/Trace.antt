-- ===== src/Secrets/Trace.antt =====
-- What the recovery of Secrets may do, call by call.
use vault_transit_unseal_ope.Base.{List, String, [], false, some, ◌∷◌, ◌≡◌, ◌⊎◌}
use vault_transit_unseal_ope.Base.Exec.{Keeps}
use vault_transit_unseal_ope.Base.Try.{ok}
use vault_transit_unseal_ope.Secrets.World.{Call, Setup, World, ask, tell}
use vault_transit_unseal_ope.Secrets.Placeholder.{placeholder_token}
use vault_transit_unseal_ope.Secrets.Restore.{looks_valid, token_text}
use vault_transit_unseal_ope.Transit.Backup.{recover_token_from_transit}
use vault_transit_unseal_ope.Transit
use vault_transit_unseal_ope.Kube.{Secret, text_at}

-- No token, or one of the two placeholders
abbrev pub IsInert : String → Type 0
IsInert t = (t ≡ "") ⊎ (t ≡ placeholder_token) ⊎ (t ≡ "PLACEHOLDER-REQUIRES-MANUAL-RECOVERY")

module _ (c : Setup) where
  abbrev pub IsFromBackup : String → Type 0
  IsFromBackup t = (w : Transit.World.World) × ((recover_token_from_transit c.backup w).0 ≡ ok t)

  -- A token from the backup, or a scoped token made from one
  abbrev pub IsTrusted : String → Type 0
  IsTrusted t =
      IsFromBackup t
      ⊎ (root : String) × IsFromBackup root
        × (h : List Call) × (c.env.create_scoped h root ≡ some t)

  -- The Secret was the answer to one of the reads.
  abbrev pub WasRead : String → String → Secret → List Call → Type 0
  WasRead ns name s [] = ⊥
  WasRead ns name s (k ∷ h) =
      (k ≡ Call.get_secret ns name) × (c.env.get_secret h ns name ≡ ok s) ⊎ WasRead ns name s h

  -- A delete comes right after a read that showed no valid token; an update leaves the token that was
  -- read; a created Secret has a trusted token, or none that could be used.
  abbrev pub Allowed : Call → List Call → Type 0
  Allowed (Call.delete_secret ns name) h =
      (s : Secret) × (before : List Call) × (h ≡ Call.get_secret ns name ∷ before)
      × (c.env.get_secret before ns name ≡ ok s)
      × (looks_valid (token_text s) ≡ false)
  Allowed (Call.update_secret ns name new) h =
      (s : Secret) × WasRead ns name s h × (token_text new ≡ token_text s)
  Allowed (Call.create_secret s) h =
      IsInert (text_at s.data_of "token") ⊎ IsTrusted (text_at s.data_of "token")
  Allowed (Call.create_scoped t) h = IsFromBackup t
  Allowed (Call.lookup_self t) h = IsFromBackup t
  Allowed (Call.get_secret ns name) h = Unit {0}
  Allowed Call.check_status h = Unit {0}
  Allowed Call.clock h = Unit {0}
  Allowed Call.sleep h = Unit {0}
  Allowed (Call.event t reason) h = Unit {0}

  abbrev pub AreAllowed : List Call → Type 0
  AreAllowed [] = Unit {0}
  AreAllowed (k ∷ h) = Allowed k h × AreAllowed h

  abbrev pub Fine : World → Type 0
  Fine w = AreAllowed w.calls

  pub ask-Fine :
      {A : Type 0} (k : Call) (answer : List Call → A)
      → ((h : List Call) → Allowed k h)
      → Keeps Fine (ask k answer)
  unfolding ask
  ask-Fine k answer a = record { at = λ w h. (a w.calls, h) }

  pub tell-Fine : (k : Call) → ((h : List Call) → Allowed k h) → Keeps Fine (tell k)
  unfolding tell
  tell-Fine k a = record { at = λ w h. (a w.calls, h) }
