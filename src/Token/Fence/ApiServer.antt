-- ===== src/Token/Fence/ApiServer.antt =====
-- The API server's part in pkg/token/rotate.go's `fence`: optimistic concurrency on the admin Secret.
use vault_transit_unseal_ope.Base.Dict
use vault_transit_unseal_ope.Base.Dict.{Dict}
use vault_transit_unseal_ope.Base.{
  ap, ◌∙◌, ◌≢◌, ◌⊎◌, ℕ, String, some, List, ◌∷◌, ◌++◌, ◌≡◌, ◌≤◌, ◌<◌,
}
use vault_transit_unseal_ope.Kube.{Secret}
use vault_transit_unseal_ope.Token.World.{ok, Call, update_secret, Setup}
use vault_transit_unseal_ope.Token.Pass.{View}
use vault_transit_unseal_ope.Token.Ledger.{fence_annotation}

-- Another content: some annotation or some key of the data reads differently.
abbrev pub Differs : Secret → Secret → Type 0
Differs s t =
    ((k : String) × (Dict.get s.annotations k ≢ Dict.get t.annotations k))
    ⊎ ((k : String) × (Dict.get s.data_of k ≢ Dict.get t.data_of k))

-- Documented behaviour of the API server on updates that carry a resourceVersion: the version of
-- the stored Secret never falls, and names one content, so that a Secret that was read at some time
-- is the stored one wherever its version is the stored one; an update that is answered with success
-- carried the stored version, and has raised it if it changed the Secret (an update that changes
-- nothing leaves the version as it is); and a write, also one that was answered by an error, takes
-- effect only at the very version that it carries.
pub record ApiServer (c : Setup) : Type 1 where
  pub version : List Call → ℕ
  pub stored : List Call → Secret
  pub Lands : List Call → Secret → Type 0
  pub monotone : (k : Call) (h : List Call) → version h ≤ version (k ∷ h)
  pub reads :
      (h later : List Call) (s : Secret)
      → c.env.get_secret h ≡ ok s
      → s.resource_version ≡ version (later ++ h)
      → stored (later ++ h) ≡ s
  pub preconditioned :
      (h : List Call) (s : Secret) (n : ℕ)
      → c.env.update_secret h s ≡ ok n
      → s.resource_version ≡ version h
  pub raises :
      (h : List Call) (s : Secret) (n : ℕ)
      → c.env.update_secret h s ≡ ok n
      → Differs s (stored h)
      → version h < version (update_secret s ∷ h)
  pub lands_at : (h : List Call) (s : Secret) → Lands h s → s.resource_version ≡ version h

-- A Secret that carries the time of this pass as its fence is past the version `n`: only the fences
-- of the pass write that time, and they came after it.
abbrev pub IsMark : Setup → View → ℕ → Type 0
IsMark c v n =
    (h : List Call) (s : Secret)
    → c.env.get_secret h ≡ ok s
    → Dict.get s.annotations fence_annotation ≡ some (c.codec.format_time_nano v.now)
    → n < s.resource_version

-- The Secret was read before the last of these calls.
pub record WasRead (c : Setup) (s : Secret) (calls : List Call) : Type 0 where
  pub history : List Call
  pub later : List Call
  pub split : calls ≡ later ++ history
  pub answer : c.env.get_secret history ≡ ok s

module _ (c : Setup) (api : ApiServer c) (s : Secret) (calls : List Call)
    (r : WasRead c s calls) where
  pub read-stored : s.resource_version ≡ api.version calls → api.stored calls ≡ s
  read-stored e = rw (r.split) (api.reads r.history r.later s r.answer (e ∙ ap api.version r.split))
