-- ===== src/Reconciler/Trace.antt =====
-- When the reconciler may act on Vault or on a pod, and the rules by which its methods keep to it.
use vault_transit_unseal_ope.Base.{Some, All, List, String, false, some, true, ◌-◌, ◌≡◌, ◌≤◌}
use vault_transit_unseal_ope.Base.Exec.{Keeps, Keeps-bind, Keeps-gets, Keeps-if, Keeps-pure}
use vault_transit_unseal_ope.Kube.{Instant}
use vault_transit_unseal_ope.Reconciler.Pod.{sealed_restart_grace, vault_running_since}
use vault_transit_unseal_ope.Reconciler.Setup.{Message, Setup, condition}
use vault_transit_unseal_ope.Spec.{Status, is_stored_key_mode}
use vault_transit_unseal_ope.System.{
  Call, Pod, VaultStatus, World, ask, delete_pod, initialize, reset_unseal, set_status,
  submit_share, tell,
}

-- The API server lists the pod among those of Vault.
pub record IsListed (c : Setup) (pod : Pod) : Type 0 where
  pub history : List Call
  pub pods : List Pod
  pub answer : c.env.list_pods history ≡ some pods
  pub is_member : Some (λ p. p ≡ pod) pods

-- The pod was listed, and Vault answered this when it was asked for its status through the pod.
pub record Answered (c : Setup) (pod : Pod) (status : VaultStatus) : Type 0 where
  pub listed : IsListed c pod
  pub history : List Call
  pub answer : c.env.check_status history pod.name ≡ some status

-- Vault is initialized only in transit mode, and only after it has answered that it is not.
pub record MayInitialize (c : Setup) : Type 0 where
  pub pod : Pod
  pub status : VaultStatus
  pub answered : Answered c pod status
  pub is_transit : is_stored_key_mode c.spec ≡ false
  pub is_new : status.initialized ≡ false

-- Shares are submitted only in stored-key mode, and only to an initialized Vault that is sealed.
pub record MaySubmit (c : Setup) : Type 0 where
  pub pod : Pod
  pub status : VaultStatus
  pub answered : Answered c pod status
  pub is_stored_key : is_stored_key_mode c.spec ≡ true
  pub is_sealed : status.sealed ≡ true
  pub is_initialized : status.initialized ≡ true

-- A pod that the API server listed is deleted only in transit mode, only while its initialized Vault
-- is sealed, and only if, as it was listed, it is not going already and its container has run for
-- the grace at the time that the clock showed.
pub record MayDelete (c : Setup) (name : String) : Type 0 where
  pub pod : Pod
  pub status : VaultStatus
  pub answered : Answered c pod status
  pub is_named : pod.name ≡ name
  pub is_transit : is_stored_key_mode c.spec ≡ false
  pub is_sealed : status.sealed ≡ true
  pub is_initialized : status.initialized ≡ true
  pub is_staying : pod.is_terminating ≡ false
  pub started : Instant
  pub clock_history : List Call
  pub is_running : vault_running_since pod.statuses ≡ some started
  pub is_stuck : sealed_restart_grace c.grace ≤ c.env.clock clock_history - started

abbrev pub Allowed : Setup → Call → Type 0
Allowed c (initialize n t) = MayInitialize c
Allowed c (submit_share k) = MaySubmit c
Allowed c reset_unseal = MaySubmit c
Allowed c (delete_pod name) = MayDelete c name
Allowed c _ = Unit {0}

abbrev pub Traced : (Call → Type 0) → World → Type 0
Traced P w = All P w.calls

module _ {A : Type 0} {P : Call → Type 0} where
  pub Keeps-ask : (k : Call) (answer : List Call → A) → P k → Keeps (Traced P) (ask k answer)
  unfolding ask
  Keeps-ask k answer h = record { at = λ w t. (h, t) }

module _ {P : Call → Type 0} where
  pub Keeps-tell : (k : Call) → P k → Keeps (Traced P) (tell k)
  unfolding tell
  Keeps-tell k h = record { at = λ w t. (h, t) }

  pub Keeps-set_status : (f : Status → Status) → Keeps (Traced P) (set_status f)
  unfolding set_status
  Keeps-set_status f = record { at = λ w t. t }

-- The parts keep to the same.
pub record AreAllowed (c : Setup) : Type 0 where
  pub verify : Keeps (Traced (Allowed c)) c.parts.verify
  pub generate_root_token :
      (n : String) → Keeps (Traced (Allowed c)) (c.parts.generate_root_token n)
  pub backup_token : (t : String) → Keeps (Traced (Allowed c)) (c.parts.backup_token t)
  pub check_drift : Keeps (Traced (Allowed c)) c.parts.check_drift
  pub reconcile_initial_token : Keeps (Traced (Allowed c)) c.parts.reconcile_initial_token
  pub renew_if_needed : Keeps (Traced (Allowed c)) c.parts.renew_if_needed
  pub rotate_if_due : Keeps (Traced (Allowed c)) c.parts.rotate_if_due
  pub configure : (t : String) → Keeps (Traced (Allowed c)) (c.parts.configure t)
  pub recover_secrets : Keeps (Traced (Allowed c)) c.parts.recover_secrets

module _ (c : Setup) where
  pub Keeps-condition :
      (type status reason : String) (m : Message)
      → Keeps (Traced (Allowed c)) (condition c type status reason m)
  unfolding condition
  Keeps-condition type status reason m = search (Keeps-bind, Keeps-ask, Keeps-set_status, tt)

pub ruleset system_rules = (
  Keeps-pure, Keeps-gets, Keeps-if, Keeps-bind, Keeps-ask, Keeps-tell, Keeps-set_status,
  Keeps-condition,
)
