-- ===== src/Lib.antt =====
-- The Vault transit unseal operator, modelled for its logic: a controller that unseals Vault, keeps
-- an admin token for it in a Kubernetes Secret, and renews, rotates and revokes that token.
--
-- Base is the shared layer: Boolean tests over the native numbers, lists, texts (`strings.TrimSpace`,
-- `strings.Contains`), finite maps, and Base/Exec, the state monad in which every handler is
-- written, with the triples by which its invariants are proved; Base/Try and Base/Gives are the same for
-- methods that return an error. Kube holds Secrets, API errors and
-- time values; an instant is the count of nanoseconds since Go's zero time.
--
-- Token is pkg/token. Token/World declares the manager's state and its surroundings: the API
-- server, Vault, the clock, the backup and the codecs are functions of the whole history of calls,
-- so an answer may fail, lag or change from one call to the next. Its state is the list of calls
-- made (the latest first), the Vault client's token and `rotationBackoff`. A request to Vault
-- carries the client token of the moment.
--   Token/Ledger   pkg/token/ledger.go: `readLedger`, `writeLedger`, `writeClass`, `revokeAndVerify`
--   Token/Backoff  rotate.go: `backoffUntil`, `extendBackoff`, `persistBackoff`, `getAdminSecret`,
--                  `update`
--   Token/Mint     manager_simple.go: `mintAdminToken`, `isPlaceholderToken`
--   Token/Pass     rotate.go: `rotationPass`, `fail`, `skipped`, `publishLedger`
--   Token/Fence    rotate.go: `resolveUnresolved`, `resolveSwap`, `fence`; Token/Fence/ApiServer says
--                  what is assumed of the API server's optimistic concurrency
--   Token/Revoke   rotate.go: `revokeDue`, `applyLifecycleAnnotations`
--   Token/Swap     rotate.go: `mintAndSwap`, `backupRotatedToken`
--   Token/Rotate   rotate.go: `rotateIfDue` and `RotateIfDue`
--   Token/Renew    renew.go: `RenewIfNeeded`
--   Token/Initial  manager_simple.go: `ReconcileInitialToken`. Client holds pods, clients and the
--                  policy, Create `createInitialToken`, Scoped `CreateScopedTokenFromRoot`,
--                  Recover the two recoveries, Root `replaceInvalidToken` and `replaceRootToken`,
--                  Reconcile the whole; Allowed says which tokens may be written and revoked
--   Token/Trace    what a history of calls may hold, and Token/Tracked which tokens may be
--                  written; the modules named Revoking, Bounds, Confirmed,
--                  Final, Gate, Tracked and Safety hold the proofs
--   Token/Cluster  an example cluster, in which Token/Tests runs the operations; Token/Fence/Tests
--                  runs the fence against an API server that stores what it accepts
--
-- Errors is pkg/errors/errors.go: error chains and how they are classified. Spec is the part of
-- api/v1alpha1 that the reconciler reads, with `EffectiveUnsealMode` and `StoredKeySecretRef`
-- (unseal_mode.go). StoredKey is pkg/storedkey: Keys for `ParseKeys`, Submit for `Unseal`.
-- Tests runs what needs no cluster.
--
-- System is the reconciler's surroundings, again as functions of the history of calls, and its
-- state: the calls made and the status of the resource. Reconciler is pkg/reconciler:
--   Reconciler/Conditions  conditions.go: `ConditionManager`
--   Reconciler/Setup       vault_reconciler.go: `VaultReconciler`; its record Parts holds the
--                          verifier, the recovery, the token manager and the configurator as
--                          actions on that state, whatever they do
--   Reconciler/Shamir      stored_key.go: `ValidateStoredKeySecret`, `UnsealWithStoredKey`
--   Reconciler/Init        vault_reconciler.go: `InitializeVault`, `StoreSecrets`
--   Reconciler/Pod         vault_reconciler.go: `ProcessPod`
--   Reconciler/Loop        vault_reconciler.go: `Reconcile`
--   Reconciler/Trace       when the reconciler may act; the modules named Allowed and Safe prove it
--
-- Transit is pkg/transit: Resolver for resolver.go, Kv for kv.go, and Backup for the two directions of
-- the backup, `backupTokenToTransit` (vault_reconciler.go) and `recoverTokenFromTransit`
-- (pkg/secrets/recovery.go), over the surroundings of Transit/World; its child Cell states what their
-- callers need of them, and Transit/Cluster is an example. Reconciler/Address is
-- pkg/reconciler/address_resolver.go, the second resolver of the same address.
--
-- Secrets/Verifier is pkg/secrets/verifier.go: `VerifyExpectedSecrets`, with the API server as a
-- function of the namespace and the name; its child Complete holds the proofs. Secrets/Placeholder,
-- Secrets/Restore and Secrets/Recovery are pkg/secrets/recovery.go, over the surroundings of
-- Secrets/World, which hold those of Transit/World: the recovery runs the model of the backup.
-- Secrets/Trace says what the recovery may do, and the modules named Allowed prove it.
-- Secrets/Manager is manager.go and Secrets/Drift drift.go. In the reconciler the verifier and the
-- recovery are still parameters.
--
-- Configuration is pkg/configuration/configurator.go: `Configure`, over the surroundings of
-- Configuration/World; Again proves what a second run does, with Kept. Reconciler/Keys is `getRecoveryKeys` of
-- vault_reconciler.go.
--
-- The one loop with a bound is the fence's, of three attempts as in the source; every other loop is
-- structural recursion over the list that the source ranges over, and the backoff's loop is
-- recursion over the failures left to count. `retry.RetryOnConflict` is recursion over the steps that
-- the library allows, a parameter. Fuel is used only for the loop of `getRecoveryKeys`, which has no
-- bound of its own: as much as the Secret has entries, and one more.
--
-- Not modelled: texts of messages and log lines (events and metrics are calls with their reason),
-- contexts and timeouts (a timed out write is the error `dropped`), and JSON, RFC 3339 and duration
-- texts, whose parsers and printers are parameters. A Secret keeps its data, annotations and
-- resourceVersion. Instants before year 1 are cut to it,
-- and durations are unbounded integers.
pub mod Base
pub mod Configuration
pub mod Errors
pub mod Kube
pub mod Reconciler
pub mod Secrets
pub mod Spec
pub mod StoredKey
pub mod System
pub mod Tests
pub mod Token
pub mod Transit
