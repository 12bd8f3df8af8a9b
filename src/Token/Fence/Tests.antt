-- ===== src/Token/Fence/Tests.antt =====
-- A run of pkg/token/rotate.go's `fence` against an API server that stores what it accepts, and
-- keeps the resourceVersion where an update changes nothing.
use mathlib.Core.Path.{subst}
use vault_transit_unseal_ope.Base.Dict
use vault_transit_unseal_ope.Base.Dict.{Dict}
use vault_transit_unseal_ope.Base.{
  Bool, ℕ, suc, String, not, Option, none, some, List, [], ◌∷◌, ◌++◌, ◌≡◌, ◌≤◌, ◌<◌, ◌==◌, ◌&&◌,
  refl, arith, true, false, nat_eq, if◌then◌else◌, if_cases, ap, ◌∙◌, eq_iff, inl, inr, sym,
}
use vault_transit_unseal_ope.Base.Exec.{pure, ◌>>=◌}
use vault_transit_unseal_ope.Base.Text.{trim_space}
use vault_transit_unseal_ope.Kube.{conflict, Secret, pos}
use vault_transit_unseal_ope.Token.World.{Call, Setup, ask, err, ok, renew_self, update_secret}
use vault_transit_unseal_ope.Token.Backoff.{get_admin_secret, update}
use vault_transit_unseal_ope.Token.Ledger.{fence_annotation, parse_ledger, read_ledger}
use vault_transit_unseal_ope.Token.Cluster.{obliging, start, stuck, stuck_secret, view}
use vault_transit_unseal_ope.Token.Fence.{fence, fence_not_landed, fenced, has_unresolved_mint}
use vault_transit_unseal_ope.Token.Fence.ApiServer.{ApiServer, Differs, IsMark}
use vault_transit_unseal_ope.Token.Fence.Final.{fence_not_landed-final}

same_entries : List (String × String) → List (String × String) → Bool
same_entries [] [] = true
same_entries ((k, a) ∷ l) ((j, b) ∷ m) = let rest = same_entries l m in k == j && a == b && rest
same_entries _ _ = false

abbrev is_same : Secret → Secret → Bool
is_same s t =
    same_entries s.annotations.entries t.annotations.entries
    && same_entries s.data_of.entries t.data_of.entries

abbrev store : Secret → Secret → Secret
store s t =
    if nat_eq s.resource_version t.resource_version && not (is_same s t)
    then record s { resource_version = suc t.resource_version }
    else t

abbrev written : Call → Option Secret
written (update_secret s) = some s
written _ = none

abbrev stored_by : Option Secret → Secret → Secret
stored_by none t = t
stored_by (some s) t = store s t

abbrev shelf : List Call → Secret
shelf [] = stuck_secret 0
shelf (k ∷ h) = stored_by (written k) (shelf h)

abbrev storing : Setup
storing = record stuck {
  env = record obliging {
    get_secret = λ h. ok (shelf h);
    update_secret = λ h s.
        if nat_eq s.resource_version (shelf h).resource_version
        then ok (store s (shelf h)).resource_version
        else err conflict;
  };
}

same_entries-eq : (l m : List (String × String)) → same_entries l m ≡ true → l ≡ m
unfolding same_entries
same_entries-eq [] [] e = refl
same_entries-eq [] (x ∷ m) e = ground arith
same_entries-eq ((k, a) ∷ l) [] e = ground arith
same_entries-eq ((k, a) ∷ l) ((j, b) ∷ m) e =
    let rest : l ≡ m = same_entries-eq l m (ground arith) in
    let key : k ≡ j = ground (arith, eq_iff k j) in
    let value : a ≡ b = ground (arith, eq_iff a b) in cc

not-Differs : (s t : Secret) → is_same s t ≡ true → ¬ Differs s t
not-Differs s t e (inl (k, d)) = d (
    ap (λ (l : List (String × String)). Dict.get (record { entries = l }) k)
      (same_entries-eq s.annotations.entries t.annotations.entries (ground arith)))
not-Differs s t e (inr (k, d)) = d (
    ap (λ (l : List (String × String)). Dict.get (record { entries = l }) k)
      (same_entries-eq s.data_of.entries t.data_of.entries (ground arith)))

abbrev IsNext : Secret → Secret → Type 0
IsNext t u =
    (t.resource_version ≤ u.resource_version) × (u.resource_version ≡ t.resource_version → u ≡ t)

stored_by-IsNext : (o : Option Secret) (t : Secret) → IsNext t (stored_by o t)
stored_by-IsNext none t = (omega arith, λ e. refl)
stored_by-IsNext (some s) t =
    if_cases (λ (u : Secret). IsNext t u)
      (nat_eq s.resource_version t.resource_version && not (is_same s t))
      (record s { resource_version = suc t.resource_version }) t
      (λ _. (omega arith, λ e. absurd (omega (arith, e)))) (λ _. (omega arith, λ e. refl))

shelf-IsNext : (later h : List Call) → IsNext (shelf h) (shelf (later ++ h))
shelf-IsNext [] h = (omega arith, λ e. refl)
shelf-IsNext (k ∷ later) h =
    let (low, stays) = shelf-IsNext later h in
    let (le, keeps) = stored_by-IsNext (written k) (shelf (later ++ h)) in
    (
      omega (arith, low, le),
      λ e. keeps (omega (arith, low, le, e)) ∙ stays (omega (arith, low, le, e)),
    )

abbrev IsMarked : Secret → Type 0
IsMarked t =
    Dict.get t.annotations fence_annotation ≡ some (storing.codec.format_time_nano view.now)
    → 0 < t.resource_version

stored_by-IsMarked : (o : Option Secret) (t : Secret) → IsMarked t → IsMarked (stored_by o t)
stored_by-IsMarked none t m = m
stored_by-IsMarked (some s) t m =
    if_cases IsMarked (nat_eq s.resource_version t.resource_version && not (is_same s t))
      (record s { resource_version = suc t.resource_version }) t (λ _ e. omega arith) (λ _. m)

shelf-IsMarked : (h : List Call) → IsMarked (shelf h)
unfolding Dict.get Dict.put Dict.empty
shelf-IsMarked [] = λ e. ground arith
shelf-IsMarked (k ∷ h) = stored_by-IsMarked (written k) (shelf h) (shelf-IsMarked h)

accepts-eq :
    (h : List Call) (s : Secret) (n : ℕ)
    → storing.env.update_secret h s ≡ ok n
    → nat_eq s.resource_version (shelf h).resource_version ≡ true
accepts-eq h s n e = ground arith

storing-raises :
    (h : List Call) (s : Secret) (n : ℕ)
    → storing.env.update_secret h s ≡ ok n
    → Differs s (shelf h)
    → (shelf h).resource_version < (shelf (update_secret s ∷ h)).resource_version
storing-raises h s n e d =
    if_cases (λ (u : Secret). (shelf h).resource_version < u.resource_version)
      (nat_eq s.resource_version (shelf h).resource_version && not (is_same s (shelf h)))
      (record s { resource_version = suc (shelf h).resource_version }) (shelf h) (λ _. omega arith)
      λ t. absurd (not-Differs s (shelf h) (ground (arith, accepts-eq h s n e)) d)

storing-reads :
    (h later : List Call) (s : Secret)
    → storing.env.get_secret h ≡ ok s
    → s.resource_version ≡ (shelf (later ++ h)).resource_version
    → shelf (later ++ h) ≡ s
storing-reads h later s e v =
    let read : shelf h ≡ s = cc in
    (shelf-IsNext later h).1 (sym v ∙ ap (λ (x : Secret). x.resource_version) (sym read)) ∙ read

optimistic : ApiServer storing
optimistic = record {
  version = λ h. (shelf h).resource_version;
  stored = shelf;
  Lands = λ h s. s.resource_version ≡ (shelf h).resource_version;
  monotone = λ k h. (shelf-IsNext (k ∷ []) h).0;
  reads = storing-reads;
  preconditioned = λ h s n e. ground (arith, accepts-eq h s n e);
  raises = storing-raises;
  lands_at = λ h s e. e;
}

storing-IsMark : IsMark storing view 0
storing-IsMark h s e = let read : shelf h ≡ s = cc in subst IsMarked read (shelf-IsMarked h)

fence_s1 :
    (fence storing view "s1" start.world).0
    ≡ fence_not_landed (record (fenced storing view "s1" (stuck_secret 0)) { resource_version = 1 })
unfolding fence ◌>>=◌ pure get_admin_secret ask update read_ledger parse_ledger trim_space
    has_unresolved_mint same_entries Dict.get Dict.put Dict.find Dict.drop_key Dict.empty
fence_s1 = refl

fence_not_landed-final_example :
    ¬ optimistic.Lands
      (renew_self "t" (pos 1) ∷ (fence storing view "s1" start.world).1.calls)
      (stuck_secret 0)
fence_not_landed-final_example =
    fence_not_landed-final storing optimistic view "s1" start.world
      (record (fenced storing view "s1" (stuck_secret 0)) { resource_version = 1 }) (stuck_secret 0)
      (renew_self "t" (pos 1) ∷ []) storing-IsMark fence_s1 (omega arith)
