-- ===== src/Token/Fence/Final.antt =====
-- What a fence settles for good, against an API server with optimistic concurrency.
use vault_transit_unseal_ope.Base.Dict
use vault_transit_unseal_ope.Base.Dict.{Dict}
use vault_transit_unseal_ope.Base.{
  Bool-cases, ap, eq_iff, inl, inr, sym, ◌==◌, ◌∙◌, ◌≢◌, ◌⊎◌, ℕ, zero, suc, String, not, Option,
  none, some, List, [], ◌∷◌, ◌++◌, ◌≡◌, ◌≤◌, ◌<◌, refl, arith,
}
use vault_transit_unseal_ope.Base.Exec.{Triple-bind, Exec, Triple, Triple-if, pure, ◌>>=◌}
use vault_transit_unseal_ope.Kube.{is_conflict, KubeError, Secret}
use vault_transit_unseal_ope.Token.World.{
  Result, ok, err, LedgerEntry, Call, update_secret, Setup, World, ask,
}
use vault_transit_unseal_ope.Token.Backoff.{with_version, get_admin_secret, update}
use vault_transit_unseal_ope.Token.Pass.{View}
use vault_transit_unseal_ope.Token.Ledger.{fence_annotation, read_ledger}
use vault_transit_unseal_ope.Token.Fence.{
  FenceOutcome, fence_unresolved, fence_landed, fence_not_landed, has_unresolved_mint, fenced,
  fence_write, fence_entries, fence_read, fence_attempts, fence,
}
use vault_transit_unseal_ope.Token.Fence.ApiServer.{ApiServer, IsMark, WasRead, read-stored}

is_some_cases : (o : Option String) (t : String) → (o ≡ some t) ⊎ (o ≢ some t)
is_some_cases none t = inr (ground arith)
is_some_cases (some x) t = elim (Bool-cases (x == t)) [
  | inl e ↦ inl (ap some ((eq_iff x t).0 e))
  | inr e ↦ inr (ground (arith, eq_iff x t))
]

module _ (c : Setup) (api : ApiServer c) (v : View) (swap_id : String) (n : ℕ)
    (mark : IsMark c v n) where
  abbrev AtLeast : World → Type 0
  AtLeast w = n ≤ api.version w.calls

  -- A fence that says "not landed" has moved the Secret past every version that it started from.
  abbrev Moved : FenceOutcome → World → Type 0
  Moved (fence_not_landed s) w = n < api.version w.calls
  Moved _ w = n ≤ api.version w.calls

  abbrev Wrote : Result KubeError Secret → World → Type 0
  Wrote (ok s) w = n < api.version w.calls
  Wrote (err e) w = n ≤ api.version w.calls

  abbrev Held : Secret → World → Type 0
  Held s w = (n ≤ api.version w.calls) × WasRead c s w.calls

  abbrev Got : Result KubeError Secret → World → Type 0
  Got (ok s) w = Held s w
  Got (err e) w = n ≤ api.version w.calls

  -- The fence annotation changes the Secret, unless it was there and the Secret is past `n` already.
  fenced-Moved :
      (s : Secret) (calls : List Call) (m : ℕ) (old : Option String)
      → Dict.get s.annotations fence_annotation ≡ old
      → c.env.update_secret calls (fenced c v swap_id s) ≡ ok m
      → n ≤ api.version calls
      → WasRead c s calls
      → n < api.version (update_secret (fenced c v swap_id s) ∷ calls)
  fenced-Moved s calls m old g e h r =
      let at_version : s.resource_version ≡ api.version calls =
        api.preconditioned calls (fenced c v swap_id s) m e in
      let stamp = c.codec.format_time_nano v.now in
      let written : Dict.get (fenced c v swap_id s).annotations fence_annotation ≡ some stamp =
        ground (
          arith,
          Dict.get-put s.annotations fence_annotation fence_annotation stamp,
          eq_iff fence_annotation fence_annotation,
        ) in
      elim (is_some_cases old stamp) [
        | inl same ↦ omega (
          arith,
          mark r.history s r.answer (g ∙ same),
          at_version,
          api.monotone (update_secret (fenced c v swap_id s)) calls,
        )
        | inr unlike ↦ omega (
          arith,
          h,
          api.raises calls (fenced c v swap_id s) m e (
              inl (
                fence_annotation,
                λ q. unlike (
                    sym g
                    ∙ ap (λ (x : Secret). Dict.get x.annotations fence_annotation)
                        (sym (read-stored c api s calls r at_version))
                    ∙ sym q
                    ∙ written),
              )),
        )
      ]

  answer-Wrote :
      (s : Secret) (w : World) (r : Result KubeError ℕ)
      → c.env.update_secret w.calls (fenced c v swap_id s) ≡ r
      → Held s w
      → Wrote
          (with_version c (fenced c v swap_id s) r)
          (record w { calls = update_secret (fenced c v swap_id s) ∷ w.calls })
  answer-Wrote s w (ok m) e h = fenced-Moved s w.calls m _ refl e h.0 h.1
  answer-Wrote s w (err x) e h =
      omega (arith, h.0, api.monotone (update_secret (fenced c v swap_id s)) w.calls)

  update-Wrote : (s : Secret) → Triple (Held s) (update c (fenced c v swap_id s)) Wrote
  unfolding update ask ◌>>=◌
  update-Wrote s = record {
    at = λ w h. answer-Wrote s w (c.env.update_secret w.calls (fenced c v swap_id s)) refl h;
  }

  answer-Got :
      (w : World) (k : Call) (r : Result KubeError Secret)
      → c.env.get_secret w.calls ≡ r
      → AtLeast w
      → Got r (record w { calls = k ∷ w.calls })
  answer-Got w k (ok s) e h = (
    omega (arith, api.monotone k w.calls),
    record { history = w.calls; later = k ∷ []; split = refl; answer = e },
  )
  answer-Got w k (err x) e h = omega (arith, api.monotone k w.calls)

  get-Got : Triple AtLeast (get_admin_secret c) Got
  unfolding get_admin_secret ask
  get-Got = record { at = λ w h. answer-Got w _ (c.env.get_secret w.calls) refl h }

  stay_unresolved : Triple AtLeast (pure fence_unresolved) Moved
  unfolding pure
  stay_unresolved = record { at = λ w h. h }

  fence_write-Moved :
      (again : Exec World FenceOutcome)
      → Triple AtLeast again Moved
      → (r : Result KubeError Secret) → Triple (Wrote r) (fence_write c v swap_id again r) Moved
  unfolding fence_write pure
  fence_write-Moved again t (ok s) = record { at = λ w h. h }
  fence_write-Moved again t (err e) =
      Triple-if (is_conflict e) again (pure fence_unresolved) t stay_unresolved

  fence_entries-Moved :
      (again : Exec World FenceOutcome)
      → Triple AtLeast again Moved
      → (s : Secret) (o : Option (List LedgerEntry))
      → Triple (Held s) (fence_entries c v swap_id again s o) Moved
  unfolding fence_entries pure
  fence_entries-Moved again t s none = record { at = λ w h. h.0 }
  fence_entries-Moved again t s (some es) =
      Triple-if (not (has_unresolved_mint es swap_id)) (pure (fence_landed s)) _
        (record { at = λ w h. h.0 })
        (Triple-bind (update c (fenced c v swap_id s)) (fence_write c v swap_id again)
          (update-Wrote s) (fence_write-Moved again t))

  fence_read-Moved :
      (again : Exec World FenceOutcome)
      → Triple AtLeast again Moved
      → (r : Result KubeError Secret) → Triple (Got r) (fence_read c v swap_id again r) Moved
  unfolding fence_read pure
  fence_read-Moved again t (ok s) = fence_entries-Moved again t s (read_ledger c s)
  fence_read-Moved again t (err e) = record { at = λ w h. h }

  fence_attempts-Moved : (k : ℕ) → Triple AtLeast (fence_attempts c v swap_id k) Moved
  unfolding fence_attempts
  fence_attempts-Moved zero = stay_unresolved
  fence_attempts-Moved (suc k) =
      Triple-bind (get_admin_secret c) (fence_read c v swap_id (fence_attempts c v swap_id k))
        get-Got (fence_read-Moved (fence_attempts c v swap_id k) (fence_attempts-Moved k))

version_mono :
    (c : Setup) (api : ApiServer c) (later h : List Call) → api.version h ≤ api.version (later ++ h)
version_mono c api [] h = omega arith
version_mono c api (k ∷ later) h =
    omega (arith, version_mono c api later h, api.monotone k (later ++ h))

-- When the fence says that a swap has not landed, no write that was preconditioned on a version up
-- to the one at which the fence began, be it answered, refused or still under way, takes effect at
-- any later time. It holds although the API server leaves the version as it is on an update that
-- changes nothing, provided that a Secret which carries the time of this pass as its fence already
-- is past the version of that write.
pub fence_not_landed-final :
    (c : Setup) (api : ApiServer c) (v : View) (swap_id : String) (w : World) (fresh s : Secret)
    (later : List Call)
    → IsMark c v s.resource_version
    → (fence c v swap_id w).0 ≡ fence_not_landed fresh
    → s.resource_version ≤ api.version w.calls
    → ¬ api.Lands (later ++ (fence c v swap_id w).1.calls) s
unfolding fence
fence_not_landed-final c api v swap_id w fresh s later mark e old lands =
    let h = (fence c v swap_id w).1.calls in
    let n = s.resource_version in
    let moved : Moved c api v swap_id n mark (fence_not_landed fresh) (fence c v swap_id w).1 =
      rw e at ((fence_attempts-Moved c api v swap_id n mark 3).at w old) in
    omega (arith, moved, version_mono c api later h, api.lands_at (later ++ h) s lands)
