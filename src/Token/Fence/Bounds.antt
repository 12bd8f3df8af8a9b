-- ===== src/Token/Fence/Bounds.antt =====
-- Settling a swap never grows a ledger.
use vault_transit_unseal_ope.Base.{
  ◌∙◌, sym, ℕ, zero, suc, String, true, not, Option, none, some, List, [], ◌∷◌, ◌≡◌, ◌≤◌, refl, ap,
  arith, length, ◌==◌,
}
use vault_transit_unseal_ope.Base.Text.{trim_space}
use vault_transit_unseal_ope.Base.Exec.{
  Exec, Triple, Triple-if, Triple-bind, Keeps, Keeps-pure, Keeps-if, Keeps-bind, pure, ◌>>=◌,
}
use vault_transit_unseal_ope.Kube.{is_conflict, KubeError, Secret, Instant, text_at, text_at-put}
use vault_transit_unseal_ope.Token.World.{Result, ok, err, LedgerEntry, Call, Setup, World, ask}
use vault_transit_unseal_ope.Token.Ledger.{
  ledger_annotation, fence_annotation, ledger_cap, read_ledger, parse_ledger,
}
use vault_transit_unseal_ope.Token.Backoff.{with_version, get_admin_secret, update}
use vault_transit_unseal_ope.Token.Pass.{Pass, View, on_world, hold}
use vault_transit_unseal_ope.Token.Fence.{
  FenceOutcome, fence_unresolved, fence_landed, fence_not_landed, has_unresolved_mint, fenced,
  settle_entries, fence_write, fence_entries, fence_read, fence_attempts, fence, settle_write,
  settle_ledger, settle, resolve_swap, resolve_all, resolve_unresolved, unresolved_swaps,
}

-- The ledger that the pass holds is within the cap.
abbrev pub IsCapped : Pass → Type 0
IsCapped p = length p.ledger ≤ ledger_cap

-- The ledger on a Secret, if it can be read, is within the cap.
abbrev pub HoldsCapped : Setup → Secret → Type 0
HoldsCapped c s = (es : List LedgerEntry) → read_ledger c s ≡ some es → length es ≤ ledger_cap

-- Every Secret that the API server returns is such.
abbrev pub ServesCapped : Setup → Type 0
ServesCapped c = (h : List Call) (s : Secret) → c.env.get_secret h ≡ ok s → HoldsCapped c s

pub on_world-IsCapped : {A : Type 0} (m : Exec World A) → Keeps IsCapped (on_world m)
unfolding on_world
on_world-IsCapped m = record { at = λ p h. h }

pub hold-IsCapped :
    (s : Secret) (es : List LedgerEntry) → length es ≤ ledger_cap → Keeps IsCapped (hold s es)
unfolding hold
hold-IsCapped s es h = record { at = λ p _. h }

pub length-settle_entries-le :
    (id : String) (now : Instant) (live : String) (es : List LedgerEntry)
    → length (settle_entries id now live es) ≤ length es
unfolding settle_entries
length-settle_entries-le id now live [] = omega arith
length-settle_entries-le id now live (e ∷ es) =
    ground (arith, length-settle_entries-le id now live es)

abbrev Any : World → Type 0
Any w = Unit {0}

module _ (c : Setup) (serves : ServesCapped c) (v : View) (swap_id : String) where
  abbrev Outcome : FenceOutcome → World → Type 0
  Outcome (fence_not_landed s) w = HoldsCapped c s
  Outcome _ w = Unit {0}

  abbrev Wrote : Secret → Result KubeError Secret → World → Type 0
  Wrote s (ok t) w = read_ledger c t ≡ read_ledger c s
  Wrote s (err e) w = Unit {0}

  abbrev Read : Result KubeError Secret → World → Type 0
  Read (ok s) w = HoldsCapped c s
  Read (err e) w = Unit {0}

  with_version-Wrote :
      (s : Secret) (r : Result KubeError ℕ) (w : World) → Wrote s (with_version c s r) w
  unfolding read_ledger
  with_version-Wrote s (ok n) w = refl
  with_version-Wrote s (err e) w = tt

  update-Wrote : (s : Secret) → Triple Any (update c s) (Wrote s)
  unfolding update ask ◌>>=◌
  update-Wrote s = record { at = λ w h. with_version-Wrote s (c.env.update_secret w.calls s) _ }

  answer-Read :
      (h : List Call) (r : Result KubeError Secret) (w : World) → c.env.get_secret h ≡ r → Read r w
  answer-Read h (ok s) w e = serves h s e
  answer-Read h (err x) w e = tt

  get-Read : Triple Any (get_admin_secret c) Read
  unfolding get_admin_secret ask
  get-Read = record { at = λ w h. answer-Read w.calls (c.env.get_secret w.calls) _ refl }

  -- The fence's annotation leaves the ledger as it was.
  read_ledger-fenced : (s : Secret) → read_ledger c (fenced c v swap_id s) ≡ read_ledger c s
  unfolding read_ledger
  read_ledger-fenced s =
      ap (λ t. parse_ledger c (trim_space t))
        (text_at-put s.annotations fence_annotation ledger_annotation _)

  fence_write-Outcome :
      (again : Exec World FenceOutcome) (s : Secret)
      → HoldsCapped c s
      → Triple Any again Outcome
      → (r : Result KubeError Secret)
      → Triple (Wrote (fenced c v swap_id s) r) (fence_write c v swap_id again r) Outcome
  unfolding fence_write pure
  fence_write-Outcome again s held t (ok u) = record {
    at = λ w h es e. held es (sym (read_ledger-fenced s) ∙ sym h ∙ e);
  }
  fence_write-Outcome again s held t (err e) =
      Triple-if (is_conflict e) again (pure fence_unresolved) (record { at = λ w h. t.at w tt })
        (record { at = λ w h. tt })

  fence_entries-Outcome :
      (again : Exec World FenceOutcome) (s : Secret)
      → HoldsCapped c s
      → Triple Any again Outcome
      → (o : Option (List LedgerEntry)) → Triple Any (fence_entries c v swap_id again s o) Outcome
  unfolding fence_entries pure
  fence_entries-Outcome again s held t none = record { at = λ w h. tt }
  fence_entries-Outcome again s held t (some es) =
      Triple-if (not (has_unresolved_mint es swap_id)) (pure (fence_landed s)) _
        (record { at = λ w h. tt })
        (Triple-bind (update c (fenced c v swap_id s)) (fence_write c v swap_id again)
          (update-Wrote (fenced c v swap_id s)) (fence_write-Outcome again s held t))

  fence_read-Outcome :
      (again : Exec World FenceOutcome)
      → Triple Any again Outcome
      → (r : Result KubeError Secret) → Triple (Read r) (fence_read c v swap_id again r) Outcome
  unfolding fence_read pure
  fence_read-Outcome again t (ok s) = record {
    at = λ w h. (fence_entries-Outcome again s h t (read_ledger c s)).at w tt;
  }
  fence_read-Outcome again t (err e) = record { at = λ w h. tt }

  fence_attempts-Outcome : (k : ℕ) → Triple Any (fence_attempts c v swap_id k) Outcome
  unfolding fence_attempts pure
  fence_attempts-Outcome zero = record { at = λ w h. tt }
  fence_attempts-Outcome (suc k) =
      Triple-bind (get_admin_secret c) (fence_read c v swap_id (fence_attempts c v swap_id k))
        get-Read (fence_read-Outcome (fence_attempts c v swap_id k) (fence_attempts-Outcome k))

  settle_write-IsCapped :
      (es : List LedgerEntry) (r : Result KubeError Secret)
      → length es ≤ ledger_cap
      → Keeps IsCapped (settle_write c v swap_id es r)
  unfolding settle_write
  settle_write-IsCapped es (ok s) h = search (Keeps-bind, Keeps-pure, hold-IsCapped)
  settle_write-IsCapped es (err e) h = search (Keeps-pure)

  settle_ledger-IsCapped :
      (s : Secret) (o : Option (List LedgerEntry))
      → ((es : List LedgerEntry) → o ≡ some es → length es ≤ ledger_cap)
      → Keeps IsCapped (settle_ledger c v swap_id s o)
  unfolding settle_ledger
  settle_ledger-IsCapped s none h = search (Keeps-pure)
  settle_ledger-IsCapped s (some es) h =
      Keeps-bind _ (settle_write c v swap_id (settle_entries swap_id v.now v.accessor es))
        (on_world-IsCapped _)
        λ r.
          settle_write-IsCapped (settle_entries swap_id v.now v.accessor es) r
            (omega (arith, h es refl, length-settle_entries-le swap_id v.now v.accessor es))

  settle-IsCapped :
      (o : FenceOutcome) (w : World) → Outcome o w → Keeps IsCapped (settle c v swap_id o)
  unfolding settle
  settle-IsCapped fence_unresolved w h = search (Keeps-bind, Keeps-pure, on_world-IsCapped) depth 8
  settle-IsCapped (fence_landed s) w h = search (Keeps-pure)
  settle-IsCapped (fence_not_landed s) w h =
      Keeps-if (not (trim_space (text_at s.data_of "token") == v.token)) (pure true) _
        (Keeps-pure true) (settle_ledger-IsCapped s (read_ledger c s) h)

  pub resolve_swap-IsCapped : Keeps IsCapped (resolve_swap c v swap_id)
  unfolding resolve_swap fence ◌>>=◌ on_world
  resolve_swap-IsCapped = record {
    at = λ p h.
        (settle-IsCapped (fence_attempts c v swap_id 3 p.world).0
            (fence_attempts c v swap_id 3 p.world).1 ((fence_attempts-Outcome 3).at p.world tt)).at
          _ h;
  }

module _ (c : Setup) (serves : ServesCapped c) (v : View) where
  resolve_all-IsCapped : (ids : List String) → Keeps IsCapped (resolve_all c v ids)
  unfolding resolve_all
  resolve_all-IsCapped [] = search (Keeps-pure)
  resolve_all-IsCapped (s ∷ rest) =
      Keeps-bind (resolve_swap c v s) _ (resolve_swap-IsCapped c serves v s)
        λ stop. Keeps-if stop _ (resolve_all c v rest) (Keeps-pure true) (resolve_all-IsCapped rest)

  pub resolve_unresolved-IsCapped : Keeps IsCapped (resolve_unresolved c v)
  unfolding resolve_unresolved
  resolve_unresolved-IsCapped = record {
    at = λ p h. (resolve_all-IsCapped (unresolved_swaps p.ledger)).at p h;
  }
