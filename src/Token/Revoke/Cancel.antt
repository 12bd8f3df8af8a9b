-- ===== src/Token/Revoke/Cancel.antt =====
-- What a cancel-revoke request takes out of the ledger.
use mathlib.Core.Option
use vault_transit_unseal_ope.Base.{
  String, Bool, true, false, ◌&&◌, Option, none, some, List, [], ◌∷◌, ◌++◌, ◌≡◌, ◌⊎◌, inl, inr,
  refl, ap, if◌then◌else◌, ◌==◌, All, Option-cases,
}
use vault_transit_unseal_ope.Token.World.{LedgerEntry}
use vault_transit_unseal_ope.Token.Pass.{is_scheduled}
use vault_transit_unseal_ope.Token.Revoke.{drop_cancelled}

-- The entry is one that a request for that accessor takes out.
abbrev pub matches : String → LedgerEntry → Bool
matches cancel e = e.accessor == cancel && is_scheduled e.state

-- One entry is gone: it matched, and no entry before it did.
pub record IsFirstDropped (cancel : String) (es kept : List LedgerEntry) : Type 0 where
  pub before : List LedgerEntry
  pub dropped : LedgerEntry
  pub after : List LedgerEntry
  pub split : es ≡ before ++ (dropped ∷ after)
  pub rest : kept ≡ before ++ after
  pub is_match : matches cancel dropped ≡ true
  pub is_first : All (λ e. matches cancel e ≡ false) before

abbrev Outcome : String → List LedgerEntry → Option (List LedgerEntry) → Type 0
Outcome cancel es none = All (λ e. matches cancel e ≡ false) es
Outcome cancel es (some kept) = IsFirstDropped cancel es kept

step_Outcome :
    (cancel : String) (b : Bool) (e : LedgerEntry) (es : List LedgerEntry)
    (rest : Option (List LedgerEntry))
    → matches cancel e ≡ b
    → Outcome cancel es rest
    → Outcome cancel (e ∷ es) (if b then some es else Option.map (λ kept. e ∷ kept) rest)
step_Outcome cancel true e es rest m h = record {
  before = [];
  dropped = e;
  after = es;
  split = refl;
  rest = refl;
  is_match = m;
  is_first = tt;
}
step_Outcome cancel false e es none m h = (m, h)
step_Outcome cancel false e es (some kept) m h = record {
  before = e ∷ h.before;
  dropped = h.dropped;
  after = h.after;
  split = ap (λ l. e ∷ l) h.split;
  rest = ap (λ l. e ∷ l) h.rest;
  is_match = h.is_match;
  is_first = (m, h.is_first);
}

cancel-Outcome :
    (cancel : String) (es : List LedgerEntry) → Outcome cancel es (drop_cancelled cancel es)
unfolding drop_cancelled
cancel-Outcome cancel [] = tt
cancel-Outcome cancel (e ∷ es) =
    step_Outcome cancel (matches cancel e) e es (drop_cancelled cancel es) refl
      (cancel-Outcome cancel es)

-- A cancel-revoke request takes out exactly one entry, the first scheduled one of that accessor,
-- and keeps all others in their order; it takes out none exactly when no entry is such. An
-- unresolved entry is never taken out.
pub drop_cancelled-Outcome :
    (cancel : String) (es : List LedgerEntry)
    → ((drop_cancelled cancel es ≡ none) × All (λ e. matches cancel e ≡ false) es)
      ⊎ ((kept : List LedgerEntry) × (drop_cancelled cancel es ≡ some kept)
          × IsFirstDropped cancel es kept)
drop_cancelled-Outcome cancel es = elim (Option-cases (drop_cancelled cancel es)) [
  | inl e ↦ inl (e, rw e at (cancel-Outcome cancel es))
  | inr (kept, e) ↦ inr (kept, e, rw e at (cancel-Outcome cancel es))
]
