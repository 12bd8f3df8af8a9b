-- ===== src/Reconciler/Conditions/Laws.antt =====
-- What the operations on conditions promise.
use vault_transit_unseal_ope.Base.{
  List, String, [], arith, eq_iff, false, if_cases, if◌then◌else◌, none, refl, some, true, ◌==◌,
  ◌∷◌, ◌≡◌, ◌≢◌,
}
use vault_transit_unseal_ope.Reconciler.Conditions.{
  Wanted, fresh, get_condition, is_changed, remove_condition, set_condition,
}
use vault_transit_unseal_ope.Spec.{Condition}

same : (s : String) → (s == s) ≡ true
same s = (eq_iff s s).1 refl

-- The condition of that type has the wanted values.
pub record Has (type : String) (w : Wanted) (cs : List Condition) : Type 0 where
  pub condition : Condition
  pub is_found : get_condition type cs ≡ some condition
  pub status : condition.status ≡ w.status
  pub reason : condition.reason ≡ w.reason
  pub message : condition.message ≡ w.message

pub set_condition-Has :
    (type : String) (w : Wanted) (now : String) (cs : List Condition)
    → Has type w (set_condition type w now cs)
unfolding set_condition get_condition
set_condition-Has type w now [] = record {
  condition = fresh type w now;
  is_found = rw (same type) refl;
  status = refl;
  reason = refl;
  message = refl;
}
set_condition-Has type w now (c ∷ cs) =
    let changed : Condition = record (fresh type w now) { type = c.type } in
    if_cases (Has type w) (c.type == type) _ (c ∷ set_condition type w now cs)
      (λ t.
        if_cases (Has type w) (is_changed w c) (changed ∷ cs) (c ∷ cs)
          (λ u. record {
            condition = changed;
            is_found = rw t refl;
            status = refl;
            reason = refl;
            message = refl;
          })
          λ u. record {
            condition = c;
            is_found = rw t refl;
            status = ground (arith, eq_iff c.status w.status);
            reason = ground (arith, eq_iff c.reason w.reason);
            message = ground (arith, eq_iff c.message w.message);
          })
      λ t.
        let r = set_condition-Has type w now cs in
        record {
          condition = r.condition;
          is_found = rw t r.is_found;
          status = r.status;
          reason = r.reason;
          message = r.message;
        }

set_condition-others :
    (type looked : String) (w : Wanted) (now : String) (cs : List Condition)
    → (type == looked) ≡ false
    → get_condition looked (set_condition type w now cs) ≡ get_condition looked cs
unfolding set_condition get_condition
set_condition-others type looked w now [] ne = rw ne refl
set_condition-others type looked w now (c ∷ cs) ne = ground (
  arith,
  set_condition-others type looked w now cs ne,
  eq_iff c.type type,
  eq_iff c.type looked,
  eq_iff type looked,
)

set_condition-again :
    (type : String) (w : Wanted) (now later : String) (cs : List Condition)
    → set_condition type w later (set_condition type w now cs) ≡ set_condition type w now cs
unfolding set_condition
set_condition-again type w now later [] =
    ground (arith, same type, same w.status, same w.reason, same w.message)
set_condition-again type w now later (c ∷ cs) =
    ground
      (arith, same w.status, same w.reason, same w.message, set_condition-again type w now later cs)

-- After `SetCondition` the condition of that type has the given status, reason and message, and the
-- other types have the conditions that they had. To set the same values again at a later time
-- changes nothing, so the transition time stays that of the change.
pub set_condition-laws :
    (type : String) (w : Wanted) (now later : String) (cs : List Condition)
    → Has type w (set_condition type w now cs)
      × ((looked : String)
          → type ≢ looked
          → get_condition looked (set_condition type w now cs) ≡ get_condition looked cs)
      × (set_condition type w later (set_condition type w now cs) ≡ set_condition type w now cs)
set_condition-laws type w now later cs = (
  set_condition-Has type w now cs,
  (λ looked ne. set_condition-others type looked w now cs (ground (arith, eq_iff type looked))),
  set_condition-again type w now later cs,
)

-- `RemoveCondition` leaves no condition of that type, and the other types theirs.
pub remove_condition-laws :
    (type looked : String) (cs : List Condition)
    → get_condition looked (remove_condition type cs)
      ≡ (if type == looked then none else get_condition looked cs)
unfolding remove_condition get_condition
remove_condition-laws type looked [] = ground arith
remove_condition-laws type looked (c ∷ cs) = ground (
  arith,
  remove_condition-laws type looked cs,
  eq_iff c.type type,
  eq_iff c.type looked,
  eq_iff type looked,
)
