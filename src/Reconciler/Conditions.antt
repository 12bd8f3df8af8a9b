-- ===== src/Reconciler/Conditions.antt =====
-- pkg/reconciler/conditions.go: `ConditionManager`, over the list of conditions.
pub mod Laws
use vault_transit_unseal_ope.Base.{
  Bool, List, Option, String, [], false, if◌then◌else◌, none, not, some, ◌==◌, ◌||◌, ◌∷◌,
}
use vault_transit_unseal_ope.Spec.{Condition}

-- The values that the caller gives a condition
pub record Wanted : Type 0 where
  pub status : String
  pub reason : String
  pub message : String

abbrev pub is_changed : Wanted → Condition → Bool
is_changed w c =
    not (c.status == w.status) || not (c.reason == w.reason) || not (c.message == w.message)

abbrev pub fresh : String → Wanted → String → Condition
fresh type w now = record {
  type = type;
  status = w.status;
  reason = w.reason;
  message = w.message;
  last_transition_time = now;
}

-- `SetCondition`, at the time `now`
unfoldable pub set_condition : String → Wanted → String → List Condition → List Condition
set_condition type w now [] = fresh type w now ∷ []
set_condition type w now (c ∷ cs) =
    let rest = set_condition type w now cs in
    if c.type == type
    then (if is_changed w c then record (fresh type w now) { type = c.type } ∷ cs else c ∷ cs)
    else c ∷ rest

-- `GetCondition`
unfoldable pub get_condition : String → List Condition → Option Condition
get_condition type [] = none
get_condition type (c ∷ cs) = if c.type == type then some c else get_condition type cs

-- `IsConditionTrue`
unfoldable pub is_condition_true : String → List Condition → Bool
unfolding get_condition
is_condition_true type cs = elim (get_condition type cs) [
  | none ↦ false
  | some c ↦ c.status == "True"
]

-- `RemoveCondition`
unfoldable pub remove_condition : String → List Condition → List Condition
remove_condition type [] = []
remove_condition type (c ∷ cs) =
    let rest = remove_condition type cs in if not (c.type == type) then c ∷ rest else rest
