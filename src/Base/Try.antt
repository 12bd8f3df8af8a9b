-- ===== src/Base/Try.antt =====
-- Methods that return a value or an error, `(A, error)`, on a state: the chain ends at the first
-- error, as `if err != nil { return err }` does.
use vault_transit_unseal_ope.Base.{refl, ◌≡◌}
use mathlib.Core.Bool.{Bool, true, false}
use mathlib.Core.Option.{Option, none, some}
use vault_transit_unseal_ope.Base.Exec.{Exec, Keeps}
use vault_transit_unseal_ope.Base.Exec

pub data Result (E A : Type 0) : Type 0 where
  ok : A → Result E A
  err : E → Result E A

abbrev pub Try : Type 0 → Type 0 → Type 0 → Type 0
Try S E A = Exec S (Result E A)

module _ {S E A : Type 0} where
  unfoldable pub return : A → Try S E A
  unfolding Exec.pure
  return a = Exec.pure (ok a)

  unfoldable pub throw : E → Try S E A
  unfolding Exec.pure
  throw e = Exec.pure (err e)

  -- An action without an error
  unfoldable pub lift : Exec S A → Try S E A
  lift m s = (ok (m s).0, (m s).1)

  -- Whether the action succeeded, where the error is only logged
  unfoldable pub attempt : Try S E A → Exec S Bool
  attempt m s = (elim (m s).0 [ ok a ↦ true | err e ↦ false ], (m s).1)

module _ {S E A B : Type 0} where
  unfoldable pub continue : (A → Try S E B) → Result E A → Try S E B
  unfolding Exec.pure
  continue f (ok a) = f a
  continue f (err e) = Exec.pure (err e)

  infixl 10 ◌>>=◌ ◌>>◌
  unfoldable pub ◌>>=◌ : Try S E A → (A → Try S E B) → Try S E B
  unfolding continue
  ◌>>=◌ m f s = continue f (m s).0 (m s).1

  abbrev pub ◌>>◌ : Try S E A → Try S E B → Try S E B
  m >> n = m >>= λ _. n

abbrev pub wrapped : {E F A : Type 0} → (F → E) → Result F A → Result E A
wrapped f (ok a) = ok a
wrapped f (err e) = err (f e)

abbrev pub found : {E A : Type 0} → E → Option A → Result E A
found e (some a) = ok a
found e none = err e

abbrev pub unfailed : {E F : Type 0} → (F → E) → Option F → Result E (Unit {0})
unfailed f none = ok tt
unfailed f (some e) = err (f e)

module _ {S E F A : Type 0} where
  -- `fmt.Errorf("…: %w", err)`
  unfoldable pub or_fail : (F → E) → Exec S (Result F A) → Try S E A
  or_fail f m s = (wrapped f (m s).0, (m s).1)

module _ {S E A : Type 0} where
  -- An answer that may be missing
  unfoldable pub or_missing : E → Exec S (Option A) → Try S E A
  or_missing e m s = (found e (m s).0, (m s).1)

module _ {S E F : Type 0} where
  -- A call that returns only an error
  unfoldable pub or_error : (F → E) → Exec S (Option F) → Try S E (Unit {0})
  or_error f m s = (unfailed f (m s).0, (m s).1)

module _ {S E A : Type 0} {P : S → Type 0} where
  pub Keeps-return : (result : A) → Keeps P (return {S = S} {E = E} result)
  unfolding return Exec.pure
  Keeps-return result = record { at = λ start held. held }

  pub Keeps-throw : (error : E) → Keeps P (throw {S = S} {E = E} {A = A} error)
  unfolding throw Exec.pure
  Keeps-throw error = record { at = λ start held. held }

  pub Keeps-lift : (m : Exec S A) → Keeps P m → Keeps P (lift {S = S} {E = E} m)
  unfolding lift
  Keeps-lift m k = record { at = λ start held. k.at start held }

  pub Keeps-attempt : (m : Try S E A) → Keeps P m → Keeps P (attempt m)
  unfolding attempt
  Keeps-attempt m k = record { at = λ start held. k.at start held }

  pub Keeps-or_missing :
      (error : E) (m : Exec S (Option A)) → Keeps P m → Keeps P (or_missing error m)
  unfolding or_missing
  Keeps-or_missing error m k = record { at = λ start held. k.at start held }

module _ {S E F A : Type 0} {P : S → Type 0} where
  pub Keeps-or_fail : (f : F → E) (m : Exec S (Result F A)) → Keeps P m → Keeps P (or_fail f m)
  unfolding or_fail
  Keeps-or_fail f m k = record { at = λ start held. k.at start held }

module _ {S E F : Type 0} {P : S → Type 0} where
  pub Keeps-or_error : (f : F → E) (m : Exec S (Option F)) → Keeps P m → Keeps P (or_error f m)
  unfolding or_error
  Keeps-or_error f m k = record { at = λ start held. k.at start held }

module _ {S E A B : Type 0} {P : S → Type 0} where
  after_result :
      (f : A → Try S E B) (r : Result E A) (s : S)
      → P s
      → ((a : A) → Keeps P (f a))
      → P (continue f r s).1
  unfolding continue Exec.pure
  after_result f (ok a) s h k = (k a).at s h
  after_result f (err e) s h k = h

  pub Keeps-try :
      (first : Try S E A) (next : A → Try S E B)
      → Keeps P first
      → ((result : A) → Keeps P (next result))
      → Keeps P (first >>= next)
  unfolding ◌>>=◌
  Keeps-try first next on_first on_next = record {
    at = λ start held.
        after_result next (first start).0 (first start).1 (on_first.at start held) on_next;
  }

pub ruleset try_rules = (
  Keeps-return, Keeps-throw, Keeps-lift, Keeps-attempt, Keeps-or_missing, Keeps-or_fail,
  Keeps-or_error, Keeps-try,
)

module _ {S E A B : Type 0} where
  continue_ok :
      (f : A → Try S E B) (r : Result E A) (s : S) {b : B}
      → (continue f r s).0 ≡ ok b
      → (a : A) × (r ≡ ok a) × (continue f r s ≡ f a s)
  unfolding continue Exec.pure
  continue_ok f (ok a) s h = (a, refl, refl)
  continue_ok f (err e) s h = cc

  -- A chain that succeeds: its first action did, and it is the rest from there.
  pub bind_ok :
      (m : Try S E A) (f : A → Try S E B) (s : S) {b : B}
      → ((m >>= f) s).0 ≡ ok b
      → (a : A) × ((m s).0 ≡ ok a) × ((m >>= f) s ≡ f a (m s).1)
  unfolding ◌>>=◌
  bind_ok m f s h = continue_ok f (m s).0 (m s).1 h

  -- A chain whose first action succeeds is the rest from there.
  pub bind_on_ok :
      (m : Try S E A) (f : A → Try S E B) (s : S) (a : A)
      → (m s).0 ≡ ok a
      → (m >>= f) s ≡ f a (m s).1
  unfolding ◌>>=◌ continue
  bind_on_ok m f s a h = rw h refl

pub wrapped_ok :
    {E F A : Type 0} (f : F → E) (r : Result F A) {a : A} → wrapped f r ≡ ok a → r ≡ ok a
wrapped_ok f (ok a) h = cc
wrapped_ok f (err e) h = cc
