-- ===== src/Base/Gives.antt =====
-- What an action that may fail leaves and returns: `P` of the state, and `R` of a value that it returns.
use mathlib.Core.Path.{◌≡◌, refl}
use mathlib.Core.Bool.{Bool, true, false}
use vault_transit_unseal_ope.Base.Exec
use vault_transit_unseal_ope.Base.Exec.{Exec, Keeps}
use vault_transit_unseal_ope.Base.Tests.{if◌then◌else◌}
use vault_transit_unseal_ope.Base.Try.{
  Result, Try, attempt, continue, err, lift, ok, return, throw, ◌>>=◌,
}

abbrev pub Holds : {E A : Type 0} → (A → Type 0) → Result E A → Type 0
Holds R (ok a) = R a
Holds R (err e) = Unit {0}

pub record Gives {S E A : Type 0} (P : S → Type 0) (m : Try S E A) (R : A → Type 0) : Type 0 where
  pub at : (s : S) → P s → P (m s).1 × Holds R (m s).0

abbrev pub Any : {A : Type 0} → A → Type 0
Any a = Unit {0}

pub weaken : {E A : Type 0} (r : Result E A) → Holds Any r
weaken (ok a) = tt
weaken (err e) = tt

module _ {S E A : Type 0} {P : S → Type 0} {R : A → Type 0} where
  pub Gives-return : (result : A) → R result → Gives P (return {S = S} {E = E} result) R
  unfolding return Exec.pure
  Gives-return result r = record { at = λ start held. (held, r) }

  pub Gives-throw : (error : E) → Gives P (throw {S = S} {E = E} {A = A} error) R
  unfolding throw Exec.pure
  Gives-throw error = record { at = λ start held. (held, tt) }

  pub Gives-if :
      (test : Bool) (chosen otherwise : Try S E A)
      → (test ≡ true → Gives P chosen R)
      → (test ≡ false → Gives P otherwise R)
      → Gives P (if test then chosen else otherwise) R
  Gives-if true chosen otherwise c o = c refl
  Gives-if false chosen otherwise c o = o refl

module _ {S E A : Type 0} {P : S → Type 0} where
  pub Gives-Any : (m : Try S E A) → Keeps P m → Gives P m Any
  Gives-Any m k = record { at = λ start held. (k.at start held, weaken (m start).0) }

  pub Gives-lift : (m : Exec S A) → Keeps P m → Gives P (lift {S = S} {E = E} m) Any
  unfolding lift
  Gives-lift m k = record { at = λ start held. (k.at start held, tt) }

  pub Keeps-attempt_of : (m : Try S E A) (R : A → Type 0) → Gives P m R → Keeps P (attempt m)
  unfolding attempt
  Keeps-attempt_of m R g = record { at = λ start held. (g.at start held).0 }

  pub Keeps-of : (m : Try S E A) (R : A → Type 0) → Gives P m R → Keeps P m
  Keeps-of m R g = record { at = λ start held. (g.at start held).0 }

module _ {S E A B : Type 0} {P : S → Type 0} {R : A → Type 0} {Q : B → Type 0} where
  after_result :
      (f : A → Try S E B) (r : Result E A) (s : S)
      → P s
      → Holds R r
      → ((a : A) → R a → Gives P (f a) Q)
      → P (continue f r s).1 × Holds Q (continue f r s).0
  unfolding continue Exec.pure
  after_result f (ok a) s h r k = (k a r).at s h
  after_result f (err e) s h r k = (h, tt)

  pub Gives-bind :
      (first : Try S E A) (next : A → Try S E B)
      → Gives P first R
      → ((result : A) → R result → Gives P (next result) Q)
      → Gives P (first >>= next) Q
  unfolding ◌>>=◌
  Gives-bind first next g k = record {
    at = λ start held.
        let after = g.at start held in
        after_result next (first start).0 (first start).1 after.0 after.1 k;
  }
