-- ===== src/Errors/Chain.antt =====
-- How wrapping and classifying an error agree.
use vault_transit_unseal_ope.Base.{false, true, ◌≡◌, ◌⊎◌, String}
use vault_transit_unseal_ope.Errors.{
  get_error_type, is_operator_error, plain, should_retry, transient, type_retries, Error, ErrorType,
  operator_alone, operator_error, wrapped,
}

-- The error carries that type: under any wrapping, up to the first `OperatorError`.
pub data Carries : Error → ErrorType → Type 0 where
  itself : {t : ErrorType} (m : String) (e : Error) → Carries (operator_error t m e) t
  itself_alone : {t : ErrorType} (m : String) → Carries (operator_alone t m) t
  under : {e : Error} {t : ErrorType} (m : String) → Carries e t → Carries (wrapped m e) t

-- No error of the chain is an `OperatorError`.
pub data IsForeign : Error → Type 0 where
  alone : (m : String) → IsForeign (plain m)
  beneath : {e : Error} (m : String) → IsForeign e → IsForeign (wrapped m e)

-- What the package says of an error with a type of its own, and of any other
abbrev pub Classified : Error → Type 0
Classified e =
    ((t : ErrorType) × Carries e t
      × (is_operator_error e ≡ true)
      × (get_error_type e ≡ t)
      × (should_retry e ≡ type_retries t))
    ⊎ (IsForeign e
        × (is_operator_error e ≡ false)
        × (get_error_type e ≡ transient)
        × (should_retry e ≡ true))
