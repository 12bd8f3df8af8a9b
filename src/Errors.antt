-- ===== src/Errors.antt =====
-- pkg/errors/errors.go: errors by how they are to be handled. An error is the chain that `errors.As`
-- walks; the context of an `OperatorError`, which only log lines read, is left out.
pub mod Chain
use vault_transit_unseal_ope.Base.{Bool, Option, String, false, none, some, true}
use Prim.Native.String.{◌++◌}

pub data ErrorType : Type 0 where
  transient permanent config : ErrorType

pub data Error : Type 0 where
  -- an error that wraps no other
  plain : String → Error
  -- `fmt.Errorf("text: %w", err)`
  wrapped : String → Error → Error
  -- an `*OperatorError` with and without an `Err`
  operator_error : ErrorType → String → Error → Error
  operator_alone : ErrorType → String → Error

-- `Error()`
unfoldable pub error : Error → String
error (plain m) = m
error (wrapped m e) = m ++ ": " ++ error e
error (operator_error t m e) = m ++ ": " ++ error e
error (operator_alone t m) = m

-- `errors.As(err, &opErr)`: the type of the first `*OperatorError` of the chain
unfoldable pub as_operator : Error → Option ErrorType
as_operator (plain m) = none
as_operator (wrapped m e) = as_operator e
as_operator (operator_error t m e) = some t
as_operator (operator_alone t m) = some t

unfoldable pub is_operator_error : Error → Bool
unfolding as_operator
is_operator_error e = elim (as_operator e) [ none ↦ false | some t ↦ true ]

unfoldable pub get_error_type : Error → ErrorType
unfolding as_operator
get_error_type e = elim (as_operator e) [ none ↦ transient | some t ↦ t ]

-- The method `ShouldRetry` of an `OperatorError`
abbrev pub type_retries : ErrorType → Bool
type_retries transient = true
type_retries _ = false

unfoldable pub should_retry : Error → Bool
unfolding as_operator
should_retry e = elim (as_operator e) [ none ↦ true | some t ↦ type_retries t ]
