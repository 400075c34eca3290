-- ===== src/Errors.antt =====
-- internal/errors: the application's error type, its constructors and the writer of error responses.
mod Codes
pub mod Responses
pub use Codes.{Code}
unfoldable pub use Codes.{code_text}
use order_service_go_archite.Prelude.{ℕ, Text, text, Option, none, some, ◌++◌}

-- The cause is kept as its text.
pub record AppError : Type 0 where
  pub code : Code
  pub message : Text
  pub http_status : ℕ
  pub cause : Option Text

abbrev pub new : Code → Text → ℕ → Option Text → AppError
new c m s e = record { code = c; message = m; http_status = s; cause = e }

-- `AppError.Error`.
unfoldable pub error_text : AppError → Text
unfolding code_text
error_text e = elim e.cause [
  | none ↦ code_text e.code ++ (text ": " ++ e.message)
  | some c ↦ code_text e.code ++ (text ": " ++ (e.message ++ (text ": " ++ c)))
]

abbrev pub validation : Text → AppError
validation m = new Code.validation m 400 none

abbrev pub unauthorized : Text → AppError
unauthorized m = new Code.unauthorized m 401 none

abbrev pub forbidden : Text → AppError
forbidden m = new Code.forbidden m 403 none

abbrev pub not_found : Text → AppError
not_found m = new Code.not_found m 404 none

abbrev pub duplicate : Text → AppError
duplicate m = new Code.duplicate m 409 none

abbrev pub invalid_order_status : Text → AppError
invalid_order_status m = new Code.invalid_order_status m 400 none

abbrev pub inactive_customer : Text → AppError
inactive_customer m = new Code.inactive_customer m 400 none

abbrev pub inactive_product : Text → AppError
inactive_product m = new Code.inactive_product m 400 none

abbrev pub internal : Text → Text → AppError
internal m cause = new Code.internal m 500 (some cause)

-- An `error` as `Write` sees it: an `AppError`, an error that wraps another, or any other error.
pub data GoError : Type 0 where
  app : AppError → GoError
  wrap : Text → GoError → GoError
  plain : Text → GoError

-- `errors.As` into an `*AppError`.
unfoldable pub as_app : GoError → Option AppError
as_app (app e) = some e
as_app (wrap _ e) = as_app e
as_app (plain _) = none

abbrev pub describe : GoError → Text
describe (app e) = e.message
describe (wrap m _) = m
describe (plain m) = m

-- What the writer sends: the status and the two fields of the body.
pub record ErrorResponse : Type 0 where
  pub status : ℕ
  pub code : Text
  pub message : Text

unfoldable pub render : AppError → ErrorResponse
unfolding code_text
render e = record { status = e.http_status; code = code_text e.code; message = e.message }

unfoldable pub write : GoError → ErrorResponse
unfolding as_app render
write err = elim (as_app err) [
  | some e ↦ render e
  | none ↦ render (internal (text "Internal server error") (describe err))
]
