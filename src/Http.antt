-- ===== src/Http.antt =====
-- internal/order/handler.go, internal/customer/handler.go, internal/product/handler.go and
-- internal/auth/handler.go: what the four handlers share. The query, the path and the JSON body of a
-- request are read by libraries, which are arguments.
pub mod Dates
use order_service_go_archite.Prelude.{
  Bool, true, false, if◌then◌else◌, ◌||◌, ℕ, Option, none, some, List, [], ◌∷◌, ℤ, pos, Text, text,
  text_eq, parse_int, Result, ok, err,
}
use order_service_go_archite.Errors.{AppError, ErrorResponse, validation, app, write}
use order_service_go_archite.Middleware
use order_service_go_archite.Order.Model.{Uuid}

-- A request as a handler sees it: what the middleware has left in its context, `r.URL.Query().Get`,
-- the `id` of the path, and the body.
pub record Request : Type 0 where
  pub context : Middleware.Request
  pub query : Text → Text
  pub path_id : Text
  pub body : Text

-- What a handler writes: an error response, or a status with the value that is encoded as the body.
pub data Reply (A : Type 0) : Type 0 where
  refused : ErrorResponse → Reply A
  replied : ℕ → A → Reply A

abbrev pub refuse : {A : Type 0} → AppError → Reply A
refuse e = refused (write (app e))

-- The end of every handler: `apperrors.Write` for an error, `writeJSON` for a value.
abbrev pub reply : {A : Type 0} → ℕ → Result AppError A → Reply A
reply status (err e) = refuse e
reply status (ok a) = replied status a

infixl 5 ◌>>=◌
abbrev pub ◌>>=◌ : {A B : Type 0} → Result AppError A → (A → Result AppError B) → Result AppError B
err e >>= k = err e
ok a >>= k = k a

-- An optional parameter: the empty text is none.
unfoldable pub read_param :
    {A : Type 0} → (Text → Option A) → Text → Text → Result AppError (Option A)
read_param parse message [] = ok none
read_param parse message (c ∷ s) = elim (parse (c ∷ s)) [
  | none ↦ err (validation message)
  | some a ↦ ok (some a)
]

-- `parseIntParam`: the empty text is 0.
unfoldable pub parse_int_param : Text → Option ℤ
parse_int_param [] = some (pos 0)
parse_int_param (c ∷ s) = parse_int (c ∷ s)

unfoldable pub read_int : Text → Text → Result AppError ℤ
read_int message raw = elim (parse_int_param raw) [
  | none ↦ err (validation message)
  | some n ↦ ok n
]

abbrev pub is_one_of : List Text → Text → Bool
is_one_of [] s = false
is_one_of (t ∷ ts) s = text_eq s t || is_one_of ts s

-- `strconv.ParseBool`.
unfoldable pub parse_bool : Text → Option Bool
parse_bool s =
    if is_one_of (text "1" ∷ text "t" ∷ text "T" ∷ text "TRUE" ∷ text "true" ∷ text "True" ∷ []) s
    then some true
    else (if is_one_of
          (text "0" ∷ text "f" ∷ text "F" ∷ text "FALSE" ∷ text "false" ∷ text "False" ∷ []) s
        then some false
        else none)

-- `pathID`: the message names what the identifier is of.
unfoldable pub path_id : (Text → Option Uuid) → Text → Request → Result AppError Uuid
path_id parse_uuid message r = elim (parse_uuid r.path_id) [
  | none ↦ err (validation message)
  | some id ↦ ok id
]

-- `decodeJSON`.
unfoldable pub decode_json : {A : Type 0} → (Text → Option A) → Request → Result AppError A
decode_json read r = elim (read r.body) [
  | none ↦ err (validation (text "invalid request body"))
  | some a ↦ ok a
]
