-- ===== src/Middleware.antt =====
-- internal/middleware: authentication by bearer token, and authorization by the role matrix.
pub mod Guards
use order_service_go_archite.Prelude.{
  ℕ, ◌+◌, ◌<◌, ◌==◌, if◌then◌else◌, Bool, true, false, not, ◌||◌, ltb, leb, Option, none, some,
  List, [], ◌∷◌, map, take, drop, Text, text, text_eq, trim_space, to_lower, byte_len, is_blank,
  Result, ok, err,
}
use order_service_go_archite.Errors.{GoError, app, ErrorResponse, write, unauthorized, forbidden}
use order_service_go_archite.Auth.{Role, admin, operator}
use order_service_go_archite.Auth.Token.{Claims, Refusal}

pub data Act : Type 0 where
  create_users list_users create_customers update_customers create_products update_products : Act
  create_orders cancel_orders ship_orders view_metrics : Act

-- `matrix`: the answers for ADMIN and for OPERATOR.
unfoldable pub matrix : Act → Bool × Bool
matrix create_users = (true, false)
matrix list_users = (true, false)
matrix create_customers = (true, true)
matrix update_customers = (true, true)
matrix create_products = (true, true)
matrix update_products = (true, true)
matrix create_orders = (true, true)
matrix cancel_orders = (true, true)
matrix ship_orders = (true, true)
matrix view_metrics = (true, false)

-- `Can`.
unfoldable pub can : Role → Act → Bool
unfolding matrix
can admin a = (matrix a).0
can operator a = (matrix a).1

-- The header of a request that the middleware reads, and what it keeps in the context.
pub record Request : Type 0 where
  pub authorization : Text
  pub user_id : Option Text
  pub role : Option Role

-- A request is answered here, or goes on to the next handler.
pub data Outcome : Type 0 where
  answered : ErrorResponse → Outcome
  goes_on : Request → Outcome

abbrev pub bearer : Text
bearer = text "Bearer "

-- `strings.EqualFold`, for the letters of ASCII: no letter outside folds to one of the prefix.
abbrev equal_fold : Text → Text → Bool
equal_fold s t = text_eq (map to_lower s) (map to_lower t)

-- `bearerToken`. The first seven bytes of the header fold to the prefix only when they are seven
-- characters.
unfoldable pub bearer_token : Text → Option Text
bearer_token header =
    if leb (byte_len header) 7 || not (equal_fold (take 7 header) bearer)
    then none
    else (let token = trim_space (drop 7 header) in if is_blank token then none else some token)

unfoldable pub admit : Request → Result Refusal Claims → Outcome
unfolding write
admit r (err _) = answered (write (app (unauthorized (text "Invalid or expired token"))))
admit r (ok claims) = goes_on (record r { user_id = some claims.user_id; role = some claims.role })

-- `Authenticator`.
unfoldable pub authenticator : (Text → Result Refusal Claims) → Request → Outcome
unfolding admit
authenticator verify r = elim (bearer_token r.authorization) [
  | none ↦ answered (write (app (unauthorized (text "Authentication required"))))
  | some token ↦ admit r (verify token)
]

abbrev pub no_permission : ErrorResponse
no_permission = write (app (forbidden (text "You do not have permission to perform this action")))

-- The test of the role that `RequireAction` and `RequireAnyRole` share.
unfoldable pub require : (Role → Bool) → Request → Outcome
require allowed r = elim r.role [
  | none ↦ answered (write (app (unauthorized (text "Authentication required"))))
  | some role ↦ if not (allowed role) then answered no_permission else goes_on r
]

abbrev pub role_eq : Role → Role → Bool
role_eq admin admin = true
role_eq operator operator = true
role_eq admin operator = false
role_eq operator admin = false

abbrev pub is_one_of : List Role → Role → Bool
is_one_of [] r = false
is_one_of (q ∷ qs) r = role_eq q r || is_one_of qs r

unfoldable pub require_any_role : List Role → Request → Outcome
unfolding require
require_any_role roles r = require (is_one_of roles) r

unfoldable pub require_action : Act → Request → Outcome
unfolding require
require_action a r = require (λ role. can role a) r

-- One middleware after the other.
unfoldable pub and_then : (Request → Outcome) → Outcome → Outcome
and_then next (answered e) = answered e
and_then next (goes_on r) = next r
