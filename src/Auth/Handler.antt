-- ===== src/Auth/Handler.antt =====
-- internal/auth/handler.go: the two public handlers. The JSON decoding of a body is an argument.
use order_service_go_archite.Prelude.{Option, ℕ, Text, Result, ok, err}
use order_service_go_archite.Errors.{AppError}
use order_service_go_archite.Order.Model.{Time}
use order_service_go_archite.Auth
use order_service_go_archite.Auth.{
  User, UserRepository, LoginRequest, RegisterRequest, TokenResponse, UserResponse, Passwords,
}
use order_service_go_archite.Http.{Request, Reply, refuse, reply, decode_json}

module _ {S : Type 0} (repo : UserRepository S) (passwords : Passwords) where
  unfoldable pub login_decoded :
      (User → Text × ℕ) → Result AppError LoginRequest → S → Reply TokenResponse × S
  login_decoded issue (err e) s = (refuse e, s)
  login_decoded issue (ok req) s =
      let (out, s1) = Auth.login repo passwords issue req s in (reply 200 out, s1)

  -- `Login`.
  unfoldable pub login :
      (Text → Option LoginRequest) → (User → Text × ℕ) → Request → S → Reply TokenResponse × S
  unfolding login_decoded decode_json
  login read_login issue r s = login_decoded issue (decode_json read_login r) s

  unfoldable pub register_decoded :
      Text → Time → Result AppError RegisterRequest → S → Reply UserResponse × S
  register_decoded id now (err e) s = (refuse e, s)
  register_decoded id now (ok req) s =
      let (out, s1) = Auth.register repo passwords id now req s in (reply 201 out, s1)

  -- `Register`, with the identifier and the time that it takes.
  unfoldable pub register :
      (Text → Option RegisterRequest) → Text → Time → Request → S → Reply UserResponse × S
  unfolding register_decoded decode_json
  register read_register id now r s = register_decoded id now (decode_json read_register r) s
