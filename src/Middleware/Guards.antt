-- ===== src/Middleware/Guards.antt =====
-- internal/middleware: which requests reach a guarded handler.
use order_service_go_archite.Prelude.{
  ◌≡◌, refl, sym, ◌↔◌, ◌⊎◌, inl, inr, Bool, true, false, Bool-cases, Option-cases, Result-cases,
  some, Text, Result, ok, arith,
}
use order_service_go_archite.Auth.{Role, admin, operator}
use order_service_go_archite.Auth.Token.{Claims, Refusal}
use order_service_go_archite.Middleware.{
  Act, create_users, list_users, view_metrics, create_customers, update_customers, create_products,
  update_products, create_orders, cancel_orders, ship_orders, matrix, can, Request, Outcome,
  answered, goes_on, bearer_token, admit, authenticator, require, require_action, and_then,
}
use order_service_go_archite.Errors.{write, render, as_app}

-- A guarded route answers 401 or 403, or goes on for a token that is verified and whose role is allowed.
abbrev pub Guarded : (Text → Result Refusal Claims) → (Role → Bool) → Request → Outcome → Type 0
Guarded verify allowed r (goes_on r') =
    (token : Text) × (c : Claims) × (bearer_token r.authorization ≡ some token)
    × (verify token ≡ ok c)
    × (allowed c.role ≡ true)
    × (r' ≡ record r { user_id = some c.user_id; role = some c.role })
Guarded verify allowed r (answered e) =
    ((e.status ≡ 401)
      × ((token : Text) (c : Claims)
          → bearer_token r.authorization ≡ some token
          → verify token ≡ ok c
          → ⊥))
    ⊎ ((e.status ≡ 403)
        × ((token : Text) × (c : Claims) × (bearer_token r.authorization ≡ some token)
            × (verify token ≡ ok c)
            × (allowed c.role ≡ false)))

pub require-Guarded :
    (verify : Text → Result Refusal Claims) (allowed : Role → Bool) (r : Request)
    → Guarded verify allowed r (and_then (require allowed) (authenticator verify r))
unfolding authenticator and_then require write render as_app
require-Guarded verify allowed r = elim (Option-cases (bearer_token r.authorization)) [
  | inl no_token ↦ rw (no_token, authenticator) (inl (refl, λ token c e _. cc))
  | inr (token, has) ↦ elim (Result-cases (verify token)) [
    | inr (why, bad) ↦
        rw (has, authenticator, bad, admit)
          (inl (
            refl,
            λ token' c e good. absurd (
                let same : token ≡ token' = cc (has, e) in let good' = rw (sym same) at good in cc),
          ))
    | inl (c, good) ↦ elim (Bool-cases (allowed c.role)) [
      | inl may ↦ rw (has, authenticator, good, admit, may) (token, c, has, good, may, refl)
      | inr may_not ↦
          rw (has, authenticator, good, admit, may_not) (inr (refl, (token, c, has, good, may_not)))
    ]
  ]
]

-- A route behind the authenticator and the check of an action: a request goes on only with a bearer
-- token that verifies to a role that may perform the action, and then with the user and the role
-- of that token; it is answered with 401 exactly for want of such a token, and with 403 exactly
-- when the role may not.
pub authenticator-Guarded :
    (verify : Text → Result Refusal Claims) (a : Act) (r : Request)
    → Guarded verify (λ role. can role a) r (and_then (require_action a) (authenticator verify r))
unfolding require_action and_then
authenticator-Guarded verify a r = require-Guarded verify (λ role. can role a) r

-- The matrix refuses only operators, and those only the creation and listing of users and the
-- metrics.
pub can_iff :
    (role : Role) (a : Act)
    → (can role a ≡ false)
      ↔ ((role ≡ operator) × ((a ≡ create_users) ⊎ ((a ≡ list_users) ⊎ (a ≡ view_metrics))))
unfolding can matrix
can_iff admin create_users = ground arith
can_iff admin list_users = ground arith
can_iff admin create_customers = ground arith
can_iff admin update_customers = ground arith
can_iff admin create_products = ground arith
can_iff admin update_products = ground arith
can_iff admin create_orders = ground arith
can_iff admin cancel_orders = ground arith
can_iff admin ship_orders = ground arith
can_iff admin view_metrics = ground arith
can_iff operator create_users = ground arith
can_iff operator list_users = ground arith
can_iff operator create_customers = ground arith
can_iff operator update_customers = ground arith
can_iff operator create_products = ground arith
can_iff operator update_products = ground arith
can_iff operator create_orders = ground arith
can_iff operator cancel_orders = ground arith
can_iff operator ship_orders = ground arith
can_iff operator view_metrics = ground arith
