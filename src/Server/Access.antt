-- ===== src/Server/Access.antt =====
-- internal/server/router.go: what passes the middleware of a route.
use order_service_go_archite.Prelude.{
  ◌≡◌, refl, sym, ◌≢◌, Bool, true, false, some, [], ◌∷◌, Text, Result, inl, inr, ok, ◌⊎◌, subst,
}
use order_service_go_archite.Errors.{ErrorResponse}
use order_service_go_archite.Auth.{Role, admin, operator}
use order_service_go_archite.Auth.Token.{Claims, Refusal}
use order_service_go_archite.Middleware
use order_service_go_archite.Middleware.{
  Outcome, answered, goes_on, bearer_token, can, is_one_of, authenticator, and_then, require,
  require_action, require_any_role,
}
use order_service_go_archite.Middleware.Guards.{Guarded, require-Guarded}
use order_service_go_archite.Http.{Request}
use order_service_go_archite.Server.{
  Route, Group, public, users, any_role, group, guard, Draw, Services, Backend, Answer, turned_away,
  handle, after_guard, serve,
}

-- The roles that a group of routes is for.
abbrev pub allowed : Group → Role → Bool
allowed public role = true
allowed users role = can role Middleware.list_users
allowed any_role role = true

any_role_is_one : (role : Role) → is_one_of (admin ∷ operator ∷ []) role ≡ true
any_role_is_one admin = refl
any_role_is_one operator = refl

-- The request with the user and the role of the claims in its context.
abbrev pub on_behalf : Claims → Request → Request
on_behalf c r = record r {
  context = record (r.context) { user_id = some c.user_id; role = some c.role };
}

module _ {S : Type 0} (v : Services S) where
  -- The reasons to turn a request away.
  abbrev pub NoToken : Draw → Request → Type 0
  NoToken d r =
      (token : Text) (c : Claims)
      → bearer_token r.context.authorization ≡ some token
      → v.verify d.now token ≡ ok c
      → ⊥

  abbrev pub WrongRole : Group → Draw → Request → Type 0
  WrongRole g d r =
      (token : Text) × (c : Claims) × (bearer_token r.context.authorization ≡ some token)
      × (v.verify d.now token ≡ ok c)
      × (allowed g c.role ≡ false)

  abbrev pub Behind : Group → Route → Draw → Request → Backend S → Answer × Backend S → Type 0
  Behind public route d r b served = served ≡ handle v route d r b
  Behind g route d r b served =
      ((token : Text) × (c : Claims) × (bearer_token r.context.authorization ≡ some token)
        × (v.verify d.now token ≡ ok c)
        × (allowed g c.role ≡ true)
        × (served ≡ handle v route d (on_behalf c r) b))
      ⊎ ((e : ErrorResponse) × (served ≡ (turned_away e, b))
          × (((e.status ≡ 401) × NoToken d r) ⊎ ((e.status ≡ 403) × WrongRole g d r)))

  behind :
      (g : Group) (route : Route) (d : Draw) (r : Request) (b : Backend S) (o : Outcome)
      → g ≢ public
      → Guarded (v.verify d.now) (allowed g) r.context o
      → Behind g route d r b (after_guard v route d r o b)
  unfolding after_guard
  behind public route d r b o other h = absurd (other refl)
  behind users route d r b (answered e) other h = inr (e, refl, h)
  behind users route d r b (goes_on _) other (token, c, has, good, may, same) =
      inl (token, c, has, good, may, rw same refl)
  behind any_role route d r b (answered e) other h = inr (e, refl, h)
  behind any_role route d r b (goes_on _) other (token, c, has, good, may, same) =
      inl (token, c, has, good, may, rw same refl)

  guard-Guarded :
      (g : Group) (verify : Text → Result Refusal Claims) (r : Middleware.Request)
      → g ≢ public
      → Guarded verify (allowed g) r (guard verify g r)
  unfolding guard require_action require_any_role and_then
  guard-Guarded public verify r other = absurd (other refl)
  guard-Guarded users verify r other = require-Guarded verify (allowed users) r
  guard-Guarded any_role verify r other =
      subst
        (λ (f : Role → Bool).
          Guarded verify (allowed any_role) r (and_then (require f) (authenticator verify r)))
        (λ i. λ role. sym (any_role_is_one role) i) (require-Guarded verify (allowed any_role) r)

  -- Every route is served as its group says. A public route gets what its handler makes of the request. On
  -- any other, a request with a bearer token that verifies to an allowed role gets what the handler
  -- makes of it on behalf of that user; any other request changes nothing and is turned away, with
  -- 401 for want of such a token and with 403 when the role is not allowed.
  pub serve-Behind :
      (route : Route) (d : Draw) (r : Request) (b : Backend S)
      → Behind (group route) route d r b (serve v route d r b)
  unfolding serve
  serve-Behind route d r b = go (group route)
    where
      go :
          (g : Group)
          → Behind g route d r b (after_guard v route d r (guard (v.verify d.now) g r.context) b)
      go public = refl
      go users =
          behind users route d r b _ (λ e. cc)
            (guard-Guarded users (v.verify d.now) r.context (λ e. cc))
      go any_role =
          behind any_role route d r b _ (λ e. cc)
            (guard-Guarded any_role (v.verify d.now) r.context (λ e. cc))
