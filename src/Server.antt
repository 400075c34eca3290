-- ===== src/Server.antt =====
-- internal/server/router.go and health.go: the routes, the middleware before each, and the handler behind it.
-- Which route a method and a path match is the router library's answer, so a request comes with its
-- route.
pub mod Access
pub mod Signup
pub mod Lookups
pub mod Prices
pub mod Growth
pub mod Orders
use order_service_go_archite.Prelude.{ℕ, Option, List, [], ◌∷◌, Text, text, Result}
use order_service_go_archite.Errors.{ErrorResponse}
use order_service_go_archite.Pagination.{Page}
use order_service_go_archite.Auth.{
  admin, operator, User, Users, LoginRequest, RegisterRequest, TokenResponse, UserResponse,
  in_memory, Passwords,
}
use order_service_go_archite.Auth.Handler as AuthHandler
use order_service_go_archite.Auth.Token.{Claims, Refusal}
use order_service_go_archite.Middleware
use order_service_go_archite.Middleware.{
  Outcome, answered, goes_on, authenticator, and_then, require_action, require_any_role,
}
use order_service_go_archite.Customer.{CustomerInput, CustomerOutput, CustomerRepository}
use order_service_go_archite.Customer.Handler as CustomerHandler
use order_service_go_archite.Product.{ProductInput, ProductOutput, ProductRepository}
use order_service_go_archite.Product.Handler as ProductHandler
use order_service_go_archite.Order.Model.{Uuid, Time, CreateOrderInput, OrderOutput}
use order_service_go_archite.Order.Ports.{Ports, World, MetricsCall}
use order_service_go_archite.Order.Handler as OrderHandler
use order_service_go_archite.Http.{Request, Reply, refused, replied}

pub data Route : Type 0 where
  health metrics login register list_users : Route
  list_customers create_customer get_customer update_customer deactivate_customer : Route
  list_products create_product get_product update_product deactivate_product : Route
  create_order list_orders get_order cancel_order ship_order : Route

-- The method and the pattern that the routes are mounted under.
unfoldable pub pattern : Route → Text × Text
pattern health = (text "GET", text "/health")
pattern metrics = (text "*", text "/metrics")
pattern login = (text "POST", text "/api/auth/login")
pattern register = (text "POST", text "/api/auth/register")
pattern list_users = (text "GET", text "/api/users")
pattern list_customers = (text "GET", text "/api/customers/")
pattern create_customer = (text "POST", text "/api/customers/")
pattern get_customer = (text "GET", text "/api/customers/{id}")
pattern update_customer = (text "PUT", text "/api/customers/{id}")
pattern deactivate_customer = (text "PATCH", text "/api/customers/{id}/deactivate")
pattern list_products = (text "GET", text "/api/products/")
pattern create_product = (text "POST", text "/api/products/")
pattern get_product = (text "GET", text "/api/products/{id}")
pattern update_product = (text "PUT", text "/api/products/{id}")
pattern deactivate_product = (text "PATCH", text "/api/products/{id}/deactivate")
pattern create_order = (text "POST", text "/api/orders/")
pattern list_orders = (text "GET", text "/api/orders/")
pattern get_order = (text "GET", text "/api/orders/{id}")
pattern cancel_order = (text "PATCH", text "/api/orders/{id}/cancel")
pattern ship_order = (text "PATCH", text "/api/orders/{id}/ship")

-- The groups of routes by the middleware that `New` puts before them.
pub data Group : Type 0 where
  public users any_role : Group

unfoldable pub group : Route → Group
group health = public
group metrics = public
group login = public
group register = public
group list_users = users
group list_customers = any_role
group create_customer = any_role
group get_customer = any_role
group update_customer = any_role
group deactivate_customer = any_role
group list_products = any_role
group create_product = any_role
group get_product = any_role
group update_product = any_role
group deactivate_product = any_role
group create_order = any_role
group list_orders = any_role
group get_order = any_role
group cancel_order = any_role
group ship_order = any_role

-- The middleware before a handler: none, or the authenticator and then the check of the role.
unfoldable pub guard : (Text → Result Refusal Claims) → Group → Middleware.Request → Outcome
unfolding and_then require_action require_any_role authenticator
guard verify public r = goes_on r
guard verify users r = and_then (require_action Middleware.list_users) (authenticator verify r)
guard verify any_role r =
    and_then (require_any_role (admin ∷ operator ∷ [])) (authenticator verify r)

-- The database's side of the services, with what the order service has reported, and the users, which the
-- in-memory repository of internal/auth keeps.
pub record Backend (S : Type 0) : Type 0 where
  pub world : World S
  pub users : Users

-- What a route answers with. A fixed page is the body of a 200.
pub data Answer : Type 0 where
  turned_away : ErrorResponse → Answer
  page : Text → Answer
  token : Reply TokenResponse → Answer
  user : Reply UserResponse → Answer
  one_customer : Reply CustomerOutput → Answer
  many_customers : Reply (Page CustomerOutput) → Answer
  one_product : Reply ProductOutput → Answer
  many_products : Reply (Page ProductOutput) → Answer
  one_order : Reply OrderOutput → Answer
  many_orders : Reply (Page OrderOutput) → Answer
  emptied : Reply (Unit {0}) → Answer

-- The libraries that the handlers read requests with.
pub record Readers : Type 0 where
  pub parse_uuid : Text → Option Uuid
  pub read_login : Text → Option LoginRequest
  pub read_register : Text → Option RegisterRequest
  pub read_customer : Text → Option CustomerInput
  pub read_product : Text → Option ProductInput
  pub read_order : Text → Option CreateOrderInput

-- What a request draws from outside: an identifier, the same as a text, and the time.
pub record Draw : Type 0 where
  pub id : Uuid
  pub id_text : Text
  pub now : Time

-- What `New` is given: the three services by their repositories and ports, the passwords, the tokens
-- that are issued at a time and their verification at a time, and the page of the metrics.
pub record Services (S : Type 0) : Type 0 where
  pub readers : Readers
  pub ports : Ports S
  pub customers : CustomerRepository S
  pub products : ProductRepository S
  pub passwords : Passwords
  pub issue : Time → User → Text × ℕ
  pub verify : Time → Text → Result Refusal Claims
  pub exposition : List MetricsCall → Text

module _ {S : Type 0} where
  abbrev on_world : {A : Type 0} → (A → Answer) → A × World S → Users → Answer × Backend S
  on_world wrap (a, w) m = (wrap a, record { world = w; users = m })

  abbrev on_outside : {A : Type 0} → (A → Answer) → A × S → Backend S → Answer × Backend S
  on_outside wrap (a, s) b = (wrap a, record b { world = record (b.world) { outside = s } })

  module _ (v : Services S) where
    -- The handler of a route.
    unfoldable pub handle : Route → Draw → Request → Backend S → Answer × Backend S
    handle health d r b = (page (text "{\"status\":\"ok\"}\n"), b)
    handle metrics d r b = (page (v.exposition b.world.metrics), b)
    handle login d r b =
        let (t, m) =
          AuthHandler.login in_memory v.passwords v.readers.read_login (v.issue d.now) r b.users in
        (token t, record b { users = m })
    handle register d r b =
        let (u, m) =
          AuthHandler.register in_memory v.passwords v.readers.read_register d.id_text d.now r
            b.users in
        (user u, record b { users = m })
    handle list_users d r b = (page (text "{\"users\":[]}"), b)
    handle list_customers d r b =
        on_outside many_customers
          (CustomerHandler.list v.customers v.readers.parse_uuid r b.world.outside) b
    handle create_customer d r b =
        on_outside one_customer
          (CustomerHandler.create v.customers v.readers.parse_uuid v.readers.read_customer d.id
            d.now r b.world.outside)
          b
    handle get_customer d r b =
        on_outside one_customer
          (CustomerHandler.get v.customers v.readers.parse_uuid r b.world.outside) b
    handle update_customer d r b =
        on_outside one_customer
          (CustomerHandler.update v.customers v.readers.parse_uuid v.readers.read_customer d.now r
            b.world.outside)
          b
    handle deactivate_customer d r b =
        on_outside emptied
          (CustomerHandler.deactivate v.customers v.readers.parse_uuid r b.world.outside) b
    handle list_products d r b =
        on_outside many_products
          (ProductHandler.list v.products v.readers.parse_uuid r b.world.outside) b
    handle create_product d r b =
        on_outside one_product
          (ProductHandler.create v.products v.readers.parse_uuid v.readers.read_product d.id d.now r
            b.world.outside)
          b
    handle get_product d r b =
        on_outside one_product
          (ProductHandler.get v.products v.readers.parse_uuid r b.world.outside) b
    handle update_product d r b =
        on_outside one_product
          (ProductHandler.update v.products v.readers.parse_uuid v.readers.read_product d.now r
            b.world.outside)
          b
    handle deactivate_product d r b =
        on_outside emptied
          (ProductHandler.deactivate v.products v.readers.parse_uuid r b.world.outside) b
    handle create_order d r b =
        on_world one_order
          (OrderHandler.create v.readers.parse_uuid v.ports v.readers.read_order r b.world) b.users
    handle list_orders d r b =
        on_world many_orders (OrderHandler.list v.readers.parse_uuid v.ports r b.world) b.users
    handle get_order d r b =
        on_world one_order (OrderHandler.get v.readers.parse_uuid v.ports r b.world) b.users
    handle cancel_order d r b =
        on_world one_order (OrderHandler.cancel v.readers.parse_uuid v.ports r b.world) b.users
    handle ship_order d r b =
        on_world one_order (OrderHandler.ship v.readers.parse_uuid v.ports r b.world) b.users

    unfoldable pub after_guard : Route → Draw → Request → Outcome → Backend S → Answer × Backend S
    unfolding handle
    after_guard route d r (answered e) b = (turned_away e, b)
    after_guard route d r (goes_on context) b = handle route d (record r { context = context }) b

    -- A request on its route: the middleware, then the handler.
    unfoldable pub serve : Route → Draw → Request → Backend S → Answer × Backend S
    unfolding guard after_guard
    serve route d r b = after_guard route d r (guard (v.verify d.now) (group route) r.context) b
