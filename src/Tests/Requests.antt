-- ===== src/Tests/Requests.antt =====
-- internal/server and cmd/api: requests to the API over in-memory repositories.
use order_service_go_archite.Prelude.{
  Every, ◌≡◌, refl, Option, none, some, [], ◌∷◌, ◌++◌, List, pos, Text, text, inl, inr, true, ok,
  Action, subst, sym, ◌∙◌, Option-cases, trim_space, trim_left, is_space, to_lower, byte_len, split,
  split_from, lookup, ◌+ℤ◌, ◌*ℤ◌, wrap64,
}
use order_service_go_archite.Money.{multiply, add, from_cents}
use order_service_go_archite.Catalog.Unique.{WellKeyed}
use order_service_go_archite.Catalog.Put.{lookup_keyed}
use order_service_go_archite.Customer
use order_service_go_archite.Customer.{CustomerRepository}
use order_service_go_archite.Customer.Service as Customers
use order_service_go_archite.Product
use order_service_go_archite.Product.{ProductRepository}
use order_service_go_archite.Product.Service as Products
use order_service_go_archite.Order.Status.{can_transition}
use order_service_go_archite.Order.Model.{
  Uuid, CreateOrderInput, to_output, item_total, order_total,
}
use order_service_go_archite.Order.Ports.{Ports, Processor, Stored}
use order_service_go_archite.Order.Repository
use order_service_go_archite.Order.Contract.{View, PortLaws}
use order_service_go_archite.Order.Contract.Lift.{
  lift, lift_read, lift_repository, lift_repository-RepoLaws,
}
use order_service_go_archite.Order.Create.{
  validate_input, index_products, check_product, make_item, create,
}
use order_service_go_archite.Order.Memory
use order_service_go_archite.Order.Memory.{Outside, repository, process_payment, above}
use order_service_go_archite.Order.Memory.Laws as Adapters
use order_service_go_archite.Order.Handler as OrderHandler
use order_service_go_archite.Auth.{parse_role}
use order_service_go_archite.Auth.Token.{
  issue, verify, verify_parts, check_header, check_signature, check_payload, check_role,
}
use order_service_go_archite.Middleware
use order_service_go_archite.Http.{Request, replied, decode_json}
use order_service_go_archite.Server.{
  Draw, Services, Backend, create_order, cancel_order, deactivate_product, one_order, serve, handle,
  after_guard, guard, group,
}
use order_service_go_archite.Server.Access.{Behind, serve-Behind}
use order_service_go_archite.Server.Growth.{Event, request, delivery}
use order_service_go_archite.Server.Orders.{CreatedByBearer, created_over_http}
use order_service_go_archite.Server.Lookups.{
  api_ports, customer_lookup, product_lookup, as_customer, as_products, lookup_error,
}
use order_service_go_archite.Server.Prices.{Stocked, Stock, created_from-Stock}
use order_service_go_archite.Tests.Access.{plain_codec, marked, ann_token}
use order_service_go_archite.Tests.Orders.{one_order as stored_world, purchase, answer}

pub record Shop : Type 0 where
  pub adapters : Outside
  pub customers : Customer.Items
  pub products : Product.Items

abbrev set_adapters : Outside → Shop → Shop
set_adapters o s = record s { adapters = o }

abbrev on_customers : {E A : Type 0} → Action Customer.Items E A → Action Shop E A
on_customers f = lift (λ (s : Shop). s.customers) (λ m s. record s { customers = m }) f

abbrev on_products : {E A : Type 0} → Action Product.Items E A → Action Shop E A
on_products f = lift (λ (s : Shop). s.products) (λ m s. record s { products = m }) f

abbrev shop_customers : CustomerRepository Shop
shop_customers =
    let inner = Customer.repository in
    record {
      create = λ c. on_customers (inner.create c);
      update = λ c. on_customers (inner.update c);
      deactivate = λ id. on_customers (inner.deactivate id);
      find_by_id = λ id. on_customers (inner.find_by_id id);
      find_by_document = λ d. on_customers (inner.find_by_document d);
      list = λ f. on_customers (inner.list f);
    }

abbrev shop_products : ProductRepository Shop
shop_products =
    let inner = Product.repository in
    record {
      create = λ c. on_products (inner.create c);
      update = λ c. on_products (inner.update c);
      deactivate = λ id. on_products (inner.deactivate id);
      find_by_id = λ id. on_products (inner.find_by_id id);
      find_by_sku = λ d. on_products (inner.find_by_sku d);
      find_many_by_id = λ ids. on_products (inner.find_many_by_id ids);
      list = λ f. on_products (inner.list f);
    }

abbrev shop_ports : Ports Shop
shop_ports =
    api_ports (lift_repository (λ (s : Shop). s.adapters) set_adapters repository) shop_customers
      shop_products (λ m. lift (λ (s : Shop). s.adapters) set_adapters (Memory.ports.publish m))
      (λ s. lift_read (λ (s : Shop). s.adapters) set_adapters Memory.ports.now s)
      (λ s. lift_read (λ (s : Shop). s.adapters) set_adapters Memory.ports.new_id s)

abbrev shop_view : View Shop
shop_view s id = Adapters.view s.adapters id

shop_laws : PortLaws shop_ports shop_view
unfolding customer_lookup product_lookup Customers.find_by_id Products.find_many_by_id
shop_laws =
    let outer = Adapters.port_laws in
    record {
      repo_laws =
          lift_repository-RepoLaws (λ (s : Shop). s.adapters) set_adapters (λ o s. refl)
            Adapters.view outer.repo_laws;
      customer_keeps = λ id s j. refl;
      products_keep = λ ids s j. refl;
      publish_keeps = λ m s j. outer.publish_keeps m s.adapters j;
      now_keeps = λ s j. refl;
      new_id_keeps = λ s j. refl;
      new_id_fresh = λ s. outer.new_id_fresh s.adapters;
    }

abbrev first_char : Text → Option Uuid
first_char [] = none
first_char (c ∷ _) = some c

-- A body of three characters: the customer, the product and the quantity.
abbrev read_order : Text → Option CreateOrderInput
read_order (c ∷ p ∷ q ∷ []) =
    some (record { customer_id = c; items = record { product_id = p; quantity = pos q } ∷ [] })
read_order _ = none

abbrev pub services : Services Shop
services = record {
  readers = record {
    parse_uuid = first_char;
    read_login = λ t. none;
    read_register = λ t. none;
    read_customer = λ t. none;
    read_product = λ t. none;
    read_order = read_order;
  };
  ports = shop_ports;
  customers = shop_customers;
  products = shop_products;
  passwords = marked;
  issue = λ now u. issue plain_codec 3600000000000 now u.id u.role;
  verify = λ now t. verify plain_codec now t;
  exposition = λ calls. [];
}

abbrev shop_customer : Customer.Customer
shop_customer = record {
  id = 1;
  name = text "Ada";
  document = text "7";
  email = [];
  phone = [];
  active = true;
  created_at = 1;
  updated_at = 1;
}

abbrev shop_product : Product.Product
shop_product = record {
  id = 3;
  name = text "Pen";
  sku = text "P";
  price = from_cents (pos 1250);
  active = true;
  created_at = 1;
  updated_at = 1;
}

abbrev pub shop : Backend Shop
shop = record {
  world = record {
    outside = record {
      adapters = stored_world.outside;
      customers = (1, shop_customer) ∷ [];
      products = (3, shop_product) ∷ [];
    };
    metrics = [];
    log = [];
  };
  users = [];
}

abbrev pub draw : Draw
draw = record { id = 40; id_text = text "u"; now = 6000000000 }

abbrev post_order : Request
post_order = record {
  context = record { authorization = text "Bearer " ++ ann_token; user_id = none; role = none };
  query = λ t. [];
  path_id = [];
  body = 1 ∷ 3 ∷ 2 ∷ [];
}

abbrev pub delete_product : Request
delete_product = record {
  context = record { authorization = []; user_id = none; role = none };
  query = λ t. [];
  path_id = 3 ∷ [];
  body = [];
}

serve-Behind_example :
    Behind services
      (group deactivate_product)
      deactivate_product
      draw
      delete_product
      shop
      (serve services deactivate_product draw delete_product shop)
serve-Behind_example = serve-Behind services deactivate_product draw delete_product shop

abbrev shop_payment : Processor Shop
shop_payment o = lift (λ (s : Shop). s.adapters) set_adapters (process_payment o)

abbrev cancel_seven : Request
cancel_seven = record post_order { path_id = 7 ∷ [] }

abbrev events : List Event
events =
    request create_order draw post_order
    ∷ request cancel_order draw cancel_seven
    ∷ delivery 9
    ∷ delivery 7
    ∷ []

abbrev sku_of : Product.Product → Text
sku_of p = p.sku

abbrev WellStocked : Shop → Type 0
WellStocked s = WellKeyed (λ (p : Product.Product). p.id) sku_of s.products

many_stored :
    (ids : List Uuid) (m : Product.Items)
    → WellKeyed (λ (p : Product.Product). p.id) sku_of m
    → Every (λ (q : Product.Product). lookup q.id m ≡ some q) (Product.find_many ids m)
unfolding Product.find_many
many_stored [] m h = tt
many_stored (id ∷ ids) m h = elim (Option-cases (lookup id m)) [
  | inl gone ↦ rw (gone, Product.find_many) (many_stored ids m h)
  | inr (q, at) ↦
      let own = lookup_keyed (λ (p : Product.Product). p.id) sku_of id m h at in
      rw (at, Product.find_many)
        (subst (λ k. lookup k m ≡ some q) (sym own) at, many_stored ids m h)
]

stocked :
    Stocked shop_customers shop_products WellStocked
      (λ (s : Shop) id. lookup id s.customers)
      (λ (s : Shop) id. lookup id s.products)
stocked = record {
  finds_customer = λ id s e. found_customer id s.customers e;
  finds_products = λ ids s fine e.
      subst (Every (λ (q : Product.Product). lookup q.id s.products ≡ some q)) (cc (e))
        (many_stored ids s.products fine);
}
  where
    found_customer :
        (id : Uuid) (m : Customer.Items) {c : Customer.Customer}
        → Customer.found (lookup id m) ≡ ok c
        → lookup id m ≡ some c
    found_customer id m e = elim (Option-cases (lookup id m)) [
      | inl gone ↦ absurd (let e' = rw gone at e in cc)
      | inr (q, at) ↦ let e' = rw at at e in at ∙ cc (e')
    ]

-- What the runs below compute with.
runs : Unit {0}
unfolding create index_products check_product make_item Repository.create_with_items above
    can_transition validate_input item_total multiply order_total add ◌+ℤ◌ ◌*ℤ◌ wrap64 to_output
    customer_lookup product_lookup as_customer as_products Customers.find_by_id
    Products.find_many_by_id Product.find_many Memory.publish lookup_error
runs = tt

create_ok : (create shop_ports 5 purchase shop.world).0 ≡ ok (answer 9)
unfolding runs
create_ok = refl

created_from-Stock_example :
    ((c : Customer.Customer) × (lookup 1 shop.world.outside.customers ≡ some c) × (c.active ≡ true))
    × ((o : Stored) × (shop_view (create shop_ports 5 purchase shop.world).1.outside 9 ≡ some o)
        × (o.0.customer_id ≡ 1)
        × Stock (λ id. lookup id shop.world.outside.products) purchase.items o.1)
unfolding customer_lookup Customers.find_by_id
created_from-Stock_example =
    created_from-Stock stocked (λ id s. (refl, λ fine. fine))
      (lift_repository (λ (s : Shop). s.adapters) set_adapters repository)
      (λ m. lift (λ (s : Shop). s.adapters) set_adapters (Memory.ports.publish m))
      (λ s. lift_read (λ (s : Shop). s.adapters) set_adapters Memory.ports.now s)
      (λ s. lift_read (λ (s : Shop). s.adapters) set_adapters Memory.ports.new_id s) shop_laws 5
      purchase shop.world (refl, refl, tt) create_ok

-- What a request computes with.
serves : Unit {0}
unfolding runs serve guard after_guard handle group OrderHandler.create OrderHandler.create_by
    OrderHandler.create_decoded decode_json Middleware.authenticator Middleware.admit
    Middleware.bearer_token Middleware.require Middleware.require_any_role Middleware.and_then
    verify verify_parts check_header check_signature check_payload check_role issue trim_space
    trim_left is_space to_lower byte_len parse_role split split_from
serves = tt

order_posted :
    (serve services create_order draw post_order shop).0 ≡ one_order (replied 201 (answer 9))
unfolding serves
order_posted = refl

created_over_http_example :
    CreatedByBearer services shop_laws draw post_order
      (answer 9)
      shop
      (serve services create_order draw post_order shop).1
created_over_http_example = created_over_http services shop_laws draw post_order shop order_posted
