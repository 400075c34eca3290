-- ===== src/Server/Lookups.antt =====
-- cmd/api/adapters.go and the wiring in main.go: the order service's lookups over the customer and the
-- product services.
use order_service_go_archite.Prelude.{
  Bool, true, false, if◌then◌else◌, List, map, Text, Result, ok, err, Action,
}
use order_service_go_archite.Errors.{AppError, Code, error_text}
use order_service_go_archite.Customer.{CustomerOutput, CustomerRepository}
use order_service_go_archite.Customer.Service as Customers
use order_service_go_archite.Product.{ProductOutput, ProductRepository}
use order_service_go_archite.Product.Service as Products
use order_service_go_archite.Order.Model.{Uuid, Time, OrderCreatedMessage}
use order_service_go_archite.Order.Ports.{
  LookupError, not_found, lookup_failure, Customer, Product, OrderRepository, Ports,
}

abbrev is_not_found : Code → Bool
is_not_found Code.not_found = true
is_not_found _ = false

-- An error of the customer service: a not-found error is the order package's own.
unfoldable pub lookup_error : AppError → LookupError
unfolding error_text
lookup_error e = if is_not_found e.code then not_found else lookup_failure (error_text e)

unfoldable pub as_customer : Result AppError CustomerOutput → Result LookupError Customer
unfolding lookup_error
as_customer (err e) = err (lookup_error e)
as_customer (ok out) = ok (record { id = out.id; active = out.active })

abbrev pub as_product : ProductOutput → Product
as_product p = record { id = p.id; price = p.price; active = p.active }

unfoldable pub as_products :
    Result AppError (List ProductOutput) → Result LookupError (List Product)
unfolding error_text
as_products (err e) = err (lookup_failure (error_text e))
as_products (ok loaded) = ok (map as_product loaded)

-- `customerLookup.FindByID`.
unfoldable pub customer_lookup :
    {S : Type 0} → CustomerRepository S → Uuid → Action S LookupError Customer
unfolding as_customer Customers.find_by_id
customer_lookup repo id s = let (r, s1) = Customers.find_by_id repo id s in (as_customer r, s1)

-- `productLookup.FindManyByID`.
unfoldable pub product_lookup :
    {S : Type 0} → ProductRepository S → List Uuid → Action S LookupError (List Product)
unfolding as_products Products.find_many_by_id
product_lookup repo ids s = let (r, s1) = Products.find_many_by_id repo ids s in (as_products r, s1)

-- The ports that the API gives to the order service.
abbrev pub api_ports :
    {S : Type 0}
    → OrderRepository S
    → CustomerRepository S
    → ProductRepository S
    → (OrderCreatedMessage → Action S Text (Unit {0}))
    → (S → Time × S)
    → (S → Uuid × S)
    → Ports S
api_ports orders customers products publish now new_id = record {
  repo = orders;
  find_customer = customer_lookup customers;
  find_products = product_lookup products;
  publish = publish;
  now = now;
  new_id = new_id;
}
