-- ===== src/Order/Create.antt =====
-- internal/order/service.go: `Create`, cut at its calls of the outside world as `Process` is.
pub mod Safety
pub mod Priced
pub mod Checked
pub mod Correct
use order_service_go_archite.Prelude.{
  ◌==◌, if◌then◌else◌, Bool, not, Option, none, some, List, [], ◌∷◌, ◌++◌, pos, ltb_ℤ, Text, text,
  Result, ok, err, Action, lookup, insert, map,
}
use order_service_go_archite.Errors.{
  AppError, validation, internal, inactive_customer, inactive_product,
}
use order_service_go_archite.Errors
use order_service_go_archite.Money.{Money}
use order_service_go_archite.Order.Status.{created}
use order_service_go_archite.Order.Model.{
  Uuid, nil_uuid, Time, Order, OrderItem, item_total, order_total, CreateOrderItemInput,
  CreateOrderInput, OrderOutput, to_output, OrderCreatedMessage,
}
use order_service_go_archite.Order.Ports.{
  RepoError, repo_error_text, LookupError, not_found, lookup_failure, lookup_error_text, Customer,
  Product, OrderRepository, Ports, inc_orders_created, publish_failure_after_commit, World,
  count_call, write_log, call, read,
}

-- The first check that fails, in the order of the code: per item, its quantity, then its product.
unfoldable pub validate_items : List CreateOrderItemInput → Option AppError
validate_items [] = none
validate_items (item ∷ items) =
    if ltb_ℤ item.quantity (pos 1)
    then some (validation (text "item quantity must be greater than zero"))
    else (if item.product_id == nil_uuid
        then some (validation (text "product_id is required"))
        else validate_items items)

abbrev pub validate_some_items : List CreateOrderItemInput → Option AppError
validate_some_items [] = some (validation (text "order must have at least one item"))
validate_some_items (item ∷ items) = validate_items (item ∷ items)

unfoldable pub validate_input : CreateOrderInput → Option AppError
unfolding validate_items
validate_input input =
    if input.customer_id == nil_uuid
    then some (validation (text "customer_id is required"))
    else validate_some_items input.items

-- `productByID`: a later product under the same identifier replaces an earlier one.
unfoldable pub index_products : List (Uuid × Product) → List Product → List (Uuid × Product)
index_products m [] = m
index_products m (p ∷ ps) = index_products (insert p.id p m) ps

unfoldable pub check_product : Option Product → Result AppError Product
check_product none = err (Errors.not_found (text "product not found"))
check_product (some product) =
    if not product.active
    then err (inactive_product (text "inactive products cannot be used in new orders"))
    else ok product

unfoldable pub make_item : Uuid → Uuid → CreateOrderItemInput → Product → OrderItem
make_item id order_id line product = record {
  id = id;
  order_id = order_id;
  product_id = line.product_id;
  quantity = line.quantity;
  unit_price = product.price;
  total_price = item_total product.price line.quantity;
}

-- `Created` in the log of the queue.
abbrev pub order_created_event : Text
order_created_event = text "ORDER_CREATED"

abbrev pub message_of : Order → OrderCreatedMessage
message_of o = record {
  order_id = o.id;
  event = order_created_event;
  created_at = o.created_at;
  retry_count = pos 0;
}

abbrev pub product_ids : List CreateOrderItemInput → List Uuid
product_ids lines = map (λ (i : CreateOrderItemInput). i.product_id) lines

abbrev pub total_prices : List OrderItem → List Money
total_prices items = map (λ (i : OrderItem). i.total_price) items

unfoldable pub make_order : Uuid → Uuid → Uuid → Time → List OrderItem → Order
make_order id customer_id created_by now items = record {
  id = id;
  customer_id = customer_id;
  status = created;
  total_amount = order_total (total_prices items);
  created_by = created_by;
  created_at = now;
  updated_at = now;
  processed_at = none;
}

module _ {S : Type 0} (p : Ports S) where
  -- The loop over the lines: each takes the price of its product and a fresh identifier.
  unfoldable pub build_items :
      List (Uuid × Product)
      → Uuid
      → List OrderItem
      → List CreateOrderItemInput
      → Action (World S) AppError (List OrderItem)
  build_items by_id order_id done [] w = (ok done, w)
  build_items by_id order_id done (line ∷ lines) w =
      elim (check_product (lookup line.product_id by_id)) [
        | err e ↦ (err e, w)
        | ok product ↦
            let (id, w1) = read p.new_id w in
            build_items by_id order_id (done ++ make_item id order_id line product ∷ []) lines w1
      ]

  -- After `PublishOrderCreated`.
  unfoldable pub after_publish :
      Order → List OrderItem → Result Text (Unit {0}) → Action (World S) AppError OrderOutput
  after_publish order items (err e) w = (
    err (internal (text "order was created but could not be queued for processing") e),
    write_log (publish_failure_after_commit order.id e) w,
  )
  after_publish order items (ok _) w = (ok (to_output order items), count_call inc_orders_created w)

  -- After `CreateWithItems`: the message goes out only now.
  unfoldable pub after_commit :
      Order → List OrderItem → Result RepoError (Unit {0}) → Action (World S) AppError OrderOutput
  unfolding after_publish
  after_commit order items (err e) w =
      (err (internal (text "could not create order") (repo_error_text e)), w)
  after_commit order items (ok _) w =
      let (r, w1) = call (p.publish (message_of order)) w in after_publish order items r w1

  -- After the loop.
  unfoldable pub after_build :
      Uuid
      → Uuid
      → Uuid
      → Time
      → Result AppError (List OrderItem)
      → Action (World S) AppError OrderOutput
  unfolding after_commit make_order
  after_build order_id customer_id created_by now (err e) w = (err e, w)
  after_build order_id customer_id created_by now (ok items) w =
      let order = make_order order_id customer_id created_by now items in
      let (r, w1) = call (p.repo.create_with_items order items) w in after_commit order items r w1

  -- After `FindManyByID`.
  unfoldable pub after_products :
      Uuid
      → CreateOrderInput
      → Result LookupError (List Product)
      → Action (World S) AppError OrderOutput
  unfolding after_build build_items index_products
  after_products created_by input (err e) w =
      (err (internal (text "could not load products") (lookup_error_text e)), w)
  after_products created_by input (ok loaded) w =
      let (now, w1) = read p.now w in
      let (order_id, w2) = read p.new_id w1 in
      let (r, w3) = build_items (index_products [] loaded) order_id [] input.items w2 in
      after_build order_id input.customer_id created_by now r w3

  -- After `FindByID` of the customer.
  unfoldable pub after_customer :
      Uuid → CreateOrderInput → Result LookupError Customer → Action (World S) AppError OrderOutput
  unfolding after_products
  after_customer created_by input (err not_found) w =
      (err (Errors.not_found (text "customer not found")), w)
  after_customer created_by input (err (lookup_failure m)) w =
      (err (internal (text "could not load customer") m), w)
  after_customer created_by input (ok customer) w =
      if not customer.active
      then (err (inactive_customer (text "inactive customers cannot create new orders")), w)
      else (let (r, w1) = call (p.find_products (product_ids input.items)) w in
          after_products created_by input r w1)

  unfoldable pub create : Uuid → CreateOrderInput → Action (World S) AppError OrderOutput
  unfolding after_customer validate_input
  create created_by input w = elim (validate_input input) [
    | some e ↦ (err e, w)
    | none ↦
        let (r, w1) = call (p.find_customer input.customer_id) w in
        after_customer created_by input r w1
  ]
