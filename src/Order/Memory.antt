-- ===== src/Order/Memory.antt =====
-- internal/order: the in-memory adapters of ports.go, queue.go and processor.go, put together with
-- the in-memory repository as the ports of a service, the way the service's tests do.
pub mod Laws
use order_service_go_archite.Prelude.{
  ℕ, ◌+◌, Bool, true, false, if◌then◌else◌, ltb, Option, none, some, List, [], ◌∷◌, ◌++◌, lookup,
  insert, Text, text, Result, ok, err, Action,
}
use order_service_go_archite.Pagination.{Page}
use order_service_go_archite.Order.Status.{OrderStatus}
use order_service_go_archite.Order.Model.{
  Uuid, Time, Order, OrderItem, OrderFilter, OrderCreatedMessage,
}
use order_service_go_archite.Order.Ports.{
  RepoError, failure, LookupError, not_found, Customer, Product, Stored, OrderRepository, Ports,
  Processor,
}
use order_service_go_archite.Order.Repository
use order_service_go_archite.Order.Repository.{Store}

-- The fakes' state: `Customers`, `Products`, `Messages`, `FailNext` and `FailFor`, beside the
-- store, the clock and a bound below which identifiers may be taken.
pub record Outside : Type 0 where
  pub store : Store
  pub customers : List (Uuid × Customer)
  pub products : List (Uuid × Product)
  pub messages : List OrderCreatedMessage
  pub fail_next : Bool
  pub fail_for : List (Uuid × Text)
  pub clock : Time
  pub next_id : Uuid

-- The operations of the store as operations of the world.
abbrev on_store : {A : Type 0} → Action Store RepoError A → Action Outside RepoError A
on_store f s = let (r, store) = f s.store in (r, record s { store = store })

-- A panic of the slice reaches the caller as an error: the recovery middleware answers both alike.
abbrev list_result : Option (Page Order) → Result RepoError (Page Order)
list_result none = err (failure (text "slice bounds out of range"))
list_result (some page) = ok page

-- `InMemoryRepository`.
abbrev pub repository : OrderRepository Outside
repository = record {
  create_with_items = λ o items. on_store (Repository.create_with_items o items);
  find_by_id = λ id s. (Repository.find_by_id id s.store, s);
  update_status = λ id st s. on_store (Repository.update_status s.clock id st) s;
  mark_processed = λ id st t. on_store (Repository.mark_processed id st t);
  list = λ f s. (list_result (Repository.list f s.store), s);
}

-- `FakeCustomerLookup.FindByID`.
abbrev pub customer_found : Option Customer → Result LookupError Customer
customer_found none = err not_found
customer_found (some c) = ok c

-- `FakeProductLookup.FindManyByID`: identifiers without a product are left out.
unfoldable pub find_many : List (Uuid × Product) → List Uuid → List Product
find_many m [] = []
find_many m (id ∷ ids) = elim (lookup id m) [
  | none ↦ find_many m ids
  | some p ↦ p ∷ find_many m ids
]

-- `FakeProducer.PublishOrderCreated`.
unfoldable pub publish : OrderCreatedMessage → Action Outside Text (Unit {0})
publish m s =
    if s.fail_next
    then (err (text "publish failed"), record s { fail_next = false })
    else (ok tt, record s { messages = s.messages ++ m ∷ [] })

-- `FakePaymentProcessor.ProcessPayment`, without its hooks.
unfoldable pub process_payment : Processor Outside
process_payment o s = elim (lookup o.id s.fail_for) [ some e ↦ (err e, s) | none ↦ (ok tt, s) ]

-- A number above every key.
unfoldable pub above {ℓ} : {V : Type ℓ} → List (Uuid × V) → Uuid
above [] = 1
above ((k, _) ∷ m) = let n = above m in if ltb k n then n else k + 1

-- Identifiers are handed out in rising order, above those of the stored orders.
abbrev pub fresh_id : Outside → Uuid
fresh_id s = let n = above s.store.orders in if ltb n s.next_id then s.next_id else n

abbrev pub ports : Ports Outside
ports = record {
  repo = repository;
  find_customer = λ id s. (customer_found (lookup id s.customers), s);
  find_products = λ ids s. (ok (find_many s.products ids), s);
  publish = publish;
  now = λ s. (s.clock, record s { clock = s.clock + 1 });
  new_id = λ s. (fresh_id s, record s { next_id = fresh_id s + 1 });
}
