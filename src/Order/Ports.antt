-- ===== src/Order/Ports.antt =====
-- internal/order: the interfaces of ports.go, repository.go, queue.go and processor.go, and the
-- state that the service threads. An interface is a record of operations on a state `S`, the
-- outside world: the database, the queue, the clock and the source of fresh identifiers.
use order_service_go_archite.Prelude.{List, [], ◌∷◌, ◌++◌, ℤ, Bool, Text, text, Action}
use order_service_go_archite.Money.{Money}
use order_service_go_archite.Pagination.{Page}
use order_service_go_archite.Order.Status.{OrderStatus}
use order_service_go_archite.Order.Model.{
  Uuid, Time, Order, OrderItem, OrderFilter, OrderCreatedMessage,
}

-- `ErrOrderNotFound`, or any other error of a repository, as its text.
pub data RepoError : Type 0 where
  order_not_found : RepoError
  failure : Text → RepoError

abbrev pub repo_error_text : RepoError → Text
repo_error_text order_not_found = text "order not found"
repo_error_text (failure m) = m

-- `ErrNotFound` of ports.go, or any other error of a lookup.
pub data LookupError : Type 0 where
  not_found : LookupError
  lookup_failure : Text → LookupError

abbrev pub lookup_error_text : LookupError → Text
lookup_error_text not_found = text "resource not found"
lookup_error_text (lookup_failure m) = m

pub record Customer : Type 0 where
  pub id : Uuid
  pub active : Bool

pub record Product : Type 0 where
  pub id : Uuid
  pub price : Money
  pub active : Bool

-- An order with its items, as a repository keeps them.
abbrev pub Stored : Type 0
Stored = Order × List OrderItem

pub record OrderRepository (S : Type 0) : Type 0 where
  pub create_with_items : Order → List OrderItem → Action S RepoError (Unit {0})
  pub find_by_id : Uuid → Action S RepoError Stored
  pub update_status : Uuid → OrderStatus → Action S RepoError (Unit {0})
  pub mark_processed : Uuid → OrderStatus → Time → Action S RepoError (Unit {0})
  pub list : OrderFilter → Action S RepoError (Page Order)

-- The service's other dependencies; an error of the producer is its text.
pub record Ports (S : Type 0) : Type 0 where
  pub repo : OrderRepository S
  pub find_customer : Uuid → Action S LookupError Customer
  pub find_products : List Uuid → Action S LookupError (List Product)
  pub publish : OrderCreatedMessage → Action S Text (Unit {0})
  pub now : S → Time × S
  pub new_id : S → Uuid × S

-- `PaymentProcessor.ProcessPayment`.
abbrev pub Processor : Type 0 → Type 0
Processor S = Order → Action S Text (Unit {0})

-- The calls of the `Metrics` interface, in order. A duration is in nanoseconds.
pub data MetricsCall : Type 0 where
  inc_orders_created inc_orders_processed inc_orders_failed : MetricsCall
  record_processing_duration : ℤ → MetricsCall

-- The records that the service logs.
pub data LogEntry : Type 0 where
  publish_failure_after_commit : Uuid → Text → LogEntry
  empty_order_id : LogEntry
  unknown_order : Uuid → LogEntry
  processing_failed : Uuid → Text → LogEntry

-- The outside world, with what the service has reported to its metrics and its log.
pub record World (S : Type 0) : Type 0 where
  pub outside : S
  pub metrics : List MetricsCall
  pub log : List LogEntry

abbrev pub count_call : {S : Type 0} → MetricsCall → World S → World S
count_call c w = record w { metrics = w.metrics ++ c ∷ [] }

abbrev pub write_log : {S : Type 0} → LogEntry → World S → World S
write_log e w = record w { log = w.log ++ e ∷ [] }

-- A call of a port, and a reading of the clock or of the source of identifiers.
abbrev pub call : {S E A : Type 0} → Action S E A → Action (World S) E A
call f w = let (r, s) = f w.outside in (r, record w { outside = s })

abbrev pub read : {S A : Type 0} → (S → A × S) → World S → A × World S
read f w = let (a, s) = f w.outside in (a, record w { outside = s })
