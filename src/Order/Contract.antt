-- ===== src/Order/Contract.antt =====
-- internal/order: what the service relies on of its repository and of its other ports, and what it
-- promises of every order: the interface between service.go and the repositories.
pub mod Growth
pub mod Reliable
pub mod Writes
pub mod Lift
use order_service_go_archite.Prelude.{ℕ, ◌≡◌, ◌≢◌, Option, none, some, List, Result, ok, err, Text}
use order_service_go_archite.Order.Status.{OrderStatus}
use order_service_go_archite.Order.Model.{
  Uuid, Time, Order, OrderItem, OrderFilter, OrderCreatedMessage,
}
use order_service_go_archite.Order.Ports.{
  RepoError, order_not_found, Stored, OrderRepository, Ports, Processor,
}

-- The abstract contents of a store: each identifier's order.
abbrev pub View : Type 0 → Type 0
View S = S → Uuid → Option Stored

-- The entry holds `r`, and afterwards `r` with a new status and a new time of update.
abbrev pub StatusWritten : OrderStatus → Option Stored → Option Stored → Type 0
StatusWritten st before after =
    (r : Stored) × (t : Time) × (before ≡ some r)
    × (after ≡ some (record (r.0) { status = st; updated_at = t }, r.1))

-- The same with the time of processing.
abbrev pub Processed : OrderStatus → Time → Option Stored → Option Stored → Type 0
Processed st t before after =
    (r : Stored) × (before ≡ some r)
    × (after ≡ some (record (r.0) { status = st; processed_at = some t; updated_at = t }, r.1))

-- A repository answers by its contents; a write that fails has changed nothing.
pub record RepoLaws {S : Type 0} (repo : OrderRepository S) (view : View S) : Type 0 where
  pub find_some :
      (id : Uuid) (s : S) {r : Stored} → (repo.find_by_id id s).0 ≡ ok r → view s id ≡ some r
  pub find_none :
      (id : Uuid) (s : S) → (repo.find_by_id id s).0 ≡ err order_not_found → view s id ≡ none
  pub find_keeps : (id : Uuid) (s : S) (j : Uuid) → view (repo.find_by_id id s).1 j ≡ view s j
  pub list_keeps : (f : OrderFilter) (s : S) (j : Uuid) → view (repo.list f s).1 j ≡ view s j
  pub update_ok :
      (id : Uuid) (st : OrderStatus) (s : S)
      → (repo.update_status id st s).0 ≡ ok tt
      → StatusWritten st (view s id) (view (repo.update_status id st s).1 id)
  pub update_err :
      (id : Uuid) (st : OrderStatus) (s : S) {e : RepoError}
      → (repo.update_status id st s).0 ≡ err e
      → view (repo.update_status id st s).1 id ≡ view s id
  pub update_others :
      (id : Uuid) (st : OrderStatus) (s : S) (j : Uuid)
      → j ≢ id
      → view (repo.update_status id st s).1 j ≡ view s j
  pub mark_ok :
      (id : Uuid) (st : OrderStatus) (t : Time) (s : S)
      → (repo.mark_processed id st t s).0 ≡ ok tt
      → Processed st t (view s id) (view (repo.mark_processed id st t s).1 id)
  pub mark_err :
      (id : Uuid) (st : OrderStatus) (t : Time) (s : S) {e : RepoError}
      → (repo.mark_processed id st t s).0 ≡ err e
      → view (repo.mark_processed id st t s).1 id ≡ view s id
  pub mark_others :
      (id : Uuid) (st : OrderStatus) (t : Time) (s : S) (j : Uuid)
      → j ≢ id
      → view (repo.mark_processed id st t s).1 j ≡ view s j
  pub create_ok :
      (o : Order) (items : List OrderItem) (s : S)
      → (repo.create_with_items o items s).0 ≡ ok tt
      → view (repo.create_with_items o items s).1 o.id ≡ some (o, items)
  pub create_err :
      (o : Order) (items : List OrderItem) (s : S) {e : RepoError}
      → (repo.create_with_items o items s).0 ≡ err e
      → view (repo.create_with_items o items s).1 o.id ≡ view s o.id
  pub create_others :
      (o : Order) (items : List OrderItem) (s : S) (j : Uuid)
      → j ≢ o.id
      → view (repo.create_with_items o items s).1 j ≡ view s j

-- The other ports leave the orders alone, and a new identifier is one that no order has.
pub record PortLaws {S : Type 0} (p : Ports S) (view : View S) : Type 0 where
  pub repo_laws : RepoLaws p.repo view
  pub customer_keeps : (id : Uuid) (s : S) (j : Uuid) → view (p.find_customer id s).1 j ≡ view s j
  pub products_keep :
      (ids : List Uuid) (s : S) (j : Uuid) → view (p.find_products ids s).1 j ≡ view s j
  pub publish_keeps :
      (m : OrderCreatedMessage) (s : S) (j : Uuid) → view (p.publish m s).1 j ≡ view s j
  pub now_keeps : (s : S) (j : Uuid) → view (p.now s).1 j ≡ view s j
  pub new_id_keeps : (s : S) (j : Uuid) → view (p.new_id s).1 j ≡ view s j
  pub new_id_fresh : (s : S) → view s (p.new_id s).0 ≡ none

abbrev pub ProcessorKeeps : {S : Type 0} → Processor S → View S → Type 0
ProcessorKeeps {S} processor view =
    (o : Order) (s : S) (j : Uuid) → view (processor o s).1 j ≡ view s j
