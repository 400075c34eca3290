-- ===== src/Order/Contract/Reliable.antt =====
-- internal/order: a repository that can be reached: it answers every call by what it stores.
use order_service_go_archite.Prelude.{◌≡◌, none, some, ok, err}
use order_service_go_archite.Order.Status.{OrderStatus}
use order_service_go_archite.Order.Model.{Uuid, Time}
use order_service_go_archite.Order.Ports.{order_not_found, Stored, OrderRepository}
use order_service_go_archite.Order.Contract.{View}

pub record Reliable {S : Type 0} (repo : OrderRepository S) (view : View S) : Type 0 where
  pub finds :
      (id : Uuid) (s : S) {r : Stored} → view s id ≡ some r → (repo.find_by_id id s).0 ≡ ok r
  pub misses :
      (id : Uuid) (s : S) → view s id ≡ none → (repo.find_by_id id s).0 ≡ err order_not_found
  pub updates :
      (id : Uuid) (st : OrderStatus) (s : S) {r : Stored}
      → view s id ≡ some r
      → (repo.update_status id st s).0 ≡ ok tt
  pub marks :
      (id : Uuid) (st : OrderStatus) (t : Time) (s : S) {r : Stored}
      → view s id ≡ some r
      → (repo.mark_processed id st t s).0 ≡ ok tt
