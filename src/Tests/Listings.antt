-- ===== src/Tests/Listings.antt =====
-- internal/order/repository.go: the list of a store with one order.
use order_service_go_archite.Prelude.{none, some, List, pos}
use order_service_go_archite.Order.Status.{created}
use order_service_go_archite.Order.Model.{Order, OrderFilter}
use order_service_go_archite.Order.Repository.{Store}
use order_service_go_archite.Tests.Orders.{one_order}

abbrev created_ones : OrderFilter
created_ones = record {
  customer_id = none;
  status = some created;
  start_date = none;
  end_date = none;
  page = pos 1;
  page_size = pos 20;
}

abbrev store : Store
store = one_order.outside.store
