-- ===== src/Order/Repository/Listing.antt =====
-- internal/order/repository.go, `List`: which orders a page shows.
use order_service_go_archite.Prelude.{List}
use order_service_go_archite.Order.Model.{Order}
