-- ===== src/Server/Growth.antt =====
-- internal/server/router.go with internal/worker: requests on any route and worker deliveries, one at a time.
use order_service_go_archite.Prelude.{List, [], ◌∷◌}
use order_service_go_archite.Customer.Frame as CustomerFrame
use order_service_go_archite.Customer.Frame.{CustomersLeave}
use order_service_go_archite.Product.Frame as ProductFrame
use order_service_go_archite.Product.Frame.{ProductsLeave}
use order_service_go_archite.Order.Model.{Uuid}
use order_service_go_archite.Order.Ports.{Ports, Processor}
use order_service_go_archite.Order.Contract.{View}
use order_service_go_archite.Order.Service
use order_service_go_archite.Order.Process.{process}
use order_service_go_archite.Order.Handler as OrderHandler
use order_service_go_archite.Http.{Request}
use order_service_go_archite.Server.{Route, Draw, Services, Backend, serve}

-- One thing that happens to the service.
pub data Event : Type 0 where
  request : Route → Draw → Request → Event
  delivery : Uuid → Event

module _ {S : Type 0} (v : Services S) (processor : Processor S) where
  unfoldable pub happen : Event → Backend S → Backend S
  happen (request route d r) b = (serve v route d r b).1
  happen (delivery id) b = record b { world = (process v.ports processor id b.world).1 }

  unfoldable pub happen_all : List Event → Backend S → Backend S
  unfolding happen
  happen_all [] b = b
  happen_all (e ∷ es) b = happen_all es (happen e b)

-- The catalogues' operations leave the orders alone.
abbrev pub CustomersApart : {S : Type 0} → Services S → View S → Type 0
CustomersApart {S} v view = (j : Uuid) → CustomersLeave v.customers (λ (s : S). view s j)

abbrev pub ProductsApart : {S : Type 0} → Services S → View S → Type 0
ProductsApart {S} v view = (j : Uuid) → ProductsLeave v.products (λ (s : S). view s j)
