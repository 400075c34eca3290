-- ===== src/Order/History.antt =====
-- internal/order: any sequence of API requests and worker deliveries, one at a time. The world
-- (other databases clients, clocks, failures) answers through the ports.
use order_service_go_archite.Prelude.{◌≡◌, refl, sym, subst, Option, some, List, [], ◌∷◌}
use order_service_go_archite.Order.Model.{Uuid, CreateOrderInput, OrderFilter}
use order_service_go_archite.Order.Status.Graph.{IsTerminal, terminal_stays}
use order_service_go_archite.Order.Ports.{Stored, Ports, Processor, World}
use order_service_go_archite.Order.Contract.{View, PortLaws, ProcessorKeeps}
use order_service_go_archite.Order.Contract.Growth.{
  Grows, still, evolved, born, Grows-of_eq, Grows-trans,
}
use order_service_go_archite.Order.Process.{process}
use order_service_go_archite.Order.Process.Safety.{process-Grows}
use order_service_go_archite.Order.Create.{create}
use order_service_go_archite.Order.Create.Safety.{create-Grows}
use order_service_go_archite.Order.Service.{cancel, ship, find_by_id, list}
use order_service_go_archite.Order.Service.Safety.{
  cancel-Grows, ship-Grows, find_by_id_keeps, list_keeps,
}

final :
    {x y : Option Stored} {a : Stored}
    → x ≡ some a
    → IsTerminal a.0.status
    → Grows x y
    → (b : Stored) × (y ≡ some b) × (b.0.status ≡ a.0.status)
final {a = a} e end still = (a, e, refl)
final {a = a} e end (evolved {a = o} {b = b} h) =
    let same : o ≡ a = cc (e) in
    (
      b,
      refl,
      rw (sym same) (terminal_stays h.path (subst (λ q. IsTerminal q.0.status) (sym same) end)),
    )
final e end (born h) = absurd (cc)

-- One call of the service.
pub data Request : Type 0 where
  create_order : Uuid → CreateOrderInput → Request
  cancel_order ship_order get_order process_message : Uuid → Request
  list_orders : OrderFilter → Request

module _ {S : Type 0} (p : Ports S) (processor : Processor S) where
  -- The world after a call, whatever the call returns.
  unfoldable pub serve : Request → World S → World S
  serve (create_order by input) w = (create p by input w).1
  serve (cancel_order id) w = (cancel p id w).1
  serve (ship_order id) w = (ship p id w).1
  serve (get_order id) w = (find_by_id p id w).1
  serve (list_orders f) w = (list p f w).1
  serve (process_message id) w = (process p processor id w).1

  unfoldable pub serve_all : List Request → World S → World S
  unfolding serve
  serve_all [] w = w
  serve_all (r ∷ rs) w = serve_all rs (serve r w)

module _ {S : Type 0} {p : Ports S} {view : View S} (laws : PortLaws p view)
    (processor : Processor S) (keeps : ProcessorKeeps processor view) where
  serve-Grows :
      (r : Request) (w : World S) (j : Uuid)
      → Grows (view w.outside j) (view (serve p processor r w).outside j)
  unfolding serve
  serve-Grows (create_order by input) w j = create-Grows laws by input w j
  serve-Grows (cancel_order id) w j = cancel-Grows laws id w j
  serve-Grows (ship_order id) w j = ship-Grows laws id w j
  serve-Grows (get_order id) w j = Grows-of_eq (find_by_id_keeps laws id w j)
  serve-Grows (list_orders f) w j = Grows-of_eq (list_keeps laws f w j)
  serve-Grows (process_message id) w j = process-Grows laws processor keeps id w j

  -- No sequence of requests and deliveries, whatever fails on the way, loses an order, changes its
  -- identity, its amounts or its items, or moves it against the transition table; an order that is
  -- new at the end was created as CREATED.
  pub serve_all-Grows :
      (rs : List Request) (w : World S) (j : Uuid)
      → Grows (view w.outside j) (view (serve_all p processor rs w).outside j)
  unfolding serve_all
  serve_all-Grows [] w j = still
  serve_all-Grows (r ∷ rs) w j =
      Grows-trans (serve-Grows r w j) (serve_all-Grows rs (serve p processor r w) j)

  -- An order that is SHIPPED, CANCELED or FAILED is still there, with that status, after every sequence
  -- of requests and deliveries.
  pub serve_all-IsTerminal :
      (rs : List Request) (w : World S) (j : Uuid) {a : Stored}
      → view w.outside j ≡ some a
      → IsTerminal a.0.status
      → (b : Stored) × (view (serve_all p processor rs w).outside j ≡ some b)
        × (b.0.status ≡ a.0.status)
  serve_all-IsTerminal rs w j at end = final at end (serve_all-Grows rs w j)
