-- ===== src/Tests/Orders.antt =====
-- internal/order: the service over the in-memory adapters.
use order_service_go_archite.Prelude.{
  ◌≡◌, inl, inr, ◌↔◌, refl, ℕ, none, some, [], ◌∷◌, pos, ◌+ℤ◌, ◌*ℤ◌, wrap64, ok, arith, false, true,
}
use order_service_go_archite.Money.{Money, from_cents, add, multiply}
use order_service_go_archite.Order.Status.{canceled, created, processing, can_transition}
use order_service_go_archite.Order.Status.Graph.{◌⟶◌, can_transition_iff}
use order_service_go_archite.Order.Model.{
  Uuid, Order, OrderItem, item_total, order_total, CreateOrderInput, OrderOutput, to_output,
}
use order_service_go_archite.Order.Ports.{World}
use order_service_go_archite.Order.Ports.{Stored}
use order_service_go_archite.Order.Contract.{RepoLaws}
use order_service_go_archite.Order.Repository
use order_service_go_archite.Order.Repository.{Store}
use order_service_go_archite.Order.Memory.{
  Outside, repository, find_many, publish, process_payment, above, ports,
}
use order_service_go_archite.Order.Memory.Laws.{view, repository_laws, port_laws, payment_keeps}
use order_service_go_archite.Order.Transient.{
  transient_failure_repo, transient_failure_repo-RepoLaws,
}
use order_service_go_archite.Order.Process.{process}
use order_service_go_archite.Order.Process.Outcome.{Settles, process-Settles}
use order_service_go_archite.Order.Process.Redelivery.{
  PassesOver, process_others, process-PassesOver, deliver_all, deliver_all_stuck,
}
use order_service_go_archite.Order.Create.{
  validate_input, index_products, check_product, make_item, create,
}
use order_service_go_archite.Order.Create.Correct.{Created, create_correct}
use order_service_go_archite.Order.History.{
  ship_order, process_message, serve_all, serve_all-IsTerminal,
}

-- What the runs below compute with.
runs : Unit {0}
unfolding process Repository.find_by_id Repository.update_status Repository.mark_processed
    process_payment create find_many index_products check_product make_item
    Repository.create_with_items publish above can_transition validate_input item_total multiply
    order_total add ◌+ℤ◌ ◌*ℤ◌ wrap64 to_output deliver_all
runs = tt

abbrev amount : ℕ → Money
amount c = from_cents (pos c)

abbrev pub stored_order : Order
stored_order = record {
  id = 7;
  customer_id = 1;
  status = created;
  total_amount = amount 2500;
  created_by = 9;
  created_at = 100;
  updated_at = 100;
  processed_at = none;
}

abbrev pub stored_item : OrderItem
stored_item = record {
  id = 8;
  order_id = 7;
  product_id = 3;
  quantity = pos 2;
  unit_price = amount 1250;
  total_price = amount 2500;
}

abbrev world_of : Order → World Outside
world_of o = record {
  outside = record {
    store = record { orders = (7, o) ∷ []; items = (7, stored_item ∷ []) ∷ []; commit_count = 1 };
    customers = (1, record { id = 1; active = true }) ∷ [];
    products = (3, record { id = 3; price = amount 1250; active = true }) ∷ [];
    messages = [];
    fail_next = false;
    fail_for = [];
    clock = 200;
    next_id = 9;
  };
  metrics = [];
  log = [];
}

abbrev pub one_order : World Outside
one_order = world_of stored_order

abbrev stuck_order : Order
stuck_order = record stored_order { status = processing }

abbrev pub purchase : CreateOrderInput
purchase = record { customer_id = 1; items = record { product_id = 3; quantity = pos 2 } ∷ [] }

can_transition_iff_example : (can_transition created processing ≡ true) ↔ (created ⟶ processing)
can_transition_iff_example = can_transition_iff created processing

process_ok : (process ports process_payment 7 one_order).0 ≡ ok tt
unfolding runs
process_ok = refl

process-Settles_example :
    Settles port_laws process_payment payment_keeps 7
      (stored_order, stored_item ∷ [])
      one_order
      (process ports process_payment 7 one_order).1
process-Settles_example =
    process-Settles port_laws process_payment payment_keeps 7 one_order
      {o = (stored_order, stored_item ∷ [])} (omega arith) refl refl process_ok

process_others_example : view (process ports process_payment 7 one_order).1.outside 4 ≡ none
process_others_example =
    process_others port_laws process_payment payment_keeps 7 one_order 4 (omega arith)

process-PassesOver_example :
    PassesOver port_laws process_payment payment_keeps 7 (world_of stuck_order)
process-PassesOver_example =
    process-PassesOver port_laws process_payment payment_keeps 7 (world_of stuck_order)
      {o = (stuck_order, stored_item ∷ [])} (omega arith) refl (λ e. cc)

deliver_all_stuck_example :
    view (deliver_all ports process_payment (7 ∷ 7 ∷ 7 ∷ []) (world_of stuck_order)).outside 7
    ≡ some (stuck_order, stored_item ∷ [])
deliver_all_stuck_example =
    deliver_all_stuck port_laws process_payment payment_keeps (7 ∷ 7 ∷ 7 ∷ [])
      (world_of stuck_order) 7 (omega arith) refl refl

abbrev pub answer : Uuid → OrderOutput
answer id = record {
  id = id;
  customer_id = 1;
  status = created;
  total_amount = amount 2500;
  items =
      record {
        product_id = 3;
        quantity = pos 2;
        unit_price = amount 1250;
        total_price = amount 2500;
      }
      ∷ [];
  created_at = 200;
}

create_ok : (create ports 5 purchase one_order).0 ≡ ok (answer 9)
unfolding runs
create_ok = refl

create_correct_example :
    Created ports view 5 purchase (answer 9) one_order (create ports 5 purchase one_order).1
create_correct_example = create_correct port_laws 5 purchase one_order create_ok

transient_failure_repo-RepoLaws_example :
    RepoLaws (transient_failure_repo repository (amount 4242)) view
transient_failure_repo-RepoLaws_example =
    transient_failure_repo-RepoLaws repository_laws (amount 4242)

abbrev canceled_order : Order
canceled_order = record stored_order { status = canceled }

serve_all-IsTerminal_example :
    (b : Stored) × (view
        (serve_all ports process_payment
          (ship_order 7 ∷ process_message 7 ∷ [])
          (world_of canceled_order)).outside
        7
      ≡ some b)
    × (b.0.status ≡ canceled)
serve_all-IsTerminal_example =
    serve_all-IsTerminal port_laws process_payment payment_keeps
      (ship_order 7 ∷ process_message 7 ∷ []) (world_of canceled_order) 7
      {a = (canceled_order, stored_item ∷ [])} refl (inr (inl refl))
