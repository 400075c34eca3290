-- ===== src/Tests/Workers.antt =====
-- internal/worker: a worker over the in-memory queues.
use order_service_go_archite.Prelude.{ℕ, suc, ◌+◌, refl, false, [], ◌∷◌, pos, text, arith}
use order_service_go_archite.Order.Model.{OrderCreatedMessage}
use order_service_go_archite.Order.Process.{process}
use order_service_go_archite.Order.Race.{CanceledAfterPayment, cancel_around, cancel_races}
use order_service_go_archite.Worker.{Pool, run_loop}
use order_service_go_archite.Worker.Contract.{Queued}
use order_service_go_archite.Worker.Drain.{work, Drained, run_loop_drains}
use order_service_go_archite.Worker.Memory.{
  Site, fake_queues, site_ports, site_payment, queued, fake_queues-QueueLaws, process_keeps,
}
use order_service_go_archite.Worker.Settle.{IsSettled, run_loop_settles}
use order_service_go_archite.Worker.Memory.Laws.{
  site_view, site_laws, site-Reliable, site_payment_keeps, dequeue_keeps,
}
use order_service_go_archite.Tests.Orders.{one_order, stored_order, stored_item}

abbrev message : ℕ → ℕ → OrderCreatedMessage
message id n = record {
  order_id = id;
  event = text "order.created";
  created_at = 100;
  retry_count = pos n;
}

-- An order that waits, and a message for an order that the store does not have.
abbrev two_messages : Pool Site
two_messages = record {
  world = record {
    outside = record {
      adapters = one_order.outside;
      fakes = record {
        msgs = message 7 0 ∷ message 5 3 ∷ [];
        closed = false;
        requeued = [];
        dead_lettered = [];
      };
    };
    metrics = [];
    log = [];
  };
  log = [];
}

abbrev at_start : Queued
at_start = queued two_messages.world.outside

run_loop_drains_example : Drained 3 (omega arith) at_start (
    queued
      (run_loop fake_queues
        (pos 3)
        site_ports
        site_payment
        (work 3 at_start.pending)
        two_messages).world.outside)
run_loop_drains_example =
    run_loop_drains fake_queues-QueueLaws 3 (omega arith) site_ports site_payment process_keeps
      two_messages tt
      (((omega arith, omega arith), omega arith), (((omega arith, omega arith), omega arith), tt))

run_loop_settles_example : IsSettled (
    site_view
      (run_loop fake_queues
        (pos 3)
        site_ports
        site_payment
        (suc (0 + 4))
        two_messages).world.outside
      7)
run_loop_settles_example =
    run_loop_settles site_laws site-Reliable site_payment site_payment_keeps fake_queues-QueueLaws
      dequeue_keeps process_keeps 3 two_messages [] (message 7 0) (message 5 3 ∷ []) 4
      {o = (stored_order, stored_item ∷ [])} tt refl (omega arith) refl refl

cancel_races_example :
    CanceledAfterPayment site_laws site-Reliable site_payment site_payment_keeps 7
      (stored_order, stored_item ∷ [])
      two_messages.world
      (cancel_around site_ports
        (λ w1. (process site_ports site_payment 7 w1).1)
        7
        two_messages.world)
cancel_races_example =
    cancel_races site_laws site-Reliable site_payment site_payment_keeps 7 two_messages.world
      {o = (stored_order, stored_item ∷ [])} (omega arith) refl refl
