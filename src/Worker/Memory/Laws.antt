-- ===== src/Worker/Memory/Laws.antt =====
-- internal/order/queue.go, repository.go: the in-memory site meets what the service and the worker rely on.
use order_service_go_archite.Prelude.{refl, arith}
use order_service_go_archite.Order.Repository
use order_service_go_archite.Order.Contract.{View, PortLaws, ProcessorKeeps}
use order_service_go_archite.Order.Contract.Lift.{lift_repository-RepoLaws}
use order_service_go_archite.Order.Contract.Reliable.{Reliable}
use order_service_go_archite.Order.Memory.Laws as Adapters
use order_service_go_archite.Worker.Settle.{DequeueKeeps}
use order_service_go_archite.Worker.Memory.{Site, site_ports, site_payment, fake_queues}

abbrev pub site_view : View Site
site_view s id = Adapters.view s.adapters id

pub site_laws : PortLaws site_ports site_view
site_laws =
    let outer = Adapters.port_laws in
    record {
      repo_laws =
          lift_repository-RepoLaws (λ (s : Site). s.adapters) (λ o s. record s { adapters = o })
            (λ o s. refl) Adapters.view outer.repo_laws;
      customer_keeps = λ id s j. refl;
      products_keep = λ ids s j. refl;
      publish_keeps = λ m s j. outer.publish_keeps m s.adapters j;
      now_keeps = λ s j. refl;
      new_id_keeps = λ s j. refl;
      new_id_fresh = λ s. outer.new_id_fresh s.adapters;
    }

pub site_payment_keeps : ProcessorKeeps site_payment site_view
site_payment_keeps o s j = Adapters.payment_keeps o s.adapters j

pub site-Reliable : Reliable site_ports.repo site_view
unfolding Repository.find_by_id Repository.update_status Repository.mark_processed
site-Reliable = record {
  finds = λ id s e. ground arith;
  misses = λ id s e. ground arith;
  updates = λ id st s e. ground arith;
  marks = λ id st t s e. ground arith;
}

pub dequeue_keeps : DequeueKeeps fake_queues site_view
dequeue_keeps s j = refl
