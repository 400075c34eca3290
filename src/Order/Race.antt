-- ===== src/Order/Race.antt =====
-- internal/order/service.go: `Cancel` loads the order and writes its status in two calls of the repository,
-- and a worker can run `Process` between them.
use order_service_go_archite.Prelude.{◌≡◌, refl, ap, ◌∙◌, ◌≢◌, true, List, some, Result, ok, text}
use order_service_go_archite.Errors.{AppError}
use order_service_go_archite.Order.Status.{created, canceled, status_eq, can_transition}
use order_service_go_archite.Order.Model.{Uuid, nil_uuid, Order, OrderItem, OrderOutput, to_output}
use order_service_go_archite.Order.Ports.{Stored, Ports, Processor, World, call}
use order_service_go_archite.Order.Contract.{View, PortLaws, ProcessorKeeps}
use order_service_go_archite.Order.Contract.Reliable.{Reliable}
use order_service_go_archite.Order.Process.{process}
use order_service_go_archite.Order.Process.Outcome.{Settles}
use order_service_go_archite.Order.Process.Total.{process-Settles_created}
use order_service_go_archite.Order.Service.{after_write, after_load}

-- `Cancel` with a run of `other` between its two calls.
abbrev pub cancel_around :
    {S : Type 0}
    → Ports S
    → (World S → World S)
    → Uuid
    → World S
    → Result AppError OrderOutput × World S
cancel_around p other id w =
    let (r, w1) = call (p.repo.find_by_id id) w in
    after_load p id canceled created (text "only CREATED orders can be canceled") r (other w1)

module _ {S : Type 0} {p : Ports S} {view : View S} (laws : PortLaws p view)
    (reliable : Reliable p.repo view) (processor : Processor S)
    (keeps : ProcessorKeeps processor view) where
  -- The order ended as CANCELED and is reported so, with the time of a payment that was decided before.
  abbrev pub CanceledAfterPayment :
      Uuid → Stored → World S → Result AppError OrderOutput × World S → Type 0
  CanceledAfterPayment id o w (r, w') =
      let before = (process p processor id (call (p.repo.find_by_id id) w).1).1 in
      Settles laws processor keeps id o (call (p.repo.find_by_id id) w).1 before
      × ((out : OrderOutput) × (r ≡ ok out) × (out.status ≡ canceled))
      × ((q : Stored) × (view before.outside id ≡ some q)
          × ((q' : Stored) × (view w'.outside id ≡ some q')
              × (q'.0.status ≡ canceled)
              × (q'.0.processed_at ≡ q.0.processed_at)))
      × (w'.metrics ≡ before.metrics)

  cancel_writes :
      (id : Uuid) (order : Order) (items : List OrderItem) (w : World S) {q : Stored}
      → order.status ≡ created
      → view w.outside id ≡ some q
      → let (r, w') =
          after_load p id canceled created
            (text "only CREATED orders can be canceled")
            (ok (order, items))
            w in
        ((out : OrderOutput) × (r ≡ ok out) × (out.status ≡ canceled))
        × ((q' : Stored) × (view w'.outside id ≡ some q')
            × (q'.0.status ≡ canceled)
            × (q'.0.processed_at ≡ q.0.processed_at))
        × (w'.metrics ≡ w.metrics)
  unfolding after_load after_write can_transition to_output
  cancel_writes id order items w {q} new at =
      let is_new : status_eq order.status created ≡ true = rw new in
      let may : can_transition order.status canceled ≡ true = rw new in
      let good = reliable.updates id canceled w.outside at in
      let (q0, t, before, after) = laws.repo_laws.update_ok id canceled w.outside good in
      let same : q0 ≡ q = cc (before, at) in
      rw (is_new, may, good, after_write)
        (
          (_, refl, refl),
          (_, laws.now_keeps _ id ∙ after, refl, ap (λ (x : Stored). x.0.processed_at) same),
          refl,
        )

  -- When a worker processes a CREATED order between the two calls of its cancellation, the payment is asked
  -- for and its answer recorded, and then the cancellation still succeeds: it reports the order as
  -- CANCELED and stores it so over PAID or FAILED, an edge that the lifecycle does not have.
  pub cancel_races :
      (id : Uuid) (w : World S) {o : Stored}
      → id ≢ nil_uuid
      → view w.outside id ≡ some o
      → o.0.status ≡ created
      → CanceledAfterPayment id o w (cancel_around p (λ w1. (process p processor id w1).1) id w)
  cancel_races id w {o} real at new =
      let w1 = (call (p.repo.find_by_id id) w).1 in
      let loaded = reliable.finds id w.outside at in
      let settles =
        process-Settles_created laws reliable processor keeps id w1 real
          (laws.repo_laws.find_keeps id w.outside id ∙ at) new in
      let (_, after, _) = settles in
      let (answer, stored, quiet) =
        cancel_writes id o.0 o.1 (process p processor id w1).1 new after in
      rw loaded (settles, answer, (_, after, stored), quiet)
