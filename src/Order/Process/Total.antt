-- ===== src/Order/Process/Total.antt =====
-- internal/order/service.go, `Process`: its runs over a repository that can be reached.
use order_service_go_archite.Prelude.{
  ◌≡◌, refl, ◌∙◌, ◌≢◌, Bool-cases, Option-cases, inl, inr, ◌==◌, ℤ, some, List, Text, Result, ok,
  err,
}
use order_service_go_archite.Order.Status.{created, processing, paid, failed, status_eq}
use order_service_go_archite.Order.Status.Graph.{status_eq_iff}
use order_service_go_archite.Order.Model.{Uuid, nil_uuid, Order, OrderItem}
use order_service_go_archite.Order.Ports.{Stored, Ports, Processor, World, call}
use order_service_go_archite.Order.Contract.{View, PortLaws, ProcessorKeeps}
use order_service_go_archite.Order.Contract.Reliable.{Reliable}
use order_service_go_archite.Order.Process.{
  after_mark_failed, after_mark_paid, after_payment, after_update, after_find, process,
}
use order_service_go_archite.Order.Process.Safety.{can_begin}
use order_service_go_archite.Order.Process.Outcome.{Settles, process-Settles}

module _ {S : Type 0} {p : Ports S} {view : View S} (laws : PortLaws p view)
    (reliable : Reliable p.repo view) where
  after_payment-ok :
      (id : Uuid) (d : ℤ) (r : Result Text (Unit {0})) (w : World S) {o : Stored}
      → view w.outside id ≡ some o
      → (after_payment p id d r w).0 ≡ ok tt
  unfolding after_payment after_mark_failed after_mark_paid
  after_payment-ok id d (err c) w at =
      let (t, s) = p.now w.outside in
      rw (reliable.marks id failed t s (laws.now_keeps w.outside id ∙ at), after_mark_failed) refl
  after_payment-ok id d (ok _) w at =
      let (t, s) = p.now w.outside in
      rw (reliable.marks id paid t s (laws.now_keeps w.outside id ∙ at), after_mark_paid) refl

  module _ (processor : Processor S) (keeps : ProcessorKeeps processor view) where
    after_update-ok :
        (id : Uuid) (o : Order) (w : World S) {q : Stored}
        → view w.outside id ≡ some q
        → let (r, w1) = call (p.repo.update_status id processing) w in
          (after_update p processor id o r w1).0 ≡ ok tt
    unfolding after_update
    after_update-ok id o w at =
        let good = reliable.updates id processing w.outside at in
        let (_, _, _, after) = laws.repo_laws.update_ok id processing w.outside good in
        rw (good, after_update)
          (after_payment-ok id _ _ _
            (laws.now_keeps _ id ∙ (keeps o _ id ∙ (laws.now_keeps _ id ∙ after))))

    after_find-ok :
        (id : Uuid) (order : Order) (items : List OrderItem) (w : World S)
        → view w.outside id ≡ some (order, items)
        → (after_find p processor id (ok (order, items)) w).0 ≡ ok tt
    unfolding after_find
    after_find-ok id order items w at = elim (Bool-cases (status_eq order.status created)) [
      | inr late ↦ rw late refl
      | inl new ↦
          rw (new, can_begin ((status_eq_iff order.status created).0 new))
            (after_update-ok id order w at)
    ]

    -- Every run is acknowledged.
    pub process-ok : (id : Uuid) (w : World S) → (process p processor id w).0 ≡ ok tt
    unfolding process after_find
    process-ok id w = elim (Bool-cases (id == nil_uuid)) [
      | inl empty ↦ rw empty refl
      | inr known ↦ elim (Option-cases (view w.outside id)) [
        | inl gone ↦ rw (known, reliable.misses id w.outside gone, after_find) refl
        | inr (o, at) ↦
            rw (known, reliable.finds id w.outside at)
              (after_find-ok id o.0 o.1 _ (laws.repo_laws.find_keeps id w.outside id ∙ at))
      ]
    ]

    -- A CREATED order is settled by a run.
    pub process-Settles_created :
        (id : Uuid) (w : World S) {o : Stored}
        → id ≢ nil_uuid
        → view w.outside id ≡ some o
        → o.0.status ≡ created
        → Settles laws processor keeps id o w (process p processor id w).1
    process-Settles_created id w real at new =
        process-Settles laws processor keeps id w real at new (process-ok id w)
