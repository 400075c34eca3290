-- ===== src/Worker/Settle.antt =====
-- internal/worker with internal/order: an order that was announced, while the repository and the
-- queues can be reached.
use native.Mathlib.Decide.{ℕ_discrete}
use order_service_go_archite.Prelude.{
  ℕ, zero, suc, ◌+◌, ◌≤◌, ◌≡◌, refl, subst, ap, ◌∙◌, ◌≢◌, ◌⊎◌, inl, inr, Option, some, List, [],
  ◌∷◌, ◌++◌, length, pos, ok, err, Result, arith,
}
use order_service_go_archite.Order.Status.{OrderStatus, created, paid, failed}
use order_service_go_archite.Order.Model.{Uuid, nil_uuid, OrderCreatedMessage}
use order_service_go_archite.Order.Ports.{Stored, Ports, Processor, World}
use order_service_go_archite.Order.Contract.{View, PortLaws, ProcessorKeeps}
use order_service_go_archite.Order.Contract.Reliable.{Reliable}
use order_service_go_archite.Order.Process.{process}
use order_service_go_archite.Order.Process.Total.{process-ok, process-Settles_created}
use order_service_go_archite.Order.Process.Outcome.{verdict}
use order_service_go_archite.Order.Process.Redelivery.{process_others, process-PassesOver}
use order_service_go_archite.Worker.{Queues, Pool, queue_call, after_process, handle, run_loop}
use order_service_go_archite.Worker.Contract.{Queued, QueueLaws, ProcessKeeps}

-- Taking a message from the queue leaves the orders alone.
abbrev pub DequeueKeeps : {S : Type 0} → Queues S → View S → Type 0
DequeueKeeps {S} queues view = (s : S) (j : Uuid) → view (queues.dequeue s).1 j ≡ view s j

-- The order is stored, and its payment has been decided.
abbrev pub IsSettled : Option Stored → Type 0
IsSettled entry = (o : Stored) × (entry ≡ some o) × ((o.0.status ≡ paid) ⊎ (o.0.status ≡ failed))

settled_late : {st : OrderStatus} → (st ≡ paid) ⊎ (st ≡ failed) → st ≢ created
settled_late h e = ground arith

verdict-cases : (r : Result (List ℕ) (Unit {0})) → (verdict r ≡ paid) ⊎ (verdict r ≡ failed)
verdict-cases (ok _) = inl refl
verdict-cases (err _) = inr refl

module _ {S : Type 0} {p : Ports S} {view : View S} (laws : PortLaws p view)
    (reliable : Reliable p.repo view) (processor : Processor S)
    (keeps : ProcessorKeeps processor view) where
  process-IsSettled :
      (id : Uuid) (w : World S) {o : Stored}
      → id ≢ nil_uuid
      → view w.outside id ≡ some o
      → o.0.status ≡ created
      → IsSettled (view (process p processor id w).1.outside id)
  process-IsSettled id w real at new =
      let (_, after, _) = process-Settles_created laws reliable processor keeps id w real at new in
      (_, after, verdict-cases _)

  -- A settled order stays so, and a CREATED one is touched by its own message alone.
  IsSettled-stays :
      (i id : Uuid) (w : World S)
      → id ≢ nil_uuid
      → IsSettled (view w.outside id)
      → IsSettled (view (process p processor i w).1.outside id)
  IsSettled-stays i id w real (o, at, done) = elim (ℕ_discrete id i) [
    | no other ↦ (o, process_others laws processor keeps i w id other ∙ at, done)
    | yes same ↦
        subst (λ x. IsSettled (view (process p processor x w).1.outside id)) same
          (
            o,
            (process-PassesOver laws processor keeps id w real at (settled_late done)).1 id ∙ at,
            done,
          )
  ]

  module _ {queues : Queues S} {Ok : S → Type 0} {Fits : OrderCreatedMessage → Type 0}
      {queued : S → Queued} (queue_laws : QueueLaws queues Ok Fits queued)
      (apart : DequeueKeeps queues view) (stays : ProcessKeeps p processor Ok queued)
      (max : ℕ) where
    handle-world :
        (m : OrderCreatedMessage) (q : Pool S)
        → (handle queues (pos max) p processor m q).world
          ≡ (process p processor m.order_id q.world).1
    unfolding handle
    handle-world m q =
        rw (process-ok laws reliable processor keeps m.order_id q.world, after_process) refl

    -- One round that takes `m`: the orders are as after a run on `m`, and the rest of the queue waits.
    round :
        (m : OrderCreatedMessage) (ms : List OrderCreatedMessage) (q : Pool S)
        → Ok q.world.outside
        → (queued q.world.outside).pending ≡ m ∷ ms
        → let q1 = (queue_call queues.dequeue q).1 in
          let q2 = handle queues (pos max) p processor m q1 in
          (queued q2.world.outside ≡ record { pending = ms; dead = (queued q.world.outside).dead })
          × (q2.world ≡ (process p processor m.order_id q1.world).1)
          × Ok q2.world.outside
    round m ms q fine waiting =
        let (taken, rest, fine1, _) = queue_laws.dequeue_next q.world.outside m ms fine waiting in
        let q1 : Pool S = (queue_call queues.dequeue q).1 in
        let is = handle-world m q1 in
        (
          ap (λ (x : World S). queued x.outside) is ∙ ((stays m.order_id q1.world).0 ∙ rest),
          is,
          rw is ((stays m.order_id q1.world).1 fine1),
        )

    keeps-IsSettled :
        (rounds : ℕ) (q : Pool S) (ms : List OrderCreatedMessage) (id : Uuid)
        → Ok q.world.outside
        → (queued q.world.outside).pending ≡ ms
        → id ≢ nil_uuid
        → IsSettled (view q.world.outside id)
        → IsSettled (view (run_loop queues (pos max) p processor rounds q).world.outside id)
    unfolding run_loop
    keeps-IsSettled zero q ms id fine waiting real done = done
    keeps-IsSettled (suc rounds) q [] id fine waiting real done =
        let (e, stops, same) = queue_laws.dequeue_stop q.world.outside fine waiting in
        rw (stops, run_loop) (rw (apart q.world.outside id) done)
    keeps-IsSettled (suc rounds) q (m ∷ ms) id fine waiting real done =
        let (taken, _, _, _) = queue_laws.dequeue_next q.world.outside m ms fine waiting in
        let q1 : Pool S = (queue_call queues.dequeue q).1 in
        let (rest, is, fine2) = round m ms q fine waiting in
        rw (taken, run_loop)
          (keeps-IsSettled rounds (handle queues (pos max) p processor m q1) ms id fine2
            (ap (λ (x : Queued). x.pending) rest) real
            (rw is
              (IsSettled-stays m.order_id id q1.world real (rw (apart q.world.outside id) done))))

    -- Either the order is settled already, or it is CREATED.
    abbrev Open : Option Stored → Type 0
    Open entry = IsSettled entry ⊎ ((o : Stored) × (entry ≡ some o) × (o.0.status ≡ created))

    process-Open :
        (i id : Uuid) (w : World S)
        → id ≢ nil_uuid
        → Open (view w.outside id)
        → Open (view (process p processor i w).1.outside id)
    process-Open i id w real (inl done) = inl (IsSettled-stays i id w real done)
    process-Open i id w real (inr (o, at, new)) = elim (ℕ_discrete id i) [
      | no other ↦ inr (o, process_others laws processor keeps i w id other ∙ at, new)
      | yes same ↦ inl (
          subst (λ x. IsSettled (view (process p processor x w).1.outside id)) same
            (process-IsSettled id w real at new))
    ]

    -- A run on the order itself settles it.
    process_closes :
        (id : Uuid) (w : World S)
        → id ≢ nil_uuid
        → Open (view w.outside id)
        → IsSettled (view (process p processor id w).1.outside id)
    process_closes id w real (inl done) = IsSettled-stays id id w real done
    process_closes id w real (inr (o, at, new)) = process-IsSettled id w real at new

    settles_from :
        (rounds : ℕ) (q : Pool S) (front : List OrderCreatedMessage) (m : OrderCreatedMessage)
        (back : List OrderCreatedMessage)
        → Ok q.world.outside
        → (queued q.world.outside).pending ≡ front ++ m ∷ back
        → length front ≤ rounds
        → m.order_id ≢ nil_uuid
        → Open (view q.world.outside m.order_id)
        → IsSettled
            (view (run_loop queues (pos max) p processor (suc rounds) q).world.outside m.order_id)
    unfolding run_loop
    settles_from rounds q [] m back fine waiting enough real either =
        let (taken, _, _, _) = queue_laws.dequeue_next q.world.outside m back fine waiting in
        let q1 : Pool S = (queue_call queues.dequeue q).1 in
        let (rest, is, fine2) = round m back q fine waiting in
        rw (taken, run_loop)
          (keeps-IsSettled rounds (handle queues (pos max) p processor m q1) back m.order_id fine2
            (ap (λ (x : Queued). x.pending) rest) real
            (rw is (
              process_closes m.order_id q1.world real
                (rw (apart q.world.outside m.order_id) either))))
    settles_from zero q (n ∷ front) m back fine waiting enough real either = absurd (omega arith)
    settles_from (suc rounds) q (n ∷ front) m back fine waiting enough real either =
        let (taken, _, _, _) =
          queue_laws.dequeue_next q.world.outside n (front ++ m ∷ back) fine waiting in
        let q1 : Pool S = (queue_call queues.dequeue q).1 in
        let (rest, is, fine2) = round n (front ++ m ∷ back) q fine waiting in
        rw (taken, run_loop)
          (settles_from rounds (handle queues (pos max) p processor n q1) front m back fine2
            (ap (λ (x : Queued). x.pending) rest) (omega arith) real
            (rw is (
              process-Open n.order_id m.order_id q1.world real
                (rw (apart q.world.outside m.order_id) either))))

    -- While the repository and the queues answer, a CREATED order whose message waits is settled once a
    -- worker has taken that message: after as many rounds as messages wait up to it, and any number more,
    -- the order is PAID or FAILED.
    pub run_loop_settles :
        (q : Pool S) (front : List OrderCreatedMessage) (m : OrderCreatedMessage)
        (back : List OrderCreatedMessage) (more : ℕ) {o : Stored}
        → Ok q.world.outside
        → (queued q.world.outside).pending ≡ front ++ m ∷ back
        → m.order_id ≢ nil_uuid
        → view q.world.outside m.order_id ≡ some o
        → o.0.status ≡ created
        → IsSettled (
            view
              (run_loop queues (pos max) p processor (suc (length front + more)) q).world.outside
              m.order_id)
    run_loop_settles q front m back more {o} fine waiting real at new =
        settles_from (length front + more) q front m back fine waiting (omega arith) real
          (inr (o, at, new))
