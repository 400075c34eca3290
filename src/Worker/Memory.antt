-- ===== src/Worker/Memory.antt =====
-- internal/order/queue.go: `FakeQueue` and `FakeRetryQueue`, the retry queue linked to the processing
-- queue, beside the order service's in-memory adapters. A worker whose queue is empty waits until its
-- context is cancelled, so `Dequeue` of an empty queue reports an error either way.
pub mod Laws
use order_service_go_archite.Prelude.{
  ◌≡◌, refl, Bool, true, false, if◌then◌else◌, List, [], ◌∷◌, ◌++◌, Text, text, ok, err, Action,
}
use order_service_go_archite.Order.Model.{OrderCreatedMessage}
use order_service_go_archite.Order.Ports.{Ports, Processor}
use order_service_go_archite.Order.Process.Frame.{Leaves, process_leaves}
use order_service_go_archite.Order.Memory
use order_service_go_archite.Order.Memory.{Outside, repository, process_payment}
use order_service_go_archite.Worker.{Queues}
use order_service_go_archite.Worker.Contract.{Queued, QueueLaws, ProcessKeeps}

-- `FakeQueue` and `FakeRetryQueue`.
pub record FakeQueues : Type 0 where
  pub msgs : List OrderCreatedMessage
  pub closed : Bool
  pub requeued : List OrderCreatedMessage
  pub dead_lettered : List OrderCreatedMessage

-- The queues beside the state of the order service's adapters.
pub record Site : Type 0 where
  pub adapters : Outside
  pub fakes : FakeQueues

unfoldable pub enqueue : OrderCreatedMessage → FakeQueues → FakeQueues
enqueue m q = record q { msgs = q.msgs ++ m ∷ [] }

-- `Dequeue`, with the messages of the queue.
unfoldable pub dequeue_from : List OrderCreatedMessage → Action FakeQueues Text OrderCreatedMessage
dequeue_from (m ∷ ms) q = (ok m, record q { msgs = ms })
dequeue_from [] q =
    if q.closed then (err (text "queue closed"), q) else (err (text "context canceled"), q)

-- `Requeue`, `FailRequeue` unset: recorded, then delivered to the processing queue.
unfoldable pub requeue : OrderCreatedMessage → Action FakeQueues Text (Unit {0})
unfolding enqueue
requeue m q = (ok tt, enqueue m (record q { requeued = q.requeued ++ m ∷ [] }))

-- `DeadLetter`, `FailDeadLetter` unset.
unfoldable pub dead_letter : OrderCreatedMessage → Action FakeQueues Text (Unit {0})
dead_letter m q = (ok tt, record q { dead_lettered = q.dead_lettered ++ m ∷ [] })

abbrev on_fakes : {A : Type 0} → Action FakeQueues Text A → Action Site Text A
on_fakes f s = let (r, q) = f s.fakes in (r, record s { fakes = q })

abbrev on_adapters : {E A : Type 0} → Action Outside E A → Action Site E A
on_adapters f s = let (r, o) = f s.adapters in (r, record s { adapters = o })

abbrev pub fake_queues : Queues Site
fake_queues = record {
  dequeue = λ s. on_fakes (dequeue_from s.fakes.msgs) s;
  requeue = λ m. on_fakes (requeue m);
  dead_letter = λ m. on_fakes (dead_letter m);
}

abbrev pub site_ports : Ports Site
site_ports = record {
  repo = record {
    create_with_items = λ o items. on_adapters (repository.create_with_items o items);
    find_by_id = λ id. on_adapters (repository.find_by_id id);
    update_status = λ id st. on_adapters (repository.update_status id st);
    mark_processed = λ id st t. on_adapters (repository.mark_processed id st t);
    list = λ f. on_adapters (repository.list f);
  };
  find_customer = λ id. on_adapters (Memory.ports.find_customer id);
  find_products = λ ids. on_adapters (Memory.ports.find_products ids);
  publish = λ m. on_adapters (Memory.ports.publish m);
  now = λ s. let (t, o) = Memory.ports.now s.adapters in (t, record s { adapters = o });
  new_id = λ s. let (id, o) = Memory.ports.new_id s.adapters in (id, record s { adapters = o });
}

abbrev pub site_payment : Processor Site
site_payment o = on_adapters (process_payment o)

abbrev pub queued : Site → Queued
queued s = record { pending = s.fakes.msgs; dead = s.fakes.dead_lettered }

pub fake_queues-QueueLaws : QueueLaws fake_queues (λ _. Unit {0}) (λ _. Unit {0}) queued
unfolding dequeue_from requeue dead_letter enqueue
fake_queues-QueueLaws = record {
  dequeue_next = λ s m ms _ e. rw (e, dequeue_from) (refl, refl, tt, tt);
  dequeue_stop = λ s _ e. stop s e;
  requeue_last = λ s m _ _. (refl, refl, tt);
  dead_letter_last = λ s m _ _. (refl, refl, tt);
  retried_fits = λ m _ _. tt;
}
  where
    stop :
        (s : Site)
        → s.fakes.msgs ≡ []
        → (t : Text) × ((fake_queues.dequeue s).0 ≡ err t)
          × (queued (fake_queues.dequeue s).1 ≡ queued s)
    stop s e = go s.fakes.closed refl
      where
        go :
            (b : Bool)
            → s.fakes.closed ≡ b
            → (t : Text) × ((fake_queues.dequeue s).0 ≡ err t)
              × (queued (fake_queues.dequeue s).1 ≡ queued s)
        go true c =
            (text "queue closed", rw (e, dequeue_from, c) refl, rw (e, dequeue_from, c) refl)
        go false c =
            (text "context canceled", rw (e, dequeue_from, c) refl, rw (e, dequeue_from, c) refl)

queues_stay : Leaves site_ports site_payment queued
queues_stay = record {
  find_leaves = λ id s. refl;
  update_leaves = λ id st s. refl;
  mark_leaves = λ id st t s. refl;
  now_leaves = λ s. refl;
  payment_leaves = λ o s. refl;
}

pub process_keeps : ProcessKeeps site_ports site_payment (λ _. Unit {0}) queued
process_keeps id w = (process_leaves queues_stay id w, λ _. tt)
