-- ===== src/Worker/Contract.antt =====
-- internal/worker: what the worker relies on of the two queues while they can be reached.
use order_service_go_archite.Prelude.{◌≡◌, List, [], ◌∷◌, ◌++◌, ok, err, Text, IsInt64}
use order_service_go_archite.Order.Model.{Uuid, OrderCreatedMessage}
use order_service_go_archite.Order.Ports.{Ports, Processor, World}
use order_service_go_archite.Order.Process.{process}
use order_service_go_archite.Worker.{Queues, retried}

-- The messages that wait, the next one first, and those in the dead-letter queue, the oldest first.
pub record Queued : Type 0 where
  pub pending : List OrderCreatedMessage
  pub dead : List OrderCreatedMessage

-- While `Ok` holds of the world: first in, first out, and every write of a message that fits arrives.
pub record QueueLaws {S : Type 0} (queues : Queues S) (Ok : S → Type 0)
    (Fits : OrderCreatedMessage → Type 0) (queued : S → Queued) : Type 0 where
  pub dequeue_next :
      (s : S) (m : OrderCreatedMessage) (ms : List OrderCreatedMessage)
      → Ok s
      → (queued s).pending ≡ m ∷ ms
      → ((queues.dequeue s).0 ≡ ok m)
        × (queued (queues.dequeue s).1 ≡ record { pending = ms; dead = (queued s).dead })
        × Ok (queues.dequeue s).1
        × Fits m
  -- A worker waits at an empty queue until it is told to stop.
  pub dequeue_stop :
      (s : S)
      → Ok s
      → (queued s).pending ≡ []
      → (e : Text) × ((queues.dequeue s).0 ≡ err e) × (queued (queues.dequeue s).1 ≡ queued s)
  pub requeue_last :
      (s : S) (m : OrderCreatedMessage)
      → Ok s
      → Fits m
      → ((queues.requeue m s).0 ≡ ok tt)
        × (queued (queues.requeue m s).1
            ≡ record { pending = (queued s).pending ++ m ∷ []; dead = (queued s).dead })
        × Ok (queues.requeue m s).1
  pub dead_letter_last :
      (s : S) (m : OrderCreatedMessage)
      → Ok s
      → Fits m
      → ((queues.dead_letter m s).0 ≡ ok tt)
        × (queued (queues.dead_letter m s).1
            ≡ record { pending = (queued s).pending; dead = (queued s).dead ++ m ∷ [] })
        × Ok (queues.dead_letter m s).1
  -- One more retry, within 64 bits, still fits.
  pub retried_fits : (m : OrderCreatedMessage) → IsInt64 m.retry_count → Fits m → Fits (retried m)

-- Processing an order does not touch the queues.
abbrev pub ProcessKeeps :
    {S : Type 0} → Ports S → Processor S → (S → Type 0) → (S → Queued) → Type 0
ProcessKeeps {S} p processor Ok queued =
    (id : Uuid) (w : World S)
    → (queued (process p processor id w).1.outside ≡ queued w.outside)
      × (Ok w.outside → Ok (process p processor id w).1.outside)
