-- ===== src/Worker.antt =====
-- internal/worker/order_worker.go: the worker that takes messages from the queue, has the order
-- service process them, and sends a failed message back or to the dead-letter queue.
pub mod Contract
pub mod Drain
pub mod Settle
pub mod Memory
use order_service_go_archite.Prelude.{
  ℕ, zero, suc, if◌then◌else◌, List, [], ◌∷◌, ◌++◌, ℤ, pos, ◌+ℤ◌, ltb_ℤ, wrap64, Text, Result, ok,
  err, Action,
}
use order_service_go_archite.Errors.{AppError}
use order_service_go_archite.Order.Model.{Uuid, OrderCreatedMessage}
use order_service_go_archite.Order.Ports.{Ports, Processor, World, call}
use order_service_go_archite.Order.Process.{process}

-- `OrderQueue` and `RetryQueue`: the operations of the two queues.
pub record Queues (S : Type 0) : Type 0 where
  pub dequeue : Action S Text OrderCreatedMessage
  pub requeue : OrderCreatedMessage → Action S Text (Unit {0})
  pub dead_letter : OrderCreatedMessage → Action S Text (Unit {0})

-- The records that the worker logs, with the retry count that each shows.
pub data WorkerLog : Type 0 where
  process_failed requeued requeue_failed dead_lettered dead_letter_failed : Uuid → ℤ → WorkerLog

-- The world of the service, with the worker's log.
pub record Pool (S : Type 0) : Type 0 where
  pub world : World S
  pub log : List WorkerLog

abbrev pub note : {S : Type 0} → (Uuid → ℤ → WorkerLog) → OrderCreatedMessage → Pool S → Pool S
note entry m q = record q { log = q.log ++ entry m.order_id m.retry_count ∷ [] }

abbrev pub queue_call : {S A : Type 0} → Action S Text A → Action (Pool S) Text A
queue_call f q = let (r, w) = call f q.world in (r, record q { world = w })

-- `retryMsg`: the count goes up by one.
unfoldable pub retried : OrderCreatedMessage → OrderCreatedMessage
retried m = record m { retry_count = wrap64 (m.retry_count +ℤ pos 1) }

module _ {S : Type 0} (queues : Queues S) (max_retries : ℤ) where
  unfoldable pub after_requeue : OrderCreatedMessage → Result Text (Unit {0}) → Pool S → Pool S
  after_requeue m (ok _) q = note requeued m q
  after_requeue m (err _) q = note requeue_failed m q

  unfoldable pub after_dead_letter : OrderCreatedMessage → Result Text (Unit {0}) → Pool S → Pool S
  after_dead_letter m (ok _) q = note dead_lettered m q
  after_dead_letter m (err _) q = note dead_letter_failed m q

  -- `handleProcessError`.
  unfoldable pub handle_process_error : OrderCreatedMessage → Pool S → Pool S
  unfolding after_requeue after_dead_letter
  handle_process_error m q0 =
      let q = note process_failed m q0 in
      if ltb_ℤ m.retry_count max_retries
      then (let (r, q1) = queue_call (queues.requeue (retried m)) q in
          after_requeue (retried m) r q1)
      else (let (r, q1) = queue_call (queues.dead_letter m) q in after_dead_letter m r q1)

  module _ (p : Ports S) (processor : Processor S) where
    abbrev pub run_process : Uuid → Action (Pool S) AppError (Unit {0})
    run_process id q = let (r, w) = process p processor id q.world in (r, record q { world = w })

    unfoldable pub after_process :
        OrderCreatedMessage → Result AppError (Unit {0}) → Pool S → Pool S
    after_process m (ok _) q = q
    after_process m (err _) q = handle_process_error m q

    -- One message.
    unfoldable pub handle : OrderCreatedMessage → Pool S → Pool S
    unfolding after_process handle_process_error
    handle m q = let (r, q1) = run_process m.order_id q in after_process m r q1

    -- `runLoop`, for at most the given number of messages: it ends when the queue reports an error,
    -- which it does when the context is cancelled.
    unfoldable pub run_loop : ℕ → Pool S → Pool S
    unfolding handle
    run_loop zero q = q
    run_loop (suc rounds) q =
        let (r, q1) = queue_call queues.dequeue q in
        elim r [ err _ ↦ q1 | ok m ↦ run_loop rounds (handle m q1) ]
