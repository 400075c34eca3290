-- ===== src/Redis/Poison.antt =====
-- internal/queue/consumer.go with internal/worker/order_worker.go: a payload that is no message.
use order_service_go_archite.Prelude.{ℕ, suc, ◌≡◌, refl, List, [], ◌∷◌, ◌++◌, ℤ, Text, err}
use order_service_go_archite.Order.Ports.{Ports, Processor}
use order_service_go_archite.Worker.{Pool, run_loop}
use order_service_go_archite.Redis.{
  Client, MessageCodec, order_queue_name, after_pop, dequeue, redis_queues,
}
use order_service_go_archite.Redis.Laws.{RedisLaws}

module _ {S : Type 0} {client : Client S} (codec : MessageCodec) {lists : S → Text → List Text}
    (laws : RedisLaws client lists) where
  -- When the oldest payload of the processing list is no message, a worker that takes it has stopped: however
  -- many rounds it is given, the payload is gone, every message behind it still waits, and nothing
  -- was logged or counted.
  pub run_loop_poisoned :
      (p : Ports S) (processor : Processor S) (max : ℤ) (rounds : ℕ) (q : Pool S)
      (front : List Text) (t : Text) {why : Text}
      → lists q.world.outside order_queue_name ≡ front ++ t ∷ []
      → codec.unmarshal t ≡ err why
      → let q' = run_loop (redis_queues client codec) max p processor (suc rounds) q in
        (lists q'.world.outside order_queue_name ≡ front)
        × (q'.log ≡ q.log)
        × (q'.world.metrics ≡ q.world.metrics)
  unfolding run_loop dequeue after_pop
  run_loop_poisoned p processor max rounds q front t is bad =
      let (answer, rest) = laws.pop_oldest order_queue_name t front q.world.outside is in
      rw (answer, after_pop, bad, run_loop) (rest, refl, refl)
