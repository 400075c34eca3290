-- ===== src/Redis.antt =====
-- internal/queue: the producer, the consumer and the retry queue over Redis lists. The Redis client and
-- the JSON encoding of a message are arguments.
pub mod Laws
pub mod Poison
pub mod Journey
use order_service_go_archite.Prelude.{Text, text, List, Result, ok, err, Action}
use order_service_go_archite.Order.Model.{OrderCreatedMessage}
use order_service_go_archite.Worker.{Queues}

-- `LPUSH` of one value, and `BRPOP` of one list with no time-out, which answers with the name of the list
-- and the value.
pub record Client (S : Type 0) : Type 0 where
  pub lpush : Text → Text → Action S Text (Unit {0})
  pub brpop : Text → Action S Text (Text × Text)

-- `json.Marshal` and `json.Unmarshal` of a message.
pub record MessageCodec : Type 0 where
  pub marshal : OrderCreatedMessage → Result Text Text
  pub unmarshal : Text → Result Text OrderCreatedMessage

abbrev pub order_queue_name : Text
order_queue_name = text "orders:processing"

abbrev pub order_dead_letter_queue_name : Text
order_dead_letter_queue_name = text "orders:dead-letter"

module _ {S : Type 0} (client : Client S) (codec : MessageCodec) where
  -- The push that the three publishers share: marshal the message, then LPUSH it.
  unfoldable pub push_payload : Text → Result Text Text → Action S Text (Unit {0})
  push_payload queue (err e) s = (err e, s)
  push_payload queue (ok payload) s = client.lpush queue payload s

  -- `OrderProducer.PublishOrderCreated`.
  unfoldable pub publish_order_created : OrderCreatedMessage → Action S Text (Unit {0})
  unfolding push_payload
  publish_order_created m s = push_payload order_queue_name (codec.marshal m) s

  unfoldable pub after_pop : Result Text (Text × Text) → Result Text OrderCreatedMessage
  after_pop (err e) = err e
  after_pop (ok (_, payload)) = codec.unmarshal payload

  -- `OrderConsumer.Dequeue`.
  unfoldable pub dequeue : Action S Text OrderCreatedMessage
  unfolding after_pop
  dequeue s = let (r, s1) = client.brpop order_queue_name s in (after_pop r, s1)

  -- `OrderRetryQueue.Requeue`.
  unfoldable pub requeue : OrderCreatedMessage → Action S Text (Unit {0})
  unfolding push_payload
  requeue m s = push_payload order_queue_name (codec.marshal m) s

  -- `OrderRetryQueue.DeadLetter`.
  unfoldable pub dead_letter : OrderCreatedMessage → Action S Text (Unit {0})
  unfolding push_payload
  dead_letter m s = push_payload order_dead_letter_queue_name (codec.marshal m) s

  -- The consumer and the retry queue, as the worker's two queues.
  abbrev pub redis_queues : Queues S
  redis_queues = record { dequeue = dequeue; requeue = requeue; dead_letter = dead_letter }
