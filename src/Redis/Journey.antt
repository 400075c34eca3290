-- ===== src/Redis/Journey.antt =====
-- The API and the worker together, over one Redis: internal/order/service.go, internal/queue and
-- internal/worker.
use order_service_go_archite.Prelude.{
  ℕ, suc, ◌+◌, ◌≡◌, sym, ap, ◌∙◌, ◌≢◌, subst, List, [], ◌∷◌, ◌++◌, length, length-append, pos, Text,
  Result, Result-cases, inl, inr, ok, arith,
}
use order_service_go_archite.Order.Model.{
  Uuid, nil_uuid, OrderCreatedMessage, CreateOrderInput, OrderOutput, to_output,
}
use order_service_go_archite.Order.Ports.{Ports, Processor, World}
use order_service_go_archite.Order.Contract.{View, PortLaws, ProcessorKeeps}
use order_service_go_archite.Order.Contract.Reliable.{Reliable}
use order_service_go_archite.Order.Create.{message_of, create}
use order_service_go_archite.Order.Create.Correct.{create_correct}
use order_service_go_archite.Worker.{Pool, run_loop}
use order_service_go_archite.Worker.Contract.{ProcessKeeps}
use order_service_go_archite.Worker.Settle.{IsSettled, DequeueKeeps, run_loop_settles}
use order_service_go_archite.Redis.{
  Client, MessageCodec, order_queue_name, push_payload, publish_order_created, redis_queues,
}
use order_service_go_archite.Redis.Laws.{
  RedisLaws, MessageLaws, waiting, waiting-message, Readable, redis_queued, redis_queues-QueueLaws,
}

module _ {S : Type 0} {client : Client S} {codec : MessageCodec} {lists : S → Text → List Text}
    (laws : RedisLaws client lists) (message_laws : MessageLaws codec) where
  -- A publication that succeeded has left its message as the last to wait.
  published :
      (s : S) (m : OrderCreatedMessage)
      → (publish_order_created client codec m s).0 ≡ ok tt
      → (redis_queued laws message_laws (publish_order_created client codec m s).1).pending
        ≡ (redis_queued laws message_laws s).pending ++ m ∷ []
  unfolding publish_order_created push_payload
  published s m sent = elim (Result-cases (codec.marshal m)) [
    | inr (why, bad) ↦ absurd (let e = rw (bad, push_payload) at sent in cc)
    | inl (t, written) ↦
        rw (written, push_payload)
          (ap (waiting codec) ((laws.push_arrives order_queue_name t s).1)
            ∙ waiting-message codec t (lists s order_queue_name)
                (message_laws.unmarshal-marshal m t written))
  ]

  module _ {p : Ports S} {view : View S} (port_laws : PortLaws p view)
      (producer : (m : OrderCreatedMessage) (s : S)
        → p.publish m s ≡ publish_order_created client codec m s)
      (reliable : Reliable p.repo view) (processor : Processor S)
      (keeps : ProcessorKeeps processor view)
      (apart : DequeueKeeps (redis_queues client codec) view)
      (stays : ProcessKeeps p processor
        (Readable laws message_laws)
        (redis_queued laws message_laws))
      (max : ℕ) where
    -- From the request to the payment: an order that the API has reported as created, over ports whose producer
    -- is the Redis one, is settled by a worker that starts from there. After as many rounds as messages
    -- wait, and any number more, it is PAID or FAILED.
    pub create_settles :
        (created_by : Uuid) (input : CreateOrderInput) (w : World S) (q : Pool S) (more : ℕ)
        {out : OrderOutput}
        → (create p created_by input w).0 ≡ ok out
        → out.id ≢ nil_uuid
        → q.world.outside ≡ (create p created_by input w).1.outside
        → Readable laws message_laws q.world.outside
        → let rounds = length (redis_queued laws message_laws q.world.outside).pending + more in
          IsSettled (
            view
              (run_loop (redis_queues client codec) (pos max) p processor rounds q).world.outside
              out.id)
    unfolding to_output
    create_settles created_by input w q more {out} answered real from fine =
        let c = create_correct port_laws created_by input w answered in
        let (s, _, sent, last) = c.announced in
        let m = message_of c.order in
        let same_id : out.id ≡ c.order.id = ap (λ (x : OrderOutput). x.id) c.answered in
        let sent' : (publish_order_created client codec m s).0 ≡ ok tt =
          sym (ap (λ (x : Result Text (Unit {0}) × S). x.0) (producer m s)) ∙ sent in
        let there : q.world.outside ≡ (publish_order_created client codec m s).1 =
          from ∙ (last ∙ ap (λ (x : Result Text (Unit {0}) × S). x.1) (producer m s)) in
        let front = (redis_queued laws message_laws s).pending in
        let waits : (redis_queued laws message_laws q.world.outside).pending ≡ front ++ m ∷ [] =
          ap (λ (x : S). (redis_queued laws message_laws x).pending) there ∙ published s m sent' in
        let rounds : length (redis_queued laws message_laws q.world.outside).pending + more
            ≡ suc (length front + more) =
          ap (λ (x : List OrderCreatedMessage). length x + more) waits
          ∙ omega (arith, length-append front (m ∷ [])) in
        rw same_id (
          rw rounds (
            run_loop_settles port_laws reliable processor keeps
              (redis_queues-QueueLaws laws message_laws) apart stays max q front m [] more
              {o = (c.order, c.items)} fine waits (subst (λ x. x ≢ nil_uuid) same_id real)
              (ap (λ (x : S). view x c.order.id) from ∙ c.stored) c.new))
