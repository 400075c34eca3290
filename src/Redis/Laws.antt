-- ===== src/Redis/Laws.antt =====
-- internal/queue: the queues over a Redis that can be reached, against the contract of the worker.
use order_service_go_archite.Prelude.{
  ◌≡◌, refl, sym, ap, ◌∙◌, ◌≢◌, subst, List, [], ◌∷◌, ◌++◌, Text, Result-cases, inl, inr, ok, err,
  IsInt64, ◌⊎◌, arith,
}
use order_service_go_archite.Order.Model.{OrderCreatedMessage}
use order_service_go_archite.Worker.{retried}
use order_service_go_archite.Worker.Contract.{Queued, QueueLaws}
use order_service_go_archite.Redis.{
  Client, MessageCodec, order_queue_name, order_dead_letter_queue_name, push_payload,
  publish_order_created, after_pop, dequeue, requeue, dead_letter, redis_queues,
}

-- The lists of the server, the newest value first: what the client relies on of a server in reach.
pub record RedisLaws {S : Type 0} (client : Client S) (lists : S → Text → List Text) : Type 0 where
  pub push_arrives :
      (k v : Text) (s : S)
      → ((client.lpush k v s).0 ≡ ok tt) × (lists (client.lpush k v s).1 k ≡ v ∷ lists s k)
  pub push_others :
      (k v : Text) (s : S) (j : Text) → j ≢ k → lists (client.lpush k v s).1 j ≡ lists s j
  pub pop_oldest :
      (k v : Text) (front : List Text) (s : S)
      → lists s k ≡ front ++ v ∷ []
      → ((client.brpop k s).0 ≡ ok (k, v)) × (lists (client.brpop k s).1 k ≡ front)
  -- The wait at an empty list ends when the context is cancelled.
  pub pop_empty :
      (k : Text) (s : S)
      → lists s k ≡ []
      → (e : Text) × ((client.brpop k s).0 ≡ err e) × (lists (client.brpop k s).1 k ≡ [])
  pub pop_others : (k : Text) (s : S) (j : Text) → j ≢ k → lists (client.brpop k s).1 j ≡ lists s j

-- A message that is written as JSON and read back.
abbrev pub Encodes : MessageCodec → OrderCreatedMessage → Type 0
Encodes codec m = (t : Text) × (codec.marshal m ≡ ok t) × (codec.unmarshal t ≡ ok m)

pub record MessageLaws (codec : MessageCodec) : Type 0 where
  -- What was read from JSON can be written.
  pub unmarshal_encodes :
      (t : Text) (m : OrderCreatedMessage) → codec.unmarshal t ≡ ok m → Encodes codec m
  -- What was written is read back.
  pub unmarshal-marshal :
      (m : OrderCreatedMessage) (t : Text) → codec.marshal m ≡ ok t → codec.unmarshal t ≡ ok m
  pub retried_encodes :
      (m : OrderCreatedMessage)
      → IsInt64 m.retry_count
      → Encodes codec m
      → Encodes codec (retried m)

names_differ : order_dead_letter_queue_name ≢ order_queue_name
names_differ e = ground arith

module _ (codec : MessageCodec) where
  -- The messages of a list, the oldest first; a payload that is none is left out.
  abbrev pub waiting : List Text → List OrderCreatedMessage
  waiting [] = []
  waiting (t ∷ ts) = elim (codec.unmarshal t) [ ok m ↦ waiting ts ++ m ∷ [] | err _ ↦ waiting ts ]

  abbrev pub AllMessages : List Text → Type 0
  AllMessages [] = Unit
  AllMessages (t ∷ ts) = ((m : OrderCreatedMessage) × (codec.unmarshal t ≡ ok m)) × AllMessages ts

  pub waiting-message :
      (t : Text) (ts : List Text) {m : OrderCreatedMessage}
      → codec.unmarshal t ≡ ok m
      → waiting (t ∷ ts) ≡ waiting ts ++ m ∷ []
  waiting-message t ts e = rw (e, waiting) refl

  waiting-noise :
      (t : Text) (ts : List Text) {e : Text}
      → codec.unmarshal t ≡ err e
      → waiting (t ∷ ts) ≡ waiting ts
  waiting-noise t ts e = rw (e, waiting) refl

  oldest :
      (front : List Text) (t : Text) {m : OrderCreatedMessage}
      → codec.unmarshal t ≡ ok m
      → waiting (front ++ t ∷ []) ≡ m ∷ waiting front
  oldest [] t e = waiting-message t [] e
  oldest (u ∷ front) t {m} e = elim (Result-cases (codec.unmarshal u)) [
    | inl (n, good) ↦
        waiting-message u (front ++ t ∷ []) good
        ∙ (ap (λ (x : List OrderCreatedMessage). x ++ n ∷ []) (oldest front t e)
            ∙ ap (λ (x : List OrderCreatedMessage). m ∷ x) (sym (waiting-message u front good)))
    | inr (_, bad) ↦
        waiting-noise u (front ++ t ∷ []) bad
        ∙ (oldest front t e
            ∙ ap (λ (x : List OrderCreatedMessage). m ∷ x) (sym (waiting-noise u front bad)))
  ]

  AllMessages-last :
      (front : List Text) (t : Text)
      → AllMessages (front ++ t ∷ [])
      → AllMessages front × ((m : OrderCreatedMessage) × (codec.unmarshal t ≡ ok m))
  AllMessages-last [] t (h, _) = (tt, h)
  AllMessages-last (u ∷ front) t (h, hs) =
      let (all, last) = AllMessages-last front t hs in ((h, all), last)

  waiting_some : (l : List Text) → AllMessages l → waiting l ≡ [] → l ≡ []
  waiting_some [] h e = refl
  waiting_some (t ∷ ts) ((m, good), hs) e =
      absurd (not_empty (waiting ts) m (sym (waiting-message t ts good) ∙ e))
    where
      not_empty : (ms : List OrderCreatedMessage) (m : OrderCreatedMessage) → ms ++ m ∷ [] ≡ [] → ⊥
      not_empty [] m e = cc
      not_empty (n ∷ ms) m e = cc

last-cases : (l : List Text) → (l ≡ []) ⊎ ((front : List Text) × (t : Text) × (l ≡ front ++ t ∷ []))
last-cases [] = inl refl
last-cases (t ∷ ts) = elim (last-cases ts) [
  | inl e ↦ inr ([], t, rw e refl)
  | inr (front, u, e) ↦ inr (t ∷ front, u, rw e refl)
]

module _ {S : Type 0} {client : Client S} {codec : MessageCodec} {lists : S → Text → List Text}
    (laws : RedisLaws client lists) (message_laws : MessageLaws codec) where
  abbrev pub redis_queued : S → Queued
  redis_queued s = record {
    pending = waiting codec (lists s order_queue_name);
    dead = waiting codec (lists s order_dead_letter_queue_name);
  }

  -- Every payload that waits is a message.
  abbrev pub Readable : S → Type 0
  Readable s = AllMessages codec (lists s order_queue_name)

  pop :
      (s : S) (m : OrderCreatedMessage) (ms : List OrderCreatedMessage)
      → Readable s
      → waiting codec (lists s order_queue_name) ≡ m ∷ ms
      → let s1 = (dequeue client codec s).1 in
        ((dequeue client codec s).0 ≡ ok m)
        × (redis_queued s1 ≡ record { pending = ms; dead = (redis_queued s).dead })
        × Readable s1
        × Encodes codec m
  unfolding dequeue after_pop
  pop s m ms fine next = elim (last-cases (lists s order_queue_name)) [
    | inl empty ↦ absurd (let e = rw empty at next in cc)
    | inr (front, t, is) ↦
        let (answer, rest) = laws.pop_oldest order_queue_name t front s is in
        let (all, (n, good)) = AllMessages-last codec front t (subst (AllMessages codec) is fine) in
        let shown : n ∷ waiting codec front ≡ m ∷ ms =
          sym (oldest codec front t good) ∙ (ap (waiting codec) (sym is) ∙ next) in
        let same : n ≡ m = cc (shown) in
        let others : waiting codec front ≡ ms = cc (shown) in
        (
          rw (answer, after_pop) (good ∙ ap (λ (x : OrderCreatedMessage). ok x) same),
          (λ i. record {
            pending = (ap (waiting codec) rest ∙ others) i;
            dead =
                waiting codec
                  (laws.pop_others order_queue_name s order_dead_letter_queue_name names_differ i);
          }),
          subst (AllMessages codec) (sym rest) all,
          message_laws.unmarshal_encodes t m (good ∙ ap (λ (x : OrderCreatedMessage). ok x) same),
        )
  ]

  stop :
      (s : S)
      → Readable s
      → (redis_queued s).pending ≡ []
      → (e : Text) × ((dequeue client codec s).0 ≡ err e)
        × (redis_queued (dequeue client codec s).1 ≡ redis_queued s)
  unfolding dequeue after_pop
  stop s fine none_waits =
      let empty = waiting_some codec (lists s order_queue_name) fine none_waits in
      let (e, answer, rest) = laws.pop_empty order_queue_name s empty in
      (
        e,
        rw (answer, after_pop) refl,
        λ i. record {
          pending = ap (waiting codec) (rest ∙ sym empty) i;
          dead =
              waiting codec
                (laws.pop_others order_queue_name s order_dead_letter_queue_name names_differ i);
        },
      )

  -- A push to the processing list is the last message to wait.
  push_last :
      (s : S) (m : OrderCreatedMessage)
      → Readable s
      → Encodes codec m
      → let (r, s1) = push_payload client codec order_queue_name (codec.marshal m) s in
        (r ≡ ok tt)
        × (redis_queued s1
            ≡ record { pending = (redis_queued s).pending ++ m ∷ []; dead = (redis_queued s).dead })
        × Readable s1
  unfolding push_payload
  push_last s m fine (t, written, read) =
      let (arrives, there) = laws.push_arrives order_queue_name t s in
      rw (written, push_payload)
        (
          arrives,
          λ i. record {
            pending =
                (ap (waiting codec) there ∙ waiting-message codec t (lists s order_queue_name) read)
                  i;
            dead =
                waiting codec (
                  laws.push_others order_queue_name t s order_dead_letter_queue_name names_differ
                    i);
          },
          subst (AllMessages codec) (sym there) ((m, read), fine),
        )

  push_dead :
      (s : S) (m : OrderCreatedMessage)
      → Readable s
      → Encodes codec m
      → let (r, s1) = push_payload client codec order_dead_letter_queue_name (codec.marshal m) s in
        (r ≡ ok tt)
        × (redis_queued s1
            ≡ record { pending = (redis_queued s).pending; dead = (redis_queued s).dead ++ m ∷ [] })
        × Readable s1
  unfolding push_payload
  push_dead s m fine (t, written, read) =
      let dead = order_dead_letter_queue_name in
      let (arrives, there) = laws.push_arrives dead t s in
      let apart = laws.push_others dead t s order_queue_name (λ e. names_differ (sym e)) in
      rw (written, push_payload)
        (
          arrives,
          λ i. record {
            pending = waiting codec (apart i);
            dead = (ap (waiting codec) there ∙ waiting-message codec t (lists s dead) read) i;
          },
          subst (AllMessages codec) (sym apart) fine,
        )

  -- Over a Redis in reach whose processing list holds messages only, the Redis queues keep what the worker
  -- relies on: messages are taken in the order in which they were pushed, and a message that goes
  -- back, or to the dead letters, is the last there, with its retry count.
  pub redis_queues-QueueLaws :
      QueueLaws (redis_queues client codec) Readable (Encodes codec) redis_queued
  unfolding requeue dead_letter
  redis_queues-QueueLaws = record {
    dequeue_next = pop;
    dequeue_stop = stop;
    requeue_last = push_last;
    dead_letter_last = push_dead;
    retried_fits = message_laws.retried_encodes;
  }

  -- The producer's message is the last to wait.
  pub publish_order_created_last :
      (s : S) (m : OrderCreatedMessage)
      → Readable s
      → Encodes codec m
      → let (r, s1) = publish_order_created client codec m s in
        (r ≡ ok tt)
        × (redis_queued s1
            ≡ record { pending = (redis_queued s).pending ++ m ∷ []; dead = (redis_queued s).dead })
        × Readable s1
  unfolding publish_order_created
  publish_order_created_last = push_last
