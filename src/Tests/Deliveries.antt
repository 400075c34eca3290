-- ===== src/Tests/Deliveries.antt =====
-- internal/queue: two lists of a server that is in reach, beside the in-memory adapters.
use order_service_go_archite.Prelude.{
  ℕ, zero, suc, ◌+◌, ◌≡◌, refl, sym, ap, ◌∙◌, subst, length, ◌+ℤ◌, ◌*ℤ◌, wrap64, ◌≢◌, if◌then◌else◌,
  Bool-cases, inl, inr, [], ◌∷◌, ◌++◌, List, ℤ, pos, negsuc, Text, text, text_eq, text_eq_iff,
  Result, ok, err, Action, arith,
}
use order_service_go_archite.Order.Model.{OrderCreatedMessage, to_output, item_total, order_total}
use order_service_go_archite.Order.Ports.{Ports, Processor, World}
use order_service_go_archite.Order.Contract.{View, PortLaws, ProcessorKeeps}
use order_service_go_archite.Order.Contract.Lift.{lift, lift_repository, lift_repository-RepoLaws}
use order_service_go_archite.Order.Contract.Reliable.{Reliable}
use order_service_go_archite.Order.Repository
use order_service_go_archite.Order.Memory
use order_service_go_archite.Order.Memory.{Outside, repository, process_payment, find_many, above}
use order_service_go_archite.Order.Memory.Laws as Adapters
use order_service_go_archite.Order.Process.Frame.{Leaves, process_leaves}
use order_service_go_archite.Order.Status.{can_transition}
use order_service_go_archite.Money.{multiply, add}
use order_service_go_archite.Order.Create.{
  validate_input, index_products, check_product, make_item, create,
}
use order_service_go_archite.Redis.Poison.{run_loop_poisoned}
use order_service_go_archite.Redis.Journey.{create_settles}
use order_service_go_archite.Tests.Orders.{one_order, purchase, answer}
use order_service_go_archite.Worker.{Pool, run_loop}
use order_service_go_archite.Worker.Contract.{Queued, QueueLaws, ProcessKeeps}
use order_service_go_archite.Worker.Settle.{IsSettled, DequeueKeeps}
use order_service_go_archite.Redis.{
  Client, MessageCodec, order_queue_name, order_dead_letter_queue_name, publish_order_created,
  push_payload, dequeue, redis_queues,
}
use order_service_go_archite.Redis.Laws.{
  RedisLaws, MessageLaws, AllMessages, waiting, Encodes, redis_queued, Readable,
  redis_queues-QueueLaws,
}

-- A message as its three numbers and its event.
abbrev written : OrderCreatedMessage → Text
written m = elim m.retry_count [
  | pos n ↦ 0 ∷ n ∷ m.order_id ∷ m.created_at ∷ m.event
  | negsuc n ↦ 1 ∷ n ∷ m.order_id ∷ m.created_at ∷ m.event
]

abbrev count_of : ℕ → ℕ → ℤ
count_of zero n = pos n
count_of (suc _) n = negsuc n

abbrev read_message : Text → Result Text OrderCreatedMessage
read_message (s ∷ n ∷ id ∷ t ∷ event) =
    ok (record { order_id = id; event = event; created_at = t; retry_count = count_of s n })
read_message _ = err (text "unexpected end of JSON input")

abbrev plain_codec : MessageCodec
plain_codec = record { marshal = λ m. ok (written m); unmarshal = read_message }

read-written : (m : OrderCreatedMessage) → read_message (written m) ≡ ok m
read-written m = go m.retry_count
  where
    go :
        (c : ℤ)
        → read_message (written (record m { retry_count = c })) ≡ ok (record m { retry_count = c })
    go (pos n) = refl
    go (negsuc n) = refl

plain_codec_laws : MessageLaws plain_codec
plain_codec_laws = record {
  unmarshal_encodes = λ t m e. (written m, refl, read-written m);
  unmarshal-marshal =
      λ m t e. let same : written m ≡ t = cc (e) in ap read_message (sym same) ∙ read-written m;
  retried_encodes = λ m small e. (written _, refl, read-written _);
}

record Server : Type 0 where
  adapters : Outside
  lists : Text → List Text

abbrev all_but_last : Text → List Text → Text × List Text
all_but_last t [] = (t, [])
all_but_last t (u ∷ us) = let (last, front) = all_but_last u us in (last, t ∷ front)

abbrev set_list : Text → List Text → Server → Server
set_list k l s = record s { lists = λ j. if text_eq j k then l else s.lists j }

abbrev popped : Text → List Text → Server → Result Text (Text × Text) × Server
popped k [] s = (err (text "context canceled"), s)
popped k (t ∷ ts) s = let (last, front) = all_but_last t ts in (ok (k, last), set_list k front s)

abbrev client : Client Server
client = record {
  lpush = λ k v s. (ok tt, set_list k (v ∷ s.lists k) s);
  brpop = λ k s. popped k (s.lists k) s;
}

set_list_here : (k : Text) (l : List Text) (s : Server) → (set_list k l s).lists k ≡ l
set_list_here k l s = let e = (text_eq_iff k k).1 refl in rw e refl

set_list_there :
    (k : Text) (l : List Text) (s : Server) (j : Text)
    → j ≢ k
    → (set_list k l s).lists j ≡ s.lists j
set_list_there k l s j other = elim (Bool-cases (text_eq j k)) [
  | inl same ↦ absurd (other ((text_eq_iff j k).0 same))
  | inr apart ↦ rw apart refl
]

all_but_last_lem :
    (t : Text) (front : List Text) (v : Text) → all_but_last t (front ++ v ∷ []) ≡ (v, t ∷ front)
all_but_last_lem t [] v = refl
all_but_last_lem t (u ∷ front) v = rw (all_but_last_lem u front v) refl

popped_last :
    (k v : Text) (front : List Text) (s : Server)
    → popped k (front ++ v ∷ []) s ≡ (ok (k, v), set_list k front s)
popped_last k v [] s = refl
popped_last k v (u ∷ front) s = rw (all_but_last_lem u front v) refl

client_laws : RedisLaws client (λ s. s.lists)
client_laws = record {
  push_arrives = λ k v s. (refl, set_list_here k (v ∷ s.lists k) s);
  push_others = λ k v s j other. set_list_there k (v ∷ s.lists k) s j other;
  pop_oldest = λ k v front s e. rw (e, popped_last k v front s) (refl, set_list_here k front s);
  pop_empty = λ k s e. (text "context canceled", rw e refl, rw e e);
  pop_others = λ k s j other. pop_others k (s.lists k) s j other;
}
  where
    pop_others :
        (k : Text) (l : List Text) (s : Server) (j : Text)
        → j ≢ k
        → (popped k l s).1.lists j ≡ s.lists j
    pop_others k [] s j other = refl
    pop_others k (t ∷ ts) s j other = set_list_there k ((all_but_last t ts).1) s j other

redis_queues-QueueLaws_example :
    QueueLaws
      (redis_queues client plain_codec)
      (Readable client_laws plain_codec_laws)
      (Encodes plain_codec)
      (redis_queued client_laws plain_codec_laws)
redis_queues-QueueLaws_example = redis_queues-QueueLaws client_laws plain_codec_laws

abbrev with_adapters : Outside → Server → Server
with_adapters o s = record s { adapters = o }

abbrev on_adapters : {E A : Type 0} → Action Outside E A → Action Server E A
on_adapters f = lift (λ (s : Server). s.adapters) with_adapters f

-- The in-memory adapters with the Redis producer.
abbrev ports : Ports Server
ports = record {
  repo = lift_repository (λ (s : Server). s.adapters) with_adapters repository;
  find_customer = λ id. on_adapters (Memory.ports.find_customer id);
  find_products = λ ids. on_adapters (Memory.ports.find_products ids);
  publish = publish_order_created client plain_codec;
  now = λ s. let (t, o) = Memory.ports.now s.adapters in (t, record s { adapters = o });
  new_id = λ s. let (id, o) = Memory.ports.new_id s.adapters in (id, record s { adapters = o });
}

abbrev payment : Processor Server
payment o = on_adapters (process_payment o)

abbrev server_view : View Server
server_view s id = Adapters.view s.adapters id

port_laws : PortLaws ports server_view
unfolding publish_order_created push_payload
port_laws =
    let outer = Adapters.port_laws in
    record {
      repo_laws =
          lift_repository-RepoLaws (λ (s : Server). s.adapters) with_adapters (λ o s. refl)
            Adapters.view outer.repo_laws;
      customer_keeps = λ id s j. refl;
      products_keep = λ ids s j. refl;
      publish_keeps = λ m s j. refl;
      now_keeps = λ s j. refl;
      new_id_keeps = λ s j. refl;
      new_id_fresh = λ s. outer.new_id_fresh s.adapters;
    }

reliable : Reliable ports.repo server_view
unfolding Repository.find_by_id Repository.update_status Repository.mark_processed
reliable = record {
  finds = λ id s e. ground arith;
  misses = λ id s e. ground arith;
  updates = λ id st s e. ground arith;
  marks = λ id st t s e. ground arith;
}

payment_keeps : ProcessorKeeps payment server_view
payment_keeps o s j = Adapters.payment_keeps o s.adapters j

queues_apart : DequeueKeeps (redis_queues client plain_codec) server_view
unfolding dequeue
queues_apart s j = popped_apart (s.lists order_queue_name)
  where
    popped_apart : (l : List Text) → server_view (popped order_queue_name l s).1 j ≡ server_view s j
    popped_apart [] = refl
    popped_apart (t ∷ ts) = refl

lists_stay : Leaves ports payment (λ s. s.lists)
lists_stay = record {
  find_leaves = λ id s. refl;
  update_leaves = λ id st s. refl;
  mark_leaves = λ id st t s. refl;
  now_leaves = λ s. refl;
  payment_leaves = λ o s. refl;
}

process_stays :
    ProcessKeeps ports payment
      (Readable client_laws plain_codec_laws)
      (redis_queued client_laws plain_codec_laws)
process_stays id w =
    let same = process_leaves lists_stay id w in
    (
      ap queued_of same,
      subst (λ (l : Text → List Text). AllMessages plain_codec (l order_queue_name)) (sym same),
    )
  where
    queued_of : (Text → List Text) → Queued
    queued_of l = record {
      pending = waiting plain_codec (l order_queue_name);
      dead = waiting plain_codec (l order_dead_letter_queue_name);
    }

abbrev server_with : List Text → Server
server_with l = record {
  adapters = one_order.outside;
  lists = λ k. if text_eq k order_queue_name then l else [];
}

abbrev world_with : List Text → World Server
world_with l = record { outside = server_with l; metrics = []; log = [] }

abbrev pool_of : Server → Pool Server
pool_of s = record { world = record { outside = s; metrics = []; log = [] }; log = [] }

abbrev old_message : OrderCreatedMessage
old_message = record {
  order_id = 5;
  event = text "order.created";
  created_at = 100;
  retry_count = pos 3;
}

-- What the runs below compute with.
runs : Unit {0}
unfolding create find_many index_products check_product make_item Repository.create_with_items above
    publish_order_created push_payload can_transition validate_input item_total multiply order_total
    add ◌+ℤ◌ ◌*ℤ◌ wrap64 to_output
runs = tt

abbrev before : World Server
before = world_with (written old_message ∷ [])

create_ok : (create ports 5 purchase before).0 ≡ ok (answer 9)
unfolding runs
create_ok = refl

then-Readable : Readable client_laws plain_codec_laws (create ports 5 purchase before).1.outside
unfolding runs
then-Readable = ((_, refl), ((_, refl), tt))

create_settles_example :
    let s = (create ports 5 purchase before).1.outside in
    IsSettled (
      server_view
        (run_loop
          (redis_queues client plain_codec)
          (pos 3)
          ports
          payment
          (length (redis_queued client_laws plain_codec_laws s).pending + 6)
          (pool_of s)).world.outside
        9)
create_settles_example =
    create_settles client_laws plain_codec_laws port_laws (λ m s. refl) reliable payment
      payment_keeps queues_apart process_stays 3 5 purchase before
      (pool_of (create ports 5 purchase before).1.outside) 6 create_ok (omega arith) refl
      then-Readable

run_loop_poisoned_example :
    let q = pool_of (server_with (written old_message ∷ text "{" ∷ [])) in
    let q' = run_loop (redis_queues client plain_codec) (pos 3) ports payment (suc 8) q in
    (q'.world.outside.lists order_queue_name ≡ written old_message ∷ [])
    × (q'.log ≡ q.log)
    × (q'.world.metrics ≡ q.world.metrics)
run_loop_poisoned_example =
    run_loop_poisoned plain_codec client_laws ports payment (pos 3) 8
      (pool_of (server_with (written old_message ∷ text "{" ∷ []))) (written old_message ∷ [])
      (text "{") refl refl
