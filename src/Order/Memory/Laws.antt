-- ===== src/Order/Memory/Laws.antt =====
-- internal/order: the in-memory adapters and the contract.
use order_service_go_archite.Prelude.{◌≡◌, refl, ◌≤◌, none, List, [], ◌∷◌, lookup, arith}
use order_service_go_archite.Order.Model.{Uuid, OrderCreatedMessage}
use order_service_go_archite.Order.Contract.{View, RepoLaws, PortLaws, ProcessorKeeps}
use order_service_go_archite.Order.Repository.Laws as Store
use order_service_go_archite.Order.Repository.Laws.{stored}
use order_service_go_archite.Order.Memory.{
  Outside, repository, publish, process_payment, above, fresh_id, ports,
}

abbrev pub view : View Outside
view s id = stored s.store id

pub lookup-above {ℓ} :
    {V : Type ℓ} (m : List (Uuid × V)) (k : Uuid) → above m ≤ k → lookup k m ≡ none
unfolding above
lookup-above [] k h = refl
lookup-above ((j, v) ∷ m) k h = ground (arith, lookup-above m k)

fresh_id-free : (s : Outside) → view s (fresh_id s) ≡ none
fresh_id-free s = ground (arith, lookup-above s.store.orders (fresh_id s))

pub repository_laws : RepoLaws repository view
repository_laws = record {
  find_some = λ id s e. Store.find_some s.store id e;
  find_none = λ id s e. Store.find_none s.store id e;
  find_keeps = λ id s j. refl;
  list_keeps = λ f s j. refl;
  update_ok = λ id st s e. Store.update_ok s.store id s.clock st e;
  update_err = λ id st s e. Store.update_err s.store id s.clock st e;
  update_others = λ id st s j other. Store.update_others s.store id s.clock st j other;
  mark_ok = λ id st t s e. Store.mark_ok s.store id st t e;
  mark_err = λ id st t s e. Store.mark_err s.store id st t e;
  mark_others = λ id st t s j other. Store.mark_others s.store id st t j other;
  create_ok = λ o items s e. Store.create_ok o items s.store e;
  create_err = λ o items s e. Store.create_err o items s.store e;
  create_others = λ o items s j other. Store.create_others o items s.store j other;
}

publish-view :
    (m : OrderCreatedMessage) (s : Outside) (j : Uuid) → view (publish m s).1 j ≡ view s j
unfolding publish
publish-view m s j = ground arith

-- The in-memory repository and the fakes keep what the service relies on of its ports: a reading finds
-- exactly what is stored and changes nothing, a write that succeeds changes the one entry as it
-- says, a write that fails changes nothing, no other call touches the orders, and a new identifier is
-- one that no order has.
pub port_laws : PortLaws ports view
port_laws = record {
  repo_laws = repository_laws;
  customer_keeps = λ id s j. refl;
  products_keep = λ ids s j. refl;
  publish_keeps = publish-view;
  now_keeps = λ s j. refl;
  new_id_keeps = λ s j. refl;
  new_id_fresh = fresh_id-free;
}

pub payment_keeps : ProcessorKeeps process_payment view
unfolding process_payment
payment_keeps o s j = ground arith
