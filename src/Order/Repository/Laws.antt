-- ===== src/Order/Repository/Laws.antt =====
-- internal/order/repository.go: the in-memory repository keeps the contract of the service.
use order_service_go_archite.Prelude.{
  ◌≡◌, ◌≢◌, Option, none, some, List, lookup, lookup-insert_self, lookup-insert_ne, ok, err, arith,
  Option-cases, inl, inr,
}
use order_service_go_archite.Order.Status.{OrderStatus}
use order_service_go_archite.Order.Model.{Uuid, Time, Order, OrderItem}
use order_service_go_archite.Order.Ports.{RepoError, order_not_found, Stored}
use order_service_go_archite.Order.Contract.{StatusWritten, Processed}
use order_service_go_archite.Order.Repository

-- The contents of a store by identifier.
abbrev pub stored : Repository.Store → Uuid → Option Stored
stored s id = elim (lookup id s.orders) [
  | none ↦ none
  | some o ↦ some (o, Repository.items_or_none (lookup id s.items))
]

module _ (s : Repository.Store) (id : Uuid) where
  pub find_some : {r : Stored} → Repository.find_by_id id s ≡ ok r → stored s id ≡ some r
  unfolding Repository.find_by_id
  find_some e = ground arith

  pub find_none : Repository.find_by_id id s ≡ err order_not_found → stored s id ≡ none
  unfolding Repository.find_by_id
  find_none e = ground arith

  pub update_ok :
      (now : Time) (st : OrderStatus)
      → (Repository.update_status now id st s).0 ≡ ok tt
      → StatusWritten st (stored s id) (stored (Repository.update_status now id st s).1 id)
  unfolding Repository.update_status
  update_ok now st e = elim (Option-cases (lookup id s.orders)) [
    | inl missing ↦ ground arith
    | inr (o, at) ↦
        let o' : Order = record o { status = st; updated_at = now } in
        (
          (o, Repository.items_or_none (lookup id s.items)),
          now,
          ground arith,
          ground (arith, lookup-insert_self id o' s.orders),
        )
  ]

  pub update_err :
      (now : Time) (st : OrderStatus) {e : RepoError}
      → (Repository.update_status now id st s).0 ≡ err e
      → stored (Repository.update_status now id st s).1 id ≡ stored s id
  unfolding Repository.update_status
  update_err now st e = ground arith

  pub update_others :
      (now : Time) (st : OrderStatus) (j : Uuid)
      → j ≢ id
      → stored (Repository.update_status now id st s).1 j ≡ stored s j
  unfolding Repository.update_status
  update_others now st j other = grind (arith, lookup-insert_ne)

  pub mark_ok :
      (st : OrderStatus) (t : Time)
      → (Repository.mark_processed id st t s).0 ≡ ok tt
      → Processed st t (stored s id) (stored (Repository.mark_processed id st t s).1 id)
  unfolding Repository.mark_processed
  mark_ok st t e = elim (Option-cases (lookup id s.orders)) [
    | inl missing ↦ ground arith
    | inr (o, at) ↦
        let o' : Order = record o { status = st; processed_at = some t; updated_at = t } in
        (
          (o, Repository.items_or_none (lookup id s.items)),
          ground arith,
          ground (arith, lookup-insert_self id o' s.orders),
        )
  ]

  pub mark_err :
      (st : OrderStatus) (t : Time) {e : RepoError}
      → (Repository.mark_processed id st t s).0 ≡ err e
      → stored (Repository.mark_processed id st t s).1 id ≡ stored s id
  unfolding Repository.mark_processed
  mark_err st t e = ground arith

  pub mark_others :
      (st : OrderStatus) (t : Time) (j : Uuid)
      → j ≢ id
      → stored (Repository.mark_processed id st t s).1 j ≡ stored s j
  unfolding Repository.mark_processed
  mark_others st t j other = grind (arith, lookup-insert_ne)

module _ (o : Order) (items : List OrderItem) (s : Repository.Store) where
  pub create_ok :
      (Repository.create_with_items o items s).0 ≡ ok tt
      → stored (Repository.create_with_items o items s).1 o.id ≡ some (o, items)
  unfolding Repository.create_with_items
  create_ok e = grind (arith, lookup-insert_self)

  pub create_err :
      {e : RepoError}
      → (Repository.create_with_items o items s).0 ≡ err e
      → stored (Repository.create_with_items o items s).1 o.id ≡ stored s o.id
  unfolding Repository.create_with_items
  create_err e = ground arith

  pub create_others :
      (j : Uuid) → j ≢ o.id → stored (Repository.create_with_items o items s).1 j ≡ stored s j
  unfolding Repository.create_with_items
  create_others j other = grind (arith, lookup-insert_ne)
