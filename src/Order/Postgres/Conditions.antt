-- ===== src/Order/Postgres/Conditions.antt =====
-- internal/order/postgres_repository.go, `orderConditions`, against the filter of the in-memory repository.
use order_service_go_archite.Prelude.{
  ℕ, ◌≡◌, refl, ◌∙◌, Bool, not, ◌==◌, ltb, leb, Option, List, [], Text, text, text_eq, arith,
}
use order_service_go_archite.Order.Status.{
  OrderStatus, created, processing, paid, failed, shipped, canceled, status_text, status_eq,
}
use order_service_go_archite.Order.Model.{Uuid, Time, Order, OrderFilter}
use order_service_go_archite.Order.Repository.{fails, matches_order}
use order_service_go_archite.Order.Postgres.{order_conditions}
use order_service_go_archite.Postgres.{Arg, uuid_arg, text_arg, time_arg, bind_some}
use order_service_go_archite.Postgres.Placeholders.{
  Selects, Tests, nothing-Selects, length-bind_some, bind_some-Selects,
}

-- How the server evaluates the four conditions of an order's row.
pub record OrderConditions (holds : Text → List Arg → Order → Bool) : Type 0 where
  pub customer_is :
      (id : Uuid) → Tests holds (text "customer_id = $") (uuid_arg id) (λ o. o.customer_id == id)
  pub status_is :
      (t : Text)
      → Tests holds (text "status = $") (text_arg t) (λ o. text_eq (status_text o.status) t)
  pub created_from :
      (t : Time) → Tests holds (text "created_at >= $") (time_arg t) (λ o. leb t o.created_at)
  pub created_until :
      (t : Time) → Tests holds (text "created_at <= $") (time_arg t) (λ o. leb o.created_at t)

from_lem : (a b : ℕ) → leb b a ≡ not (not (not (ltb a b)))
from_lem a b = ground arith

status_text-eq :
    (a b : OrderStatus) → text_eq (status_text a) (status_text b) ≡ not (not (status_eq a b))
unfolding status_text
status_text-eq created b = ground arith
status_text-eq processing b = ground arith
status_text-eq paid b = ground arith
status_text-eq failed b = ground arith
status_text-eq shipped b = ground arith
status_text-eq canceled b = ground arith

module _ {holds : Text → List Arg → Order → Bool} (conditions : OrderConditions holds) where
  -- The conditions with their bound values, and any values bound after them, select exactly the orders that
  -- the in-memory repository's filter matches, for every filter.
  pub order_conditions-Selects :
      (f : OrderFilter) → Selects holds (order_conditions f) (matches_order f)
  unfolding order_conditions matches_order
  order_conditions-Selects f later o =
      let customer = λ (c : Option Uuid) (x : Order). not (fails (λ id. x.customer_id == id) c) in
      let status =
        λ (c : Option OrderStatus) (x : Order). not (fails (λ st. status_eq x.status st) c) in
      let from = λ (c : Option Time) (x : Order). not (fails (λ t. not (ltb x.created_at t)) c) in
      let until = λ (c : Option Time) (x : Order). not (fails (λ t. not (ltb t x.created_at)) c) in
      let b1 = bind_some (text "customer_id = $") uuid_arg f.customer_id ([], []) in
      let b2 = bind_some (text "status = $") (λ st. text_arg (status_text st)) f.status b1 in
      let b3 = bind_some (text "created_at >= $") time_arg f.start_date b2 in
      let one = length-bind_some (text "customer_id = $") uuid_arg f.customer_id ([], []) in
      let two =
        length-bind_some (text "status = $") (λ st. text_arg (status_text st)) f.status b1 in
      let three = length-bind_some (text "created_at >= $") time_arg f.start_date b2 in
      let c1 =
        bind_some-Selects holds (text "customer_id = $") uuid_arg f.customer_id customer ([], [])
          (λ r. refl)
          (λ id n args r few at. conditions.customer_is id n args r few at ∙ ground arith)
          (omega arith) (nothing-Selects holds) in
      let c2 =
        bind_some-Selects holds (text "status = $") (λ st. text_arg (status_text st)) f.status
          status b1 (λ r. refl)
          (λ st n args r few at.
            conditions.status_is (status_text st) n args r few at ∙ status_text-eq r.status st)
          (omega arith) c1 in
      let c3 =
        bind_some-Selects holds (text "created_at >= $") time_arg f.start_date from b2 (λ r. refl)
          (λ t n args r few at. conditions.created_from t n args r few at ∙ from_lem r.created_at t)
          (omega arith) c2 in
      let c4 =
        bind_some-Selects holds (text "created_at <= $") time_arg f.end_date until b3 (λ r. refl)
          (λ t n args r few at.
            conditions.created_until t n args r few at ∙ from_lem t r.created_at)
          (omega arith) c3 in
      c4 later o ∙ ground arith
