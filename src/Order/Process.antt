-- ===== src/Order/Process.antt =====
-- internal/order/service.go: `Process`, which a worker calls for each message. The function is cut
-- at its calls of the outside world; each part runs from one call to the next.
pub mod Safety
pub mod Outcome
pub mod Redelivery
pub mod Frame
pub mod Total
use order_service_go_archite.Prelude.{
  ℕ, ◌==◌, if◌then◌else◌, Bool, true, false, List, [], ◌∷◌, ◌++◌, not, ℤ, sub_ℕ, Text, text, Result,
  ok, err, Action,
}
use order_service_go_archite.Errors.{AppError, internal, not_found, invalid_order_status}
use order_service_go_archite.Order.Status.{
  OrderStatus, created, processing, paid, failed, status_eq, can_transition,
}
use order_service_go_archite.Order.Model.{Uuid, nil_uuid, Time, Order, OrderItem}
use order_service_go_archite.Order.Ports.{
  RepoError, order_not_found, failure, repo_error_text, Stored, OrderRepository, Ports, Processor,
  inc_orders_processed, inc_orders_failed, record_processing_duration, empty_order_id,
  unknown_order, processing_failed, World, count_call, write_log, call, read,
}

-- `mapOrderRepoErr`.
unfoldable pub map_order_repo_err : RepoError → AppError
map_order_repo_err order_not_found = not_found (text "order not found")
map_order_repo_err (failure m) = internal (text "repository error") m

module _ {S : Type 0} (p : Ports S) where
  -- After `MarkProcessed` with FAILED.
  unfoldable pub after_mark_failed :
      Uuid → Text → Result RepoError (Unit {0}) → Action (World S) AppError (Unit {0})
  after_mark_failed id cause (err e) w = (err (map_order_repo_err e), w)
  after_mark_failed id cause (ok _) w =
      (ok tt, write_log (processing_failed id cause) (count_call inc_orders_failed w))

  -- After `MarkProcessed` with PAID.
  unfoldable pub after_mark_paid :
      ℤ → Result RepoError (Unit {0}) → Action (World S) AppError (Unit {0})
  after_mark_paid duration (err e) w = (err (map_order_repo_err e), w)
  after_mark_paid duration (ok _) w =
      (ok tt, count_call (record_processing_duration duration) (count_call inc_orders_processed w))

  -- After the payment and the second reading of the clock.
  unfoldable pub after_payment :
      Uuid → ℤ → Result Text (Unit {0}) → Action (World S) AppError (Unit {0})
  unfolding after_mark_failed after_mark_paid
  after_payment id duration (err cause) w =
      let (processed_at, w1) = read p.now w in
      let (r, w2) = call (p.repo.mark_processed id failed processed_at) w1 in
      after_mark_failed id cause r w2
  after_payment id duration (ok _) w =
      let (processed_at, w1) = read p.now w in
      let (r, w2) = call (p.repo.mark_processed id paid processed_at) w1 in
      after_mark_paid duration r w2

  module _ (processor : Processor S) where
    -- After `UpdateStatus` to PROCESSING.
    unfoldable pub after_update :
        Uuid → Order → Result RepoError (Unit {0}) → Action (World S) AppError (Unit {0})
    unfolding after_payment
    after_update id order (err e) w = (err (map_order_repo_err e), w)
    after_update id order (ok _) w =
        let (start, w1) = read p.now w in
        let (paid_or_not, w2) = call (processor order) w1 in
        let (stop, w3) = read p.now w2 in after_payment id (sub_ℕ stop start) paid_or_not w3

    -- After `FindByID`.
    unfoldable pub after_find :
        Uuid → Result RepoError Stored → Action (World S) AppError (Unit {0})
    unfolding after_update
    after_find id (err order_not_found) w = (ok tt, write_log (unknown_order id) w)
    after_find id (err (failure m)) w =
        (err (internal (text "could not load order for processing") m), w)
    after_find id (ok (order, _)) w =
        if not (status_eq order.status created)
        then (ok tt, w)
        else (if not (can_transition order.status processing)
            then (
              err (
                  invalid_order_status
                    (text "order cannot enter processing from its current status")),
              w,
            )
            else (let (r, w1) = call (p.repo.update_status id processing) w in
                after_update id order r w1))

    unfoldable pub process : Uuid → Action (World S) AppError (Unit {0})
    unfolding after_find
    process id w =
        if id == nil_uuid
        then (ok tt, write_log empty_order_id w)
        else (let (r, w1) = call (p.repo.find_by_id id) w in after_find id r w1)
