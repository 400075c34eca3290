-- ===== src/Order/Service.antt =====
-- internal/order/service.go: `Cancel`, `Ship`, `FindByID` and `List`.
pub mod Safety
use order_service_go_archite.Prelude.{
  if◌then◌else◌, Bool, not, Option, none, some, List, [], ◌∷◌, ◌++◌, ℤ, Text, text, Result, ok, err,
  Action,
}
use order_service_go_archite.Errors.{AppError, internal, invalid_order_status}
use order_service_go_archite.Pagination.{Page, bound_page}
use order_service_go_archite.Order.Status.{
  OrderStatus, created, paid, shipped, canceled, status_eq, can_transition,
}
use order_service_go_archite.Order.Model.{
  Uuid, Time, Order, OrderItem, OrderOutput, OrderFilter, to_output,
}
use order_service_go_archite.Order.Ports.{
  RepoError, repo_error_text, Stored, OrderRepository, Ports, World, call, read,
}
use order_service_go_archite.Order.Process.{map_order_repo_err}

module _ {S : Type 0} (p : Ports S) where
  -- After `UpdateStatus`: the output shows the new status.
  unfoldable pub after_write :
      Order
      → List OrderItem
      → OrderStatus
      → Result RepoError (Unit {0})
      → Action (World S) AppError OrderOutput
  after_write order items to (err e) w = (err (map_order_repo_err e), w)
  after_write order items to (ok _) w =
      let (now, w1) = read p.now w in
      (ok (to_output (record order { status = to; updated_at = now }) items), w1)

  -- After `FindByID`.
  unfoldable pub after_load :
      Uuid
      → OrderStatus
      → OrderStatus
      → Text
      → Result RepoError Stored
      → Action (World S) AppError OrderOutput
  unfolding after_write
  after_load id to required invalid_msg (err e) w = (err (map_order_repo_err e), w)
  after_load id to required invalid_msg (ok (order, items)) w =
      if not (status_eq order.status required)
      then (err (invalid_order_status invalid_msg), w)
      else (if not (can_transition order.status to)
          then (err (invalid_order_status invalid_msg), w)
          else (let (r, w1) = call (p.repo.update_status id to) w in
              after_write order items to r w1))

  unfoldable pub transition :
      Uuid → OrderStatus → OrderStatus → Text → Action (World S) AppError OrderOutput
  unfolding after_load
  transition id to required invalid_msg w =
      let (r, w1) = call (p.repo.find_by_id id) w in after_load id to required invalid_msg r w1

  unfoldable pub cancel : Uuid → Action (World S) AppError OrderOutput
  unfolding transition
  cancel id = transition id canceled created (text "only CREATED orders can be canceled")

  unfoldable pub ship : Uuid → Action (World S) AppError OrderOutput
  unfolding transition
  ship id = transition id shipped paid (text "only PAID orders can be shipped")

  unfoldable pub after_get : Result RepoError Stored → Action (World S) AppError OrderOutput
  after_get (err e) w = (err (map_order_repo_err e), w)
  after_get (ok (order, items)) w = (ok (to_output order items), w)

  unfoldable pub find_by_id : Uuid → Action (World S) AppError OrderOutput
  unfolding after_get
  find_by_id id w = let (r, w1) = call (p.repo.find_by_id id) w in after_get r w1

  -- The loop of `List`: every order of the page is loaded again for its items.
  unfoldable pub load_outputs :
      List OrderOutput → List Order → Action (World S) AppError (List OrderOutput)
  load_outputs done [] w = (ok done, w)
  load_outputs done (o ∷ os) w =
      let (r, w1) = call (p.repo.find_by_id o.id) w in
      elim r [
        | err e ↦ (err (map_order_repo_err e), w1)
        | ok stored ↦ load_outputs (done ++ to_output o stored.1 ∷ []) os w1
      ]

  unfoldable pub after_outputs :
      Page Order → Result AppError (List OrderOutput) → Action (World S) AppError (Page OrderOutput)
  after_outputs page (err e) w = (err e, w)
  after_outputs page (ok items) w = (
    ok (record {
      items = items;
      page = page.page;
      page_size = page.page_size;
      total = page.total;
      total_pages = page.total_pages;
    }),
    w,
  )

  unfoldable pub after_list :
      Result RepoError (Page Order) → Action (World S) AppError (Page OrderOutput)
  unfolding load_outputs after_outputs
  after_list (err e) w = (err (internal (text "could not list orders") (repo_error_text e)), w)
  after_list (ok page) w = let (r, w1) = load_outputs [] page.items w in after_outputs page r w1

  unfoldable pub list : OrderFilter → Action (World S) AppError (Page OrderOutput)
  unfolding after_list
  list filter w = elim (bound_page filter.page filter.page_size) [
    | err e ↦ (err e, w)
    | ok (page, page_size) ↦
        let (r, w1) = call (p.repo.list (record filter { page = page; page_size = page_size })) w in
        after_list r w1
  ]
