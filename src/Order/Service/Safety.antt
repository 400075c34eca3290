-- ===== src/Order/Service/Safety.antt =====
-- internal/order/service.go: `Cancel`, `Ship`, `FindByID` and `List` and the lifecycle of the orders.
use order_service_go_archite.Prelude.{
  ◌≡◌, refl, ◌∙◌, subst, true, Bool-cases, Result-cases, inl, inr, some, List, [], ◌∷◌, ◌++◌, ok,
  err, Result, Text,
}
use order_service_go_archite.Errors.{AppError}
use order_service_go_archite.Pagination.{Page, bound_page}
use order_service_go_archite.Order.Status.{
  OrderStatus, created, paid, shipped, canceled, status_eq, can_transition,
}
use order_service_go_archite.Order.Status.Graph.{
  ◌⟶◌, cancel, ship, status_eq_iff, can_transition_complete,
}
use order_service_go_archite.Order.Model.{
  Uuid, Order, OrderItem, OrderOutput, OrderFilter, to_output,
}
use order_service_go_archite.Order.Ports.{RepoError, Stored, Ports, World, call}
use order_service_go_archite.Order.Contract.{View, PortLaws}
use order_service_go_archite.Order.Contract.Growth.{Grows, still, Grows-of_eq, Grows-trans}
use order_service_go_archite.Order.Contract.Writes.{update-Grows}
use order_service_go_archite.Order.Service

module _ {S : Type 0} {p : Ports S} {view : View S} (laws : PortLaws p view) where
  after_write_keeps :
      (o : Order) (items : List OrderItem) (to : OrderStatus) (r : Result RepoError (Unit {0}))
      (w : World S) (j : Uuid)
      → view (Service.after_write p o items to r w).1.outside j ≡ view w.outside j
  unfolding Service.after_write
  after_write_keeps o items to (err e) w j = refl
  after_write_keeps o items to (ok _) w j = laws.now_keeps w.outside j

  -- An edge from the required status makes the write safe.
  after_load-Grows :
      (id : Uuid) (to required : OrderStatus) (m : Text) (r : Result RepoError Stored) (w : World S)
      → required ⟶ to
      → ((q : Stored) → r ≡ ok q → view w.outside id ≡ some q)
      → (j : Uuid)
      → Grows (view w.outside j) (view (Service.after_load p id to required m r w).1.outside j)
  unfolding Service.after_load
  after_load-Grows id to required m (err e) w edge at j = still
  after_load-Grows id to required m (ok (order, items)) w edge at j =
      elim (Bool-cases (status_eq order.status required)) [
        | inr other ↦ rw other still
        | inl same ↦
            let now : order.status ≡ required = (status_eq_iff order.status required).0 same in
            rw (same, allowed now)
              (Grows-trans (update-Grows laws.repo_laws id to w.outside (step now) j)
                (Grows-of_eq (after_write_keeps order items to _ _ j)))
      ]
    where
      allowed : order.status ≡ required → can_transition order.status to ≡ true
      allowed e = rw e (can_transition_complete edge)

      step : order.status ≡ required → (q : Stored) → view w.outside id ≡ some q → q.0.status ⟶ to
      step e q h =
          subst (λ x. x ⟶ to)
            (let same : some q ≡ some (order, items) = cc (h, at (order, items) refl) in
              cc (same, e))
            edge

  transition-Grows :
      (id : Uuid) (to required : OrderStatus) (m : Text) (w : World S)
      → required ⟶ to
      → (j : Uuid)
      → Grows (view w.outside j) (view (Service.transition p id to required m w).1.outside j)
  unfolding Service.transition
  transition-Grows id to required m w edge j =
      Grows-trans (Grows-of_eq (laws.repo_laws.find_keeps id w.outside j)) (
        after_load-Grows id to required m _ _ edge
          (λ q e.
            laws.repo_laws.find_keeps id w.outside id ∙ laws.repo_laws.find_some id w.outside e)
          j)

  pub cancel-Grows :
      (id : Uuid) (w : World S) (j : Uuid)
      → Grows (view w.outside j) (view (Service.cancel p id w).1.outside j)
  unfolding Service.cancel
  cancel-Grows id w j = transition-Grows id canceled created _ w cancel j

  pub ship-Grows :
      (id : Uuid) (w : World S) (j : Uuid)
      → Grows (view w.outside j) (view (Service.ship p id w).1.outside j)
  unfolding Service.ship
  ship-Grows id w j = transition-Grows id shipped paid _ w ship j

  pub find_by_id_keeps :
      (id : Uuid) (w : World S) (j : Uuid)
      → view (Service.find_by_id p id w).1.outside j ≡ view w.outside j
  unfolding Service.find_by_id Service.after_get
  find_by_id_keeps id w j = elim (Result-cases (p.repo.find_by_id id w.outside).0) [
    | inl (_, e) ↦ rw e (laws.repo_laws.find_keeps id w.outside j)
    | inr (_, e) ↦ rw e (laws.repo_laws.find_keeps id w.outside j)
  ]

  load_outputs_keeps :
      (done : List OrderOutput) (os : List Order) (w : World S) (j : Uuid)
      → view (Service.load_outputs p done os w).1.outside j ≡ view w.outside j
  unfolding Service.load_outputs
  load_outputs_keeps done [] w j = refl
  load_outputs_keeps done (o ∷ os) w j = elim (Result-cases (p.repo.find_by_id o.id w.outside).0) [
    | inr (_, e) ↦ rw (e, Service.load_outputs) (laws.repo_laws.find_keeps o.id w.outside j)
    | inl (stored, e) ↦
        rw (e, Service.load_outputs)
          (load_outputs_keeps (done ++ to_output o stored.1 ∷ []) os
              (call (p.repo.find_by_id o.id) w).1 j
            ∙ laws.repo_laws.find_keeps o.id w.outside j)
  ]

  after_outputs_keeps :
      (page : Page Order) (r : Result AppError (List OrderOutput)) (w : World S) (j : Uuid)
      → view (Service.after_outputs p page r w).1.outside j ≡ view w.outside j
  unfolding Service.after_outputs
  after_outputs_keeps page (err e) w j = refl
  after_outputs_keeps page (ok items) w j = refl

  after_list_keeps :
      (r : Result RepoError (Page Order)) (w : World S) (j : Uuid)
      → view (Service.after_list p r w).1.outside j ≡ view w.outside j
  unfolding Service.after_list
  after_list_keeps (err e) w j = refl
  after_list_keeps (ok page) w j =
      after_outputs_keeps page _ _ j ∙ load_outputs_keeps [] page.items w j

  pub list_keeps :
      (f : OrderFilter) (w : World S) (j : Uuid)
      → view (Service.list p f w).1.outside j ≡ view w.outside j
  unfolding Service.list
  list_keeps f w j = elim (Result-cases (bound_page f.page f.page_size)) [
    | inr (_, e) ↦ rw (e, Service.list) refl
    | inl (bounds, e) ↦
        rw (e, Service.list) (after_list_keeps _ _ j ∙ laws.repo_laws.list_keeps _ w.outside j)
  ]
