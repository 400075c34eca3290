-- ===== src/Order/Process/Frame.antt =====
-- internal/order/service.go, `Process`: what it changes of a larger state.
use order_service_go_archite.Prelude.{
  ℕ, ℤ, List, ◌≡◌, refl, ◌∙◌, Bool-cases, inl, inr, ◌==◌, Result, ok, err,
}
use order_service_go_archite.Order.Status.{OrderStatus, created, processing, status_eq}
use order_service_go_archite.Order.Status.Graph.{status_eq_iff}
use order_service_go_archite.Order.Model.{Uuid, nil_uuid, Time, Order}
use order_service_go_archite.Order.Ports.{
  RepoError, order_not_found, failure, Stored, Ports, Processor, World,
}
use order_service_go_archite.Order.Process.{
  after_mark_failed, after_mark_paid, after_payment, after_update, after_find, process,
}
use order_service_go_archite.Order.Process.Safety.{can_begin}

-- The calls that `Process` makes leave `seen` as it is.
pub record Leaves {S X : Type 0} (p : Ports S) (processor : Processor S) (seen : S → X)
    : Type 0 where
  pub find_leaves : (id : Uuid) (s : S) → seen (p.repo.find_by_id id s).1 ≡ seen s
  pub update_leaves :
      (id : Uuid) (st : OrderStatus) (s : S) → seen (p.repo.update_status id st s).1 ≡ seen s
  pub mark_leaves :
      (id : Uuid) (st : OrderStatus) (t : Time) (s : S)
      → seen (p.repo.mark_processed id st t s).1 ≡ seen s
  pub now_leaves : (s : S) → seen (p.now s).1 ≡ seen s
  pub payment_leaves : (o : Order) (s : S) → seen (processor o s).1 ≡ seen s

module _ {S X : Type 0} {p : Ports S} {processor : Processor S} {seen : S → X}
    (leaves : Leaves p processor seen) where
  mark_failed_leaves :
      (id : Uuid) (cause : List ℕ) (r : Result RepoError (Unit {0})) (w : World S)
      → seen (after_mark_failed p id cause r w).1.outside ≡ seen w.outside
  unfolding after_mark_failed
  mark_failed_leaves id cause (ok _) w = refl
  mark_failed_leaves id cause (err e) w = refl

  mark_paid_leaves :
      (d : ℤ) (r : Result RepoError (Unit {0})) (w : World S)
      → seen (after_mark_paid p d r w).1.outside ≡ seen w.outside
  unfolding after_mark_paid
  mark_paid_leaves d (ok _) w = refl
  mark_paid_leaves d (err e) w = refl

  payment_leaves_on :
      (id : Uuid) (d : ℤ) (r : Result (List ℕ) (Unit {0})) (w : World S)
      → seen (after_payment p id d r w).1.outside ≡ seen w.outside
  unfolding after_payment
  payment_leaves_on id d (err c) w =
      mark_failed_leaves id c _ _
      ∙ (leaves.mark_leaves id _ (p.now w.outside).0 (p.now w.outside).1
          ∙ leaves.now_leaves w.outside)
  payment_leaves_on id d (ok _) w =
      mark_paid_leaves d _ _
      ∙ (leaves.mark_leaves id _ (p.now w.outside).0 (p.now w.outside).1
          ∙ leaves.now_leaves w.outside)

  update_leaves_on :
      (id : Uuid) (o : Order) (r : Result RepoError (Unit {0})) (w : World S)
      → seen (after_update p processor id o r w).1.outside ≡ seen w.outside
  unfolding after_update
  update_leaves_on id o (err e) w = refl
  update_leaves_on id o (ok _) w =
      payment_leaves_on id _ _ _
      ∙ (leaves.now_leaves _ ∙ (leaves.payment_leaves o _ ∙ leaves.now_leaves w.outside))

  find_leaves_on :
      (id : Uuid) (r : Result RepoError Stored) (w : World S)
      → seen (after_find p processor id r w).1.outside ≡ seen w.outside
  unfolding after_find
  find_leaves_on id (err order_not_found) w = refl
  find_leaves_on id (err (failure m)) w = refl
  find_leaves_on id (ok (order, items)) w = elim (Bool-cases (status_eq order.status created)) [
    | inr other ↦ rw other refl
    | inl new ↦
        rw (new, can_begin ((status_eq_iff order.status created).0 new))
          (update_leaves_on id order _ _ ∙ leaves.update_leaves id processing w.outside)
  ]

  pub process_leaves :
      (id : Uuid) (w : World S) → seen (process p processor id w).1.outside ≡ seen w.outside
  unfolding process
  process_leaves id w = elim (Bool-cases (id == nil_uuid)) [
    | inl empty ↦ rw empty refl
    | inr known ↦ rw known (find_leaves_on id _ _ ∙ leaves.find_leaves id w.outside)
  ]
