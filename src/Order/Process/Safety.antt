-- ===== src/Order/Process/Safety.antt =====
-- internal/order/service.go, `Process`: how each entry of the store may change, with or without an error.
use order_service_go_archite.Prelude.{
  ◌≡◌, refl, ◌∙◌, subst, true, Bool-cases, inl, inr, ◌==◌, some, ℤ, ok, err, Result, Text,
}
use order_service_go_archite.Order.Status.{
  OrderStatus, created, processing, paid, failed, status_eq, can_transition,
}
use order_service_go_archite.Order.Status.Graph.{
  ◌⟶◌, begin, pay, fail, status_eq_iff, can_transition_complete,
}
use order_service_go_archite.Order.Model.{Uuid, nil_uuid, Order}
use order_service_go_archite.Order.Ports.{
  RepoError, order_not_found, failure, Stored, Ports, Processor, World,
}
use order_service_go_archite.Order.Contract.{View, PortLaws, ProcessorKeeps}
use order_service_go_archite.Order.Contract.Growth.{Grows, still, Grows-of_eq, Grows-trans}
use order_service_go_archite.Order.Contract.Writes.{update-Grows, mark-Grows}
use order_service_go_archite.Order.Process.{
  after_mark_failed, after_mark_paid, after_payment, after_update, after_find, process,
}

module _ {S : Type 0} (p : Ports S) where
  -- What is reported at the end is not the outside world's.
  pub after_mark_failed-outside :
      (id : Uuid) (c : Text) (r : Result RepoError (Unit {0})) (w : World S)
      → (after_mark_failed p id c r w).1.outside ≡ w.outside
  unfolding after_mark_failed
  after_mark_failed-outside id c (ok _) w = refl
  after_mark_failed-outside id c (err e) w = refl

  pub after_mark_paid-outside :
      (d : ℤ) (r : Result RepoError (Unit {0})) (w : World S)
      → (after_mark_paid p d r w).1.outside ≡ w.outside
  unfolding after_mark_paid
  after_mark_paid-outside d (ok _) w = refl
  after_mark_paid-outside d (err e) w = refl

-- The table allows what the lifecycle allows.
pub can_begin : {st : OrderStatus} → st ≡ created → can_transition st processing ≡ true
can_begin e = rw e (can_transition_complete begin)

module _ {S : Type 0} {p : Ports S} {view : View S} (laws : PortLaws p view) where
  -- Reading the clock leaves the entry as it is.
  after_now : {s : S} {id : Uuid} {o : Stored} → view s id ≡ some o → view (p.now s).1 id ≡ some o
  after_now at = laws.now_keeps _ _ ∙ at

  after_payment-Grows :
      (id : Uuid) (d : ℤ) (r : Result Text (Unit {0})) (w : World S) {o : Stored}
      → view w.outside id ≡ some o
      → o.0.status ≡ processing
      → (j : Uuid) → Grows (view w.outside j) (view (after_payment p id d r w).1.outside j)
  unfolding after_payment
  after_payment-Grows id d (err c) w at busy j =
      let (t, s) = p.now w.outside in
      rw (after_mark_failed-outside p) (
        Grows-trans (Grows-of_eq (laws.now_keeps w.outside j)) (
          mark-Grows laws.repo_laws id failed t s
            (λ q h. subst (λ x. x ⟶ failed) (status_of q h) fail) j))
    where
      status_of : (q : Stored) → view (p.now w.outside).1 id ≡ some q → processing ≡ q.0.status
      status_of q h = cc (after_now at)
  after_payment-Grows id d (ok _) w at busy j =
      let (t, s) = p.now w.outside in
      rw (after_mark_paid-outside p) (
        Grows-trans (Grows-of_eq (laws.now_keeps w.outside j)) (
          mark-Grows laws.repo_laws id paid t s (λ q h. subst (λ x. x ⟶ paid) (status_of q h) pay)
            j))
    where
      status_of : (q : Stored) → view (p.now w.outside).1 id ≡ some q → processing ≡ q.0.status
      status_of q h = cc (after_now at)

  module _ (processor : Processor S) (keeps : ProcessorKeeps processor view) where
    -- The clock, the payment and the clock again leave every entry as it is.
    paying_keeps :
        (o : Order) (s : S) (j : Uuid) → view (p.now (processor o (p.now s).1).1).1 j ≡ view s j
    paying_keeps o s j = laws.now_keeps _ j ∙ (keeps o _ j ∙ laws.now_keeps s j)

    after_update-Grows :
        (id : Uuid) (o : Order) (r : Result RepoError (Unit {0})) (w : World S)
        → (r ≡ ok tt → (q : Stored) × (view w.outside id ≡ some q) × (q.0.status ≡ processing))
        → (j : Uuid)
        → Grows (view w.outside j) (view (after_update p processor id o r w).1.outside j)
    unfolding after_update
    after_update-Grows id o (err e) w at j = still
    after_update-Grows id o (ok _) w at j =
        let (q, here, busy) = at refl in
        Grows-trans (Grows-of_eq (paying_keeps o w.outside j))
          (after_payment-Grows id _ _ _ (paying_keeps o w.outside id ∙ here) busy j)

    -- The status is CREATED, so the transition is allowed and PROCESSING is written.
    begin-Grows :
        (id : Uuid) (order : Order) (w : World S) (q : Stored)
        → view w.outside id ≡ some q
        → q.0.status ≡ created
        → (j : Uuid)
        → let (r, s) = p.repo.update_status id processing w.outside in
          Grows
            (view w.outside j)
            (view (after_update p processor id order r (record w { outside = s })).1.outside j)
    begin-Grows id order w q at new j =
        Grows-trans
          (update-Grows laws.repo_laws id processing w.outside
            (λ q' h. subst (λ x. x ⟶ processing) (cc (at, h)) begin) j)
          (after_update-Grows id order _ _
            (λ e.
              let (q', t, _, after) = laws.repo_laws.update_ok id processing w.outside e in
              (_, after, refl))
            j)

    after_find-Grows :
        (id : Uuid) (r : Result RepoError Stored) (w : World S)
        → ((q : Stored) → r ≡ ok q → view w.outside id ≡ some q)
        → (j : Uuid) → Grows (view w.outside j) (view (after_find p processor id r w).1.outside j)
    unfolding after_find
    after_find-Grows id (err order_not_found) w at j = still
    after_find-Grows id (err (failure m)) w at j = still
    after_find-Grows id (ok (order, items)) w at j =
        elim (Bool-cases (status_eq order.status created)) [
          | inr other ↦ rw other still
          | inl new ↦
              let fresh : order.status ≡ created = (status_eq_iff order.status created).0 new in
              rw (new, can_begin fresh)
                (begin-Grows id order w (order, items) (at (order, items) refl) fresh j)
        ]

    -- `Process`, whatever fails on the way, changes no order but along its lifecycle.
    pub process-Grows :
        (id : Uuid) (w : World S) (j : Uuid)
        → Grows (view w.outside j) (view (process p processor id w).1.outside j)
    unfolding process
    process-Grows id w j = elim (Bool-cases (id == nil_uuid)) [
      | inl empty ↦ rw empty still
      | inr known ↦ rw known (
          Grows-trans (Grows-of_eq (laws.repo_laws.find_keeps id w.outside j)) (
            after_find-Grows id _ _
              (λ q e.
                laws.repo_laws.find_keeps id w.outside id ∙ laws.repo_laws.find_some id w.outside e)
              j))
    ]
