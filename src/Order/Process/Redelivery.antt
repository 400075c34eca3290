-- ===== src/Order/Process/Redelivery.antt =====
-- internal/order/service.go, `Process`: a message for an order that is past CREATED, a second
-- delivery of the same message among them, and the orders that a message does not name.
use native.Mathlib.Decide.{ℕ_discrete}
use order_service_go_archite.Prelude.{
  ◌≡◌, refl, ◌∙◌, subst, ◌≢◌, ◌⊎◌, inl, inr, false, Bool-cases, ◌==◌, some, List, [], ◌∷◌, ℤ, ok,
  err, Result, Text, text, arith,
}
use order_service_go_archite.Errors.{internal}
use order_service_go_archite.Order.Status.{
  created, processing, paid, failed, status_eq, can_transition,
}
use order_service_go_archite.Order.Status.Graph.{status_eq_iff}
use order_service_go_archite.Order.Model.{Uuid, nil_uuid, Order}
use order_service_go_archite.Order.Ports.{
  RepoError, order_not_found, failure, Stored, Ports, Processor, World, call,
}
use order_service_go_archite.Order.Contract.{View, PortLaws, ProcessorKeeps}
use order_service_go_archite.Order.Contract.Writes.{find_cases}
use order_service_go_archite.Order.Process.{after_payment, after_update, after_find, process}
use order_service_go_archite.Order.Process.Safety.{
  after_mark_failed-outside, after_mark_paid-outside,
}

-- The worker's deliveries, one after the other.
module _ {S : Type 0} (p : Ports S) (processor : Processor S) where
  unfoldable pub deliver_all : List Uuid → World S → World S
  unfolding process
  deliver_all [] w = w
  deliver_all (id ∷ ids) w = deliver_all ids (process p processor id w).1

module _ {S : Type 0} {p : Ports S} {view : View S} (laws : PortLaws p view)
    (processor : Processor S) (keeps : ProcessorKeeps processor view) where
  after_payment_others :
      (id : Uuid) (d : ℤ) (r : Result Text (Unit {0})) (w : World S) (j : Uuid)
      → j ≢ id
      → view (after_payment p id d r w).1.outside j ≡ view w.outside j
  unfolding after_payment
  after_payment_others id d (err c) w j other =
      rw (after_mark_failed-outside p)
        (laws.repo_laws.mark_others id failed _ _ j other ∙ laws.now_keeps w.outside j)
  after_payment_others id d (ok _) w j other =
      rw (after_mark_paid-outside p)
        (laws.repo_laws.mark_others id paid _ _ j other ∙ laws.now_keeps w.outside j)

  after_update_others :
      (id : Uuid) (o : Order) (r : Result RepoError (Unit {0})) (w : World S) (j : Uuid)
      → j ≢ id
      → view (after_update p processor id o r w).1.outside j ≡ view w.outside j
  unfolding after_update
  after_update_others id o (err e) w j other = refl
  after_update_others id o (ok _) w j other =
      after_payment_others id _ _ _ j other
      ∙ (laws.now_keeps _ j ∙ (keeps o _ j ∙ laws.now_keeps w.outside j))

  after_find_others :
      (id : Uuid) (r : Result RepoError Stored) (w : World S) (j : Uuid)
      → j ≢ id
      → view (after_find p processor id r w).1.outside j ≡ view w.outside j
  unfolding after_find
  after_find_others id (err order_not_found) w j other = refl
  after_find_others id (err (failure m)) w j other = refl
  after_find_others id (ok (order, items)) w j other =
      elim (Bool-cases (status_eq order.status created)) [
        | inr late ↦ rw late refl
        | inl new ↦ elim (Bool-cases (can_transition order.status processing)) [
          | inr barred ↦ rw (new, barred) refl
          | inl allowed ↦
              rw (new, allowed)
                (after_update_others id order _ _ j other
                  ∙ laws.repo_laws.update_others id processing w.outside j other)
        ]
      ]

  -- `Process` changes no order but the one that the message names.
  pub process_others :
      (id : Uuid) (w : World S) (j : Uuid)
      → j ≢ id
      → view (process p processor id w).1.outside j ≡ view w.outside j
  unfolding process
  process_others id w j other = elim (Bool-cases (id == nil_uuid)) [
    | inl empty ↦ rw empty refl
    | inr known ↦
        rw known (after_find_others id _ _ j other ∙ laws.repo_laws.find_keeps id w.outside j)
  ]

  -- The ways in which a message is passed over.
  abbrev pub PassesOver : Uuid → World S → Type 0
  PassesOver id w =
      let (r, w') = process p processor id w in
      ((r ≡ ok tt)
        ⊎ ((m : Text) × (r ≡ err (internal (text "could not load order for processing") m))))
      × ((j : Uuid) → view w'.outside j ≡ view w.outside j)
      × (w' ≡ (call (p.repo.find_by_id id) w).1)

  -- A message for an order whose status is not CREATED is acknowledged, or fails to load the order and is
  -- answered with that error. Either way the run has called the loading of the order and nothing
  -- else: the world is the one that the loading leaves, so no payment is asked for, no order changes
  -- and nothing is reported to the metrics or the log.
  pub process-PassesOver :
      (id : Uuid) (w : World S) {o : Stored}
      → id ≢ nil_uuid
      → view w.outside id ≡ some o
      → o.0.status ≢ created
      → PassesOver id w
  unfolding process after_find
  process-PassesOver id w {o} real at late =
      let known : (id == nil_uuid) ≡ false = ground arith in
      elim (find_cases laws.repo_laws id w.outside at) [
        | inr (m, e) ↦
            rw (known, e, after_find)
              (inr (m, refl), (λ j. laws.repo_laws.find_keeps id w.outside j), refl)
        | inl e ↦ elim (Bool-cases (status_eq o.0.status created)) [
          | inl new ↦ absurd (late ((status_eq_iff o.0.status created).0 new))
          | inr not_new ↦
              rw (known, e, after_find, not_new)
                (inl refl, (λ j. laws.repo_laws.find_keeps id w.outside j), refl)
        ]
      ]

  -- An order that a failure left in PROCESSING stays as it is under every later sequence of
  -- deliveries, those of its own message included: a retry does not settle it.
  pub deliver_all_stuck :
      (ids : List Uuid) (w : World S) (id : Uuid) {o : Stored}
      → id ≢ nil_uuid
      → view w.outside id ≡ some o
      → o.0.status ≡ processing
      → view (deliver_all p processor ids w).outside id ≡ some o
  unfolding deliver_all
  deliver_all_stuck [] w id real at busy = at
  deliver_all_stuck (i ∷ is) w id {o} real at busy =
      deliver_all_stuck is (process p processor i w).1 id real (kept (ℕ_discrete id i)) busy
    where
      late : o.0.status ≢ created
      late e = cc (busy, e)

      kept : Dec (id ≡ i) → view (process p processor i w).1.outside id ≡ some o
      kept (no other) = process_others i w id other ∙ at
      kept (yes same) =
          subst (λ x. view (process p processor x w).1.outside id ≡ some o) same
            ((process-PassesOver id w real at late).1 id ∙ at)
