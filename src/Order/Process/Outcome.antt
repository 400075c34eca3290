-- ===== src/Order/Process/Outcome.antt =====
-- internal/order/service.go, `Process`: what a successful run and a failed run leave behind.
use order_service_go_archite.Prelude.{
  ◌≡◌, refl, ◌∙◌, ap, ◌≢◌, inl, inr, true, false, Result-cases, ◌==◌, Option, some, List, [], ◌∷◌,
  ◌++◌, ℤ, ok, err, Result, Text, arith, sub_ℕ,
}
use mathlib.Core.List.{append_assoc}
use order_service_go_archite.Order.Status.{
  OrderStatus, created, processing, paid, failed, status_eq,
}
use order_service_go_archite.Order.Model.{Uuid, nil_uuid, Time, Order, OrderItem}
use order_service_go_archite.Order.Ports.{
  RepoError, Stored, Ports, Processor, MetricsCall, inc_orders_processed, inc_orders_failed,
  record_processing_duration, World, call, read,
}
use order_service_go_archite.Order.Contract.{View, PortLaws, ProcessorKeeps}
use order_service_go_archite.Order.Contract.Writes.{find_cases}
use order_service_go_archite.Order.Process.{
  after_mark_failed, after_mark_paid, after_payment, after_update, after_find, process,
}
use order_service_go_archite.Order.Process.Safety.{
  can_begin, after_mark_failed-outside, after_mark_paid-outside,
}

-- The final status, and the reports to the metrics, that a payment calls for.
abbrev pub verdict : Result Text (Unit {0}) → OrderStatus
verdict (ok _) = paid
verdict (err _) = failed

abbrev pub reports : ℤ → Result Text (Unit {0}) → List MetricsCall
reports d (ok _) = inc_orders_processed ∷ record_processing_duration d ∷ []
reports d (err _) = inc_orders_failed ∷ []

-- The entry after processing at `t`.
abbrev pub settled : Stored → OrderStatus → Time → Stored
settled o st t = (record (o.0) { status = st; processed_at = some t; updated_at = t }, o.1)

module _ {S : Type 0} {p : Ports S} {view : View S} (laws : PortLaws p view) where
  -- A failed `MarkProcessed` is an error of the whole.
  not_ok_failed :
      (id : Uuid) (c : Text) (w : World S) {r : Result RepoError (Unit {0})} {e : RepoError}
      → r ≡ err e
      → (after_mark_failed p id c r w).0 ≡ ok tt
      → ⊥
  unfolding after_mark_failed
  not_ok_failed id c w bad e = ground arith

  not_ok_paid :
      (d : ℤ) (w : World S) {r : Result RepoError (Unit {0})} {e : RepoError}
      → r ≡ err e
      → (after_mark_paid p d r w).0 ≡ ok tt
      → ⊥
  unfolding after_mark_paid
  not_ok_paid d w bad e = ground arith

  -- The answer of the payment is recorded at the next reading of the clock, by one writing, and nothing
  -- else is called.
  abbrev Recorded : Uuid → ℤ → Result Text (Unit {0}) → Stored → World S → World S → Type 0
  Recorded id d answer o w w' =
      let (t, s) = p.now w.outside in
      (w'.outside ≡ (p.repo.mark_processed id (verdict answer) t s).1)
      × (view w'.outside id ≡ some (settled o (verdict answer) t))
      × (w'.metrics ≡ w.metrics ++ reports d answer)

  after_payment-Recorded :
      (id : Uuid) (d : ℤ) (r : Result Text (Unit {0})) (w : World S) {o : Stored}
      → view w.outside id ≡ some o
      → (after_payment p id d r w).0 ≡ ok tt
      → Recorded id d r o w (after_payment p id d r w).1
  unfolding after_payment after_mark_failed after_mark_paid
  after_payment-Recorded id d (err c) w {o} at e =
      let (t, s) = p.now w.outside in
      elim (Result-cases (p.repo.mark_processed id failed t s).0) [
        | inr (_, bad) ↦ absurd (not_ok_failed id c _ bad e)
        | inl (_, good) ↦
            let (q, before, after) = laws.repo_laws.mark_ok id failed t s good in
            let at' : view s id ≡ some o = laws.now_keeps w.outside id ∙ at in
            let same : q ≡ o = cc (before, at') in
            (
              after_mark_failed-outside p id c _ _,
              rw (after_mark_failed-outside p)
                  (after ∙ ap (λ (x : Stored). some (settled x failed t)) same),
              rw (good, after_mark_failed) refl,
            )
      ]
  after_payment-Recorded id d (ok _) w {o} at e =
      let (t, s) = p.now w.outside in
      elim (Result-cases (p.repo.mark_processed id paid t s).0) [
        | inr (_, bad) ↦ absurd (not_ok_paid d _ bad e)
        | inl (_, good) ↦
            let (q, before, after) = laws.repo_laws.mark_ok id paid t s good in
            let at' : view s id ≡ some o = laws.now_keeps w.outside id ∙ at in
            let same : q ≡ o = cc (before, at') in
            (
              after_mark_paid-outside p d _ _,
              rw (after_mark_paid-outside p)
                  (after ∙ ap (λ (x : Stored). some (settled x paid t)) same),
              rw (good, after_mark_paid) (append_assoc w.metrics _ _),
            )
      ]

  module _ (processor : Processor S) (keeps : ProcessorKeeps processor view) where
    -- The payment of the order is asked for, between two readings of the clock, and its answer is recorded.
    abbrev Asked : Uuid → Stored → World S → World S → Type 0
    Asked id o w w' =
        let (start, w1) = read p.now w in
        let (answer, w2) = call (processor o.0) w1 in
        let (stop, w3) = read p.now w2 in Recorded id (sub_ℕ stop start) answer o w3 w'

    -- All that a run on the stored order `o` has called: the loading, the writing of PROCESSING, and
    -- the rest as `Asked` says.
    abbrev pub Settles : Uuid → Stored → World S → World S → Type 0
    Settles id o w w' =
        let (_, w1) = call (p.repo.find_by_id id) w in
        let (_, w2) = call (p.repo.update_status id processing) w1 in Asked id o w2 w'

    after_update-Asked :
        (id : Uuid) (r : Result RepoError (Unit {0})) (w : World S) (o : Stored) {q : Stored}
        → ((st : OrderStatus) (t : Time) → settled q st t ≡ settled o st t)
        → view w.outside id ≡ some q
        → (after_update p processor id o.0 r w).0 ≡ ok tt
        → Asked id o w (after_update p processor id o.0 r w).1
    unfolding after_update
    after_update-Asked id (err e) w o like at h = absurd (cc)
    after_update-Asked id (ok _) w o like at h =
        let (start, s) = p.now w.outside in
        let (r, s') = processor o.0 s in
        let kept = laws.now_keeps s' id ∙ (keeps o.0 s id ∙ (laws.now_keeps w.outside id ∙ at)) in
        let (last, after, told) = after_payment-Recorded id _ r _ kept h in
        (last, after ∙ ap {B = Option Stored} some (like (verdict r) _), told)

    -- The loaded order is CREATED: the rest of the run.
    begin-Asked :
        (id : Uuid) (w : World S) (o : Stored)
        → view w.outside id ≡ some o
        → let (r, w1) = call (p.repo.update_status id processing) w in
          (after_update p processor id o.0 r w1).0 ≡ ok tt
          → Asked id o w1 (after_update p processor id o.0 r w1).1
    unfolding after_update
    begin-Asked id w o at h = elim (Result-cases (p.repo.update_status id processing w.outside).0) [
      | inr (_, bad) ↦ absurd (let h' = rw (bad, after_update) at h in cc)
      | inl (_, good) ↦
          let (q, t, before, after) = laws.repo_laws.update_ok id processing w.outside good in
          let same : q ≡ o = cc (before, at) in
          after_update-Asked id _ _ o (λ st t. ap (λ (x : Stored). settled x st t) same) after h
    ]

    after_find-Asked :
        (id : Uuid) (order : Order) (items : List OrderItem) (w : World S)
        → view w.outside id ≡ some (order, items)
        → order.status ≡ created
        → (after_find p processor id (ok (order, items)) w).0 ≡ ok tt
        → Asked id
            (order, items)
            (call (p.repo.update_status id processing) w).1
            (after_find p processor id (ok (order, items)) w).1
    unfolding after_find
    after_find-Asked id order items w at new h =
        let is_new : status_eq order.status created ≡ true = rw new in
        rw (is_new, can_begin new)
          (begin-Asked id w (order, items) at (rw (is_new, can_begin new) at h))

    -- A run on a stored CREATED order that reports no error has called these and nothing else, in this
    -- order: the loading of the order, the writing of PROCESSING, the clock, the payment of the order
    -- as it was loaded, the clock twice, and one writing of the payment's answer. The order is then PAID
    -- if the payment was accepted and FAILED if it was refused, it carries the time of processing and is
    -- otherwise as before; the metrics got one success with the time that the payment took, or one failure.
    pub process-Settles :
        (id : Uuid) (w : World S) {o : Stored}
        → id ≢ nil_uuid
        → view w.outside id ≡ some o
        → o.0.status ≡ created
        → (process p processor id w).0 ≡ ok tt
        → Settles id o w (process p processor id w).1
    unfolding process after_find
    process-Settles id w {o} real at new h =
        let known : (id == nil_uuid) ≡ false = ground arith in
        elim (find_cases laws.repo_laws id w.outside at) [
          | inr (m, e) ↦ absurd (let h' = rw (known, e, after_find) at h in cc)
          | inl e ↦
              rw (known, e)
                (after_find-Asked id o.0 o.1 _ (laws.repo_laws.find_keeps id w.outside id ∙ at) new
                  (rw (known, e) at h))
        ]
