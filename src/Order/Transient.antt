-- ===== src/Order/Transient.antt =====
-- cmd/worker: main.go's simulated payment processor, and transient_failure_repo.go, a repository
-- that wraps another and fails the start of processing for one order total.
use order_service_go_archite.Prelude.{
  ◌≡◌, ◌∙◌, ◌≢◌, Bool, false, if◌then◌else◌, eq_ℤ, pos, text, Result, ok, err, Action, Bool-cases,
  inl, inr, arith,
}
use order_service_go_archite.Money.{Money}
use order_service_go_archite.Order.Status.{OrderStatus, processing, status_eq}
use order_service_go_archite.Order.Model.{Uuid}
use order_service_go_archite.Order.Ports.{RepoError, failure, Stored, OrderRepository, Processor}
use order_service_go_archite.Order.Contract.{View, RepoLaws, StatusWritten}

-- `failureTotal`, 13.37.
abbrev pub failure_total : Money
failure_total = record { cents = pos 1337 }

unfoldable pub simulated_payment : {S : Type 0} → Processor S
simulated_payment o s =
    if eq_ℤ o.total_amount.cents failure_total.cents
    then (err (text "simulated payment failure"), s)
    else (ok tt, s)

-- An order that was found and has the sentinel's total.
abbrev pub is_sentinel : Money → Result RepoError Stored → Bool
is_sentinel sentinel (ok stored) = eq_ℤ stored.0.total_amount.cents sentinel.cents
is_sentinel sentinel (err _) = false

module _ {S : Type 0} (inner : OrderRepository S) (sentinel : Money) where
  unfoldable pub update_status : Uuid → OrderStatus → Action S RepoError (Unit {0})
  update_status id st s =
      if status_eq st processing
      then (let (found, s1) = inner.find_by_id id s in
          if is_sentinel sentinel found
          then (err (failure (text "simulated transient infrastructure failure")), s1)
          else inner.update_status id st s1)
      else inner.update_status id st s

  abbrev pub transient_failure_repo : OrderRepository S
  transient_failure_repo = record inner { update_status = update_status }

module _ {S : Type 0} {inner : OrderRepository S} {view : View S} (laws : RepoLaws inner view)
    (sentinel : Money) where
  update_status-ok :
      (id : Uuid) (st : OrderStatus) (s : S)
      → (update_status inner sentinel id st s).0 ≡ ok tt
      → StatusWritten st (view s id) (view (update_status inner sentinel id st s).1 id)
  unfolding update_status
  update_status-ok id st s e = elim (Bool-cases (status_eq st processing)) [
    | inr plain ↦ rw plain (laws.update_ok id st s (rw plain at e))
    | inl starts ↦ elim (Bool-cases (is_sentinel sentinel (inner.find_by_id id s).0)) [
      | inl fails ↦ ground arith
      | inr works ↦
          let s1 = (inner.find_by_id id s).1 in
          rw (starts, works)
            (rw (laws.find_keeps id s id) at (laws.update_ok id st s1 (rw (starts, works) at e)))
    ]
  ]

  update_status-err :
      (id : Uuid) (st : OrderStatus) (s : S) {e : RepoError}
      → (update_status inner sentinel id st s).0 ≡ err e
      → view (update_status inner sentinel id st s).1 id ≡ view s id
  unfolding update_status
  update_status-err id st s e = elim (Bool-cases (status_eq st processing)) [
    | inr plain ↦ rw plain (laws.update_err id st s (rw plain at e))
    | inl starts ↦ elim (Bool-cases (is_sentinel sentinel (inner.find_by_id id s).0)) [
      | inl fails ↦ rw (starts, fails) (laws.find_keeps id s id)
      | inr works ↦
          let s1 = (inner.find_by_id id s).1 in
          rw (starts, works)
            (laws.update_err id st s1 (rw (starts, works) at e) ∙ laws.find_keeps id s id)
    ]
  ]

  update_status-others :
      (id : Uuid) (st : OrderStatus) (s : S) (j : Uuid)
      → j ≢ id
      → view (update_status inner sentinel id st s).1 j ≡ view s j
  unfolding update_status
  update_status-others id st s j other = elim (Bool-cases (status_eq st processing)) [
    | inr plain ↦ rw plain (laws.update_others id st s j other)
    | inl starts ↦ elim (Bool-cases (is_sentinel sentinel (inner.find_by_id id s).0)) [
      | inl fails ↦ rw (starts, fails) (laws.find_keeps id s j)
      | inr works ↦
          let s1 = (inner.find_by_id id s).1 in
          rw (starts, works) (laws.update_others id st s1 j other ∙ laws.find_keeps id s j)
    ]
  ]

  -- Wrapping a repository that keeps the contract gives one that keeps it.
  pub transient_failure_repo-RepoLaws : RepoLaws (transient_failure_repo inner sentinel) view
  transient_failure_repo-RepoLaws = record {
    find_some = laws.find_some;
    find_none = laws.find_none;
    find_keeps = laws.find_keeps;
    list_keeps = laws.list_keeps;
    mark_ok = laws.mark_ok;
    mark_err = laws.mark_err;
    mark_others = laws.mark_others;
    create_ok = laws.create_ok;
    create_err = laws.create_err;
    create_others = laws.create_others;
    update_ok = update_status-ok;
    update_err = update_status-err;
    update_others = update_status-others;
  }
