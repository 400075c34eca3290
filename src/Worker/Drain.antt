-- ===== src/Worker/Drain.antt =====
-- internal/worker: the retry bound and the length of the queue.
use order_service_go_archite.Prelude.{
  ℕ, zero, suc, ◌+◌, ◌-◌, ◌≤◌, ◌<◌, ◌≡◌, refl, sym, ◌∙◌, ap, true, false, Bool-cases, Result-cases,
  inl, inr, List, [], ◌∷◌, ◌++◌, ℤ, pos, negsuc, ◌≤ℤ◌, pos_part, neg_part, ltb_ℤ, arith, two63,
  IsInt64, wrap64_id, ◌+ℤ◌,
}
use mathlib.Core.List.{append_assoc, append-nil}
use order_service_go_archite.Order.Model.{OrderCreatedMessage}
use order_service_go_archite.Order.Ports.{Ports, Processor}
use order_service_go_archite.Order.Process.{process}
use order_service_go_archite.Worker.{
  Queues, Pool, queue_call, retried, after_requeue, after_dead_letter, handle_process_error,
  after_process, handle, run_loop,
}
use order_service_go_archite.Worker.Contract.{Queued, QueueLaws, ProcessKeeps}

-- The retries that a message has left.
abbrev pub left : ℕ → OrderCreatedMessage → ℕ
left max m = max + neg_part m.retry_count - pos_part m.retry_count

-- A bound on the rounds that a queue takes: each message once, and once for each retry left.
abbrev pub work : ℕ → List OrderCreatedMessage → ℕ
work max [] = 0
work max (m ∷ ms) = suc (left max m) + work max ms

pub work-append :
    (max : ℕ) (xs ys : List OrderCreatedMessage) → work max (xs ++ ys) ≡ work max xs + work max ys
work-append max [] ys = omega arith
work-append max (m ∷ ms) ys = omega (arith, work-append max ms ys)

-- A retry count that the configured maximum allows.
abbrev pub IsWithin : ℕ → OrderCreatedMessage → Type 0
IsWithin max m = IsInt64 m.retry_count × (m.retry_count ≤ℤ pos max)

abbrev pub All : (OrderCreatedMessage → Type 0) → List OrderCreatedMessage → Type 0
All P [] = Unit
All P (m ∷ ms) = P m × All P ms

All-append :
    (P : OrderCreatedMessage → Type 0) (xs : List OrderCreatedMessage) {m : OrderCreatedMessage}
    → All P xs
    → P m
    → All P (xs ++ m ∷ [])
All-append P [] h p = (p, tt)
All-append P (x ∷ xs) (q, h) p = (q, All-append P xs h p)

next_IsInt64 :
    (a : ℤ) (max : ℕ) → IsInt64 a → max < two63 → ltb_ℤ a (pos max) ≡ true → IsInt64 (a +ℤ pos 1)
unfolding ◌+ℤ◌
next_IsInt64 (pos n) max wide small below = ground arith
next_IsInt64 (negsuc n) max wide small below = ground arith

next_left :
    (a : ℤ) (max : ℕ)
    → ltb_ℤ a (pos max) ≡ true
    → (suc (max + neg_part (a +ℤ pos 1) - pos_part (a +ℤ pos 1)) ≡ max + neg_part a - pos_part a)
      × (a +ℤ pos 1 ≤ℤ pos max)
unfolding ◌+ℤ◌
next_left (pos n) max below = ground arith
next_left (negsuc n) max below = ground arith

module _ (max : ℕ) (small : max < two63) where
  -- A retry uses up one of the retries left, and stays within the maximum.
  pub retried-left :
      (m : OrderCreatedMessage)
      → IsWithin max m
      → ltb_ℤ m.retry_count (pos max) ≡ true
      → (suc (left max (retried m)) ≡ left max m) × IsWithin max (retried m)
  unfolding retried
  retried-left m (wide, _) below =
      let kept = next_IsInt64 m.retry_count max wide small below in
      rw (wrap64_id _ kept)
        (let (less, bound) = next_left m.retry_count max below in (less, (kept, bound)))

  -- What the handling of a message does to the queues.
  pub data Handled (m : OrderCreatedMessage) (a : Queued) : Queued → Type 0 where
    acknowledged : Handled m a a
    sent_back :
        ltb_ℤ m.retry_count (pos max) ≡ true
        → Handled m a (record { pending = a.pending ++ retried m ∷ []; dead = a.dead })
    buried :
        ltb_ℤ m.retry_count (pos max) ≡ false
        → Handled m a (record { pending = a.pending; dead = a.dead ++ m ∷ [] })

module _ (max : ℕ) (small : max < two63) where
  -- What a worker that is left alone with its queue ends with.
  abbrev pub Drained : Queued → Queued → Type 0
  Drained a b =
      (added : List OrderCreatedMessage) × (b ≡ record { pending = []; dead = a.dead ++ added })
      × All (λ m. m.retry_count ≡ pos max) added

  nothing_added : (a : Queued) → a.pending ≡ [] → Drained a a
  nothing_added a e = ([], (λ i. record { pending = e i; dead = sym (append-nil a.dead) i }), tt)

  -- Only the dead letters of the start count.
  widen : (a b c : Queued) → b.dead ≡ a.dead → Drained b c → Drained a c
  widen a b c e (added, is, exact) = (added, rw e at is, exact)

  spent_count : (a : ℤ) → a ≤ℤ pos max → ltb_ℤ a (pos max) ≡ false → a ≡ pos max
  spent_count (pos n) bound spent = ground arith
  spent_count (negsuc n) bound spent = ground arith

  -- One message less, or one retry less; and what comes after counts for the whole.
  Handled-next :
      (m : OrderCreatedMessage) (ms : List OrderCreatedMessage) {a b : Queued} (rounds : ℕ)
      → Handled max small m a b
      → a.pending ≡ ms
      → work max (m ∷ ms) ≤ suc rounds
      → All (IsWithin max) (m ∷ ms)
      → (work max b.pending ≤ rounds)
        × All (IsWithin max) b.pending
        × ((c : Queued) → Drained b c → Drained a c)
  Handled-next m ms rounds acknowledged waiting enough (here, within) =
      (rw waiting (omega arith), rw waiting within, λ c d. d)
  Handled-next m ms {a} rounds (sent_back below) waiting enough (here, within) =
      let (less, bound) = retried-left max small m here below in
      (
        rw waiting (omega (arith, work-append max ms (retried m ∷ []))),
        rw waiting (All-append (IsWithin max) ms within bound),
        λ c d. d,
      )
  Handled-next m ms {a} rounds (buried spent) waiting enough (here, within) = (
    rw waiting (omega arith),
    rw waiting within,
    λ c (added, e, exact). (
      m ∷ added,
      e
          ∙ ap (λ (d : List OrderCreatedMessage). record { pending = []; dead = d })
              (append_assoc a.dead (m ∷ []) added),
      (spent_count m.retry_count here.1 spent, exact),
    ),
  )

module _ {S : Type 0} {queues : Queues S} {Ok : S → Type 0} {Fits : OrderCreatedMessage → Type 0}
    {queued : S → Queued} (laws : QueueLaws queues Ok Fits queued) (max : ℕ)
    (small : max < two63) where
  -- Where a failed message goes: back while retries are left, and else to the dead letters, as it is.
  pub handle_process_error-Handled :
      (m : OrderCreatedMessage) (q : Pool S)
      → Ok q.world.outside
      → Fits m
      → IsInt64 m.retry_count
      → let q' = handle_process_error queues (pos max) m q in
        Handled max small m (queued q.world.outside) (queued q'.world.outside) × Ok q'.world.outside
  unfolding handle_process_error after_requeue after_dead_letter
  handle_process_error-Handled m q fine fits wide =
      elim (Bool-cases (ltb_ℤ m.retry_count (pos max))) [
        | inl below ↦
            let (arrives, there, fine') =
              laws.requeue_last q.world.outside (retried m) fine (laws.retried_fits m wide fits) in
            rw (below, arrives, after_requeue, there) (sent_back below, fine')
        | inr spent ↦
            let (arrives, there, fine') = laws.dead_letter_last q.world.outside m fine fits in
            rw (spent, arrives, after_dead_letter, there) (buried spent, fine')
      ]

  module _ (p : Ports S) (processor : Processor S)
      (keeps : ProcessKeeps p processor Ok queued) where
    handle-Handled :
        (m : OrderCreatedMessage) (q : Pool S)
        → Ok q.world.outside
        → Fits m
        → IsInt64 m.retry_count
        → let q' = handle queues (pos max) p processor m q in
          Handled max small m (queued q.world.outside) (queued q'.world.outside)
          × Ok q'.world.outside
    unfolding handle after_process
    handle-Handled m q fine fits wide =
        let (same, fine_too) = keeps m.order_id q.world in
        elim (Result-cases (process p processor m.order_id q.world).0) [
          | inl (_, good) ↦ rw (good, after_process, same) (acknowledged, fine_too fine)
          | inr (_, bad) ↦
              rw (bad, after_process)
                (rw same at (
                  handle_process_error-Handled m
                    (record q { world = (process p processor m.order_id q.world).1 })
                    (fine_too fine) fits wide))
        ]

    -- Enough rounds for the messages that wait: the worker comes to the end of the queue.
    run_from :
        (rounds : ℕ) (q : Pool S) (ms : List OrderCreatedMessage)
        → Ok q.world.outside
        → (queued q.world.outside).pending ≡ ms
        → work max ms ≤ rounds
        → All (IsWithin max) ms
        → Drained max small
            (queued q.world.outside)
            (queued (run_loop queues (pos max) p processor rounds q).world.outside)
    unfolding run_loop
    run_from zero q [] fine waiting enough within = nothing_added max small _ waiting
    run_from (suc rounds) q [] fine waiting enough within =
        let (e, stops, same) = laws.dequeue_stop q.world.outside fine waiting in
        rw (stops, run_loop) (rw same (nothing_added max small _ waiting))
    run_from zero q (m ∷ ms) fine waiting enough within = absurd (omega arith)
    run_from (suc rounds) q (m ∷ ms) fine waiting enough within =
        let (taken, rest, fine1, fits) = laws.dequeue_next q.world.outside m ms fine waiting in
        let q1 : Pool S = (queue_call queues.dequeue q).1 in
        let (done, fine2) = handle-Handled m q1 fine1 fits within.0.0 in
        let (fewer, kept, onward) =
          Handled-next max small m ms rounds done (ap (λ (x : Queued). x.pending) rest) enough
            within in
        rw (taken, run_loop)
          (widen max small (queued q.world.outside) (queued q1.world.outside) _
            (ap (λ (x : Queued). x.dead) rest)
            (onward _
              (run_from rounds (handle queues (pos max) p processor m q1) _ fine2 refl fewer kept)))

    -- A worker whose queues can be reached and hold messages with counts within the maximum comes to
    -- the end of its queue, in at most one round for each message and one for each retry that it has
    -- left: then nothing waits, the earlier dead letters are still there, and every message that
    -- was added to them had used up exactly the configured number of retries.
    pub run_loop_drains :
        (q : Pool S)
        → Ok q.world.outside
        → let start = queued q.world.outside in
          All (IsWithin max) start.pending
          → Drained max small start (
              queued
                (run_loop queues (pos max) p processor (work max start.pending) q).world.outside)
    run_loop_drains q fine within = run_from (work max _) q _ fine refl (omega arith) within
