-- ===== src/Order/Status/Graph.antt =====
-- internal/order/status.go: the transition table as a relation, and what can be reached along it.
use order_service_go_archite.Prelude.{◌≡◌, refl, ◌↔◌, ◌⊎◌, true, arith}
use order_service_go_archite.Order.Status.{
  OrderStatus, created, processing, paid, shipped, canceled, failed, status_eq, can_transition,
}

infix 40 ◌⟶◌ ◌⟶*◌
pub data ◌⟶◌ : OrderStatus → OrderStatus → Type 0 where
  begin : created ⟶ processing
  cancel : created ⟶ canceled
  pay : processing ⟶ paid
  fail : processing ⟶ failed
  ship : paid ⟶ shipped

pub data ◌⟶*◌ : OrderStatus → OrderStatus → Type 0 where
  here : {s : OrderStatus} → s ⟶* s
  then : {s t u : OrderStatus} → s ⟶ t → t ⟶* u → s ⟶* u

pub ruleset edges = (begin, cancel, pay, fail, ship)

pub status_eq_iff : (s t : OrderStatus) → (status_eq s t ≡ true) ↔ (s ≡ t)
status_eq_iff s t = ground arith

pub ⟶*_trans : {s t u : OrderStatus} → s ⟶* t → t ⟶* u → s ⟶* u
⟶*_trans here b = b
⟶*_trans (then e a) b = then e (⟶*_trans a b)

pub ⟶*_one : {s t : OrderStatus} → s ⟶ t → s ⟶* t
⟶*_one e = then e here

can_transition_sound : (s t : OrderStatus) → can_transition s t ≡ true → s ⟶ t
unfolding can_transition
can_transition_sound s t h = grind (arith, edges)

pub can_transition_complete : {s t : OrderStatus} → s ⟶ t → can_transition s t ≡ true
unfolding can_transition
can_transition_complete begin = refl
can_transition_complete cancel = refl
can_transition_complete pay = refl
can_transition_complete fail = refl
can_transition_complete ship = refl

-- `CanTransition` answers true for exactly the five edges of the lifecycle.
pub can_transition_iff : (s t : OrderStatus) → (can_transition s t ≡ true) ↔ (s ⟶ t)
can_transition_iff s t = (can_transition_sound s t, can_transition_complete)

-- A status with no way out.
abbrev pub IsTerminal : OrderStatus → Type 0
IsTerminal s = (s ≡ shipped) ⊎ ((s ≡ canceled) ⊎ (s ≡ failed))

step-IsTerminal : {s t : OrderStatus} → s ⟶ t → IsTerminal s → ⊥
step-IsTerminal begin h = ground arith
step-IsTerminal cancel h = ground arith
step-IsTerminal pay h = ground arith
step-IsTerminal fail h = ground arith
step-IsTerminal ship h = ground arith

pub terminal_stays : {s t : OrderStatus} → s ⟶* t → IsTerminal s → t ≡ s
terminal_stays here h = refl
terminal_stays (then e a) h = absurd (step-IsTerminal e h)
