-- ===== src/Order/Contract/Growth.antt =====
-- internal/order: how a stored order may change from one state of the store to a later one.
use order_service_go_archite.Prelude.{◌≡◌, ◌∙◌, Option, none, some}
use order_service_go_archite.Order.Status.{created}
use order_service_go_archite.Order.Status.Graph.{◌⟶*◌, ⟶*_trans}
use order_service_go_archite.Order.Ports.{Stored}

-- The later order has the identity, the amounts and the items of the earlier one, and a status
-- that the lifecycle reaches from the earlier one's.
pub record Evolves (a b : Stored) : Type 0 where
  pub same_id : b.0.id ≡ a.0.id
  pub same_customer : b.0.customer_id ≡ a.0.customer_id
  pub same_total : b.0.total_amount ≡ a.0.total_amount
  pub same_creator : b.0.created_by ≡ a.0.created_by
  pub same_creation : b.0.created_at ≡ a.0.created_at
  pub same_items : b.1 ≡ a.1
  pub path : a.0.status ⟶* b.0.status

-- No order goes away, and a new one starts as CREATED.
pub data Grows : Option Stored → Option Stored → Type 0 where
  still : {o : Option Stored} → Grows o o
  evolved : {a b : Stored} → Evolves a b → Grows (some a) (some b)
  born : {b : Stored} → created ⟶* b.0.status → Grows none (some b)

pub Evolves-trans : {a b c : Stored} → Evolves a b → Evolves b c → Evolves a c
Evolves-trans p q = record {
  same_id = q.same_id ∙ p.same_id;
  same_customer = q.same_customer ∙ p.same_customer;
  same_total = q.same_total ∙ p.same_total;
  same_creator = q.same_creator ∙ p.same_creator;
  same_creation = q.same_creation ∙ p.same_creation;
  same_items = q.same_items ∙ p.same_items;
  path = ⟶*_trans p.path q.path;
}

pub Grows-trans : {a b c : Option Stored} → Grows a b → Grows b c → Grows a c
Grows-trans still q = q
Grows-trans (evolved p) still = evolved p
Grows-trans (evolved p) (evolved q) = evolved (Evolves-trans p q)
Grows-trans (born p) still = born p
Grows-trans (born p) (evolved q) = born (⟶*_trans p q.path)

pub Grows-of_eq : {a b : Option Stored} → b ≡ a → Grows a b
Grows-of_eq e = rw e still
