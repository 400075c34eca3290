-- ===== src/Order/Model.antt =====
-- internal/order: model.go, dto.go, and the queue message of queue.go.
use order_service_go_archite.Prelude.{ℕ, Option, List, [], ◌∷◌, map, ℤ, pos, Text}
use order_service_go_archite.Money.{Money, from_cents, add, multiply}
use order_service_go_archite.Order.Status.{OrderStatus}

-- A `uuid.UUID` as the number that its 16 bytes spell, so the order of the texts is the order of
-- the numbers; `uuid.Nil` is 0. A `time.Time` is an instant counted from a fixed origin.
abbrev pub Uuid : Type 0
Uuid = ℕ

abbrev pub nil_uuid : Uuid
nil_uuid = 0

abbrev pub Time : Type 0
Time = ℕ

pub record Order : Type 0 where
  pub id : Uuid
  pub customer_id : Uuid
  pub status : OrderStatus
  pub total_amount : Money
  pub created_by : Uuid
  pub created_at : Time
  pub updated_at : Time
  pub processed_at : Option Time

pub record OrderItem : Type 0 where
  pub id : Uuid
  pub order_id : Uuid
  pub product_id : Uuid
  pub quantity : ℤ
  pub unit_price : Money
  pub total_price : Money

unfoldable pub item_total : Money → ℤ → Money
item_total unit_price quantity = multiply unit_price quantity

unfoldable pub total_from : Money → List Money → Money
total_from total [] = total
total_from total (item ∷ items) = total_from (add total item) items

unfoldable pub order_total : List Money → Money
unfolding total_from
order_total item_totals = total_from (from_cents (pos 0)) item_totals

pub record CreateOrderItemInput : Type 0 where
  pub product_id : Uuid
  pub quantity : ℤ

pub record CreateOrderInput : Type 0 where
  pub customer_id : Uuid
  pub items : List CreateOrderItemInput

pub record OrderItemOutput : Type 0 where
  pub product_id : Uuid
  pub quantity : ℤ
  pub unit_price : Money
  pub total_price : Money

pub record OrderOutput : Type 0 where
  pub id : Uuid
  pub customer_id : Uuid
  pub status : OrderStatus
  pub total_amount : Money
  pub items : List OrderItemOutput
  pub created_at : Time

pub record OrderFilter : Type 0 where
  pub customer_id : Option Uuid
  pub status : Option OrderStatus
  pub start_date : Option Time
  pub end_date : Option Time
  pub page : ℤ
  pub page_size : ℤ

abbrev pub item_output : OrderItem → OrderItemOutput
item_output i = record {
  product_id = i.product_id;
  quantity = i.quantity;
  unit_price = i.unit_price;
  total_price = i.total_price;
}

unfoldable pub to_output : Order → List OrderItem → OrderOutput
to_output o items = record {
  id = o.id;
  customer_id = o.customer_id;
  status = o.status;
  total_amount = o.total_amount;
  items = map item_output items;
  created_at = o.created_at;
}

pub record OrderCreatedMessage : Type 0 where
  pub order_id : Uuid
  pub event : Text
  pub created_at : Time
  pub retry_count : ℤ
