-- ===== src/Order/Create/Checked.antt =====
-- internal/order/service.go, the checks at the start of `Create`, and model.go, `OrderTotal`, against a description of
-- their own; and the message of queue.go that announces an order.
use order_service_go_archite.Prelude.{
  ℕ, zero, suc, ℤ, pos, negsuc, ltb_ℤ, wrap64, ◌+ℤ◌, ◌≢◌, ◌==◌, ◌≡◌, refl, false, Every, text,
  arith, Bool-cases, inl, inr, none, List, [], ◌∷◌,
}
use order_service_go_archite.Money.{Money, add, from_cents}
use order_service_go_archite.Order.Model.{
  nil_uuid, Order, OrderItem, total_from, order_total, CreateOrderItemInput, CreateOrderInput,
  OrderCreatedMessage,
}
use order_service_go_archite.Order.Create.{
  validate_items, validate_some_items, validate_input, total_prices,
}

-- An input that the service accepts: a customer is named, there is a line, and each line has a
-- quantity of at least one and names a product.
abbrev pub ValidLine : CreateOrderItemInput → Type 0
ValidLine l = ((n : ℕ) × (l.quantity ≡ pos (suc n))) × (l.product_id ≢ nil_uuid)

abbrev pub ValidInput : CreateOrderInput → Type 0
ValidInput input = (input.customer_id ≢ nil_uuid) × (input.items ≢ []) × Every ValidLine input.items

-- The cents of the items' totals added to a sum, one after the other and each sum in 64 bits.
abbrev pub added_up : ℤ → List OrderItem → ℤ
added_up total [] = total
added_up total (i ∷ is) = added_up (wrap64 (total +ℤ i.total_price.cents)) is

-- The message that announces an order for the first time.
abbrev pub announcement : Order → OrderCreatedMessage
announcement o = record {
  order_id = o.id;
  event = text "ORDER_CREATED";
  created_at = o.created_at;
  retry_count = pos 0;
}

at_least_one : (q : ℤ) → ltb_ℤ q (pos 1) ≡ false → (n : ℕ) × (q ≡ pos (suc n))
at_least_one (pos zero) h = absurd (ground arith)
at_least_one (pos (suc n)) h = (n, refl)
at_least_one (negsuc n) h = absurd (ground arith)

validate_items-ValidLine :
    (lines : List CreateOrderItemInput) → validate_items lines ≡ none → Every ValidLine lines
unfolding validate_items
validate_items-ValidLine [] h = tt
validate_items-ValidLine (l ∷ ls) h = elim (Bool-cases (ltb_ℤ l.quantity (pos 1))) [
  | inl few ↦ absurd (let h' = rw few at h in cc)
  | inr enough ↦ elim (Bool-cases (l.product_id == nil_uuid)) [
    | inl empty ↦ absurd (let h' = rw (enough, empty) at h in cc)
    | inr named ↦ (
      (at_least_one l.quantity enough, λ e. ground (arith, named)),
      validate_items-ValidLine ls (rw (enough, named) at h),
    )
  ]
]

pub validate_input-ValidInput :
    (input : CreateOrderInput) → validate_input input ≡ none → ValidInput input
unfolding validate_input
validate_input-ValidInput input h = elim (Bool-cases (input.customer_id == nil_uuid)) [
  | inl empty ↦ absurd (let h' = rw empty at h in cc)
  | inr named ↦
      let (some_line, lines) = lines_valid input.items (rw named at h) in
      (λ e. ground (arith, named), some_line, lines)
]
  where
    lines_valid :
        (lines : List CreateOrderItemInput)
        → validate_some_items lines ≡ none
        → (lines ≢ []) × Every ValidLine lines
    lines_valid [] e = absurd (cc)
    lines_valid (l ∷ ls) e = ((λ same. cc), validate_items-ValidLine (l ∷ ls) e)

total_from-added_up :
    (items : List OrderItem) (total : Money)
    → (total_from total (total_prices items)).cents ≡ added_up total.cents items
unfolding total_from add
total_from-added_up [] total = refl
total_from-added_up (i ∷ is) total = total_from-added_up is (add total i.total_price)

pub order_total-added_up :
    (items : List OrderItem) → (order_total (total_prices items)).cents ≡ added_up (pos 0) items
unfolding order_total
order_total-added_up items = total_from-added_up items (from_cents (pos 0))
