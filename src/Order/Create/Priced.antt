-- ===== src/Order/Create/Priced.antt =====
-- internal/order/service.go, `Create`: the items that the lines of an order are built into.
use mathlib.Core.List.{append_assoc, append-nil}
use order_service_go_archite.Prelude.{
  ◌≡◌, refl, ◌∙◌, true, Result-cases, inl, inr, Option, none, some, List, [], ◌∷◌, ◌++◌, ok, lookup,
  wrap64, ◌*ℤ◌, arith,
}
use order_service_go_archite.Money.{multiply}
use order_service_go_archite.Order.Model.{Uuid, OrderItem, item_total, CreateOrderItemInput}
use order_service_go_archite.Order.Ports.{Product, Ports, World, read}
use order_service_go_archite.Order.Create.{check_product, make_item, build_items}

-- The stored items against the requested lines: same products and quantities in the same order, at
-- the prices of active products that were loaded, each total being price times quantity in 64 bits.
abbrev pub Priced :
    List (Uuid × Product) → Uuid → List CreateOrderItemInput → List OrderItem → Type 0
Priced by_id order_id [] [] = Unit
Priced by_id order_id [] (_ ∷ _) = ⊥
Priced by_id order_id (_ ∷ _) [] = ⊥
Priced by_id order_id (l ∷ ls) (i ∷ is) =
    ((product : Product) × (lookup l.product_id by_id ≡ some product)
      × (product.active ≡ true)
      × (i.unit_price ≡ product.price)
      × (i.total_price.cents ≡ wrap64 (product.price.cents *ℤ l.quantity)))
    × (i.product_id ≡ l.product_id)
    × (i.quantity ≡ l.quantity)
    × (i.order_id ≡ order_id)
    × Priced by_id order_id ls is

check_product-active :
    (found : Option Product) {product : Product}
    → check_product found ≡ ok product
    → (found ≡ some product) × (product.active ≡ true)
unfolding check_product
check_product-active none e = (cc, cc)
check_product-active (some q) e = ground arith

module _ {S : Type 0} (p : Ports S) where
  pub build_items-Priced :
      (by_id : List (Uuid × Product)) (order_id : Uuid) (done : List OrderItem)
      (lines : List CreateOrderItemInput) (w : World S) {items : List OrderItem}
      → (build_items p by_id order_id done lines w).0 ≡ ok items
      → (added : List OrderItem) × (items ≡ done ++ added) × Priced by_id order_id lines added
  unfolding build_items make_item item_total multiply
  build_items-Priced by_id order_id done [] w e = ([], cc (append-nil done), tt)
  build_items-Priced by_id order_id done (l ∷ ls) w {items} e =
      elim (Result-cases (check_product (lookup l.product_id by_id))) [
        | inr (_, bad) ↦ absurd (let e' = rw (bad, build_items) at e in cc)
        | inl (product, good) ↦
            let (found, active) = check_product-active _ good in
            let (added, split, priced) =
              build_items-Priced by_id order_id
                (done ++ make_item (p.new_id w.outside).0 order_id l product ∷ []) ls
                (read p.new_id w).1 {items = items} (rw (good, build_items) at e) in
            (
              make_item (p.new_id w.outside).0 order_id l product ∷ added,
              split ∙ append_assoc done _ added,
              ((product, found, active, refl, refl), refl, refl, refl, priced),
            )
      ]
