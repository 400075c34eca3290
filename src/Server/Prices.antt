-- ===== src/Server/Prices.antt =====
-- cmd/api with internal/order/service.go: an order that is created over the customer and the product
-- services.
use order_service_go_archite.Prelude.{
  Every, ◌≡◌, refl, sym, ap, ◌∙◌, ◌==◌, ==_iff, Bool-cases, true, Option, some, List, [], ◌∷◌, map,
  Result-cases, inl, inr, ok, subst, lookup, insert, lookup-insert, Text, Action, wrap64, ◌*ℤ◌,
}
use order_service_go_archite.Customer.{CustomerRepository}
use order_service_go_archite.Customer
use order_service_go_archite.Customer.Service as Customers
use order_service_go_archite.Product.{ProductRepository, ProductOutput}
use order_service_go_archite.Product
use order_service_go_archite.Product.Service as Products
use order_service_go_archite.Order.Model.{
  Uuid, Time, OrderItem, CreateOrderItemInput, CreateOrderInput, OrderOutput, to_output,
  OrderCreatedMessage,
}
use order_service_go_archite.Order.Ports.{LookupError, OrderRepository, Ports, World}
use order_service_go_archite.Order.Ports
use order_service_go_archite.Order.Contract.{View, PortLaws}
use order_service_go_archite.Order.Create.{index_products, product_ids, create}
use order_service_go_archite.Order.Create.Priced.{Priced}
use order_service_go_archite.Order.Create.Correct.{create_correct}
use order_service_go_archite.Server.Lookups.{
  as_customer, as_product, as_products, customer_lookup, product_lookup, api_ports,
}

-- The two repositories answer by what they store, while `Ok` holds.
pub record Stocked {S : Type 0} (customers : CustomerRepository S) (products : ProductRepository S)
    (Ok : S → Type 0) (customer_of : S → Uuid → Option Customer.Customer)
    (product_of : S → Uuid → Option Product.Product) : Type 0 where
  pub finds_customer :
      (id : Uuid) (s : S) {c : Customer.Customer}
      → (customers.find_by_id id s).0 ≡ ok c
      → customer_of s id ≡ some c
  pub finds_products :
      (ids : List Uuid) (s : S) {ps : List Product.Product}
      → Ok s
      → (products.find_many_by_id ids s).0 ≡ ok ps
      → Every (λ (q : Product.Product). product_of s q.id ≡ some q) ps

-- Every line's item has the price of an active product of the stock.
abbrev pub Stock :
    (Uuid → Option Product.Product) → List CreateOrderItemInput → List OrderItem → Type 0
Stock product_of [] [] = Unit
Stock product_of [] (_ ∷ _) = ⊥
Stock product_of (_ ∷ _) [] = ⊥
Stock product_of (l ∷ ls) (i ∷ is) =
    ((q : Product.Product) × (product_of l.product_id ≡ some q)
      × (q.active ≡ true)
      × (i.unit_price ≡ q.price)
      × (i.total_price.cents ≡ wrap64 (q.price.cents *ℤ l.quantity)))
    × (i.product_id ≡ l.product_id)
    × (i.quantity ≡ l.quantity)
    × Stock product_of ls is

-- What holds of every loaded product holds of every entry of the index.
index_products-Every :
    (P : Uuid → Ports.Product → Type 0) (m : List (Uuid × Ports.Product)) (ps : List Ports.Product)
    → ((k : Uuid) (x : Ports.Product) → lookup k m ≡ some x → P k x)
    → Every (λ (p : Ports.Product). P p.id p) ps
    → (k : Uuid) (x : Ports.Product) → lookup k (index_products m ps) ≡ some x
    → P k x
unfolding index_products
index_products-Every P m [] old new k x e = old k x e
index_products-Every P m (p ∷ ps) old (h, new) k x e =
    index_products-Every P (insert p.id p m) ps inserted new k x e
  where
    inserted : (k : Uuid) (x : Ports.Product) → lookup k (insert p.id p m) ≡ some x → P k x
    inserted k x e = elim (Bool-cases (p.id == k)) [
      | inl same ↦
          let entry = lookup-insert k p.id p m in
          let here = rw same at entry in
          let found : some p ≡ some x = sym here ∙ e in
          let key : p.id ≡ k = (==_iff p.id k).0 same in
          subst (λ i. P i x) key (subst (λ (y : Ports.Product). P p.id y) (cc (found)) h)
      | inr other ↦
          let entry = lookup-insert k p.id p m in
          let there = rw other at entry in old k x (sym there ∙ e)
    ]

module _ {S : Type 0} (product_of : S → Uuid → Option Product.Product) where
  -- The order's product is one of the catalogue as the service shows it.
  abbrev Shown : S → Uuid → Ports.Product → Type 0
  Shown s k x =
      (q : Product.Product) × (product_of s k ≡ some q) × (x ≡ as_product (Product.to_output q))

  shown :
      (s : S) (ps : List Product.Product)
      → Every (λ (q : Product.Product). product_of s q.id ≡ some q) ps
      → Every (λ (p : Ports.Product). Shown s p.id p) (map as_product (map Product.to_output ps))
  shown s [] h = tt
  shown s (q ∷ qs) (h, hs) = ((q, h, refl), shown s qs hs)

  in-Stock :
      (s : S) (by_id : List (Uuid × Ports.Product)) (order_id : Uuid)
      (ls : List CreateOrderItemInput) (items : List OrderItem)
      → ((k : Uuid) (x : Ports.Product) → lookup k by_id ≡ some x → Shown s k x)
      → Priced by_id order_id ls items
      → Stock (product_of s) ls items
  in-Stock s by_id order_id [] [] known h = tt
  in-Stock s by_id order_id [] (_ ∷ _) known h = h
  in-Stock s by_id order_id (_ ∷ _) [] known h = h
  in-Stock s by_id order_id (l ∷ ls) (i ∷ is) known
        ((x, at, active, price, total), product, quantity, _, rest) =
      let (q, stored, same) = known l.product_id x at in
      (
        (
          q,
          stored,
          sym (ap (λ (y : Ports.Product). y.active) same) ∙ active,
          price ∙ ap (λ (y : Ports.Product). y.price) same,
          total ∙ ap (λ (y : Ports.Product). wrap64 (y.price.cents *ℤ l.quantity)) same,
        ),
        product,
        quantity,
        in-Stock s by_id order_id ls is known rest,
      )

module _ {S : Type 0} {customers : CustomerRepository S} {products : ProductRepository S}
    {Ok : S → Type 0} {customer_of : S → Uuid → Option Customer.Customer}
    {product_of : S → Uuid → Option Product.Product}
    (stocked : Stocked customers products Ok customer_of product_of) where
  looked_up :
      (id : Uuid) (s : S) {c : Ports.Customer}
      → (customer_lookup customers id s).0 ≡ ok c
      → (found : Customer.Customer) × (customer_of s id ≡ some found)
        × (c ≡ record { id = found.id; active = found.active })
  unfolding customer_lookup Customers.find_by_id as_customer
  looked_up id s e = elim (Result-cases (customers.find_by_id id s).0) [
    | inr (_, bad) ↦ absurd (let e' = rw (bad, as_customer) at e in cc)
    | inl (found, good) ↦
        let stored = stocked.finds_customer id s good in
        let e' = rw (good, as_customer) at e in (found, stored, cc (e'))
  ]

  loaded-Shown :
      (ids : List Uuid) (s : S) {loaded : List Ports.Product}
      → Ok s
      → (product_lookup products ids s).0 ≡ ok loaded
      → Every (λ (p : Ports.Product). Shown product_of s p.id p) loaded
  unfolding product_lookup Products.find_many_by_id as_products
  loaded-Shown ids s fine e = elim (Result-cases (products.find_many_by_id ids s).0) [
    | inr (_, bad) ↦ absurd (let e' = rw (bad, as_products) at e in cc)
    | inl (ps, good) ↦
        let e' = rw (good, as_products) at e in
        subst (Every (λ (p : Ports.Product). Shown product_of s p.id p)) (cc (e'))
          (shown product_of s ps (stocked.finds_products ids s fine good))
  ]

module _ {S : Type 0} {view : View S} {customers : CustomerRepository S}
    {products : ProductRepository S} {Ok : S → Type 0}
    {customer_of : S → Uuid → Option Customer.Customer}
    {product_of : S → Uuid → Option Product.Product}
    (stocked : Stocked customers products Ok customer_of product_of)
    (still : (id : Uuid) (s : S)
      → (product_of (customer_lookup customers id s).1 ≡ product_of s)
        × (Ok s → Ok (customer_lookup customers id s).1))
    (orders : OrderRepository S) (publish : OrderCreatedMessage → Action S Text (Unit {0}))
    (now : S → Time × S) (new_id : S → Uuid × S)
    (laws : PortLaws (api_ports orders customers products publish now new_id) view) where
  -- An order that the wired API reports as created is one for a customer who was stored and active when the
  -- request came, and it is stored with one item for each line, at the price that the catalogue
  -- then had for the line's product, which was active.
  pub created_from-Stock :
      (created_by : Uuid) (input : CreateOrderInput) (w : World S) {out : OrderOutput}
      → Ok w.outside
      → (create (api_ports orders customers products publish now new_id) created_by input w).0
        ≡ ok out
      → ((c : Customer.Customer) × (customer_of w.outside input.customer_id ≡ some c)
          × (c.active ≡ true))
        × ((o : Ports.Stored) × (view
                (create
                  (api_ports orders customers products publish now new_id)
                  created_by
                  input
                  w).1.outside
                out.id
              ≡ some o)
            × (o.0.customer_id ≡ input.customer_id)
            × Stock (product_of w.outside) input.items o.1)
  unfolding to_output
  created_from-Stock created_by input w fine answered =
      let w' =
        (create (api_ports orders customers products publish now new_id) created_by input w).1 in
      let made = create_correct laws created_by input w answered in
      let (c, found, active) = made.customer_active in
      let (stored, at, same) = looked_up stocked input.customer_id w.outside found in
      let s1 = (customer_lookup customers input.customer_id w.outside).1 in
      let (same_stock, fine') = still input.customer_id w.outside in
      let shown =
        loaded-Shown stocked (product_ids input.items) s1 (fine' fine) made.products_loaded in
      let priced =
        in-Stock product_of s1 (index_products [] made.loaded) made.order.id input.items made.items
          (index_products-Every (Shown product_of s1) [] made.loaded (λ k x e. cc) shown)
          made.priced in
      (
        (stored, at, sym (ap (λ (x : Ports.Customer). x.active) same) ∙ active),
        (
          (made.order, made.items),
          ap (λ (x : OrderOutput). view w'.outside x.id) made.answered ∙ made.stored,
          made.customer,
          subst (λ (f : Uuid → Option Product.Product). Stock f input.items made.items) same_stock
              priced,
        ),
      )
