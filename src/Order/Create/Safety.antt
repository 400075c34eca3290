-- ===== src/Order/Create/Safety.antt =====
-- internal/order/service.go, `Create`: how each entry of the store may change, with or without an error.
use order_service_go_archite.Prelude.{
  ◌≡◌, refl, ◌∙◌, Bool-cases, Result-cases, Option-cases, inl, inr, none, List, [], ◌∷◌, ◌++◌, ok,
  err, Result, Text, lookup,
}
use order_service_go_archite.Errors.{AppError}
use order_service_go_archite.Order.Model.{
  Uuid, Time, Order, OrderItem, CreateOrderItemInput, CreateOrderInput,
}
use order_service_go_archite.Order.Ports.{
  RepoError, LookupError, not_found, lookup_failure, Customer, Product, Ports, World, read,
}
use order_service_go_archite.Order.Contract.{View, PortLaws}
use order_service_go_archite.Order.Contract.Growth.{Grows, still, Grows-of_eq, Grows-trans}
use order_service_go_archite.Order.Contract.Writes.{create-Grows as write-Grows}
use order_service_go_archite.Order.Create.{
  validate_input, index_products, check_product, make_item, make_order, build_items, after_publish,
  after_commit, after_build, after_products, after_customer, create,
}

module _ {S : Type 0} {p : Ports S} {view : View S} (laws : PortLaws p view) where
  pub build_items_keeps :
      (by_id : List (Uuid × Product)) (order_id : Uuid) (done : List OrderItem)
      (lines : List CreateOrderItemInput) (w : World S) (j : Uuid)
      → view (build_items p by_id order_id done lines w).1.outside j ≡ view w.outside j
  unfolding build_items
  build_items_keeps by_id order_id done [] w j = refl
  build_items_keeps by_id order_id done (line ∷ lines) w j =
      elim (Result-cases (check_product (lookup line.product_id by_id))) [
        | inr (_, e) ↦ rw (e, build_items) refl
        | inl (product, e) ↦
            rw (e, build_items)
              (build_items_keeps by_id order_id
                  (done ++ make_item (p.new_id w.outside).0 order_id line product ∷ []) lines
                  (read p.new_id w).1 j
                ∙ laws.new_id_keeps w.outside j)
      ]

  after_publish_outside :
      (o : Order) (items : List OrderItem) (r : Result Text (Unit {0})) (w : World S)
      → (after_publish p o items r w).1.outside ≡ w.outside
  unfolding after_publish
  after_publish_outside o items (err e) w = refl
  after_publish_outside o items (ok _) w = refl

  after_commit_keeps :
      (o : Order) (items : List OrderItem) (r : Result RepoError (Unit {0})) (w : World S)
      (j : Uuid)
      → view (after_commit p o items r w).1.outside j ≡ view w.outside j
  unfolding after_commit
  after_commit_keeps o items (err e) w j = refl
  after_commit_keeps o items (ok _) w j =
      rw (after_publish_outside o items) (laws.publish_keeps _ w.outside j)

  -- The order is written under an identifier that is still free.
  after_build-Grows :
      (order_id customer_id created_by : Uuid) (now : Time) (r : Result AppError (List OrderItem))
      (w : World S)
      → view w.outside order_id ≡ none
      → (j : Uuid)
      → Grows
          (view w.outside j)
          (view (after_build p order_id customer_id created_by now r w).1.outside j)
  unfolding after_build make_order
  after_build-Grows order_id customer_id created_by now (err e) w free j = still
  after_build-Grows order_id customer_id created_by now (ok items) w free j =
      Grows-trans (write-Grows laws.repo_laws _ items w.outside free refl j)
        (Grows-of_eq (after_commit_keeps _ items _ _ j))

  after_products-Grows :
      (created_by : Uuid) (input : CreateOrderInput) (r : Result LookupError (List Product))
      (w : World S) (j : Uuid)
      → Grows (view w.outside j) (view (after_products p created_by input r w).1.outside j)
  unfolding after_products
  after_products-Grows created_by input (err e) w j = still
  after_products-Grows created_by input (ok loaded) w j =
      let s = (p.now w.outside).1 in
      Grows-trans (Grows-of_eq (built j ∙ laws.now_keeps w.outside j))
        (after_build-Grows (p.new_id s).0 _ _ _ _ _ (built _ ∙ laws.new_id_fresh s) j)
    where
      -- The world after the clock, the order's identifier and the loop.
      built_world : World S
      built_world =
          let (_, w1) = read p.now w in
          let (order_id, w2) = read p.new_id w1 in
          (build_items p (index_products [] loaded) order_id [] input.items w2).1

      built : (i : Uuid) → view built_world.outside i ≡ view (p.now w.outside).1 i
      built i = build_items_keeps _ _ [] input.items _ i ∙ laws.new_id_keeps (p.now w.outside).1 i

  after_customer-Grows :
      (created_by : Uuid) (input : CreateOrderInput) (r : Result LookupError Customer) (w : World S)
      (j : Uuid)
      → Grows (view w.outside j) (view (after_customer p created_by input r w).1.outside j)
  unfolding after_customer
  after_customer-Grows created_by input (err not_found) w j = still
  after_customer-Grows created_by input (err (lookup_failure m)) w j = still
  after_customer-Grows created_by input (ok customer) w j = elim (Bool-cases customer.active) [
    | inr inactive ↦ rw inactive still
    | inl active ↦ rw active (
        Grows-trans (Grows-of_eq (laws.products_keep _ w.outside j))
          (after_products-Grows created_by input _ _ j))
  ]

  pub create-Grows :
      (created_by : Uuid) (input : CreateOrderInput) (w : World S) (j : Uuid)
      → Grows (view w.outside j) (view (create p created_by input w).1.outside j)
  unfolding create
  create-Grows created_by input w j = elim (Option-cases (validate_input input)) [
    | inr (_, e) ↦ rw (e, create) still
    | inl e ↦
        rw (e, create)
          (Grows-trans (Grows-of_eq (laws.customer_keeps input.customer_id w.outside j))
            (after_customer-Grows created_by input _ _ j))
  ]
