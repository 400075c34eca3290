-- ===== src/Order/Create/Correct.antt =====
-- internal/order/service.go, `Create`: what a created order is made of, and when it is announced.
use order_service_go_archite.Prelude.{
  pos, ◌≡◌, refl, sym, ◌∙◌, ap, true, Bool-cases, Result-cases, Option-cases, inl, inr, none, some,
  List, [], ◌∷◌, ◌++◌, ok, err, Result, lookup,
}
use order_service_go_archite.Errors.{AppError}
use order_service_go_archite.Order.Status.{created}
use order_service_go_archite.Order.Model.{
  Uuid, Time, Order, OrderItem, CreateOrderItemInput, CreateOrderInput, OrderOutput, to_output,
}
use order_service_go_archite.Order.Ports.{
  RepoError, LookupError, not_found, lookup_failure, Customer, Product, Ports, MetricsCall,
  inc_orders_created, World, read,
}
use order_service_go_archite.Order.Contract.{View, PortLaws}
use order_service_go_archite.Order.Create.{
  validate_input, index_products, check_product, make_item, message_of, product_ids, make_order,
  build_items, after_publish, after_commit, after_build, after_products, after_customer, create,
}
use order_service_go_archite.Order.Create.Checked.{
  ValidInput, added_up, announcement, validate_input-ValidInput, order_total-added_up,
}
use order_service_go_archite.Order.Create.Priced.{Priced, build_items-Priced}

-- What is true of a creation that has succeeded, from the world `w` to the world `w'`.
pub record Created {S : Type 0} (p : Ports S) (view : View S) (created_by : Uuid)
    (input : CreateOrderInput) (out : OrderOutput) (w w' : World S) : Type 0 where
  pub order : Order
  pub items : List OrderItem
  pub loaded : List Product
  pub valid : ValidInput input
  pub customer_active :
      (c : Customer) × ((p.find_customer input.customer_id w.outside).0 ≡ ok c) × (c.active ≡ true)
  pub products_loaded :
      (p.find_products (product_ids input.items) (p.find_customer input.customer_id w.outside).1).0
      ≡ ok loaded
  pub priced : Priced (index_products [] loaded) order.id input.items items
  pub summed : order.total_amount.cents ≡ added_up (pos 0) items
  pub new : order.status ≡ created
  pub customer : order.customer_id ≡ input.customer_id
  pub creator : order.created_by ≡ created_by
  pub free : view w.outside order.id ≡ none
  pub announced :
      (s : S) × (view s order.id ≡ some (order, items))
      × ((p.publish (announcement order) s).0 ≡ ok tt)
      × (w'.outside ≡ (p.publish (announcement order) s).1)
  pub stored : view w'.outside order.id ≡ some (order, items)
  pub answered : out ≡ to_output order items
  pub counted : w'.metrics ≡ w.metrics ++ inc_orders_created ∷ []

module _ {S : Type 0} {p : Ports S} {view : View S} (laws : PortLaws p view) where
  -- After a commit: the message was accepted, the order is still there and the count went up.
  commit_parts :
      (order : Order) (items : List OrderItem) (r : Result RepoError (Unit {0})) (w : World S)
      {out : OrderOutput}
      → (after_commit p order items r w).0 ≡ ok out
      → (r ≡ ok tt)
        × ((p.publish (message_of order) w.outside).0 ≡ ok tt)
        × ((after_commit p order items r w).1.outside ≡ (p.publish (message_of order) w.outside).1)
        × (out ≡ to_output order items)
        × (view (after_commit p order items r w).1.outside order.id ≡ view w.outside order.id)
        × ((after_commit p order items r w).1.metrics ≡ w.metrics ++ inc_orders_created ∷ [])
  unfolding after_commit after_publish
  commit_parts order items (err _) w e = absurd (cc)
  commit_parts order items (ok _) w e =
      elim (Result-cases (p.publish (message_of order) w.outside).0) [
        | inr (_, bad) ↦ absurd (let e' = rw (bad, after_publish) at e in cc)
        | inl (_, good) ↦ (
          refl,
          good,
          rw (good, after_publish) refl,
          let e' = rw (good, after_publish) at e in cc,
          rw (good, after_publish) (laws.publish_keeps _ w.outside order.id),
          rw (good, after_publish) refl,
        )
      ]

  -- The successful end of a creation whose items are built.
  abbrev Finished : Order → List OrderItem → OrderOutput → World S → World S → Type 0
  Finished order items out w w' =
      ((s : S) × (view s order.id ≡ some (order, items))
        × ((p.publish (message_of order) s).0 ≡ ok tt)
        × (w'.outside ≡ (p.publish (message_of order) s).1))
      × (view w'.outside order.id ≡ some (order, items))
      × (out ≡ to_output order items)
      × (w'.metrics ≡ w.metrics ++ inc_orders_created ∷ [])

  build_parts :
      (order_id customer_id created_by : Uuid) (now : Time) (items : List OrderItem) (w : World S)
      {out : OrderOutput}
      → (after_build p order_id customer_id created_by now (ok items) w).0 ≡ ok out
      → Finished
          (make_order order_id customer_id created_by now items)
          items
          out
          w
          (after_build p order_id customer_id created_by now (ok items) w).1
  unfolding after_build
  build_parts order_id customer_id created_by now items w e =
      let order : Order = make_order order_id customer_id created_by now items in
      let (committed, sent, last, answered, kept, counted) = commit_parts order items _ _ e in
      let stored = laws.repo_laws.create_ok order items w.outside committed in
      ((_, stored, sent, last), kept ∙ stored, answered, counted)

  build_items-metrics :
      (by_id : List (Uuid × Product)) (order_id : Uuid) (done : List OrderItem)
      (lines : List CreateOrderItemInput) (w : World S)
      → (build_items p by_id order_id done lines w).1.metrics ≡ w.metrics
  unfolding build_items
  build_items-metrics by_id order_id done [] w = refl
  build_items-metrics by_id order_id done (l ∷ ls) w =
      elim (Result-cases (check_product (lookup l.product_id by_id))) [
        | inr (_, bad) ↦ rw (bad, build_items) refl
        | inl (product, good) ↦
            rw (good, build_items)
              (build_items-metrics by_id order_id
                (done ++ make_item (p.new_id w.outside).0 order_id l product ∷ []) ls
                (read p.new_id w).1)
      ]

  -- The loop's result, and the world after the clock, the identifier and the loop.
  abbrev built :
      CreateOrderInput → List Product → World S → Result AppError (List OrderItem) × World S
  built input loaded w =
      let (_, w1) = read p.now w in
      let (order_id, w2) = read p.new_id w1 in
      build_items p (index_products [] loaded) order_id [] input.items w2

  products_parts :
      (created_by : Uuid) (input : CreateOrderInput) (loaded : List Product) (w : World S)
      {out : OrderOutput}
      → (after_products p created_by input (ok loaded) w).0 ≡ ok out
      → (order_id : Uuid) × (now : Time) × (items : List OrderItem) × Priced
          (index_products [] loaded)
          order_id
          input.items
          items
        × (view w.outside order_id ≡ none)
        × Finished
            (make_order order_id input.customer_id created_by now items)
            items
            out
            w
            (after_products p created_by input (ok loaded) w).1
  unfolding after_products
  products_parts created_by input loaded w e =
      let (now, s1) = p.now w.outside in
      let order_id = (p.new_id s1).0 in
      let free = sym (laws.now_keeps w.outside order_id) ∙ laws.new_id_fresh s1 in
      elim (Result-cases (built input loaded w).0) [
        | inr (_, bad) ↦ absurd (let e' = rw (bad, after_build) at e in cc)
        | inl (items, good) ↦
            let (added, split, priced) =
              build_items-Priced p (index_products [] loaded) order_id [] input.items _ good in
            let (sent, stored, answered, counted) =
              build_parts order_id input.customer_id created_by now items (built input loaded w).1
                (rw good at e) in
            (
              order_id,
              now,
              items,
              rw split priced,
              free,
              rw good (
                sent,
                stored,
                answered,
                counted
                    ∙ ap {B = List MetricsCall} (λ m. m ++ inc_orders_created ∷ [])
                        (build_items-metrics (index_products [] loaded) order_id [] input.items _),
              ),
            )
      ]

  customer_parts :
      (created_by : Uuid) (input : CreateOrderInput) (c : Customer) (w : World S)
      {out : OrderOutput}
      → (after_customer p created_by input (ok c) w).0 ≡ ok out
      → let (r, s) = p.find_products (product_ids input.items) w.outside in
        (c.active ≡ true)
        × ((loaded : List Product) × (r ≡ ok loaded)
            × ((after_products p created_by input (ok loaded) (record w { outside = s })).0
                ≡ ok out)
            × (after_customer p created_by input (ok c) w
                ≡ after_products p created_by input (ok loaded) (record w { outside = s })))
  unfolding after_customer after_products
  customer_parts created_by input c w e = elim (Bool-cases c.active) [
    | inr inactive ↦ absurd (let e' = rw inactive at e in cc)
    | inl active ↦ elim (Result-cases (p.find_products (product_ids input.items) w.outside).0) [
      | inr (_, bad) ↦ absurd (let e' = rw (active, bad, after_products) at e in cc)
      | inl (loaded, good) ↦
          (active, (loaded, good, rw (active, good) at e, rw (active, good) refl))
    ]
  ]

  customer_err :
      (created_by : Uuid) (input : CreateOrderInput) (x : LookupError) (w : World S)
      {out : OrderOutput}
      → (after_customer p created_by input (err x) w).0 ≡ ok out
      → ⊥
  unfolding after_customer
  customer_err created_by input not_found w e = cc
  customer_err created_by input (lookup_failure m) w e = cc

  -- A creation that reports success had an input with a customer and at least one line, each with a
  -- quantity of one or more and a product; it has found the customer and it active, loaded the
  -- products, stored a new CREATED order with one item for each line, of the line's product and quantity,
  -- at the price of an active product and with price times quantity as its total, and with the items'
  -- totals added up as the order's total, all in 64 bits; it announced the order once it was stored, and
  -- counted it; the answer shows the stored order.
  pub create_correct :
      (created_by : Uuid) (input : CreateOrderInput) (w : World S) {out : OrderOutput}
      → (create p created_by input w).0 ≡ ok out
      → Created p view created_by input out w (create p created_by input w).1
  unfolding create make_order
  create_correct created_by input w {out} e = elim (Option-cases (validate_input input)) [
    | inr (_, bad) ↦ absurd (let e' = rw (bad, create) at e in cc)
    | inl valid ↦ elim (Result-cases (p.find_customer input.customer_id w.outside).0) [
      | inr (x, bad) ↦ absurd (customer_err created_by input x _ (rw (valid, create, bad) at e))
      | inl (c, good) ↦
          let w1 : World S = record w {
            outside = (p.find_customer input.customer_id w.outside).1;
          } in
          let (active, (loaded, found, e', same)) =
            customer_parts created_by input c w1 (rw (valid, create, good) at e) in
          let (order_id, now, items, priced, free, (sent, stored, answered, counted)) =
            products_parts created_by input loaded _ e' in
          rw (valid, create, good, same)
            (record {
              order = make_order order_id input.customer_id created_by now items;
              items = items;
              loaded = loaded;
              valid = validate_input-ValidInput input valid;
              customer_active = (c, good, active);
              products_loaded = found;
              priced = priced;
              summed = order_total-added_up items;
              new = refl;
              customer = refl;
              creator = refl;
              free =
                  sym (laws.customer_keeps input.customer_id w.outside order_id)
                  ∙ (sym (laws.products_keep (product_ids input.items) w1.outside order_id) ∙ free);
              announced = sent;
              stored = stored;
              answered = answered;
              counted = counted;
            })
    ]
  ]
