-- ===== src/Product/Reach.antt =====
-- internal/product: the stores that sequences of the service's writes lead to, from an empty one.
use order_service_go_archite.Prelude.{
  is_pos, true, ◌≡◌, refl, true, ◌≢◌, false, inl, inr, ◌==◌, Option-cases, some, [], lookup, ok,
  err, is_blank, trim_space, insert, arith,
}
use order_service_go_archite.Errors.{duplicate}
use order_service_go_archite.Prelude.{text}
use order_service_go_archite.Money.{is_positive}
use order_service_go_archite.Catalog.{find_by}
use order_service_go_archite.Catalog.Unique.{find_by_sound, find_by_complete}
use order_service_go_archite.Catalog.Put.{Put-IsValid, Put-lookup}
use order_service_go_archite.Order.Model.{Uuid, nil_uuid, Time}
use order_service_go_archite.Product.{
  ProductOutput, Product, ProductInput, Items, create_item, repository, to_output,
}
use order_service_go_archite.Product.Service.{
  check_unique, ensure_sku_unique, new_product, after_create, store_new, create, update, deactivate,
}
use order_service_go_archite.Product.Writes.{
  id_of, sku_of, Valid, Write, create-Write, update-Write, deactivate-Write,
}

-- One call that may write; a new identifier is not the nil one.
pub data Step (m : Items) : Items → Type 0 where
  creates :
      (id : Uuid) (now : Time) (input : ProductInput)
      → id ≢ nil_uuid
      → Step m (create repository id now input m).1
  updates :
      (id : Uuid) (now : Time) (input : ProductInput) → Step m (update repository id now input m).1
  deactivates : (id : Uuid) → Step m (deactivate repository id m).1

pub data Steps (m : Items) : Items → Type 0 where
  here : Steps m m
  then : {a b : Items} → Steps m a → Step a b → Steps m b

Step-Write : {a b : Items} → Step a b → Valid a → Write a b
Step-Write {a} (creates id now input some_id) h = create-Write id now input a some_id h
Step-Write {a} (updates id now input) h = update-Write id now input a h
Step-Write {a} (deactivates id) h = deactivate-Write id a h

Steps-Valid : {a b : Items} → Steps a b → Valid a → Valid b
Steps-Valid here h = h
Steps-Valid (then before s) h =
    let v = Steps-Valid before h in Put-IsValid id_of sku_of (Step-Write s v) v

-- However products are created, updated and deactivated, starting from an empty repository: no two
-- of them have the same sku.
pub skus_unique :
    (m : Items)
    → Steps [] m
    → (i j : Uuid) (a b : Product) → lookup i m ≡ some a
    → lookup j m ≡ some b
    → a.sku ≡ b.sku
    → i ≡ j
skus_unique m reached = (Steps-Valid reached (tt, (λ i j a b ea eb e. cc), refl)).1

-- No sequence of calls removes a product: who was stored at one time is found at every later time.
pub products_stay :
    (a b : Items)
    → Steps [] a
    → Steps a b
    → (j : Uuid) (c : Product) → lookup j a ≡ some c
    → (c' : Product) × (lookup j b ≡ some c')
products_stay a b reached later j c e = go later
  where
    start : Valid a
    start = Steps-Valid reached (tt, (λ i j a b ea eb e. cc), refl)

    go : {x : Items} → Steps a x → (c' : Product) × (lookup j x ≡ some c')
    go here = (c, e)
    go (then before s) =
        Put-lookup id_of sku_of j (Step-Write s (Steps-Valid before start)) (go before).1

-- A request with a name and a SKU that are not blank and a price above zero, to a store that is well
-- formed. When no product has the trimmed SKU, an active product with the given identifier, the trimmed
-- texts and the price of the request and the given time is stored, and the same is shown; when one has
-- it, the request is refused as a duplicate and nothing is stored.
pub create_product_decides :
    (id : Uuid) (now : Time) (input : ProductInput) (m : Items)
    → Valid m
    → is_blank (trim_space input.name) ≡ false
    → is_blank (trim_space input.sku) ≡ false
    → is_pos input.price.cents ≡ true
    → let c : Product = record {
      id = id;
      name = trim_space input.name;
      sku = trim_space input.sku;
      price = input.price;
      active = true;
      created_at = now;
      updated_at = now;
    } in
      let shown : ProductOutput = record {
        id = id;
        name = trim_space input.name;
        sku = trim_space input.sku;
        price = input.price;
        active = true;
        created_at = now;
        updated_at = now;
      } in
      (((j : Uuid) (v : Product) → lookup j m ≡ some v → v.sku ≢ c.sku)
        → create repository id now input m ≡ (ok shown, insert id c m))
      × ((j : Uuid) (v : Product)
          → lookup j m ≡ some v
          → v.sku ≡ c.sku
          → create repository id now input m
            ≡ (err (duplicate (text "a product with this sku already exists")), m))
unfolding create ensure_sku_unique store_new after_create create_item check_unique is_positive
create_product_decides id now input m (keyed, unique, no_nil) named full priced =
    (accepted, refused)
  where
    c : Product
    c = new_product id now input

    accepted :
        ((j : Uuid) (v : Product) → lookup j m ≡ some v → v.sku ≢ c.sku)
        → create repository id now input m ≡ (ok (to_output c), insert id c m)
    accepted others = elim (Option-cases (find_by sku_of c.sku m)) [
      | inl none_has ↦ rw (named, full, priced, none_has) refl
      | inr (v, has) ↦
          let (same, at) = find_by_sound id_of sku_of c.sku m keyed has in
          absurd (others v.id v at same)
    ]

    refused :
        (j : Uuid) (v : Product)
        → lookup j m ≡ some v
        → v.sku ≡ c.sku
        → create repository id now input m
          ≡ (err (duplicate (text "a product with this sku already exists")), m)
    refused j v at same = elim (Option-cases (find_by sku_of c.sku m)) [
      | inl none_has ↦ absurd (find_by_complete id_of sku_of c.sku m j at same none_has)
      | inr (u, has) ↦
          let (_, there) = find_by_sound id_of sku_of c.sku m keyed has in
          let some_id : (u.id == nil_uuid) ≡ false = ground (arith, not_nil u there) in
          rw (named, full, priced, has, some_id) refl
    ]
      where
        not_nil : (u : Product) → lookup u.id m ≡ some u → u.id ≢ 0
        not_nil u there e = let there' = rw e at there in cc
