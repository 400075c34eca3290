-- ===== src/Tests/Products.antt =====
-- internal/product: a small history over the in-memory repository.
use order_service_go_archite.Prelude.{
  is_pos, ℕ, ◌≡◌, refl, ◌≢◌, false, true, some, [], lookup, insert, text, trim_space, trim_left,
  is_space, ok, err, pos, arith,
}
use order_service_go_archite.Money.{from_cents, is_positive}
use order_service_go_archite.Catalog.{find_by}
use order_service_go_archite.Errors.{duplicate}
use order_service_go_archite.Order.Model.{Uuid}
use order_service_go_archite.Product.{
  Product, ProductInput, Items, create_item, deactivate_item, repository, to_output,
}
use order_service_go_archite.Product.Service.{
  create, deactivate, new_product, ensure_sku_unique, check_unique, store_new, after_create,
}
use order_service_go_archite.Product.Writes.{Valid}
use order_service_go_archite.Product.Reach.{
  creates, deactivates, here, then, skus_unique, create_product_decides,
}

abbrev pen : ProductInput
pen = record { name = text " Pen"; sku = text "123 "; price = from_cents (pos 1250) }

abbrev one_product : Items
one_product = (create repository 1 5 pen []).1

abbrev none_active : Items
none_active = (deactivate repository 1 one_product).1

abbrev pen_stored : Product
pen_stored = record (new_product 1 5 pen) { active = false }

runs : Unit {0}
unfolding create deactivate create_item deactivate_item ensure_sku_unique check_unique store_new
    after_create find_by trim_space trim_left is_space is_positive
runs = tt

is_stored : lookup 1 none_active ≡ some pen_stored
unfolding runs
is_stored = refl

was_stored : lookup 1 one_product ≡ some (new_product 1 5 pen)
unfolding runs
was_stored = refl

skus_unique_example : ◌≡◌ {A = ℕ} 1 1
skus_unique_example =
    skus_unique none_active (then (then here (creates 1 5 pen (omega arith))) (deactivates 1)) 1 1
      pen_stored pen_stored is_stored is_stored refl

nothing-Valid : Valid []
nothing-Valid = (tt, (λ i j a b ea eb e. cc), refl)

pen_named : (trim_space pen.name ≡ text "Pen") × (trim_space pen.sku ≡ text "123")
unfolding runs
pen_named = (refl, refl)

priced : is_pos pen.price.cents ≡ true
priced = refl

create_product_decides_example :
    (((j : Uuid) (v : Product) → lookup j [] ≡ some v → v.sku ≢ trim_space pen.sku)
      → create repository 1 5 pen []
        ≡ (ok (to_output (new_product 1 5 pen)), insert 1 (new_product 1 5 pen) []))
    × ((j : Uuid) (v : Product)
        → lookup j [] ≡ some v
        → v.sku ≡ trim_space pen.sku
        → create repository 1 5 pen []
          ≡ (err (duplicate (text "a product with this sku already exists")), []))
create_product_decides_example =
    create_product_decides 1 5 pen [] nothing-Valid (rw (pen_named.0) refl) (rw (pen_named.1) refl)
      priced
