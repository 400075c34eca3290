-- ===== src/Tests/Customers.antt =====
-- internal/customer: a small history over the in-memory repository.
use order_service_go_archite.Prelude.{
  ℕ, ◌≡◌, refl, ◌≢◌, false, some, [], lookup, insert, text, trim_space, trim_left, is_space, ok,
  err, arith,
}
use order_service_go_archite.Catalog.{find_by}
use order_service_go_archite.Errors.{duplicate}
use order_service_go_archite.Order.Model.{Uuid}
use order_service_go_archite.Customer.{
  Customer, CustomerInput, Items, create_item, deactivate_item, repository, to_output,
}
use order_service_go_archite.Customer.Service.{
  create, deactivate, new_customer, ensure_document_unique, check_unique, store_new, after_create,
}
use order_service_go_archite.Customer.Writes.{Valid}
use order_service_go_archite.Customer.Reach.{
  creates, deactivates, here, then, documents_unique, create_customer_decides,
}

abbrev ann : CustomerInput
ann = record {
  name = text " Ann";
  document = text "123 ";
  email = text "ann@example.com";
  phone = text "";
}

abbrev one_customer : Items
one_customer = (create repository 1 5 ann []).1

abbrev none_active : Items
none_active = (deactivate repository 1 one_customer).1

abbrev ann_stored : Customer
ann_stored = record (new_customer 1 5 ann) { active = false }

runs : Unit {0}
unfolding create deactivate create_item deactivate_item ensure_document_unique check_unique
    store_new after_create find_by trim_space trim_left is_space
runs = tt

is_stored : lookup 1 none_active ≡ some ann_stored
unfolding runs
is_stored = refl

was_stored : lookup 1 one_customer ≡ some (new_customer 1 5 ann)
unfolding runs
was_stored = refl

documents_unique_example : ◌≡◌ {A = ℕ} 1 1
documents_unique_example =
    documents_unique none_active (then (then here (creates 1 5 ann (omega arith))) (deactivates 1))
      1 1 ann_stored ann_stored is_stored is_stored refl

nothing-Valid : Valid []
nothing-Valid = (tt, (λ i j a b ea eb e. cc), refl)

ann_named : (trim_space ann.name ≡ text "Ann") × (trim_space ann.document ≡ text "123")
unfolding runs
ann_named = (refl, refl)

create_customer_decides_example :
    (((j : Uuid) (v : Customer) → lookup j [] ≡ some v → v.document ≢ trim_space ann.document)
      → create repository 1 5 ann []
        ≡ (ok (to_output (new_customer 1 5 ann)), insert 1 (new_customer 1 5 ann) []))
    × ((j : Uuid) (v : Customer)
        → lookup j [] ≡ some v
        → v.document ≡ trim_space ann.document
        → create repository 1 5 ann []
          ≡ (err (duplicate (text "a customer with this document already exists")), []))
create_customer_decides_example =
    create_customer_decides 1 5 ann [] nothing-Valid (rw (ann_named.0) refl) (rw (ann_named.1) refl)
