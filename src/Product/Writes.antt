-- ===== src/Product/Writes.antt =====
-- internal/product: the writes that the service makes over the in-memory repository.
use order_service_go_archite.Prelude.{
  ℕ, ◌≡◌, refl, sym, subst, ◌≢◌, inl, inr, false, ◌==◌, Bool-cases, Option-cases, some, Text,
  text_eq, text_eq_iff, is_blank, lookup, Result, ok, err, arith,
}
use order_service_go_archite.Errors.{AppError}
use order_service_go_archite.Money.{is_positive}
use order_service_go_archite.Catalog.{find_by}
use order_service_go_archite.Catalog.Unique.{IsFree, find_by_sound}
use order_service_go_archite.Catalog.Put.{IsValid, Put, nothing, put, lookup_keyed, own_key-IsFree}
use order_service_go_archite.Order.Model.{Uuid, nil_uuid, Time}
use order_service_go_archite.Product.{
  Product, ProductInput, Items, create_item, update_item, deactivate_item, found, repository,
}
use order_service_go_archite.Product.Service.{
  check_unique, ensure_sku_unique, new_product, store_new, create, changed, store_changed,
  update_found, update, deactivate,
}

abbrev pub id_of : Product → ℕ
id_of c = c.id

abbrev pub sku_of : Product → Text
sku_of c = c.sku

abbrev pub Valid : Items → Type 0
Valid = IsValid id_of sku_of

abbrev pub Write : Items → Items → Type 0
Write = Put id_of sku_of

-- The check lets an SKU pass only when it is free for the excluded identifier.
check_unique-IsFree :
    (exclude : Uuid) (t : Text) (m : Items)
    → check_unique exclude (found (find_by sku_of t m)) ≡ ok tt
    → IsFree id_of sku_of exclude t m
unfolding check_unique
check_unique-IsFree exclude t m passes = elim (Option-cases (find_by sku_of t m)) [
  | inl none_has ↦ inl none_has
  | inr (c, has) ↦ inr (c, has, passed c (rw has at passes))
]
  where
    passed : (c : Product) → check_unique exclude (ok c) ≡ ok tt → c.id ≡ exclude
    passed c e = elim (Bool-cases (c.id == exclude)) [
      | inl same ↦ ground arith
      | inr other ↦ absurd (let e' = rw other at e in cc)
    ]

-- A sku that is free for the nil identifier, which no product has, is free for any.
nil-IsFree :
    (i : Uuid) (t : Text) (m : Items)
    → Valid m
    → IsFree id_of sku_of nil_uuid t m
    → IsFree id_of sku_of i t m
nil-IsFree i t m h (inl none_has) = inl none_has
nil-IsFree i t m (keyed, unique, no_nil) (inr (c, has, is_nil)) =
    let (_, at) = find_by_sound id_of sku_of t m keyed has in
    absurd (let at' = rw is_nil at at in cc)

store_new-Write :
    (c : Product) (r : Result AppError (Unit {0})) (m : Items)
    → c.id ≢ nil_uuid
    → (r ≡ ok tt → IsFree id_of sku_of c.id c.sku m)
    → Write m (store_new repository c r m).1
unfolding store_new create_item
store_new-Write c (err e) m some_id free = nothing
store_new-Write c (ok _) m some_id free = put c.id c refl some_id (free refl)

pub create-Write :
    (id : Uuid) (now : Time) (input : ProductInput) (m : Items)
    → id ≢ nil_uuid
    → Valid m
    → Write m (create repository id now input m).1
unfolding create ensure_sku_unique
create-Write id now input m some_id h =
    let c = new_product id now input in
    elim (Bool-cases (is_blank c.name)) [
      | inl blank ↦ rw blank nothing
      | inr named ↦ elim (Bool-cases (is_blank c.sku)) [
        | inl blank ↦ rw (named, blank) nothing
        | inr full ↦ elim (Bool-cases (is_positive input.price)) [
          | inr free_of_charge ↦ rw (named, full, free_of_charge) nothing
          | inl priced ↦
              rw (named, full, priced)
                (store_new-Write c _ m some_id
                  (λ e. nil-IsFree id c.sku m h (check_unique-IsFree nil_uuid c.sku m e)))
        ]
      ]
    ]

store_changed-Write :
    (c : Product) (r : Result AppError (Unit {0})) (m : Items)
    → c.id ≢ nil_uuid
    → (r ≡ ok tt → IsFree id_of sku_of c.id c.sku m)
    → Write m (store_changed repository c r m).1
unfolding store_changed update_item
store_changed-Write c (err e) m some_id free = nothing
store_changed-Write c (ok _) m some_id free = elim (Option-cases (lookup c.id m)) [
  | inl gone ↦ rw (gone, update_item) nothing
  | inr (_, there) ↦ rw (there, update_item) (put c.id c refl some_id (free refl))
]

-- `Update` of a product that is stored.
update_found-Write :
    (now : Time) (input : ProductInput) (c : Product) (m : Items)
    → Valid m
    → lookup c.id m ≡ some c
    → Write m (update_found repository c.id now input (ok c) m).1
unfolding update_found ensure_sku_unique
update_found-Write now input old m h there =
    let c = changed now input old in
    let some_id : old.id ≢ nil_uuid = λ e. let there' = rw e at there in cc in
    elim (Bool-cases (is_blank c.name)) [
      | inl blank ↦ rw blank nothing
      | inr named ↦ elim (Bool-cases (is_blank c.sku)) [
        | inl blank ↦ rw (named, blank) nothing
        | inr full ↦ elim (Bool-cases (is_positive input.price)) [
          | inr free_of_charge ↦ rw (named, full, free_of_charge) nothing
          | inl priced ↦ elim (Bool-cases (text_eq c.sku old.sku)) [
            | inl same ↦
                rw (named, full, priced, same)
                  (store_changed-Write c (ok tt) m some_id (λ _.
                    subst (λ t. IsFree id_of sku_of old.id t m)
                      (sym ((text_eq_iff c.sku old.sku).0 same))
                      (own_key-IsFree id_of sku_of old.id m h there)))
            | inr other ↦
                rw (named, full, priced, other)
                  (store_changed-Write c _ m some_id (check_unique-IsFree old.id c.sku m))
          ]
        ]
      ]
    ]

pub update-Write :
    (id : Uuid) (now : Time) (input : ProductInput) (m : Items)
    → Valid m
    → Write m (update repository id now input m).1
unfolding update update_found
update-Write id now input m h = elim (Option-cases (lookup id m)) [
  | inl gone ↦ rw gone nothing
  | inr (c, there) ↦ rw there (
      subst (λ i. Write m (update_found repository i now input (ok c) m).1)
        (lookup_keyed id_of sku_of id m h.0 there)
        (update_found-Write now input c m h (
          subst (λ i. lookup i m ≡ some c) (sym (lookup_keyed id_of sku_of id m h.0 there)) there)))
]

pub deactivate-Write : (id : Uuid) (m : Items) → Valid m → Write m (deactivate repository id m).1
unfolding deactivate deactivate_item
deactivate-Write id m h = elim (Option-cases (lookup id m)) [
  | inl gone ↦ rw (gone, deactivate_item) nothing
  | inr (c, there) ↦
      rw (there, deactivate_item)
        (put id (record c { active = false }) (lookup_keyed id_of sku_of id m h.0 there)
          (λ e. let there' = rw e at there in cc) (own_key-IsFree id_of sku_of id m h there))
]
