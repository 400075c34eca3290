-- ===== src/Product/Service.antt =====
-- internal/product/service.go: the product service over its repository's port. A new identifier
-- and the reading of the clock are arguments of the operations that take them.
use order_service_go_archite.Prelude.{
  ◌==◌, if◌then◌else◌, map, List, Text, text, text_eq, is_blank, trim_space, Result, ok, err,
  Action, true, not,
}
use order_service_go_archite.Errors.{AppError, validation, internal, duplicate, not_found}
use order_service_go_archite.Pagination.{Page, bound_page, map_page}
use order_service_go_archite.Money.{is_positive}
use order_service_go_archite.Catalog.{StoreError, missing, failure}
use order_service_go_archite.Order.Model.{Uuid, nil_uuid, Time}
use order_service_go_archite.Product.{
  Product, ProductInput, ProductOutput, ProductFilter, ProductRepository, to_output,
}

abbrev store_error_text : StoreError → Text
store_error_text missing = text "product not found"
store_error_text (failure m) = m

-- `mapRepoErr`.
unfoldable pub map_repo_err : StoreError → AppError
map_repo_err missing = not_found (text "product not found")
map_repo_err (failure m) = internal (text "repository error") m

-- What `ensureSKUUnique` makes of the answer to `FindBySKU`.
unfoldable pub check_unique : Uuid → Result StoreError Product → Result AppError (Unit {0})
check_unique exclude_id (err missing) = ok tt
check_unique exclude_id (err (failure m)) =
    err (internal (text "could not verify sku uniqueness") m)
check_unique exclude_id (ok existing) =
    if not (existing.id == exclude_id)
    then err (duplicate (text "a product with this sku already exists"))
    else ok tt

-- The record that `Create` stores.
abbrev pub new_product : Uuid → Time → ProductInput → Product
new_product id now input = record {
  id = id;
  name = trim_space input.name;
  sku = trim_space input.sku;
  price = input.price;
  active = true;
  created_at = now;
  updated_at = now;
}

unfoldable pub after_create : Product → Result StoreError (Unit {0}) → Result AppError ProductOutput
after_create c (err e) = err (internal (text "could not create product") (store_error_text e))
after_create c (ok _) = ok (to_output c)

-- The record that `Update` stores.
abbrev pub changed : Time → ProductInput → Product → Product
changed now input existing = record existing {
  name = trim_space input.name;
  sku = trim_space input.sku;
  price = input.price;
  updated_at = now;
}

unfoldable pub after_write : Product → Result StoreError (Unit {0}) → Result AppError ProductOutput
after_write c (err e) = err (map_repo_err e)
after_write c (ok _) = ok (to_output c)

abbrev pub answer_done : Result StoreError (Unit {0}) → Result AppError (Unit {0})
answer_done (err e) = err (map_repo_err e)
answer_done (ok _) = ok tt

abbrev pub answer_one : Result StoreError Product → Result AppError ProductOutput
answer_one (err e) = err (map_repo_err e)
answer_one (ok c) = ok (to_output c)

abbrev pub answer_page : Result StoreError (Page Product) → Result AppError (Page ProductOutput)
answer_page (err e) = err (internal (text "could not list products") (store_error_text e))
answer_page (ok page) = ok (map_page to_output page)

abbrev pub answer_many : Result StoreError (List Product) → Result AppError (List ProductOutput)
answer_many (err e) = err (internal (text "could not load products") (store_error_text e))
answer_many (ok products) = ok (map to_output products)

module _ {S : Type 0} (repo : ProductRepository S) where
  -- `ensureSKUUnique`.
  unfoldable pub ensure_sku_unique : Text → Uuid → Action S AppError (Unit {0})
  unfolding check_unique
  ensure_sku_unique sku exclude_id s =
      let (r, s1) = repo.find_by_sku sku s in (check_unique exclude_id r, s1)

  unfoldable pub store_new : Product → Result AppError (Unit {0}) → Action S AppError ProductOutput
  unfolding after_create
  store_new c (err e) s = (err e, s)
  store_new c (ok _) s = let (r, s1) = repo.create c s in (after_create c r, s1)

  unfoldable pub create : Uuid → Time → ProductInput → Action S AppError ProductOutput
  unfolding ensure_sku_unique store_new
  create id now input s =
      let c = new_product id now input in
      if is_blank c.name
      then (err (validation (text "product name is required")), s)
      else (if is_blank c.sku
          then (err (validation (text "product sku is required")), s)
          else (if not (is_positive input.price)
              then (err (validation (text "product price must be greater than zero")), s)
              else (let (r, s1) = ensure_sku_unique c.sku nil_uuid s in store_new c r s1)))

  unfoldable pub store_changed :
      Product → Result AppError (Unit {0}) → Action S AppError ProductOutput
  unfolding after_write
  store_changed c (err e) s = (err e, s)
  store_changed c (ok _) s = let (r, s1) = repo.update c s in (after_write c r, s1)

  unfoldable pub update_found :
      Uuid → Time → ProductInput → Result StoreError Product → Action S AppError ProductOutput
  unfolding ensure_sku_unique store_changed
  update_found id now input (err e) s = (err (map_repo_err e), s)
  update_found id now input (ok existing) s =
      let c = changed now input existing in
      if is_blank c.name
      then (err (validation (text "product name is required")), s)
      else (if is_blank c.sku
          then (err (validation (text "product sku is required")), s)
          else (if not (is_positive input.price)
              then (err (validation (text "product price must be greater than zero")), s)
              else (if not (text_eq c.sku existing.sku)
                  then (let (r, s1) = ensure_sku_unique c.sku id s in store_changed c r s1)
                  else store_changed c (ok tt) s)))

  unfoldable pub update : Uuid → Time → ProductInput → Action S AppError ProductOutput
  unfolding update_found
  update id now input s = let (r, s1) = repo.find_by_id id s in update_found id now input r s1

  unfoldable pub deactivate : Uuid → Action S AppError (Unit {0})
  deactivate id s = let (r, s1) = repo.deactivate id s in (answer_done r, s1)

  unfoldable pub find_by_id : Uuid → Action S AppError ProductOutput
  find_by_id id s = let (r, s1) = repo.find_by_id id s in (answer_one r, s1)

  unfoldable pub list : ProductFilter → Action S AppError (Page ProductOutput)
  list filter s = elim (bound_page filter.page filter.page_size) [
    | err e ↦ (err e, s)
    | ok (page, page_size) ↦
        let (r, s1) = repo.list (record filter { page = page; page_size = page_size }) s in
        (answer_page r, s1)
  ]

  -- `FindManyByID`.
  unfoldable pub find_many_by_id : List Uuid → Action S AppError (List ProductOutput)
  find_many_by_id ids s = let (r, s1) = repo.find_many_by_id ids s in (answer_many r, s1)
