-- ===== src/Product/Frame.antt =====
-- internal/product: what the service and the handlers change of a larger state.
use order_service_go_archite.Prelude.{
  ◌≡◌, refl, ◌∙◌, Option, List, Text, Result, Result-cases, inl, inr, ok, err, arith,
}
use order_service_go_archite.Errors.{AppError}
use order_service_go_archite.Pagination.{bound_page}
use order_service_go_archite.Catalog.{StoreError}
use order_service_go_archite.Order.Model.{Uuid, nil_uuid, Time}
use order_service_go_archite.Product.{Product, ProductInput, ProductFilter, ProductRepository}
use order_service_go_archite.Product.Service
use order_service_go_archite.Product.Handler
use order_service_go_archite.Http.{Request, decode_json}

-- The operations of the repository leave `seen` as it is.
pub record ProductsLeave {S X : Type 0} (repo : ProductRepository S) (seen : S → X) : Type 0 where
  pub create_leaves : (c : Product) (s : S) → seen (repo.create c s).1 ≡ seen s
  pub update_leaves : (c : Product) (s : S) → seen (repo.update c s).1 ≡ seen s
  pub deactivate_leaves : (id : Uuid) (s : S) → seen (repo.deactivate id s).1 ≡ seen s
  pub find_leaves : (id : Uuid) (s : S) → seen (repo.find_by_id id s).1 ≡ seen s
  pub key_leaves : (k : Text) (s : S) → seen (repo.find_by_sku k s).1 ≡ seen s
  pub list_leaves : (f : ProductFilter) (s : S) → seen (repo.list f s).1 ≡ seen s
  pub many_leaves : (ids : List Uuid) (s : S) → seen (repo.find_many_by_id ids s).1 ≡ seen s

module _ {S X : Type 0} {repo : ProductRepository S} {seen : S → X}
    (leaves : ProductsLeave repo seen) where
  store_new_leaves :
      (c : Product) (r : Result AppError (Unit {0})) (s : S)
      → seen (Service.store_new repo c r s).1 ≡ seen s
  unfolding Service.store_new
  store_new_leaves c (err e) s = refl
  store_new_leaves c (ok _) s = leaves.create_leaves c s

  create_service_leaves :
      (id : Uuid) (now : Time) (input : ProductInput) (s : S)
      → seen (Service.create repo id now input s).1 ≡ seen s
  unfolding Service.create Service.ensure_sku_unique
  create_service_leaves id now input s =
      let c = Service.new_product id now input in
      let (r, s1) = Service.ensure_sku_unique repo c.sku nil_uuid s in
      let stored = store_new_leaves c r s1 ∙ leaves.key_leaves c.sku s in ground arith

  store_changed_leaves :
      (c : Product) (r : Result AppError (Unit {0})) (s : S)
      → seen (Service.store_changed repo c r s).1 ≡ seen s
  unfolding Service.store_changed
  store_changed_leaves c (err e) s = refl
  store_changed_leaves c (ok _) s = leaves.update_leaves c s

  update_found_leaves :
      (id : Uuid) (now : Time) (input : ProductInput) (r : Result StoreError Product) (s : S)
      → seen (Service.update_found repo id now input r s).1 ≡ seen s
  unfolding Service.update_found Service.ensure_sku_unique
  update_found_leaves id now input (err e) s = refl
  update_found_leaves id now input (ok existing) s =
      let c = Service.changed now input existing in
      let (r, s1) = Service.ensure_sku_unique repo c.sku id s in
      let moved = store_changed_leaves c r s1 ∙ leaves.key_leaves c.sku s in
      let kept = store_changed_leaves c (ok tt) s in ground arith

  -- The handlers.
  pub create_leaves :
      (parse_uuid : Text → Option Uuid) (read : Text → Option ProductInput) (id : Uuid) (now : Time)
      (r : Request) (s : S)
      → seen (Handler.create repo parse_uuid read id now r s).1 ≡ seen s
  unfolding Handler.create
  create_leaves parse_uuid read id now r s = go (decode_json read r)
    where
      go :
          (d : Result AppError ProductInput)
          → seen (Handler.create_decoded repo parse_uuid id now d s).1 ≡ seen s
      go (err e) = refl
      go (ok input) = create_service_leaves id now input s

  pub update_leaves :
      (parse_uuid : Text → Option Uuid) (read : Text → Option ProductInput) (now : Time)
      (r : Request) (s : S)
      → seen (Handler.update repo parse_uuid read now r s).1 ≡ seen s
  unfolding Handler.update Handler.update_decoded Service.update
  update_leaves parse_uuid read now r s = named (Handler.product_id repo parse_uuid r)
    where
      decoded :
          (id : Uuid) (d : Result AppError ProductInput)
          → seen (Handler.update_decoded repo parse_uuid now id d s).1 ≡ seen s
      decoded id (err e) = refl
      decoded id (ok input) = update_found_leaves id now input _ _ ∙ leaves.find_leaves id s

      named :
          (id : Result AppError Uuid)
          → seen (Handler.update_named repo parse_uuid read now id r s).1 ≡ seen s
      named (err e) = refl
      named (ok id) = decoded id (decode_json read r)

  pub deactivate_leaves :
      (parse_uuid : Text → Option Uuid) (r : Request) (s : S)
      → seen (Handler.deactivate repo parse_uuid r s).1 ≡ seen s
  unfolding Handler.deactivate Service.deactivate
  deactivate_leaves parse_uuid r s = go (Handler.product_id repo parse_uuid r)
    where
      go :
          (id : Result AppError Uuid)
          → seen (Handler.deactivate_named repo parse_uuid id s).1 ≡ seen s
      go (err e) = refl
      go (ok id) = leaves.deactivate_leaves id s

  pub get_leaves :
      (parse_uuid : Text → Option Uuid) (r : Request) (s : S)
      → seen (Handler.get repo parse_uuid r s).1 ≡ seen s
  unfolding Handler.get Service.find_by_id
  get_leaves parse_uuid r s = go (Handler.product_id repo parse_uuid r)
    where
      go : (id : Result AppError Uuid) → seen (Handler.get_named repo parse_uuid id s).1 ≡ seen s
      go (err e) = refl
      go (ok id) = leaves.find_leaves id s

  list_service_leaves : (f : ProductFilter) (s : S) → seen (Service.list repo f s).1 ≡ seen s
  unfolding Service.list
  list_service_leaves f s = elim (Result-cases (bound_page f.page f.page_size)) [
    | inl ((page, page_size), good) ↦ rw (good, Service.list) (leaves.list_leaves _ s)
    | inr (_, bad) ↦ rw (bad, Service.list) refl
  ]

  pub list_leaves :
      (parse_uuid : Text → Option Uuid) (r : Request) (s : S)
      → seen (Handler.list repo parse_uuid r s).1 ≡ seen s
  unfolding Handler.list
  list_leaves parse_uuid r s = go (Handler.parse_filter r.query)
    where
      go :
          (f : Result AppError ProductFilter)
          → seen (Handler.list_filtered repo parse_uuid f s).1 ≡ seen s
      go (err e) = refl
      go (ok f) = list_service_leaves f s
