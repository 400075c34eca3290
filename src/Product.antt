-- ===== src/Product.antt =====
-- internal/product: the model, the repository's port and its in-memory adapter, and the service.
pub mod Handler
pub mod Postgres
pub mod Frame
pub mod Service
pub mod Writes
pub mod Reach
use order_service_go_archite.Prelude.{
  ℕ, ◌==◌, if◌then◌else◌, Bool, true, false, not, ◌&&◌, ltb, Option, none, some, List, [], ◌∷◌, map,
  ℤ, Text, text, text_eq, is_blank, contains, to_lower, lookup, insert, Result, ok, err, Action,
  sort_slice, keep,
}
use order_service_go_archite.Errors.{AppError}
use order_service_go_archite.Money.{Money}
use order_service_go_archite.Pagination.{Page, cut_page}
use order_service_go_archite.Catalog.{StoreError, missing, failure, find_by, values, fails}
use order_service_go_archite.Order.Model.{Uuid, Time}

pub record Product : Type 0 where
  pub id : Uuid
  pub name : Text
  pub sku : Text
  pub price : Money
  pub active : Bool
  pub created_at : Time
  pub updated_at : Time

-- `CreateProductInput` and `UpdateProductInput`, which have the same fields.
pub record ProductInput : Type 0 where
  pub name : Text
  pub sku : Text
  pub price : Money

pub record ProductOutput : Type 0 where
  pub id : Uuid
  pub name : Text
  pub sku : Text
  pub price : Money
  pub active : Bool
  pub created_at : Time
  pub updated_at : Time

pub record ProductFilter : Type 0 where
  pub name : Text
  pub sku : Text
  pub active : Option Bool
  pub page : ℤ
  pub page_size : ℤ

abbrev pub to_output : Product → ProductOutput
to_output c = record {
  id = c.id;
  name = c.name;
  sku = c.sku;
  price = c.price;
  active = c.active;
  created_at = c.created_at;
  updated_at = c.updated_at;
}

-- `ProductRepository`.
pub record ProductRepository (S : Type 0) : Type 0 where
  pub create : Product → Action S StoreError (Unit {0})
  pub update : Product → Action S StoreError (Unit {0})
  pub deactivate : Uuid → Action S StoreError (Unit {0})
  pub find_by_id : Uuid → Action S StoreError Product
  pub find_by_sku : Text → Action S StoreError Product
  pub find_many_by_id : List Uuid → Action S StoreError (List Product)
  pub list : ProductFilter → Action S StoreError (Page Product)

-- `InMemoryRepository.items`.
abbrev pub Items : Type 0
Items = List (Uuid × Product)

unfoldable pub create_item : Product → Action Items StoreError (Unit {0})
create_item c m = (ok tt, insert c.id c m)

unfoldable pub update_item : Product → Action Items StoreError (Unit {0})
update_item c m = elim (lookup c.id m) [
  | none ↦ (err missing, m)
  | some _ ↦ (ok tt, insert c.id c m)
]

unfoldable pub deactivate_item : Uuid → Action Items StoreError (Unit {0})
deactivate_item id m = elim (lookup id m) [
  | none ↦ (err missing, m)
  | some c ↦ (ok tt, insert id (record c { active = false }) m)
]

abbrev pub found : Option Product → Result StoreError Product
found none = err missing
found (some c) = ok c

unfoldable pub matches : ProductFilter → Product → Bool
matches f c =
    not (not (is_blank f.name) && not (contains (map to_lower c.name) (map to_lower f.name)))
    && not (not (is_blank f.sku) && not (contains (map to_lower c.sku) (map to_lower f.sku)))
    && not (fails (λ b. if b then not c.active else c.active) f.active)

abbrev pub earlier : Product → Product → Bool
earlier a b = if a.created_at == b.created_at then ltb a.id b.id else ltb a.created_at b.created_at

-- `FindManyByID`: identifiers without a product are left out.
unfoldable pub find_many : List Uuid → Items → List Product
find_many [] m = []
find_many (id ∷ ids) m =
    let rest = find_many ids m in elim (lookup id m) [ none ↦ rest | some c ↦ c ∷ rest ]

-- A panic of the slice is an error for the caller, like that of the order repository.
unfoldable pub list_items : ProductFilter → Items → Result StoreError (Page Product)
unfolding matches
list_items f m =
    elim (cut_page (sort_slice earlier (keep (matches f) (values m))) f.page f.page_size) [
      | none ↦ err (failure (text "slice bounds out of range"))
      | some page ↦ ok page
    ]

-- `InMemoryRepository`.
abbrev pub repository : ProductRepository Items
repository = record {
  create = create_item;
  update = update_item;
  deactivate = deactivate_item;
  find_by_id = λ id m. (found (lookup id m), m);
  find_by_sku = λ d m. (found (find_by (λ (c : Product). c.sku) d m), m);
  find_many_by_id = λ ids m. (ok (find_many ids m), m);
  list = λ f m. (list_items f m, m);
}
