-- ===== src/Customer.antt =====
-- internal/customer: the model, the repository's port and its in-memory adapter, and the service.
pub mod Handler
pub mod Postgres
pub mod Frame
pub mod Service
pub mod Writes
pub mod Reach
use order_service_go_archite.Prelude.{
  ℕ, ◌==◌, if◌then◌else◌, Bool, true, false, not, ◌&&◌, ltb, Option, none, some, List, [], ◌∷◌, map,
  ℤ, Text, text, text_eq, is_blank, contains, to_lower, lookup, insert, Result, ok, err, Action,
  sort_slice, keep,
}
use order_service_go_archite.Errors.{AppError}
use order_service_go_archite.Pagination.{Page, cut_page}
use order_service_go_archite.Catalog.{StoreError, missing, failure, find_by, values, fails}
use order_service_go_archite.Order.Model.{Uuid, Time}

pub record Customer : Type 0 where
  pub id : Uuid
  pub name : Text
  pub document : Text
  pub email : Text
  pub phone : Text
  pub active : Bool
  pub created_at : Time
  pub updated_at : Time

-- `CreateCustomerInput` and `UpdateCustomerInput`, which have the same fields.
pub record CustomerInput : Type 0 where
  pub name : Text
  pub document : Text
  pub email : Text
  pub phone : Text

pub record CustomerOutput : Type 0 where
  pub id : Uuid
  pub name : Text
  pub document : Text
  pub email : Text
  pub phone : Text
  pub active : Bool
  pub created_at : Time
  pub updated_at : Time

pub record CustomerFilter : Type 0 where
  pub name : Text
  pub document : Text
  pub active : Option Bool
  pub page : ℤ
  pub page_size : ℤ

abbrev pub to_output : Customer → CustomerOutput
to_output c = record {
  id = c.id;
  name = c.name;
  document = c.document;
  email = c.email;
  phone = c.phone;
  active = c.active;
  created_at = c.created_at;
  updated_at = c.updated_at;
}

-- `CustomerRepository`.
pub record CustomerRepository (S : Type 0) : Type 0 where
  pub create : Customer → Action S StoreError (Unit {0})
  pub update : Customer → Action S StoreError (Unit {0})
  pub deactivate : Uuid → Action S StoreError (Unit {0})
  pub find_by_id : Uuid → Action S StoreError Customer
  pub find_by_document : Text → Action S StoreError Customer
  pub list : CustomerFilter → Action S StoreError (Page Customer)

-- `InMemoryRepository.items`.
abbrev pub Items : Type 0
Items = List (Uuid × Customer)

unfoldable pub create_item : Customer → Action Items StoreError (Unit {0})
create_item c m = (ok tt, insert c.id c m)

unfoldable pub update_item : Customer → Action Items StoreError (Unit {0})
update_item c m = elim (lookup c.id m) [
  | none ↦ (err missing, m)
  | some _ ↦ (ok tt, insert c.id c m)
]

unfoldable pub deactivate_item : Uuid → Action Items StoreError (Unit {0})
deactivate_item id m = elim (lookup id m) [
  | none ↦ (err missing, m)
  | some c ↦ (ok tt, insert id (record c { active = false }) m)
]

abbrev pub found : Option Customer → Result StoreError Customer
found none = err missing
found (some c) = ok c

unfoldable pub matches : CustomerFilter → Customer → Bool
matches f c =
    not (not (is_blank f.name) && not (contains (map to_lower c.name) (map to_lower f.name)))
    && not (
        not (is_blank f.document)
        && not (contains (map to_lower c.document) (map to_lower f.document)))
    && not (fails (λ b. if b then not c.active else c.active) f.active)

abbrev pub earlier : Customer → Customer → Bool
earlier a b = if a.created_at == b.created_at then ltb a.id b.id else ltb a.created_at b.created_at

-- A panic of the slice is an error for the caller, like that of the order repository.
unfoldable pub list_items : CustomerFilter → Items → Result StoreError (Page Customer)
unfolding matches
list_items f m =
    elim (cut_page (sort_slice earlier (keep (matches f) (values m))) f.page f.page_size) [
      | none ↦ err (failure (text "slice bounds out of range"))
      | some page ↦ ok page
    ]

-- `InMemoryRepository`.
abbrev pub repository : CustomerRepository Items
repository = record {
  create = create_item;
  update = update_item;
  deactivate = deactivate_item;
  find_by_id = λ id m. (found (lookup id m), m);
  find_by_document = λ d m. (found (find_by (λ (c : Customer). c.document) d m), m);
  list = λ f m. (list_items f m, m);
}
