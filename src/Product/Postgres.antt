-- ===== src/Product/Postgres.antt =====
-- internal/product/postgres_repository.go. pgx and the server are an argument, as
-- for the orders. A page size is taken to be no less than 0, as the services make it: the capacity of the
-- slice of a page is left out.
use order_service_go_archite.Prelude.{
  ℕ, ◌==◌, if◌then◌else◌, Bool, Option, none, some, List, [], ◌∷◌, ◌++◌, length, ℤ, Text, text,
  Result, ok, err, Action,
}
use order_service_go_archite.Money.{parse_string, decimal}
use order_service_go_archite.Pagination.{Page, total_pages}
use order_service_go_archite.Catalog.{StoreError, missing, failure}
use order_service_go_archite.Order.Model.{Uuid, Time}
use order_service_go_archite.Product.{Product, ProductFilter, ProductRepository}
use order_service_go_archite.Postgres.{
  Arg, uuid_arg, uuids_arg, text_arg, bool_arg, time_arg, Bound, bind_some, bind_part, where_clause,
  page_clause, page_args,
}

-- A scanned row; the price is read as its decimal text.
pub record ProductRow : Type 0 where
  pub id : Uuid
  pub name : Text
  pub sku : Text
  pub price_text : Text
  pub active : Bool
  pub created_at : Time
  pub updated_at : Time

-- The pool: `QueryRow` with its scan, `none` being `pgx.ErrNoRows`, the rows of a query, and `Exec` with the
-- number of rows that it affected.
pub record ProductDatabase (S : Type 0) : Type 0 where
  pub exec : Text → List Arg → Action S Text ℕ
  pub one_row : Text → List Arg → Action S Text (Option ProductRow)
  pub count : Text → List Arg → Action S Text ℤ
  pub rows : Text → List Arg → Action S Text (List ProductRow)

-- `productConditions`.
unfoldable pub product_conditions : ProductFilter → Bound
unfolding bind_some bind_part
product_conditions f =
    bind_some (text "active = $") bool_arg f.active
      (bind_part (text "sku ILIKE $") f.sku (bind_part (text "name ILIKE $") f.name ([], [])))

abbrev pub select_products : Text
select_products =
    text "SELECT id, name, sku, price::text, active, created_at, updated_at FROM products"

-- `scanProduct`.
unfoldable pub scan_product : ProductRow → Result StoreError Product
scan_product r = elim (parse_string r.price_text) [
  | none ↦ err (failure (text "parse product price"))
  | some price ↦ ok (record {
    id = r.id;
    name = r.name;
    sku = r.sku;
    price = price;
    active = r.active;
    created_at = r.created_at;
    updated_at = r.updated_at;
  })
]

-- The loop over the rows: the first that cannot be read ends it.
unfoldable pub scan_all : List ProductRow → Result StoreError (List Product)
unfolding scan_product
scan_all [] = ok []
scan_all (r ∷ rs) =
    let rest = scan_all rs in
    elim (scan_product r) [
      | err e ↦ err e
      | ok a ↦ elim rest [ err e ↦ err e | ok done ↦ ok (a ∷ done) ]
    ]

abbrev pub db_error : {A : Type 0} → Text → Result StoreError A
db_error m = err (failure m)

abbrev pub affected : Result Text ℕ → Result StoreError (Unit {0})
affected (err m) = db_error m
affected (ok n) = if n == 0 then err missing else ok tt

abbrev pub executed : Result Text ℕ → Result StoreError (Unit {0})
executed (err m) = db_error m
executed (ok _) = ok tt

unfoldable pub found_row : Result Text (Option ProductRow) → Result StoreError Product
unfolding scan_product
found_row (err m) = db_error m
found_row (ok none) = err missing
found_row (ok (some r)) = scan_product r

unfoldable pub found_rows : Result Text (List ProductRow) → Result StoreError (List Product)
unfolding scan_product
found_rows (err m) = db_error m
found_rows (ok rs) = scan_all rs

module _ {S : Type 0} (db : ProductDatabase S) where
  -- `Create`.
  unfoldable pub create_row : Product → Action S StoreError (Unit {0})
  create_row c s =
      let (r, s1) =
        db.exec
          (text
            "INSERT INTO products (id, name, sku, price, active, created_at, updated_at)\n\t\tVALUES ($1, $2, $3, $4, $5, $6, $7)")
          (uuid_arg c.id
            ∷ text_arg c.name
            ∷ text_arg c.sku
            ∷ text_arg (decimal c.price)
            ∷ bool_arg c.active
            ∷ time_arg c.created_at
            ∷ time_arg c.updated_at
            ∷ [])
          s in
      (executed r, s1)

  -- `Update`.
  unfoldable pub update_row : Product → Action S StoreError (Unit {0})
  update_row c s =
      let (r, s1) =
        db.exec (text "UPDATE products SET name=$2, sku=$3, price=$4, updated_at=$5 WHERE id=$1")
          (uuid_arg c.id
            ∷ text_arg c.name
            ∷ text_arg c.sku
            ∷ text_arg (decimal c.price)
            ∷ time_arg c.updated_at
            ∷ [])
          s in
      (affected r, s1)

  -- `Deactivate`.
  unfoldable pub deactivate_row : Uuid → Action S StoreError (Unit {0})
  deactivate_row id s =
      let (r, s1) =
        db.exec (text "UPDATE products SET active=false, updated_at=now() WHERE id=$1")
          (uuid_arg id ∷ []) s in
      (affected r, s1)

  -- `FindByID`.
  unfoldable pub find_row : Uuid → Action S StoreError Product
  unfolding found_row
  find_row id s =
      let (r, s1) = db.one_row (select_products ++ text " WHERE id=$1") (uuid_arg id ∷ []) s in
      (found_row r, s1)

  -- `FindBySKU`.
  unfoldable pub find_row_by_sku : Text → Action S StoreError Product
  unfolding found_row
  find_row_by_sku sku s =
      let (r, s1) = db.one_row (select_products ++ text " WHERE sku=$1") (text_arg sku ∷ []) s in
      (found_row r, s1)

  -- `FindManyByID`: no query for no identifiers.
  unfoldable pub find_rows : List Uuid → Action S StoreError (List Product)
  unfolding found_rows
  find_rows [] s = (ok [], s)
  find_rows (id ∷ ids) s =
      let (r, s1) =
        db.rows (select_products ++ text " WHERE id = ANY($1)") (uuids_arg (id ∷ ids) ∷ []) s in
      (found_rows r, s1)

  abbrev pub page_of :
      ProductFilter → ℤ → Result StoreError (List Product) → Result StoreError (Page Product)
  page_of f total (err e) = err e
  page_of f total (ok items) = ok (record {
    items = items;
    page = f.page;
    page_size = f.page_size;
    total = total;
    total_pages = total_pages total f.page_size;
  })

  unfoldable pub after_count :
      ProductFilter → Bound → Result Text ℤ → Action S StoreError (Page Product)
  unfolding found_rows where_clause page_clause
  after_count f b (err m) s = (db_error m, s)
  after_count f (conds, args) (ok total) s =
      let (r, s1) =
        db.rows (select_products ++ (where_clause conds ++ page_clause (length args)))
          (args ++ page_args f.page f.page_size) s in
      (page_of f total (found_rows r), s1)

  -- `List`.
  unfoldable pub list_rows : ProductFilter → Action S StoreError (Page Product)
  unfolding after_count where_clause product_conditions
  list_rows f s =
      let b = product_conditions f in
      let (r, s1) = db.count (text "SELECT count(*) FROM products" ++ where_clause b.0) b.1 s in
      after_count f b r s1

  -- `PostgresRepository`.
  abbrev pub repository : ProductRepository S
  repository = record {
    create = create_row;
    update = update_row;
    deactivate = deactivate_row;
    find_by_id = find_row;
    find_by_sku = find_row_by_sku;
    find_many_by_id = find_rows;
    list = list_rows;
  }
