-- ===== src/Customer/Postgres.antt =====
-- internal/customer/postgres_repository.go. pgx and the server are an argument, as
-- for the orders. A page size is taken to be no less than 0, as the services make it: the capacity of the
-- slice of a page is left out.
use order_service_go_archite.Prelude.{
  ℕ, ◌==◌, if◌then◌else◌, Option, none, some, List, [], ◌∷◌, ◌++◌, length, ℤ, Text, text, Result,
  ok, err, Action,
}
use order_service_go_archite.Pagination.{Page, total_pages}
use order_service_go_archite.Catalog.{StoreError, missing, failure}
use order_service_go_archite.Order.Model.{Uuid}
use order_service_go_archite.Customer.{Customer, CustomerFilter, CustomerRepository}
use order_service_go_archite.Postgres.{
  Arg, uuid_arg, text_arg, bool_arg, time_arg, Bound, bind_some, bind_part, where_clause,
  page_clause, page_args,
}

-- The pool: `QueryRow` with its scan, `none` being `pgx.ErrNoRows`, the rows of a query, and `Exec` with the
-- number of rows that it affected.
pub record CustomerDatabase (S : Type 0) : Type 0 where
  pub exec : Text → List Arg → Action S Text ℕ
  pub one_row : Text → List Arg → Action S Text (Option Customer)
  pub count : Text → List Arg → Action S Text ℤ
  pub rows : Text → List Arg → Action S Text (List Customer)

-- `customerConditions`.
unfoldable pub customer_conditions : CustomerFilter → Bound
unfolding bind_some bind_part
customer_conditions f = bind_some (text "active = $") bool_arg f.active (
    bind_part (text "document ILIKE $") f.document
      (bind_part (text "name ILIKE $") f.name ([], [])))

abbrev pub select_customers : Text
select_customers =
    text
      "SELECT id, name, document, COALESCE(email, ''), COALESCE(phone, ''), active, created_at, updated_at FROM customers"

abbrev pub db_error : {A : Type 0} → Text → Result StoreError A
db_error m = err (failure m)

abbrev pub affected : Result Text ℕ → Result StoreError (Unit {0})
affected (err m) = db_error m
affected (ok n) = if n == 0 then err missing else ok tt

abbrev pub executed : Result Text ℕ → Result StoreError (Unit {0})
executed (err m) = db_error m
executed (ok _) = ok tt

unfoldable pub found_row : Result Text (Option Customer) → Result StoreError Customer
found_row (err m) = db_error m
found_row (ok none) = err missing
found_row (ok (some r)) = ok r

unfoldable pub found_rows : Result Text (List Customer) → Result StoreError (List Customer)
found_rows (err m) = db_error m
found_rows (ok rs) = ok rs

module _ {S : Type 0} (db : CustomerDatabase S) where
  -- `Create`.
  unfoldable pub create_row : Customer → Action S StoreError (Unit {0})
  create_row c s =
      let (r, s1) =
        db.exec
          (text
            "INSERT INTO customers (id, name, document, email, phone, active, created_at, updated_at)\n\t\tVALUES ($1, $2, $3, $4, $5, $6, $7, $8)")
          (uuid_arg c.id
            ∷ text_arg c.name
            ∷ text_arg c.document
            ∷ text_arg c.email
            ∷ text_arg c.phone
            ∷ bool_arg c.active
            ∷ time_arg c.created_at
            ∷ time_arg c.updated_at
            ∷ [])
          s in
      (executed r, s1)

  -- `Update`.
  unfoldable pub update_row : Customer → Action S StoreError (Unit {0})
  update_row c s =
      let (r, s1) =
        db.exec
          (text
            "UPDATE customers SET name=$2, document=$3, email=$4, phone=$5, updated_at=$6 WHERE id=$1")
          (uuid_arg c.id
            ∷ text_arg c.name
            ∷ text_arg c.document
            ∷ text_arg c.email
            ∷ text_arg c.phone
            ∷ time_arg c.updated_at
            ∷ [])
          s in
      (affected r, s1)

  -- `Deactivate`.
  unfoldable pub deactivate_row : Uuid → Action S StoreError (Unit {0})
  deactivate_row id s =
      let (r, s1) =
        db.exec (text "UPDATE customers SET active=false, updated_at=now() WHERE id=$1")
          (uuid_arg id ∷ []) s in
      (affected r, s1)

  -- `FindByID`.
  unfoldable pub find_row : Uuid → Action S StoreError Customer
  unfolding found_row
  find_row id s =
      let (r, s1) = db.one_row (select_customers ++ text " WHERE id=$1") (uuid_arg id ∷ []) s in
      (found_row r, s1)

  -- `FindByDocument`.
  unfoldable pub find_row_by_document : Text → Action S StoreError Customer
  unfolding found_row
  find_row_by_document document s =
      let (r, s1) =
        db.one_row (select_customers ++ text " WHERE document=$1") (text_arg document ∷ []) s in
      (found_row r, s1)

  abbrev pub page_of :
      CustomerFilter → ℤ → Result StoreError (List Customer) → Result StoreError (Page Customer)
  page_of f total (err e) = err e
  page_of f total (ok items) = ok (record {
    items = items;
    page = f.page;
    page_size = f.page_size;
    total = total;
    total_pages = total_pages total f.page_size;
  })

  unfoldable pub after_count :
      CustomerFilter → Bound → Result Text ℤ → Action S StoreError (Page Customer)
  unfolding found_rows where_clause page_clause
  after_count f b (err m) s = (db_error m, s)
  after_count f (conds, args) (ok total) s =
      let (r, s1) =
        db.rows (select_customers ++ (where_clause conds ++ page_clause (length args)))
          (args ++ page_args f.page f.page_size) s in
      (page_of f total (found_rows r), s1)

  -- `List`.
  unfoldable pub list_rows : CustomerFilter → Action S StoreError (Page Customer)
  unfolding after_count where_clause customer_conditions
  list_rows f s =
      let b = customer_conditions f in
      let (r, s1) = db.count (text "SELECT count(*) FROM customers" ++ where_clause b.0) b.1 s in
      after_count f b r s1

  -- `PostgresRepository`.
  abbrev pub repository : CustomerRepository S
  repository = record {
    create = create_row;
    update = update_row;
    deactivate = deactivate_row;
    find_by_id = find_row;
    find_by_document = find_row_by_document;
    list = list_rows;
  }
