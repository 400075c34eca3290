-- ===== src/Order/Postgres.antt =====
-- internal/order/postgres_repository.go. pgx and the server are an argument: a statement with its bound
-- values is executed, or answers with rows whose columns are scanned. A status column is taken to
-- hold one of the statuses, as the service writes it; amounts are read as their decimal text.
pub mod Conditions
pub mod Statements
pub mod Listing
pub mod Atomic
use order_service_go_archite.Prelude.{
  ℕ, zero, suc, ◌+◌, ◌==◌, if◌then◌else◌, Option, none, some, List, [], ◌∷◌, ◌++◌, length, ℤ, pos,
  Text, text, Result, ok, err, Action,
}
use order_service_go_archite.Money.{Money, parse_string, decimal}
use order_service_go_archite.Pagination.{Page, total_pages}
use order_service_go_archite.Order.Status.{OrderStatus, status_text}
use order_service_go_archite.Order.Model.{Uuid, Time, Order, OrderItem, OrderFilter}
use order_service_go_archite.Order.Ports.{RepoError, order_not_found, failure, Stored}
use order_service_go_archite.Postgres.{
  Arg, uuid_arg, text_arg, int_arg, time_arg, Bound, bind_some, where_clause, page_clause,
  page_args,
}

pub record OrderRow : Type 0 where
  pub id : Uuid
  pub customer_id : Uuid
  pub status : OrderStatus
  pub total_text : Text
  pub created_by : Uuid
  pub created_at : Time
  pub updated_at : Time
  pub processed_at : Option Time

pub record ItemRow : Type 0 where
  pub id : Uuid
  pub order_id : Uuid
  pub product_id : Uuid
  pub quantity : ℤ
  pub unit_text : Text
  pub total_text : Text

-- The pool: a statement answers with the rows it affected. `one_order` is `QueryRow` with its scan, and
-- `none` is `pgx.ErrNoRows`. The four transaction calls are those of one transaction.
pub record OrderDatabase (S : Type 0) : Type 0 where
  pub exec : Text → List Arg → Action S Text ℕ
  pub one_order : Text → List Arg → Action S Text (Option OrderRow)
  pub count : Text → List Arg → Action S Text ℤ
  pub orders : Text → List Arg → Action S Text (List OrderRow)
  pub items : Text → List Arg → Action S Text (List ItemRow)
  pub begin_tx : Action S Text (Unit {0})
  pub exec_tx : Text → List Arg → Action S Text ℕ
  pub commit_tx : Action S Text (Unit {0})
  pub rollback_tx : S → S

-- `orderConditions`.
unfoldable pub order_conditions : OrderFilter → Bound
unfolding bind_some
order_conditions f = bind_some (text "created_at <= $") time_arg f.end_date (
    bind_some (text "created_at >= $") time_arg f.start_date (
      bind_some (text "status = $") (λ st. text_arg (status_text st)) f.status
        (bind_some (text "customer_id = $") uuid_arg f.customer_id ([], []))))

abbrev pub insert_order : Text
insert_order =
    text
      "INSERT INTO orders (id, customer_id, status, total_amount, created_by, created_at, updated_at)\n\t\tVALUES ($1, $2, $3, $4, $5, $6, $7)"

abbrev pub insert_item : Text
insert_item =
    text
      "INSERT INTO order_items (id, order_id, product_id, quantity, unit_price, total_price)\n\t\tVALUES ($1, $2, $3, $4, $5, $6)"

abbrev pub order_args : Order → List Arg
order_args o =
    uuid_arg o.id
    ∷ uuid_arg o.customer_id
    ∷ text_arg (status_text o.status)
    ∷ text_arg (decimal o.total_amount)
    ∷ uuid_arg o.created_by
    ∷ time_arg o.created_at
    ∷ time_arg o.updated_at
    ∷ []

abbrev pub item_args : OrderItem → List Arg
item_args i =
    uuid_arg i.id
    ∷ uuid_arg i.order_id
    ∷ uuid_arg i.product_id
    ∷ int_arg i.quantity
    ∷ text_arg (decimal i.unit_price)
    ∷ text_arg (decimal i.total_price)
    ∷ []

abbrev pub select_orders : Text
select_orders =
    text
      "SELECT id, customer_id, status, total_amount::text, created_by, created_at, updated_at, processed_at\n\t\tFROM orders"

-- A scanned row with its amount parsed.
unfoldable pub scan_order : OrderRow → Result RepoError Order
scan_order r = elim (parse_string r.total_text) [
  | none ↦ err (failure (text "parse order total"))
  | some total ↦ ok (record {
    id = r.id;
    customer_id = r.customer_id;
    status = r.status;
    total_amount = total;
    created_by = r.created_by;
    created_at = r.created_at;
    updated_at = r.updated_at;
    processed_at = r.processed_at;
  })
]

unfoldable pub scan_item : ItemRow → Result RepoError OrderItem
scan_item r = elim (parse_string r.unit_text) [
  | none ↦ err (failure (text "parse unit_price"))
  | some unit ↦ elim (parse_string r.total_text) [
    | none ↦ err (failure (text "parse total_price"))
    | some total ↦ ok (record {
      id = r.id;
      order_id = r.order_id;
      product_id = r.product_id;
      quantity = r.quantity;
      unit_price = unit;
      total_price = total;
    })
  ]
]

-- The loop over the rows: the first that cannot be read ends it.
unfoldable pub scan_all :
    {R A : Type 0} → (R → Result RepoError A) → List R → Result RepoError (List A)
scan_all scan [] = ok []
scan_all scan (r ∷ rs) =
    let rest = scan_all scan rs in
    elim (scan r) [ err e ↦ err e | ok a ↦ elim rest [ err e ↦ err e | ok done ↦ ok (a ∷ done) ] ]

-- Any other error of pgx.
abbrev pub db_error : {A : Type 0} → Text → Result RepoError A
db_error m = err (failure m)

abbrev pub affected : Result Text ℕ → Result RepoError (Unit {0})
affected (err m) = db_error m
affected (ok n) = if n == 0 then err order_not_found else ok tt

module _ {S : Type 0} (db : OrderDatabase S) where
  -- The deferred rollback, which undoes nothing once the transaction is committed.
  unfoldable pub after_commit : Result Text (Unit {0}) → Action S RepoError (Unit {0})
  after_commit (err m) s = (db_error m, db.rollback_tx s)
  after_commit (ok _) s = (ok tt, db.rollback_tx s)

  -- The loop over the items, then the commit.
  unfoldable pub insert_items : List OrderItem → Action S RepoError (Unit {0})
  unfolding after_commit
  insert_items [] s = let (r, s1) = db.commit_tx s in after_commit r s1
  insert_items (i ∷ items) s =
      let (r, s1) = db.exec_tx insert_item (item_args i) s in
      elim r [ err m ↦ (db_error m, db.rollback_tx s1) | ok _ ↦ insert_items items s1 ]

  unfoldable pub after_insert : List OrderItem → Result Text ℕ → Action S RepoError (Unit {0})
  unfolding insert_items
  after_insert items (err m) s = (db_error m, db.rollback_tx s)
  after_insert items (ok _) s = insert_items items s

  unfoldable pub after_begin :
      Order → List OrderItem → Result Text (Unit {0}) → Action S RepoError (Unit {0})
  unfolding after_insert
  after_begin o items (err m) s = (db_error m, s)
  after_begin o items (ok _) s =
      let (r, s1) = db.exec_tx insert_order (order_args o) s in after_insert items r s1

  -- `CreateWithItems`.
  unfoldable pub create_with_items : Order → List OrderItem → Action S RepoError (Unit {0})
  unfolding after_begin
  create_with_items o items s = let (r, s1) = db.begin_tx s in after_begin o items r s1

  -- `findItems`.
  unfoldable pub find_items : Uuid → Action S RepoError (List OrderItem)
  unfolding scan_all scan_item
  find_items id s =
      let (r, s1) =
        db.items
          (text
            "SELECT id, order_id, product_id, quantity, unit_price::text, total_price::text\n\t\tFROM order_items WHERE order_id=$1 ORDER BY id")
          (uuid_arg id ∷ []) s in
      (elim r [ err m ↦ db_error m | ok rows ↦ scan_all scan_item rows ], s1)

  unfoldable pub with_items : Result RepoError Order → Uuid → Action S RepoError Stored
  unfolding find_items
  with_items (err e) id s = (err e, s)
  with_items (ok o) id s =
      let (r, s1) = find_items id s in (elim r [ err e ↦ err e | ok items ↦ ok (o, items) ], s1)

  unfoldable pub after_row : Uuid → Result Text (Option OrderRow) → Action S RepoError Stored
  unfolding with_items scan_order
  after_row id (err m) s = (db_error m, s)
  after_row id (ok none) s = (err order_not_found, s)
  after_row id (ok (some row)) s = with_items (scan_order row) id s

  -- `FindByID`.
  unfoldable pub find_by_id : Uuid → Action S RepoError Stored
  unfolding after_row
  find_by_id id s =
      let (r, s1) = db.one_order (select_orders ++ text " WHERE id=$1") (uuid_arg id ∷ []) s in
      after_row id r s1

  -- `UpdateStatus`.
  unfoldable pub update_status : Uuid → OrderStatus → Action S RepoError (Unit {0})
  update_status id st s =
      let (r, s1) =
        db.exec (text "UPDATE orders SET status=$2, updated_at=now() WHERE id=$1")
          (uuid_arg id ∷ text_arg (status_text st) ∷ []) s in
      (affected r, s1)

  -- `MarkProcessed`.
  unfoldable pub mark_processed : Uuid → OrderStatus → Time → Action S RepoError (Unit {0})
  mark_processed id st t s =
      let (r, s1) =
        db.exec (text "UPDATE orders SET status=$2, processed_at=$3, updated_at=$3 WHERE id=$1")
          (uuid_arg id ∷ text_arg (status_text st) ∷ time_arg t ∷ []) s in
      (affected r, s1)

  abbrev pub page_of : OrderFilter → ℤ → List Order → Page Order
  page_of f total items = record {
    items = items;
    page = f.page;
    page_size = f.page_size;
    total = total;
    total_pages = total_pages total f.page_size;
  }

  unfoldable pub after_rows :
      OrderFilter → ℤ → Result Text (List OrderRow) → Result RepoError (Page Order)
  unfolding scan_all scan_order
  after_rows f total (err m) = db_error m
  after_rows f total (ok rows) = elim (scan_all scan_order rows) [
    | err e ↦ err e
    | ok items ↦ ok (page_of f total items)
  ]

  unfoldable pub after_count : OrderFilter → Bound → Result Text ℤ → Action S RepoError (Page Order)
  unfolding after_rows where_clause page_clause
  after_count f b (err m) s = (db_error m, s)
  after_count f (conds, args) (ok total) s =
      let (r, s1) =
        db.orders (select_orders ++ (where_clause conds ++ page_clause (length args)))
          (args ++ page_args f.page f.page_size) s in
      (after_rows f total r, s1)

  -- `List`.
  unfoldable pub list : OrderFilter → Action S RepoError (Page Order)
  unfolding after_count where_clause order_conditions
  list f s =
      let b = order_conditions f in
      let (r, s1) = db.count (text "SELECT count(*) FROM orders" ++ where_clause b.0) b.1 s in
      after_count f b r s1
