-- ===== src/Tests/Databases.antt =====
-- internal/order/postgres_repository.go over a small server.
use order_service_go_archite.Prelude.{
  ℕ, suc, ◌+◌, ◌*◌, ◌<◌, ◌==◌, leb, ◌≡◌, refl, ap, Bool, false, if◌then◌else◌, Option, none, some,
  List, [], ◌∷◌, ◌++◌, map, length, take, drop, keep, sort_slice, Every, get_elem?, ℤ, pos, Text,
  text, text_eq, show_nat, digits_from, parse_uint, two63, Result, ok, arith,
}
use order_service_go_archite.Money.Digits.{parse_uint-show_nat}
use order_service_go_archite.Money.RoundTrip.{IsAmount}
use order_service_go_archite.Pagination.{Page}
use order_service_go_archite.Order.Status.{OrderStatus, status_text, created}
use order_service_go_archite.Order.Model.{Uuid, Time, Order, OrderFilter}
use order_service_go_archite.Order.Repository
use order_service_go_archite.Order.Repository.{Store, values, matching, earlier, matches_order}
use order_service_go_archite.Order.Postgres.{
  OrderRow, OrderDatabase, order_conditions, list, create_with_items, insert_order, order_args,
}
use order_service_go_archite.Order.Postgres.Conditions.{OrderConditions}
use order_service_go_archite.Order.Postgres.Statements.{count_sql, page_sql}
use order_service_go_archite.Order.Postgres.Listing.{OrderServer, row_of, list_as_memory}
use order_service_go_archite.Order.Postgres.Atomic.{
  Statement, Transactions, AllOrNothing, item_statements, create_with_items-AllOrNothing,
}
use order_service_go_archite.Postgres.{
  Arg, uuid_arg, text_arg, int_arg, time_arg, bind, bind_some, where_clause, page_clause, join_and,
}
use order_service_go_archite.Postgres.Placeholders.{all_hold}
use order_service_go_archite.Tests.Orders.{stored_order, stored_item}

-- What is left of a text after a prefix.
abbrev pub strip : Text → Text → Option Text
strip [] t = some t
strip (c ∷ p) [] = none
strip (c ∷ p) (d ∷ t) = if c == d then strip p t else none

abbrev pub value_of : Option ℕ → List Arg → Option Arg
value_of (some (suc n)) args = get_elem? args n
value_of _ args = none

abbrev is_customer : Option Arg → Order → Bool
is_customer (some (uuid_arg id)) o = o.customer_id == id
is_customer _ o = false

abbrev is_status : Option Arg → Order → Bool
is_status (some (text_arg t)) o = text_eq (status_text o.status) t
is_status _ o = false

abbrev is_from : Option Arg → Order → Bool
is_from (some (time_arg t)) o = leb t o.created_at
is_from _ o = false

abbrev is_until : Option Arg → Order → Bool
is_until (some (time_arg t)) o = leb o.created_at t
is_until _ o = false

-- The four conditions, with the number of the placeholder read from the text.
abbrev until_holds : Option Text → List Arg → Order → Bool
until_holds none args o = false
until_holds (some d) args o = is_until (value_of (parse_uint d) args) o

abbrev from_holds : Option Text → Text → List Arg → Order → Bool
from_holds none c args o = until_holds (strip (text "created_at <= $") c) args o
from_holds (some d) c args o = is_from (value_of (parse_uint d) args) o

abbrev status_holds : Option Text → Text → List Arg → Order → Bool
status_holds none c args o = from_holds (strip (text "created_at >= $") c) c args o
status_holds (some d) c args o = is_status (value_of (parse_uint d) args) o

abbrev customer_holds : Option Text → Text → List Arg → Order → Bool
customer_holds none c args o = status_holds (strip (text "status = $") c) c args o
customer_holds (some d) c args o = is_customer (value_of (parse_uint d) args) o

abbrev holds : Text → List Arg → Order → Bool
holds c args o = customer_holds (strip (text "customer_id = $") c) c args o

pub numbered :
    (n : ℕ) (args : List Arg) (a : Arg)
    → n < 65535
    → get_elem? args n ≡ some a
    → value_of (parse_uint (show_nat (suc n))) args ≡ some a
numbered n args a few at = let read = parse_uint-show_nat (suc n) (omega arith) in rw read at

holds_conditions : OrderConditions holds
holds_conditions = record {
  customer_is = λ id n args o few at. rw (numbered n args (uuid_arg id) few at) refl;
  status_is = λ t n args o few at. rw (numbered n args (text_arg t) few at) refl;
  created_from = λ t n args o few at. rw (numbered n args (time_arg t) few at) refl;
  created_until = λ t n args o few at. rw (numbered n args (time_arg t) few at) refl;
}

-- The lists of conditions that the repository builds, one for each choice of the fields that are set.
abbrev shapes : List (List Text)
shapes =
    ([])
    ∷ (text "created_at <= $1" ∷ [])
    ∷ (text "created_at >= $1" ∷ [])
    ∷ (text "created_at >= $1" ∷ text "created_at <= $2" ∷ [])
    ∷ (text "status = $1" ∷ [])
    ∷ (text "status = $1" ∷ text "created_at <= $2" ∷ [])
    ∷ (text "status = $1" ∷ text "created_at >= $2" ∷ [])
    ∷ (text "status = $1" ∷ text "created_at >= $2" ∷ text "created_at <= $3" ∷ [])
    ∷ (text "customer_id = $1" ∷ [])
    ∷ (text "customer_id = $1" ∷ text "created_at <= $2" ∷ [])
    ∷ (text "customer_id = $1" ∷ text "created_at >= $2" ∷ [])
    ∷ (text "customer_id = $1" ∷ text "created_at >= $2" ∷ text "created_at <= $3" ∷ [])
    ∷ (text "customer_id = $1" ∷ text "status = $2" ∷ [])
    ∷ (text "customer_id = $1" ∷ text "status = $2" ∷ text "created_at <= $3" ∷ [])
    ∷ (text "customer_id = $1" ∷ text "status = $2" ∷ text "created_at >= $3" ∷ [])
    ∷ (text "customer_id = $1"
        ∷ text "status = $2"
        ∷ text "created_at >= $3"
        ∷ text "created_at <= $4"
        ∷ [])
    ∷ []

-- The conditions of a statement.
abbrev conditions_in : (List Text → Text) → List (List Text) → Text → List Text
conditions_in statement [] q = []
conditions_in statement (cs ∷ rest) q =
    if text_eq (statement cs) q then cs else conditions_in statement rest q

abbrev number_of : Option Arg → ℕ
number_of (some (int_arg (pos n))) = n
number_of _ = 0

record Server : Type 0 where
  rows : List Order
  done : List Statement
  opened : List Statement

abbrev count_of : List Text → List Arg → Server → Result Text ℤ × Server
count_of cs args s = (ok (pos (length (keep (all_hold holds cs args) s.rows))), s)

abbrev rows_of : List Text → List Arg → Server → Result Text (List OrderRow) × Server
rows_of cs args s =
    let n = length cs in
    (
      ok (
          map row_of (
            take (number_of (get_elem? args n)) (
              drop (number_of (get_elem? args (suc n)))
                (sort_slice earlier (keep (all_hold holds cs args) s.rows))))),
      s,
    )

abbrev paged : List Text → Text
paged cs = page_sql cs (length cs)

abbrev db : OrderDatabase Server
db = record {
  exec = λ q args s. (ok 0, s);
  one_order = λ q args s. (ok none, s);
  count = λ q args s. count_of (conditions_in count_sql shapes q) args s;
  orders = λ q args s. rows_of (conditions_in paged shapes q) args s;
  items = λ q args s. (ok [], s);
  begin_tx = λ s. (ok tt, record s { opened = [] });
  exec_tx = λ q args s. (ok 1, record s { opened = s.opened ++ (q, args) ∷ [] });
  commit_tx = λ s. (ok tt, record s { done = s.done ++ s.opened; opened = [] });
  rollback_tx = λ s. record s { opened = [] };
}

db_transactions : Transactions db (λ s. s.done) (λ s. s.opened) (λ all c. c ++ all)
db_transactions = record {
  begins = λ s. (refl, λ _. refl);
  executes = λ q args s. (refl, λ n _. refl);
  commits = λ s _. refl;
  fails = λ s e. absurd (cc);
  rolls_back = λ s. refl;
}

-- What the statements compute with.
builds : Unit {0}
unfolding order_conditions bind_some bind where_clause join_and page_clause show_nat digits_from
builds = tt

abbrev filter_of :
    Option Uuid → Option OrderStatus → Option Time → Option Time → ℤ → ℤ → OrderFilter
filter_of c st from until page size = record {
  customer_id = c;
  status = st;
  start_date = from;
  end_date = until;
  page = page;
  page_size = size;
}

-- The conditions are found again in the statement that counts.
counted_again :
    (c : Option Uuid) (st : Option OrderStatus) (from until : Option Time) (page size : ℤ)
    → let conds = (order_conditions (filter_of c st from until page size)).0 in
      conditions_in count_sql shapes (count_sql conds) ≡ conds
unfolding builds
counted_again none none none none page size = refl
counted_again none none none (some until) page size = refl
counted_again none none (some from) none page size = refl
counted_again none none (some from) (some until) page size = refl
counted_again none (some st) none none page size = refl
counted_again none (some st) none (some until) page size = refl
counted_again none (some st) (some from) none page size = refl
counted_again none (some st) (some from) (some until) page size = refl
counted_again (some c) none none none page size = refl
counted_again (some c) none none (some until) page size = refl
counted_again (some c) none (some from) none page size = refl
counted_again (some c) none (some from) (some until) page size = refl
counted_again (some c) (some st) none none page size = refl
counted_again (some c) (some st) none (some until) page size = refl
counted_again (some c) (some st) (some from) none page size = refl
counted_again (some c) (some st) (some from) (some until) page size = refl

-- And in the statement that selects a page, whose limit and offset follow their values.
paged_again :
    (c : Option Uuid) (st : Option OrderStatus) (from until : Option Time) (page size : ℤ)
    (limit offset : ℕ) (s : Server)
    → let (conds, args) = order_conditions (filter_of c st from until page size) in
      let bound = args ++ int_arg (pos limit) ∷ int_arg (pos offset) ∷ [] in
      db.orders (page_sql conds (length args)) bound s ≡ (
        ok (
            map row_of (
              take limit
                (drop offset (sort_slice earlier (keep (all_hold holds conds bound) s.rows))))),
        s,
      )
unfolding builds
paged_again none none none none page size limit offset s = refl
paged_again none none none (some until) page size limit offset s = refl
paged_again none none (some from) none page size limit offset s = refl
paged_again none none (some from) (some until) page size limit offset s = refl
paged_again none (some st) none none page size limit offset s = refl
paged_again none (some st) none (some until) page size limit offset s = refl
paged_again none (some st) (some from) none page size limit offset s = refl
paged_again none (some st) (some from) (some until) page size limit offset s = refl
paged_again (some c) none none none page size limit offset s = refl
paged_again (some c) none none (some until) page size limit offset s = refl
paged_again (some c) none (some from) none page size limit offset s = refl
paged_again (some c) none (some from) (some until) page size limit offset s = refl
paged_again (some c) (some st) none none page size limit offset s = refl
paged_again (some c) (some st) none (some until) page size limit offset s = refl
paged_again (some c) (some st) (some from) none page size limit offset s = refl
paged_again (some c) (some st) (some from) (some until) page size limit offset s = refl

server : OrderServer db (λ s. s.rows) holds
server = record {
  conditions = holds_conditions;
  counts = λ f s.
      let cs = (order_conditions f).0 in
      let found = counted_again f.customer_id f.status f.start_date f.end_date f.page f.page_size in
      ap (λ (x : List Text). count_of x (order_conditions f).1 s) found;
  selects = λ f limit offset s.
      paged_again f.customer_id f.status f.start_date f.end_date f.page f.page_size limit offset s;
}

-- The CREATED orders from the instant 50 on, one to a page.
abbrev recent : OrderFilter
recent = filter_of none (some created) (some 50) none (pos 1) (pos 1)

abbrev two_orders : Store
two_orders = record {
  orders = (7, stored_order) ∷ (6, record stored_order { id = 6; created_at = 40 }) ∷ [];
  items = [];
  commit_count = 2;
}

abbrev same_orders : Server
same_orders = record { rows = values two_orders.orders; done = []; opened = [] }

amounts_fit :
    Every
      (λ (o : Order). IsAmount o.total_amount)
      (take 1 (drop (0 * 1) (matching recent two_orders)))
unfolding matching matches_order sort_slice keep
amounts_fit = ((omega arith, omega arith), tt)

few_match : length (matching recent two_orders) + 1 < two63
unfolding matching matches_order sort_slice keep
few_match = omega arith

list_as_memory_example :
    (page : Page Order) × (Repository.list recent two_orders ≡ some page)
    × (list db recent same_orders ≡ (ok page, same_orders))
list_as_memory_example =
    list_as_memory server recent two_orders same_orders 0 1 refl refl refl (omega arith)
      (omega arith) few_match (omega arith) amounts_fit

create_with_items-AllOrNothing_example :
    AllOrNothing db_transactions
      ((insert_order, order_args stored_order) ∷ item_statements (stored_item ∷ []))
      []
      (create_with_items db stored_order (stored_item ∷ []) same_orders)
create_with_items-AllOrNothing_example =
    create_with_items-AllOrNothing db_transactions stored_order (stored_item ∷ []) same_orders
