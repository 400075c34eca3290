-- ===== src/Order/Postgres/Listing.antt =====
-- internal/order/postgres_repository.go, `List`, against the in-memory repository over the same orders.
use mathlib.Core.List.{append-nil}
use order_service_go_archite.Prelude.{
  ℕ, suc, ◌+◌, ◌*◌, ◌<◌, ◌≡◌, refl, sym, ap, ◌∙◌, Bool, some, List, [], ◌∷◌, ◌++◌, map, length,
  take, drop, keep, sort_slice, length-sort_slice, subst, ℤ, Every, pos, wrap64_id, two63, Text,
  text, Result, ok, err, arith,
}
use order_service_go_archite.Money.{decimal}
use order_service_go_archite.Money.RoundTrip.{IsAmount, parse_string-decimal}
use order_service_go_archite.Pagination.{Page}
use order_service_go_archite.Pagination.Pages.{cut_page_window, total_window, pos_parts}
use order_service_go_archite.Order.Model.{Order, OrderFilter}
use order_service_go_archite.Order.Ports.{RepoError}
use order_service_go_archite.Order.Repository.{Store, matches_order, earlier, values, matching}
use order_service_go_archite.Order.Repository
use order_service_go_archite.Order.Postgres.{
  OrderRow, OrderDatabase, order_conditions, select_orders, scan_order, scan_all, after_rows,
  after_count, page_of, list,
}
use order_service_go_archite.Order.Postgres.Conditions.{OrderConditions, order_conditions-Selects}
use order_service_go_archite.Order.Postgres.Statements.{
  count_sql, page_sql, where_clause-filtered, page_statement-page_sql,
}
use order_service_go_archite.Postgres.{Arg, int_arg, where_clause, page_clause, page_args}
use order_service_go_archite.Postgres.Placeholders.{all_hold}

-- An order's row as it is selected: an amount is cast to its text with two decimals.
abbrev pub row_of : Order → OrderRow
row_of o = record {
  id = o.id;
  customer_id = o.customer_id;
  status = o.status;
  total_text = decimal o.total_amount;
  created_by = o.created_by;
  created_at = o.created_at;
  updated_at = o.updated_at;
  processed_at = o.processed_at;
}

-- A server in reach that stores the orders: how it answers the two statements of `List`.
pub record OrderServer {S : Type 0} (db : OrderDatabase S) (stored : S → List Order)
    (holds : Text → List Arg → Order → Bool) : Type 0 where
  pub conditions : OrderConditions holds
  pub counts :
      (f : OrderFilter) (s : S)
      → let (conds, args) = order_conditions f in
        db.count (count_sql conds) args s
        ≡ (ok (pos (length (keep (all_hold holds conds args) (stored s)))), s)
  pub selects :
      (f : OrderFilter) (limit offset : ℕ) (s : S)
      → let (conds, args) = order_conditions f in
        let bound = args ++ int_arg (pos limit) ∷ int_arg (pos offset) ∷ [] in
        db.orders (page_sql conds (length args)) bound s ≡ (
          ok (
              map row_of (
                take limit (
                  drop offset
                    (sort_slice earlier (keep (all_hold holds conds bound) (stored s)))))),
          s,
        )

scan_order-row : (o : Order) → IsAmount o.total_amount → scan_order (row_of o) ≡ ok o
unfolding scan_order
scan_order-row o h = rw (parse_string-decimal o.total_amount h, scan_order) refl

scan_all-rows :
    (os : List Order)
    → Every (λ (o : Order). IsAmount o.total_amount) os
    → scan_all scan_order (map row_of os) ≡ ok os
unfolding scan_all
scan_all-rows [] h = refl
scan_all-rows (o ∷ os) (h, hs) =
    both (scan_order (row_of o)) (scan_all scan_order (map row_of os)) (scan_order-row o h)
      (scan_all-rows os hs)
  where
    both :
        (a : Result RepoError Order) (rest : Result RepoError (List Order))
        → a ≡ ok o
        → rest ≡ ok os
        → (elim a [ err e ↦ err e | ok x ↦ elim rest [ err e ↦ err e | ok done ↦ ok (x ∷ done) ] ])
          ≡ ok (o ∷ os)
    both a rest e f = rw (e, f) refl

keep-ext :
    {A : Type 0} (f g : A → Bool) (xs : List A) → ((x : A) → f x ≡ g x) → keep f xs ≡ keep g xs
keep-ext {A = A} f g xs same = ap (λ (h : A → Bool). keep h xs) (λ i. λ x. same x i)

offset_lem :
    (k size : ℕ)
    → k * size < two63
    → suc k < two63
    → page_args (pos (suc k)) (pos size) ≡ int_arg (pos size) ∷ int_arg (pos (k * size)) ∷ []
offset_lem k size small page =
    let (_, times, less) = pos_parts k size in
    rw
      (
        less,
        wrap64_id (pos k) (omega arith, omega arith),
        times,
        wrap64_id (pos (k * size)) (omega arith, omega arith),
      )
      refl

module _ {S : Type 0} {db : OrderDatabase S} {stored : S → List Order}
    {holds : Text → List Arg → Order → Bool} (server : OrderServer db stored holds) where
  matched :
      (f : OrderFilter) (later : List Arg) (s : S)
      → keep (all_hold holds (order_conditions f).0 ((order_conditions f).1 ++ later)) (stored s)
        ≡ keep (matches_order f) (stored s)
  matched f later s = keep-ext _ _ (stored s) (order_conditions-Selects server.conditions f later)

  counted :
      (f : OrderFilter) (s : S)
      → list db f s
        ≡ after_count db f
            (order_conditions f)
            (ok (pos (length (keep (matches_order f) (stored s)))))
            s
  unfolding list
  counted f s =
      let b = order_conditions f in
      let same : keep (all_hold holds b.0 b.1) (stored s) ≡ keep (matches_order f) (stored s) =
        subst
          (λ (x : List Arg).
            keep (all_hold holds b.0 x) (stored s) ≡ keep (matches_order f) (stored s))
          (append-nil b.1) (matched f [] s) in
      ap
        (λ (x : Text).
          let (r, s1) = db.count (text "SELECT count(*) FROM orders" ++ x) b.1 s in
          after_count db f b r s1)
        (where_clause-filtered b.0)
      ∙ ap (λ (x : Result Text ℤ × S). after_count db f b x.0 x.1) (server.counts f s)
      ∙ ap (λ (x : List Order). after_count db f b (ok (pos (length x))) s) same

  windowed :
      (f : OrderFilter) (k size total : ℕ) (s : S)
      → f.page ≡ pos (suc k)
      → f.page_size ≡ pos size
      → k * size < two63
      → suc k < two63
      → let window =
          take size (drop (k * size) (sort_slice earlier (keep (matches_order f) (stored s)))) in
        after_count db f (order_conditions f) (ok (pos total)) s
        ≡ (after_rows db f (pos total) (ok (map row_of window)), s)
  unfolding after_count
  windowed f k size total s page page_size small wide =
      let (conds, args) = order_conditions f in
      let q = select_orders ++ (where_clause conds ++ page_clause (length args)) in
      let later = int_arg (pos size) ∷ int_arg (pos (k * size)) ∷ [] in
      let bound : page_args f.page f.page_size ≡ later =
        rw (page, page_size) (offset_lem k size small wide) in
      ap
        (λ (x : List Arg).
          let (r, s1) = db.orders q (args ++ x) s in (after_rows db f (pos total) r, s1))
        bound
      ∙ (ap
            (λ (x : Text).
              let (r, s1) = db.orders x (args ++ later) s in (after_rows db f (pos total) r, s1))
            (page_statement-page_sql conds (length args))
          ∙ ap (λ (x : Result Text (List OrderRow) × S). (after_rows db f (pos total) x.0, x.1))
              (server.selects f size (k * size) s)
          ∙ ap
              (λ (x : List Order). (
                after_rows db f (pos total)
                    (ok (map row_of (take size (drop (k * size) (sort_slice earlier x))))),
                s,
              ))
              (matched f later s))

  -- Over a server that stores the orders of an in-memory repository, and that answers the SQL of `count_sql`
  -- and `page_sql` as `OrderServer` says, the page `k + 1` that is listed from PostgreSQL is the page that the in-memory repository lists for the same filter, while its window
  -- can be computed in 64 bits and the amounts on it are amounts that can be printed and read.
  pub list_as_memory :
      (f : OrderFilter) (m : Store) (s : S) (k size : ℕ)
      → values m.orders ≡ stored s
      → f.page ≡ pos (suc k)
      → f.page_size ≡ pos size
      → 0 < size
      → k * size < two63
      → length (matching f m) + size < two63
      → suc k < two63
      → Every (λ (o : Order). IsAmount o.total_amount) (take size (drop (k * size) (matching f m)))
      → (page : Page Order) × (Repository.list f m ≡ some page) × (list db f s ≡ (ok page, s))
  unfolding Repository.list matching after_rows
  list_as_memory f m s k size same page page_size some_size small few wide amounts =
      let all = matching f m in
      let window = take size (drop (k * size) all) in
      let sorted : sort_slice earlier (keep (matches_order f) (stored s)) ≡ all =
        ap (λ (x : List Order). sort_slice earlier (keep (matches_order f) x)) (sym same) in
      let n = length (keep (matches_order f) (stored s)) in
      let total : n ≡ length all =
        sym (length-sort_slice earlier (keep (matches_order f) (stored s)))
        ∙ ap (λ (x : List Order). length x) sorted in
      let read : after_rows db f (pos n) (ok (map row_of window))
          ≡ ok (page_of db f (pos n) window) =
        rw (scan_all-rows window amounts, after_rows) refl in
      (
        page_of db f (pos (length all)) window,
        rw (page, page_size, total_window (length all) size some_size few)
            (cut_page_window all k size some_size small few wide),
        counted f s
            ∙ (windowed f k size n s page page_size small wide
                ∙ (ap
                      (λ (x : List Order). (
                        after_rows db f (pos n) (ok (map row_of (take size (drop (k * size) x)))),
                        s,
                      ))
                      sorted
                    ∙ (ap (λ (x : Result RepoError (Page Order)). (x, s)) read ∙ rw total refl))),
      )
