-- ===== src/Order/Postgres/Statements.antt =====
-- internal/order/postgres_repository.go, `List`: the text of its two statements.
use mathlib.Core.List.{append-nil}
use order_service_go_archite.Prelude.{
  ℕ, ◌+◌, ◌≡◌, refl, sym, ap, List, [], ◌∷◌, ◌++◌, Text, text, show_nat,
}
use order_service_go_archite.Order.Postgres.{select_orders}
use order_service_go_archite.Postgres.{join_and, where_clause, page_clause}

-- The two statements that the server is relied on for, as SQL: what the conditions add to a statement, a
-- count, and a page in the order of the times of creation and then of the identifiers, whose limit and
-- offset are the two values bound last.
abbrev pub and_each : List Text → Text
and_each [] = []
and_each (c ∷ cs) = text " AND " ++ (c ++ and_each cs)

abbrev pub filtered : List Text → Text
filtered [] = []
filtered (c ∷ cs) = text " WHERE " ++ (c ++ and_each cs)

abbrev pub count_sql : List Text → Text
count_sql conds = text "SELECT count(*) FROM orders" ++ filtered conds

abbrev pub page_sql : List Text → ℕ → Text
page_sql conds bound =
    text
      "SELECT id, customer_id, status, total_amount::text, created_by, created_at, updated_at, processed_at\n\t\tFROM orders"
    ++ (filtered conds
        ++ (text " ORDER BY created_at, id LIMIT $"
            ++ (show_nat (bound + 1) ++ (text " OFFSET $" ++ show_nat (bound + 2)))))

join_and-and_each : (c : Text) (cs : List Text) → join_and c cs ≡ c ++ and_each cs
unfolding join_and
join_and-and_each c [] = sym (append-nil c)
join_and-and_each c (d ∷ ds) = ap (λ (x : Text). c ++ (text " AND " ++ x)) (join_and-and_each d ds)

pub where_clause-filtered : (conds : List Text) → where_clause conds ≡ filtered conds
unfolding where_clause
where_clause-filtered [] = refl
where_clause-filtered (c ∷ cs) = ap (λ (x : Text). text " WHERE " ++ x) (join_and-and_each c cs)

pub page_statement-page_sql :
    (conds : List Text) (n : ℕ)
    → select_orders ++ (where_clause conds ++ page_clause n) ≡ page_sql conds n
unfolding page_clause
page_statement-page_sql conds n =
    ap (λ (x : Text). select_orders ++ (x ++ page_clause n)) (where_clause-filtered conds)
