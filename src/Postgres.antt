-- ===== src/Postgres.antt =====
-- internal/customer, internal/product and internal/order, postgres_repository.go: what their lists share. A
-- condition of a WHERE clause is a text with a numbered placeholder, and its value is bound apart.
pub mod Placeholders
use order_service_go_archite.Prelude.{
  ℕ, zero, suc, ◌+◌, Bool, true, false, ◌&&◌, Option, none, some, List, [], ◌∷◌, ◌++◌, length, ℤ,
  pos, ◌-ℤ◌, ◌*ℤ◌, wrap64, Text, text, show_nat,
}
use order_service_go_archite.Order.Model.{Uuid, Time}

-- A value bound to a placeholder.
pub data Arg : Type 0 where
  uuid_arg : Uuid → Arg
  text_arg : Text → Arg
  bool_arg : Bool → Arg
  uuids_arg : List Uuid → Arg
  int_arg : ℤ → Arg
  time_arg : Time → Arg

-- The conditions and the bound values, in the order in which they are appended.
abbrev pub Bound : Type 0
Bound = List Text × List Arg

-- `args = append(args, a)`, then `conds = append(conds, fmt.Sprintf(left+"$%d", len(args)))`.
unfoldable pub bind : Text → Arg → Bound → Bound
bind left a (conds, args) =
    (conds ++ (left ++ show_nat (length (args ++ a ∷ []))) ∷ [], args ++ a ∷ [])

-- Only a field that is set is bound.
unfoldable pub bind_some : {A : Type 0} → Text → (A → Arg) → Option A → Bound → Bound
unfolding bind
bind_some left arg none b = b
bind_some left arg (some a) b = bind left (arg a) b

-- A part of a text that is set is bound as a pattern between percent signs.
unfoldable pub bind_part : Text → Text → Bound → Bound
unfolding bind
bind_part left [] b = b
bind_part left (c ∷ s) b = bind left (text_arg (b'%' ∷ ((c ∷ s) ++ b'%' ∷ []))) b

-- `strings.Join(conds, " AND ")`.
unfoldable pub join_and : Text → List Text → Text
join_and c [] = c
join_and c (d ∷ ds) = c ++ (text " AND " ++ join_and d ds)

unfoldable pub where_clause : List Text → Text
unfolding join_and
where_clause [] = []
where_clause (c ∷ cs) = text " WHERE " ++ join_and c cs

-- What follows the conditions of a page: the placeholders of its limit and its offset.
unfoldable pub page_clause : ℕ → Text
page_clause n =
    text " ORDER BY created_at, id LIMIT $"
    ++ (show_nat (n + 1) ++ (text " OFFSET $" ++ show_nat (n + 2)))

abbrev pub page_args : ℤ → ℤ → List Arg
page_args page size = int_arg size ∷ int_arg (wrap64 (wrap64 (page -ℤ pos 1) *ℤ size)) ∷ []
