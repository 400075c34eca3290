-- ===== src/Order/Repository.antt =====
-- internal/order/repository.go: the in-memory repository. The mutex makes each operation one step.
-- The test hook `OnCreate` is not modelled.
pub mod Laws
pub mod Listing
use order_service_go_archite.Prelude.{
  ℕ, ◌+◌, ◌==◌, ltb, if◌then◌else◌, Bool, true, false, not, ◌&&◌, Option, none, some, List, [], ◌∷◌,
  lookup, insert, map, Text, text, Result, ok, err, Action, sort_slice, keep,
}
use order_service_go_archite.Pagination.{Page, cut_page}
use order_service_go_archite.Order.Status.{OrderStatus, status_eq}
use order_service_go_archite.Order.Model.{Uuid, Time, Order, OrderItem, OrderFilter}
use order_service_go_archite.Order.Ports.{RepoError, order_not_found, failure, Stored}

pub record Store : Type 0 where
  pub orders : List (Uuid × Order)
  pub items : List (Uuid × List OrderItem)
  pub commit_count : ℕ

abbrev pub empty : Store
empty = record { orders = []; items = []; commit_count = 0 }

unfoldable pub items_match : Uuid → List OrderItem → Bool
items_match id [] = true
items_match id (i ∷ is) = i.order_id == id && items_match id is

abbrev pub is_empty : List OrderItem → Bool
is_empty [] = true
is_empty (_ ∷ _) = false

unfoldable pub create_with_items : Order → List OrderItem → Action Store RepoError (Unit {0})
unfolding items_match
create_with_items o items s =
    if is_empty items
    then (err (failure (text "order must have items")), s)
    else (if not (items_match o.id items)
        then (err (failure (text "item order_id mismatch")), s)
        else (
          ok tt,
          record {
            orders = insert o.id o s.orders;
            items = insert o.id items s.items;
            commit_count = s.commit_count + 1;
          },
        ))

-- A missing entry of a Go map reads as the empty slice.
abbrev pub items_or_none : Option (List OrderItem) → List OrderItem
items_or_none none = []
items_or_none (some items) = items

unfoldable pub find_by_id : Uuid → Store → Result RepoError Stored
find_by_id id s = elim (lookup id s.orders) [
  | none ↦ err order_not_found
  | some o ↦ ok (o, items_or_none (lookup id s.items))
]

-- `now` is the reading of `time.Now`.
unfoldable pub update_status : Time → Uuid → OrderStatus → Action Store RepoError (Unit {0})
update_status now id st s = elim (lookup id s.orders) [
  | none ↦ (err order_not_found, s)
  | some o ↦
      let o' : Order = record o { status = st; updated_at = now } in
      (ok tt, record s { orders = insert id o' s.orders })
]

unfoldable pub mark_processed : Uuid → OrderStatus → Time → Action Store RepoError (Unit {0})
mark_processed id st t s = elim (lookup id s.orders) [
  | none ↦ (err order_not_found, s)
  | some o ↦
      let o' : Order = record o { status = st; processed_at = some t; updated_at = t } in
      (ok tt, record s { orders = insert id o' s.orders })
]

-- A filter that is set and that the value fails.
abbrev pub fails {ℓ} : {A : Type ℓ} → (A → Bool) → Option A → Bool
fails test none = false
fails test (some a) = not (test a)

unfoldable pub matches_order : OrderFilter → Order → Bool
matches_order f o =
    not (fails (λ c. o.customer_id == c) f.customer_id)
    && not (fails (λ st. status_eq o.status st) f.status)
    && not (fails (λ t. not (ltb o.created_at t)) f.start_date)
    && not (fails (λ t. not (ltb t o.created_at)) f.end_date)

abbrev pub earlier : Order → Order → Bool
earlier a b = if a.created_at == b.created_at then ltb a.id b.id else ltb a.created_at b.created_at

abbrev pub values {ℓ} : {V : Type ℓ} → List (Uuid × V) → List V
values [] = []
values ((_, v) ∷ m) = v ∷ values m

unfoldable pub matching : OrderFilter → Store → List Order
unfolding matches_order
matching f s = sort_slice earlier (keep (matches_order f) (values s.orders))

-- `none` is a panic: the window of the page is no part of the matches.
unfoldable pub list : OrderFilter → Store → Option (Page Order)
unfolding matching
list f s = cut_page (matching f s) f.page f.page_size
