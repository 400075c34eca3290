-- ===== src/Order/Handler/EndDate.antt =====
-- internal/order/handler.go, `parseFilter`: what the end date of a list means.
use order_service_go_archite.Prelude.{
  ◌<◌, ◌≡◌, refl, Bool, true, false, Option, none, some, [], ◌∷◌, Text, text, Result, ok, err, ltb,
  ◌&&◌, ap, ℤ, arith,
}
use order_service_go_archite.Errors.{AppError}
use order_service_go_archite.Order.Status.{OrderStatus, parse_order_status}
use order_service_go_archite.Order.Model.{Uuid, Time, Order, OrderFilter}
use order_service_go_archite.Order.Repository.{matches_order}
use order_service_go_archite.Order.Handler.{parse_filter}
use order_service_go_archite.Http.{◌>>=◌, read_param, read_int}
use order_service_go_archite.Http.Dates.{parse_date}

-- A filter is put together from six reads; its end date is what the fourth has read.
fourth_read :
    (r1 : Result AppError (Option Uuid)) (r2 : Result AppError (Option OrderStatus))
    (r3 r4 : Result AppError (Option Time)) (r5 r6 : Result AppError ℤ) {f : OrderFilter}
    → ◌≡◌ {A = Result AppError OrderFilter}
        (do
          customer_id ← r1
          status ← r2
          start_date ← r3
          end_date ← r4
          page ← r5
          page_size ← r6
          ok (record {
            customer_id = customer_id;
            status = status;
            start_date = start_date;
            end_date = end_date;
            page = page;
            page_size = page_size;
          }))
        (ok f)
    → r4 ≡ ok f.end_date
fourth_read (ok c) (ok st) (ok from) (ok until) (ok page) (ok size) e =
    ap (λ (x : Option Time). ok x) (ends e)
  where
    ends :
        {f g : OrderFilter}
        → ◌≡◌ {A = Result AppError OrderFilter} (ok f) (ok g)
        → f.end_date ≡ g.end_date
    ends e = cc (e)
fourth_read (err _) r2 r3 r4 r5 r6 e = absurd (cc)
fourth_read (ok _) (err _) r3 r4 r5 r6 e = absurd (cc)
fourth_read (ok _) (ok _) (err _) r4 r5 r6 e = absurd (cc)
fourth_read (ok _) (ok _) (ok _) (err _) r5 r6 e = absurd (cc)
fourth_read (ok _) (ok _) (ok _) (ok _) (err _) r6 e = absurd (cc)
fourth_read (ok _) (ok _) (ok _) (ok _) (ok _) (err _) e = absurd (cc)

read_param-some :
    {A : Type 0} (parse : Text → Option A) (message raw : Text) {a : A} {o : Option A}
    → parse [] ≡ none
    → parse raw ≡ some a
    → read_param parse message raw ≡ ok o
    → o ≡ some a
unfolding read_param
read_param-some parse message [] no_date e h = absurd (cc (no_date, e))
read_param-some parse message (c ∷ s) no_date e h = let h' = rw (e, read_param) at h in cc (h')

late_fails :
    (f : OrderFilter) (o : Order) (t : Time)
    → f.end_date ≡ some t
    → t < o.created_at
    → matches_order f o ≡ false
unfolding matches_order
late_fails f o t e later =
    let before : ltb t o.created_at ≡ true = ground arith in rw (e, before) (and_false _)
  where
    and_false : (b : Bool) → (b && false) ≡ false
    and_false true = refl
    and_false false = refl

-- An accepted query with an end date asks for the orders created up to the start of that day only: an order
-- of any later instant, of that day too, is not listed.
pub end_date_excludes :
    (parse_uuid : Text → Option Uuid) (query : Text → Text) (o : Order) {f : OrderFilter} {t : Time}
    → parse_filter parse_uuid query ≡ ok f
    → parse_date (query (text "end_date")) ≡ some t
    → t < o.created_at
    → matches_order f o ≡ false
unfolding parse_filter parse_date
end_date_excludes parse_uuid query o {f} {t} accepted date later =
    let read =
      fourth_read
        (read_param parse_uuid (text "customer_id must be a valid uuid")
          (query (text "customer_id")))
        (read_param parse_order_status (text "status must be a valid order status")
          (query (text "status")))
        (read_param parse_date (text "start_date must be YYYY-MM-DD") (query (text "start_date")))
        (read_param parse_date (text "end_date must be YYYY-MM-DD") (query (text "end_date")))
        (read_int (text "page must be an integer") (query (text "page")))
        (read_int (text "page_size must be an integer") (query (text "page_size"))) accepted in
    late_fails f o t (read_param-some parse_date _ (query (text "end_date")) refl date read) later
