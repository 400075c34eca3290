-- ===== src/Tests/Dates.antt =====
-- internal/order/handler.go: the dates of a query.
use order_service_go_archite.Prelude.{
  ◌+◌, ◌*◌, ◌≡◌, refl, false, if◌then◌else◌, none, some, [], Text, text, text_eq, ok, pos, arith,
}
use order_service_go_archite.Order.Model.{OrderFilter}
use order_service_go_archite.Order.Repository.{matches_order}
use order_service_go_archite.Order.Handler.{parse_filter}
use order_service_go_archite.Order.Handler.EndDate.{end_date_excludes}
use order_service_go_archite.Http.{read_param, read_int, parse_int_param}
use order_service_go_archite.Http.Dates.{
  day, parse_date, date, is_date, days_in, days_before, days_until,
}
use order_service_go_archite.Tests.Orders.{stored_order}

-- What a date computes with.
dates : Unit {0}
unfolding parse_date date is_date days_in days_before days_until
dates = tt

-- The Unix epoch is day 719528 from the start of the year 0000.
epoch : parse_date (text "1970-01-01") ≡ some (719528 * day)
unfolding dates
epoch = refl

last_of_january : parse_date (text "2026-01-31") ≡ some (740012 * day)
unfolding dates
last_of_january = refl

leap_day : parse_date (text "2024-02-29") ≡ some (739310 * day)
unfolding dates
leap_day = refl

no_leap_day : parse_date (text "2026-02-29") ≡ none
unfolding dates
no_leap_day = refl

abbrev january : Text → Text
january key = if text_eq key (text "end_date") then text "2026-01-31" else []

abbrev january_filter : OrderFilter
january_filter = record {
  customer_id = none;
  status = none;
  start_date = none;
  end_date = some (740012 * day);
  page = pos 0;
  page_size = pos 0;
}

january_read : parse_filter (λ t. none) january ≡ ok january_filter
unfolding dates parse_filter read_param read_int parse_int_param
january_read = refl

-- An order of noon on the last of January.
end_date_excludes_example :
    matches_order january_filter
      (record stored_order { created_at = 740012 * day + 43200000000000 })
    ≡ false
end_date_excludes_example =
    end_date_excludes (λ t. none) january
      (record stored_order { created_at = 740012 * day + 43200000000000 }) january_read
      last_of_january (omega arith)
