-- ===== src/Order/Handler.antt =====
-- internal/order/handler.go: the handlers of the order routes. `uuid.Parse` and the JSON decoding of a body
-- are arguments.
pub mod EndDate
use order_service_go_archite.Prelude.{Option, none, some, Text, text, Result, ok, err}
use order_service_go_archite.Errors.{AppError, unauthorized}
use order_service_go_archite.Pagination.{Page}
use order_service_go_archite.Order.Status.{parse_order_status}
use order_service_go_archite.Order.Model.{Uuid, CreateOrderInput, OrderOutput, OrderFilter}
use order_service_go_archite.Order.Ports.{Ports, World}
use order_service_go_archite.Order.Create
use order_service_go_archite.Order.Service
use order_service_go_archite.Http.{
  Request, Reply, refuse, reply, ◌>>=◌, read_param, read_int, path_id, decode_json,
}
use order_service_go_archite.Http.Dates.{parse_date}

module _ (parse_uuid : Text → Option Uuid) where
  -- `parseFilter`.
  unfoldable pub parse_filter : (Text → Text) → Result AppError OrderFilter
  unfolding read_param read_int parse_order_status parse_date
  parse_filter query = do
    customer_id ←
        read_param parse_uuid (text "customer_id must be a valid uuid") (query (text "customer_id"))
    status ←
        read_param parse_order_status (text "status must be a valid order status")
          (query (text "status"))
    start_date ←
        read_param parse_date (text "start_date must be YYYY-MM-DD") (query (text "start_date"))
    end_date ← read_param parse_date (text "end_date must be YYYY-MM-DD") (query (text "end_date"))
    page ← read_int (text "page must be an integer") (query (text "page"))
    page_size ← read_int (text "page_size must be an integer") (query (text "page_size"))
    ok (record {
      customer_id = customer_id;
      status = status;
      start_date = start_date;
      end_date = end_date;
      page = page;
      page_size = page_size;
    })

  abbrev pub order_id : Request → Result AppError Uuid
  order_id = path_id parse_uuid (text "invalid order id")

  module _ {S : Type 0} (p : Ports S) where
    unfoldable pub create_decoded :
        Uuid → Result AppError CreateOrderInput → World S → Reply OrderOutput × World S
    create_decoded created_by (err e) w = (refuse e, w)
    create_decoded created_by (ok input) w =
        let (out, w1) = Create.create p created_by input w in (reply 201 out, w1)

    unfoldable pub create_by :
        (Text → Option CreateOrderInput)
        → Option Uuid
        → Request
        → World S
        → Reply OrderOutput × World S
    unfolding create_decoded decode_json
    create_by read_input none r w = (refuse (unauthorized (text "Invalid authenticated user")), w)
    create_by read_input (some created_by) r w =
        create_decoded created_by (decode_json read_input r) w

    -- `Create`.
    unfoldable pub create :
        (Text → Option CreateOrderInput) → Request → World S → Reply OrderOutput × World S
    unfolding create_by
    create read_input r w = elim r.context.user_id [
      | none ↦ (refuse (unauthorized (text "Authentication required")), w)
      | some raw_id ↦ create_by read_input (parse_uuid raw_id) r w
    ]

    -- The three handlers of one order: the identifier of the path, then a call of the service.
    unfoldable pub on_order :
        (Uuid → World S → Result AppError OrderOutput × World S)
        → Result AppError Uuid
        → World S
        → Reply OrderOutput × World S
    on_order service (err e) w = (refuse e, w)
    on_order service (ok id) w = let (out, w1) = service id w in (reply 200 out, w1)

    unfoldable pub get : Request → World S → Reply OrderOutput × World S
    unfolding on_order path_id
    get r w = on_order (Service.find_by_id p) (order_id r) w

    unfoldable pub cancel : Request → World S → Reply OrderOutput × World S
    unfolding on_order path_id
    cancel r w = on_order (Service.cancel p) (order_id r) w

    unfoldable pub ship : Request → World S → Reply OrderOutput × World S
    unfolding on_order path_id
    ship r w = on_order (Service.ship p) (order_id r) w

    unfoldable pub list_filtered :
        Result AppError OrderFilter → World S → Reply (Page OrderOutput) × World S
    list_filtered (err e) w = (refuse e, w)
    list_filtered (ok filter) w = let (page, w1) = Service.list p filter w in (reply 200 page, w1)

    unfoldable pub list : Request → World S → Reply (Page OrderOutput) × World S
    unfolding list_filtered parse_filter
    list r w = list_filtered (parse_filter r.query) w
