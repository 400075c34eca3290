-- ===== src/Product/Handler.antt =====
-- internal/product/handler.go: the handlers of the product routes. `uuid.Parse` and the JSON decoding of a body
-- are arguments, and so are the identifier and the time that a request takes.
use order_service_go_archite.Prelude.{Option, Text, text, Result, ok, err}
use order_service_go_archite.Errors.{AppError}
use order_service_go_archite.Pagination.{Page}
use order_service_go_archite.Order.Model.{Uuid, Time}
use order_service_go_archite.Product.{ProductInput, ProductOutput, ProductFilter, ProductRepository}
use order_service_go_archite.Product.Service
use order_service_go_archite.Http.{
  Request, Reply, refuse, reply, ◌>>=◌, read_param, parse_bool, read_int, path_id, decode_json,
}

-- `parseFilter`.
unfoldable pub parse_filter : (Text → Text) → Result AppError ProductFilter
unfolding read_param read_int parse_bool
parse_filter query = do
  active ← read_param parse_bool (text "active must be a boolean") (query (text "active"))
  page ← read_int (text "page must be an integer") (query (text "page"))
  page_size ← read_int (text "page_size must be an integer") (query (text "page_size"))
  ok (record {
    name = query (text "name");
    sku = query (text "sku");
    active = active;
    page = page;
    page_size = page_size;
  })

module _ {S : Type 0} (repo : ProductRepository S) (parse_uuid : Text → Option Uuid) where
  abbrev pub product_id : Request → Result AppError Uuid
  product_id = path_id parse_uuid (text "invalid product id")

  unfoldable pub create_decoded :
      Uuid → Time → Result AppError ProductInput → S → Reply ProductOutput × S
  create_decoded id now (err e) s = (refuse e, s)
  create_decoded id now (ok input) s =
      let (out, s1) = Service.create repo id now input s in (reply 201 out, s1)

  -- `Create`.
  unfoldable pub create :
      (Text → Option ProductInput) → Uuid → Time → Request → S → Reply ProductOutput × S
  unfolding create_decoded decode_json
  create read_input id now r s = create_decoded id now (decode_json read_input r) s

  unfoldable pub update_decoded :
      Time → Uuid → Result AppError ProductInput → S → Reply ProductOutput × S
  update_decoded now id (err e) s = (refuse e, s)
  update_decoded now id (ok input) s =
      let (out, s1) = Service.update repo id now input s in (reply 200 out, s1)

  unfoldable pub update_named :
      (Text → Option ProductInput)
      → Time
      → Result AppError Uuid
      → Request
      → S
      → Reply ProductOutput × S
  unfolding update_decoded decode_json
  update_named read_input now (err e) r s = (refuse e, s)
  update_named read_input now (ok id) r s = update_decoded now id (decode_json read_input r) s

  -- `Update`.
  unfoldable pub update :
      (Text → Option ProductInput) → Time → Request → S → Reply ProductOutput × S
  unfolding update_named path_id
  update read_input now r s = update_named read_input now (product_id r) r s

  unfoldable pub deactivate_named : Result AppError Uuid → S → Reply (Unit {0}) × S
  deactivate_named (err e) s = (refuse e, s)
  deactivate_named (ok id) s = let (out, s1) = Service.deactivate repo id s in (reply 204 out, s1)

  -- `Deactivate`.
  unfoldable pub deactivate : Request → S → Reply (Unit {0}) × S
  unfolding deactivate_named path_id
  deactivate r s = deactivate_named (product_id r) s

  unfoldable pub get_named : Result AppError Uuid → S → Reply ProductOutput × S
  get_named (err e) s = (refuse e, s)
  get_named (ok id) s = let (out, s1) = Service.find_by_id repo id s in (reply 200 out, s1)

  -- `Get`.
  unfoldable pub get : Request → S → Reply ProductOutput × S
  unfolding get_named path_id
  get r s = get_named (product_id r) s

  unfoldable pub list_filtered : Result AppError ProductFilter → S → Reply (Page ProductOutput) × S
  list_filtered (err e) s = (refuse e, s)
  list_filtered (ok filter) s = let (page, s1) = Service.list repo filter s in (reply 200 page, s1)

  -- `List`.
  unfoldable pub list : Request → S → Reply (Page ProductOutput) × S
  unfolding list_filtered parse_filter
  list r s = list_filtered (parse_filter r.query) s
