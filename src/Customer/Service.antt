-- ===== src/Customer/Service.antt =====
-- internal/customer/service.go: the customer service over its repository's port. A new identifier
-- and the reading of the clock are arguments of the operations that take them.
use order_service_go_archite.Prelude.{
  ◌==◌, if◌then◌else◌, Text, text, text_eq, is_blank, trim_space, Result, ok, err, Action, true,
  not,
}
use order_service_go_archite.Errors.{AppError, validation, internal, duplicate, not_found}
use order_service_go_archite.Pagination.{Page, bound_page, map_page}
use order_service_go_archite.Catalog.{StoreError, missing, failure}
use order_service_go_archite.Order.Model.{Uuid, nil_uuid, Time}
use order_service_go_archite.Customer.{
  Customer, CustomerInput, CustomerOutput, CustomerFilter, CustomerRepository, to_output,
}

abbrev store_error_text : StoreError → Text
store_error_text missing = text "customer not found"
store_error_text (failure m) = m

-- `mapRepoErr`.
unfoldable pub map_repo_err : StoreError → AppError
map_repo_err missing = not_found (text "customer not found")
map_repo_err (failure m) = internal (text "repository error") m

-- What `ensureDocumentUnique` makes of the answer to `FindByDocument`.
unfoldable pub check_unique : Uuid → Result StoreError Customer → Result AppError (Unit {0})
check_unique exclude_id (err missing) = ok tt
check_unique exclude_id (err (failure m)) =
    err (internal (text "could not verify document uniqueness") m)
check_unique exclude_id (ok existing) =
    if not (existing.id == exclude_id)
    then err (duplicate (text "a customer with this document already exists"))
    else ok tt

-- The record that `Create` stores.
abbrev pub new_customer : Uuid → Time → CustomerInput → Customer
new_customer id now input = record {
  id = id;
  name = trim_space input.name;
  document = trim_space input.document;
  email = trim_space input.email;
  phone = trim_space input.phone;
  active = true;
  created_at = now;
  updated_at = now;
}

unfoldable pub after_create :
    Customer → Result StoreError (Unit {0}) → Result AppError CustomerOutput
after_create c (err e) = err (internal (text "could not create customer") (store_error_text e))
after_create c (ok _) = ok (to_output c)

-- The record that `Update` stores.
abbrev pub changed : Time → CustomerInput → Customer → Customer
changed now input existing = record existing {
  name = trim_space input.name;
  document = trim_space input.document;
  email = trim_space input.email;
  phone = trim_space input.phone;
  updated_at = now;
}

unfoldable pub after_write :
    Customer → Result StoreError (Unit {0}) → Result AppError CustomerOutput
after_write c (err e) = err (map_repo_err e)
after_write c (ok _) = ok (to_output c)

abbrev pub answer_done : Result StoreError (Unit {0}) → Result AppError (Unit {0})
answer_done (err e) = err (map_repo_err e)
answer_done (ok _) = ok tt

abbrev pub answer_one : Result StoreError Customer → Result AppError CustomerOutput
answer_one (err e) = err (map_repo_err e)
answer_one (ok c) = ok (to_output c)

abbrev pub answer_page : Result StoreError (Page Customer) → Result AppError (Page CustomerOutput)
answer_page (err e) = err (internal (text "could not list customers") (store_error_text e))
answer_page (ok page) = ok (map_page to_output page)

module _ {S : Type 0} (repo : CustomerRepository S) where
  -- `ensureDocumentUnique`.
  unfoldable pub ensure_document_unique : Text → Uuid → Action S AppError (Unit {0})
  unfolding check_unique
  ensure_document_unique document exclude_id s =
      let (r, s1) = repo.find_by_document document s in (check_unique exclude_id r, s1)

  unfoldable pub store_new :
      Customer → Result AppError (Unit {0}) → Action S AppError CustomerOutput
  unfolding after_create
  store_new c (err e) s = (err e, s)
  store_new c (ok _) s = let (r, s1) = repo.create c s in (after_create c r, s1)

  unfoldable pub create : Uuid → Time → CustomerInput → Action S AppError CustomerOutput
  unfolding ensure_document_unique store_new
  create id now input s =
      let c = new_customer id now input in
      if is_blank c.name
      then (err (validation (text "customer name is required")), s)
      else (if is_blank c.document
          then (err (validation (text "customer document is required")), s)
          else (let (r, s1) = ensure_document_unique c.document nil_uuid s in store_new c r s1))

  unfoldable pub store_changed :
      Customer → Result AppError (Unit {0}) → Action S AppError CustomerOutput
  unfolding after_write
  store_changed c (err e) s = (err e, s)
  store_changed c (ok _) s = let (r, s1) = repo.update c s in (after_write c r, s1)

  unfoldable pub update_found :
      Uuid → Time → CustomerInput → Result StoreError Customer → Action S AppError CustomerOutput
  unfolding ensure_document_unique store_changed
  update_found id now input (err e) s = (err (map_repo_err e), s)
  update_found id now input (ok existing) s =
      let c = changed now input existing in
      if is_blank c.name
      then (err (validation (text "customer name is required")), s)
      else (if is_blank c.document
          then (err (validation (text "customer document is required")), s)
          else (if not (text_eq c.document existing.document)
              then (let (r, s1) = ensure_document_unique c.document id s in store_changed c r s1)
              else store_changed c (ok tt) s))

  unfoldable pub update : Uuid → Time → CustomerInput → Action S AppError CustomerOutput
  unfolding update_found
  update id now input s = let (r, s1) = repo.find_by_id id s in update_found id now input r s1

  unfoldable pub deactivate : Uuid → Action S AppError (Unit {0})
  deactivate id s = let (r, s1) = repo.deactivate id s in (answer_done r, s1)

  unfoldable pub find_by_id : Uuid → Action S AppError CustomerOutput
  find_by_id id s = let (r, s1) = repo.find_by_id id s in (answer_one r, s1)

  unfoldable pub list : CustomerFilter → Action S AppError (Page CustomerOutput)
  list filter s = elim (bound_page filter.page filter.page_size) [
    | err e ↦ (err e, s)
    | ok (page, page_size) ↦
        let (r, s1) = repo.list (record filter { page = page; page_size = page_size }) s in
        (answer_page r, s1)
  ]
