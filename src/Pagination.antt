-- ===== src/Pagination.antt =====
-- internal/pagination, the list bounds that the three services share and the windows that the
-- in-memory repositories cut (internal/{order,customer,product}/repository.go).
pub mod Pages
pub mod Cover
use order_service_go_archite.Prelude.{
  ℕ, zero, suc, ◌+◌, ◌-◌, ◌≡◌, Bool, true, false, ◌&&◌, if◌then◌else◌, Option, none, some, List, [],
  ◌∷◌, map, length, take, drop, ℤ, pos, ◌+ℤ◌, ◌-ℤ◌, ◌*ℤ◌, ltb_ℤ, eq_ℤ, wrap64, quot_ℤ, Text, text,
  Result, ok, err,
}
use order_service_go_archite.Errors.{AppError, validation}

-- The envelope of a page; its numbers are Go `int`s.
pub record Page (A : Type 0) : Type 0 where
  pub items : List A
  pub page : ℤ
  pub page_size : ℤ
  pub total : ℤ
  pub total_pages : ℤ

abbrev pub default_page_size : ℤ
default_page_size = pos 20

abbrev pub max_page_size : ℤ
max_page_size = pos 100

-- The defaults for absent values, then the bounds; the result is the page and its size.
unfoldable pub bound_page : ℤ → ℤ → Result AppError (ℤ × ℤ)
bound_page page0 size0 =
    let page = if eq_ℤ page0 (pos 0) then pos 1 else page0 in
    let size = if eq_ℤ size0 (pos 0) then default_page_size else size0 in
    if ltb_ℤ page (pos 1)
    then err (validation (text "page must be greater than zero"))
    else (if ltb_ℤ size (pos 1)
        then err (validation (text "page_size must be greater than zero"))
        else (if ltb_ℤ max_page_size size
            then err (validation (text "page_size exceeds the maximum of 100"))
            else ok (page, size)))

-- `matched[start:end]`; `none` is a panic.
unfoldable pub slice {ℓ} : {A : Type ℓ} → List A → ℤ → ℤ → Option (List A)
slice xs (pos s) (pos e) =
    if ltb_ℤ (pos e) (pos s)
    then none
    else (if ltb_ℤ (pos (length xs)) (pos e) then none else some (take (e - s) (drop s xs)))
slice xs _ _ = none

abbrev pub clamp_to : ℤ → ℤ → ℤ
clamp_to total x = if ltb_ℤ total x then total else x

unfoldable pub start_index : ℤ → ℤ → ℤ → ℤ
start_index page size total = clamp_to total (wrap64 (wrap64 (page -ℤ pos 1) *ℤ size))

unfoldable pub end_index : ℤ → ℤ → ℤ → ℤ
end_index start size total = clamp_to total (wrap64 (start +ℤ size))

-- Division by a size of zero panics in Go; the services admit no such size.
unfoldable pub total_pages : ℤ → ℤ → ℤ
total_pages total (pos s) =
    if ltb_ℤ (pos 0) (pos s) then quot_ℤ (wrap64 (wrap64 (total +ℤ pos s) -ℤ pos 1)) s else pos 0
total_pages total _ = pos 0

-- The page that a repository cuts from the sorted matches; `none` is a panic of the slice.
unfoldable pub cut_page : {A : Type 0} → List A → ℤ → ℤ → Option (Page A)
unfolding slice
cut_page matched page size =
    let total = pos (length matched) in
    let start = start_index page size total in
    elim (slice matched start (end_index start size total)) [
      | none ↦ none
      | some items ↦ some (record {
        items = items;
        page = page;
        page_size = size;
        total = total;
        total_pages = total_pages total size;
      })
    ]

-- The same envelope around converted items.
abbrev pub map_page : {A B : Type 0} → (A → B) → Page A → Page B
map_page f p = record {
  items = map f p.items;
  page = p.page;
  page_size = p.page_size;
  total = p.total;
  total_pages = p.total_pages;
}
