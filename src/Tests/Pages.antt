-- ===== src/Tests/Pages.antt =====
-- internal/pagination: pages of a short list.
use order_service_go_archite.Prelude.{
  ok, ℕ, ◌+◌, ◌-◌, ◌*◌, ◌/◌, ◌≡◌, none, some, List, [], ◌∷◌, length, take, drop, pos, arith,
}
use order_service_go_archite.Pagination.{bound_page, cut_page}
use order_service_go_archite.Pagination.Pages.{cut_page_window}
use order_service_go_archite.Pagination.Cover.{read_pages, read_pages_all, cut_page_panics}

abbrev five : List ℕ
five = 10 ∷ 20 ∷ 30 ∷ 40 ∷ 50 ∷ []

cut_page_window_example :
    cut_page five (pos 3) (pos 2)
    ≡ some (record {
      items = take 2 (drop (2 * 2) five);
      page = pos 3;
      page_size = pos 2;
      total = pos (length five);
      total_pages = pos ((length five + 2 - 1) / 2);
    })
cut_page_window_example =
    cut_page_window five 2 2 (omega arith) (omega arith) (omega arith) (omega arith)

read_pages_all_example : read_pages five 2 ((length five + 2 - 1) / 2) ≡ some five
read_pages_all_example = read_pages_all five 2 (omega arith) (omega arith)

cut_page_panics_example :
    (bound_page (pos 92233720368547760) (pos 100) ≡ ok (pos 92233720368547760, pos 100))
    × (cut_page five (pos 92233720368547760) (pos 100) ≡ none)
cut_page_panics_example =
    cut_page_panics five 92233720368547759 100 (omega arith) (omega arith) (omega arith)
      (omega arith) (omega arith)
