-- ===== src/Pagination/Cover.antt =====
-- internal/pagination and the windows of the in-memory repositories: the pages read one after
-- the other, and a page number that is too large.
use native.Mathlib.Nat.{mod-eq_of_lt, div-le_self}
use order_service_go_archite.Prelude.{
  ok, ℕ, zero, suc, ◌+◌, ◌-◌, ◌*◌, ◌/◌, ◌≤◌, ◌<◌, ◌≡◌, refl, ap, ◌∙◌, Option, none, some, List, [],
  ◌++◌, length, take, pos, negsuc, wrap64, wrap64_id, two63, two64, arith,
}
use order_service_go_archite.Pagination.{bound_page, cut_page, start_index, slice}
use order_service_go_archite.Pagination.Pages.{cut_page_window, take-add, take_beyond, pos_parts}

suc-times : (k size : ℕ) → suc k * size ≡ k * size + size
suc-times k size = omega arith

-- Of an overflowing product, a negative number is kept.
wraps_below : (n : ℕ) → two63 ≤ n → n < two64 → wrap64 (pos n) ≡ negsuc (two64 - 1 - n)
unfolding wrap64
wraps_below n over under = rw (mod-eq_of_lt under) (ground arith)

module _ {A : Type 0} where
  -- The items of the pages 1 to `count`, in order; `none` when the repository panics on one.
  unfoldable pub read_pages : List A → ℕ → ℕ → Option (List A)
  read_pages xs size zero = some []
  read_pages xs size (suc k) = elim (read_pages xs size k) [
    | none ↦ none
    | some front ↦ elim (cut_page xs (pos (suc k)) (pos size)) [
      | none ↦ none
      | some page ↦ some (front ++ page.items)
    ]
  ]

  read_prefix :
      (xs : List A) (size : ℕ) (k : ℕ)
      → 0 < size
      → length xs + size < two63
      → k * size < length xs + size
      → k < two63
      → read_pages xs size k ≡ some (take (k * size) xs)
  unfolding read_pages
  read_prefix xs size zero some_size wide near few = let e : 0 * size ≡ 0 = omega arith in rw e refl
  read_prefix xs size (suc k) some_size wide near few =
      let e = suc-times k size in
      rw (read_prefix xs size k some_size wide (omega arith) (omega arith)) (
        rw
          (
            cut_page_window xs k size some_size (omega arith) wide few,
            e,
            take-add (k * size) size xs,
          )
          refl)

  -- The pages 1 to `total_pages`, put together, are the whole list, in its order.
  pub read_pages_all :
      (xs : List A) (size : ℕ)
      → 0 < size
      → length xs + size < two63
      → read_pages xs size ((length xs + size - 1) / size) ≡ some xs
  read_pages_all xs size some_size wide =
      read_prefix xs size q some_size wide (omega arith)
        (omega (arith, div-le_self (length xs + size - 1) size))
      ∙ ap (λ (ys : List A). some ys) (take_beyond (q * size) xs (omega arith))
    where
      q : ℕ
      q = (length xs + size - 1) / size

  -- For a page size that the services admit and a page so far out that its start,
  -- `(page - 1) * page_size`, leaves the 64 bits for the negative numbers, the bounds of the services
  -- let the page and its size pass as they are, and the repository then panics.
  pub cut_page_panics :
      (xs : List A) (k size : ℕ)
      → 0 < size
      → size ≤ 100
      → suc k < two63
      → two63 ≤ k * size
      → k * size < two64
      → (bound_page (pos (suc k)) (pos size) ≡ ok (pos (suc k), pos size))
        × (cut_page xs (pos (suc k)) (pos size) ≡ none)
  unfolding cut_page start_index slice bound_page
  cut_page_panics xs k size some_size few page over under =
      let (_, times, less) = pos_parts k size in
      let start : start_index (pos (suc k)) (pos size) (pos (length xs))
          ≡ negsuc (two64 - 1 - k * size) =
        rw
          (
            less,
            wrap64_id (pos k) (omega arith, omega arith),
            times,
            wraps_below (k * size) over under,
          )
          (ground arith) in
      (ground arith, rw (start, cut_page) refl)
