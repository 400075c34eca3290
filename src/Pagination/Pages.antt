-- ===== src/Pagination/Pages.antt =====
-- internal/pagination and the windows of the in-memory repositories: what a page holds.
use order_service_go_archite.Prelude.{
  ℕ, zero, suc, ◌+◌, ◌-◌, ◌*◌, ◌/◌, ◌≤◌, ◌<◌, ◌≡◌, refl, sym, ap, ◌∙◌, true, leb, min, Bool-cases,
  inl, inr, some, List, [], ◌∷◌, ◌++◌, length, length-drop, take, drop, pos, ◌+ℤ◌, ◌-ℤ◌, ◌*ℤ◌,
  ltb_ℤ, wrap64, wrap64_id, two63, quot_ℤ, arith,
}
use order_service_go_archite.Pagination.{slice, start_index, end_index, total_pages, cut_page}

module _ {A : Type 0} where
  drop_beyond : (n : ℕ) (xs : List A) → length xs ≤ n → drop n xs ≡ []
  drop_beyond zero [] h = refl
  drop_beyond zero (x ∷ xs) h = absurd (omega arith)
  drop_beyond (suc n) [] h = refl
  drop_beyond (suc n) (x ∷ xs) h = drop_beyond n xs (omega arith)

  pub take_beyond : (n : ℕ) (xs : List A) → length xs ≤ n → take n xs ≡ xs
  take_beyond zero [] h = refl
  take_beyond zero (x ∷ xs) h = absurd (omega arith)
  take_beyond (suc n) [] h = refl
  take_beyond (suc n) (x ∷ xs) h = rw (take_beyond n xs (omega arith)) refl

  take-nil : (n : ℕ) → take {A = A} n [] ≡ []
  take-nil zero = refl
  take-nil (suc n) = refl

  -- One more window.
  pub take-add : (m n : ℕ) (xs : List A) → take (m + n) xs ≡ take m xs ++ take n (drop m xs)
  take-add zero n xs = let e : 0 + n ≡ n = omega arith in ap (λ k. take k xs) e
  take-add (suc m) n [] = take-nil (suc m + n) ∙ sym (take-nil n)
  take-add (suc m) n (x ∷ xs) =
      let e : suc m + n ≡ suc (m + n) = omega arith in rw e (rw (take-add m n xs) refl)

  -- The window that is cut from `s` to `e`, both clamped to the length.
  clamped :
      (xs : List A) (from size : ℕ)
      → let s = min from (length xs) in
        take (min (s + size) (length xs) - s) (drop s xs) ≡ take size (drop from xs)
  clamped xs from size = elim (Bool-cases (leb from (length xs))) [
    | inl inside ↦
        let e : min from (length xs) ≡ from = ground arith in
        rw e (window (drop from xs) (length-drop from xs) (ground arith))
    | inr beyond ↦
        let e : min from (length xs) ≡ length xs = ground arith in
        rw e (
          rw (drop_beyond (length xs) xs (omega arith))
            (take-nil _ ∙ sym (rw (drop_beyond from xs (ground arith)) (take-nil size))))
  ]
    where
      window :
          (ys : List A)
          → length ys ≡ length xs - from
          → from ≤ length xs
          → take (min (from + size) (length xs) - from) ys ≡ take size ys
      window ys e h = elim (Bool-cases (leb (from + size) (length xs))) [
        | inl fits ↦
            let same : min (from + size) (length xs) - from ≡ size = ground arith in rw same refl
        | inr over ↦
            let same : min (from + size) (length xs) - from ≡ length ys = ground arith in
            rw same
              (take_beyond (length ys) ys (omega arith) ∙ sym (take_beyond size ys (ground arith)))
      ]

pub pos_parts :
    (a b : ℕ)
    → (pos a +ℤ pos b ≡ pos (a + b))
      × (pos a *ℤ pos b ≡ pos (a * b))
      × (pos (suc a) -ℤ pos 1 ≡ pos a)
unfolding ◌+ℤ◌ ◌*ℤ◌ ◌-ℤ◌
pos_parts a b = (ground arith, ground arith, ground arith)

start_window :
    (k size n : ℕ)
    → k * size < two63
    → suc k < two63
    → start_index (pos (suc k)) (pos size) (pos n) ≡ pos (min (k * size) n)
unfolding start_index
start_window k size n small page =
    let (_, times, less) = pos_parts k size in
    rw
      (
        less,
        wrap64_id (pos k) (omega arith, omega arith),
        times,
        wrap64_id (pos (k * size)) (omega arith, omega arith),
      )
      (ground arith)

end_window :
    (s size n : ℕ)
    → s + size < two63
    → end_index (pos s) (pos size) (pos n) ≡ pos (min (s + size) n)
unfolding end_index
end_window s size n small =
    rw ((pos_parts s size).0, wrap64_id (pos (s + size)) (omega arith, omega arith)) (ground arith)

pub total_window :
    (n size : ℕ)
    → 0 < size
    → n + size < two63
    → total_pages (pos n) (pos size) ≡ pos ((n + size - 1) / size)
unfolding total_pages
total_window n size some_size wide =
    let (plus, _, _) = pos_parts n size in
    let (_, _, less) = pos_parts (n + size - 1) 0 in
    let e : n + size ≡ suc (n + size - 1) = omega arith in
    let positive : ltb_ℤ (pos 0) (pos size) ≡ true = ground arith in
    rw (positive, plus, wrap64_id (pos (n + size)) (omega arith, omega arith))
      (ap (λ x. quot_ℤ (wrap64 x) size) (ap (λ x. pos x -ℤ pos 1) e ∙ less)
        ∙ ap (λ x. quot_ℤ x size) (wrap64_id (pos (n + size - 1)) (omega arith, omega arith)))

slice_window :
    {A : Type 0} (xs : List A) (s e : ℕ)
    → s ≤ e
    → e ≤ length xs
    → slice xs (pos s) (pos e) ≡ some (take (e - s) (drop s xs))
unfolding slice
slice_window xs s e le inside = ground arith

-- A page `k + 1` whose window can be computed in 64 bits: its items are the `size` elements after the
-- first `k * size`, fewer at the end and none beyond it; its totals are those of the whole list.
pub cut_page_window :
    {A : Type 0} (xs : List A) (k size : ℕ)
    → 0 < size
    → k * size < two63
    → length xs + size < two63
    → suc k < two63
    → cut_page xs (pos (suc k)) (pos size)
      ≡ some (record {
        items = take size (drop (k * size) xs);
        page = pos (suc k);
        page_size = pos size;
        total = pos (length xs);
        total_pages = pos ((length xs + size - 1) / size);
      })
unfolding cut_page
cut_page_window xs k size some_size small wide page =
    let n = length xs in
    rw
      (
        start_window k size n small page,
        cut_page,
        end_window (min (k * size) n) size n (omega arith),
        slice_window xs (min (k * size) n) (min (min (k * size) n + size) n) (omega arith)
            (omega arith),
        cut_page,
        total_window n size some_size wide,
        clamped xs (k * size) size,
      )
      refl
