-- ===== src/Prelude/Sorted.antt =====
-- What `sort.Slice` promises of its result: the same elements, in an order that `less` does not contradict.
use Prim.Native.Nat.{suc}
use mathlib.Core.Path.{◌≡◌, refl, ap, ◌∙◌}
use native.Mathlib.Omega.{arith}
use mathlib.Core.Logic.{inl, inr}
use mathlib.Core.Bool.{Bool, true, false}
use mathlib.Core.List.{List, [], ◌∷◌}
use mathlib.Core.List.{Perm}
use mathlib.Core.List.Perm
use order_service_go_archite.Prelude.Lists.{length}
use order_service_go_archite.Prelude.Tests.{Bool-cases}
use order_service_go_archite.Prelude.Sort.{insert_sorted, sort_slice}

module _ {A : Type 0} (less : A → A → Bool) where
  -- No element comes before the one that stands before it.
  abbrev pub IsSorted : List A → Type 0
  IsSorted [] = Unit
  IsSorted (x ∷ []) = Unit
  IsSorted (x ∷ y ∷ ys) = (less y x ≡ false) × IsSorted (y ∷ ys)

  insert_sorted-Perm : (x : A) (xs : List A) → Perm (insert_sorted less x xs) (x ∷ xs)
  unfolding insert_sorted
  insert_sorted-Perm x [] = Perm.refl _
  insert_sorted-Perm x (y ∷ ys) = elim (Bool-cases (less y x)) [
    | inl before ↦ rw before (Perm.trans (Perm.cons y (insert_sorted-Perm x ys)) (Perm.swap x y ys))
    | inr stop ↦ rw stop (Perm.refl _)
  ]

  length-insert_sorted : (x : A) (xs : List A) → length (insert_sorted less x xs) ≡ suc (length xs)
  unfolding insert_sorted
  length-insert_sorted x [] = refl
  length-insert_sorted x (y ∷ ys) = ground (arith, length-insert_sorted x ys)

  pub length-sort_slice : (xs : List A) → length (sort_slice less xs) ≡ length xs
  unfolding sort_slice
  length-sort_slice [] = refl
  length-sort_slice (x ∷ xs) =
      length-insert_sorted x (sort_slice less xs) ∙ ap suc (length-sort_slice xs)

  pub sort_slice-Perm : (xs : List A) → Perm (sort_slice less xs) xs
  unfolding sort_slice
  sort_slice-Perm [] = Perm.refl _
  sort_slice-Perm (x ∷ xs) =
      Perm.trans (insert_sorted-Perm x (sort_slice less xs)) (Perm.cons x (sort_slice-Perm xs))

  -- A strict order is not turned around.
  abbrev pub IsAsymmetric : Type 0
  IsAsymmetric = (x y : A) → less x y ≡ true → less y x ≡ false

  insert_sorted-IsSorted :
      IsAsymmetric → (x : A) (xs : List A) → IsSorted xs → IsSorted (insert_sorted less x xs)
  unfolding insert_sorted
  insert_sorted-IsSorted asym x [] h = tt
  insert_sorted-IsSorted asym x (y ∷ []) h = elim (Bool-cases (less y x)) [
    | inl before ↦ rw before (asym y x before, tt)
    | inr stop ↦ rw stop (stop, tt)
  ]
  insert_sorted-IsSorted asym x (y ∷ z ∷ zs) h = elim (Bool-cases (less y x)) [
    | inr stop ↦ rw stop (stop, h)
    | inl before ↦ rw before (elim (Bool-cases (less z x)) [
      | inl further ↦ rw further (h.0, rw further at (insert_sorted-IsSorted asym x (z ∷ zs) h.1))
      | inr stop ↦ rw stop (asym y x before, (stop, h.1))
    ])
  ]

  pub sort_slice-IsSorted : IsAsymmetric → (xs : List A) → IsSorted (sort_slice less xs)
  unfolding sort_slice
  sort_slice-IsSorted asym [] = tt
  sort_slice-IsSorted asym (x ∷ xs) =
      insert_sorted-IsSorted asym x (sort_slice less xs) (sort_slice-IsSorted asym xs)
