-- ===== src/Catalog/Unique.antt =====
-- internal/customer, internal/product: the search that the check for uniqueness makes, and the second
-- field.
use order_service_go_archite.Prelude.{
  ℕ, ◌≡◌, refl, sym, ap, ◌∙◌, ◌≢◌, ◌⊎◌, inl, inr, Bool-cases, none, some, List, [], ◌∷◌, Text,
  text_eq, text_eq_iff, lookup, insert, lookup-insert, lookup-insert_ne, arith,
}
use native.Mathlib.Decide.{ℕ_discrete}
use order_service_go_archite.Catalog.{find_by}

module _ {V : Type 0} (id : V → ℕ) (key : V → Text) where
  -- Every record stands once, under its own identifier.
  abbrev pub WellKeyed : List (ℕ × V) → Type 0
  WellKeyed [] = Unit
  WellKeyed ((k, v) ∷ m) = (id v ≡ k) × (lookup k m ≡ none) × WellKeyed m

  -- Two identifiers never share a key.
  abbrev pub IsUnique : List (ℕ × V) → Type 0
  IsUnique m =
      (i j : ℕ) (a b : V) → lookup i m ≡ some a → lookup j m ≡ some b → key a ≡ key b → i ≡ j

  -- What the service has checked before it writes `t` for the record `i`.
  abbrev pub IsFree : ℕ → Text → List (ℕ × V) → Type 0
  IsFree i t m = (find_by key t m ≡ none) ⊎ ((v : V) × (find_by key t m ≡ some v) × (id v ≡ i))

  pub insert-WellKeyed :
      (i : ℕ) (v : V) (m : List (ℕ × V)) → id v ≡ i → WellKeyed m → WellKeyed (insert i v m)
  insert-WellKeyed i v [] e h = (e, refl, tt)
  insert-WellKeyed i v ((k, u) ∷ m) e h =
      ground (arith, insert-WellKeyed i v m e h.2, lookup-insert k i v m)

  pub find_by_sound :
      (t : Text) (m : List (ℕ × V)) {v : V}
      → WellKeyed m
      → find_by key t m ≡ some v
      → (key v ≡ t) × (lookup (id v) m ≡ some v)
  unfolding find_by
  find_by_sound t [] h e = (cc, cc)
  find_by_sound t ((k, u) ∷ m) {v} h e = elim (Bool-cases (text_eq (key u) t)) [
    | inl same ↦ (ground (arith, text_eq_iff (key u) t), ground arith)
    | inr other ↦ let (is, at) = find_by_sound t m {v = v} h.2 (ground arith) in (is, ground arith)
  ]

  pub find_by_complete :
      (t : Text) (m : List (ℕ × V)) (i : ℕ) {v : V}
      → lookup i m ≡ some v
      → key v ≡ t
      → find_by key t m ≢ none
  unfolding find_by
  find_by_complete t [] i e same = cc
  find_by_complete t ((k, u) ∷ m) i {v} e same =
      ground (arith, text_eq_iff (key u) t, find_by_complete t m i {v = v})

  -- Whoever has a key that is free for `i` is `i`.
  clash :
      (i : ℕ) (t : Text) (m : List (ℕ × V)) (j : ℕ) {b : V}
      → WellKeyed m
      → IsUnique m
      → IsFree i t m
      → lookup j m ≡ some b
      → key b ≡ t
      → i ≡ j
  clash i t m j h unique (inl none_has) at same = absurd (find_by_complete t m j at same none_has)
  clash i t m j {b} h unique (inr (v, found, is)) at same =
      let (keyed, there) = find_by_sound t m h found in
      sym is ∙ unique (id v) j v b there at (keyed ∙ sym same)

  -- The write of a record whose key is free for its identifier.
  pub insert-IsUnique :
      (i : ℕ) (v : V) (m : List (ℕ × V))
      → WellKeyed m
      → IsUnique m
      → IsFree i (key v) m
      → IsUnique (insert i v m)
  insert-IsUnique i v m h unique free j k a b at bt same = go (ℕ_discrete i j) (ℕ_discrete i k)
    where
      elsewhere : (x : ℕ) {c : V} → i ≢ x → lookup x (insert i v m) ≡ some c → lookup x m ≡ some c
      elsewhere x other e = sym (lookup-insert_ne x i v m other) ∙ e

      here : (x : ℕ) {c : V} → i ≡ x → lookup x (insert i v m) ≡ some c → v ≡ c
      here x is e = ground (arith, lookup-insert x i v m)

      go : Dec (i ≡ j) → Dec (i ≡ k) → j ≡ k
      go (yes p) (yes q) = sym p ∙ q
      go (yes p) (no q) =
          sym p
          ∙ clash i (key v) m k h unique free (elsewhere k q bt)
              (sym same ∙ ap key (sym (here j p at)))
      go (no p) (yes q) =
          sym (
            clash i (key v) m j h unique free (elsewhere j p at)
              (same ∙ ap key (sym (here k q bt))))
          ∙ q
      go (no p) (no q) = unique j k a b (elsewhere j p at) (elsewhere k q bt) same
