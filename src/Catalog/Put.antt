-- ===== src/Catalog/Put.antt =====
-- internal/customer, internal/product: the writes that the services make, and the well-formed stores.
use order_service_go_archite.Prelude.{
  ℕ, ◌≡◌, sym, ◌∙◌, ◌≢◌, inl, inr, ◌==◌, Bool-cases, Option-cases, none, some, List, [], ◌∷◌, Text,
  lookup, insert, lookup-insert_self, lookup-insert_ne, arith,
}
use native.Mathlib.Decide.{ℕ_discrete}
use order_service_go_archite.Catalog.{find_by}
use order_service_go_archite.Catalog.Unique.{
  WellKeyed, IsUnique, IsFree, insert-WellKeyed, insert-IsUnique, find_by_sound,
}

module _ {V : Type 0} (id : V → ℕ) (key : V → Text) where
  -- What the map of a repository always meets; the nil identifier is 0.
  abbrev pub IsValid : List (ℕ × V) → Type 0
  IsValid m = WellKeyed id key m × IsUnique id key m × (lookup 0 m ≡ none)

  -- A write as the services make it: none, or a record under its own identifier whose key is free.
  pub data Put (m : List (ℕ × V)) : List (ℕ × V) → Type 0 where
    nothing : Put m m
    put : (i : ℕ) (v : V) → id v ≡ i → i ≢ 0 → IsFree id key i (key v) m → Put m (insert i v m)

  -- The maps that a history of writes leads to.
  pub data Puts (m : List (ℕ × V)) : List (ℕ × V) → Type 0 where
    done : Puts m m
    next : {a b : List (ℕ × V)} → Puts m a → Put a b → Puts m b

  pub lookup_keyed :
      (i : ℕ) (m : List (ℕ × V)) {v : V} → WellKeyed id key m → lookup i m ≡ some v → id v ≡ i
  lookup_keyed i [] h e = cc
  lookup_keyed i ((k, u) ∷ m) {v} h e = elim (Bool-cases (k == i)) [
    | inl same ↦ ground arith
    | inr other ↦ lookup_keyed i m h.2 (ground arith)
  ]

  pub Put-IsValid : {a b : List (ℕ × V)} → Put a b → IsValid a → IsValid b
  Put-IsValid nothing h = h
  Put-IsValid {a} (put i v e some_id free) (keyed, unique, no_nil) = (
    insert-WellKeyed id key i v a e keyed,
    insert-IsUnique id key i v a keyed unique free,
    lookup-insert_ne 0 i v a some_id ∙ no_nil,
  )

  -- No write removes a record.
  pub Put-lookup :
      {a b : List (ℕ × V)} (j : ℕ) {v : V}
      → Put a b
      → lookup j a ≡ some v
      → (u : V) × (lookup j b ≡ some u)
  Put-lookup j {v} nothing e = (v, e)
  Put-lookup {a} j {v} (put i u is some_id free) e = elim (ℕ_discrete i j) [
    | yes same ↦ (u, rw (sym same) (lookup-insert_self i u a))
    | no other ↦ (v, lookup-insert_ne j i u a other ∙ e)
  ]

  -- The key of a record is free for the record itself.
  pub own_key-IsFree :
      (i : ℕ) (m : List (ℕ × V)) {v : V}
      → IsValid m
      → lookup i m ≡ some v
      → IsFree id key i (key v) m
  own_key-IsFree i m {v} (keyed, unique, no_nil) e = elim (Option-cases (find_by key (key v) m)) [
    | inl none_has ↦ inl none_has
    | inr (u, found) ↦
        let (same, at) = find_by_sound id key (key v) m keyed found in
        inr (u, found, unique (id u) i u v at e same)
  ]

  pub Puts-IsValid : {a b : List (ℕ × V)} → Puts a b → IsValid a → IsValid b
  Puts-IsValid done h = h
  Puts-IsValid (next before w) h = Put-IsValid w (Puts-IsValid before h)

  pub Puts-lookup :
      {a b : List (ℕ × V)} (j : ℕ) {v : V}
      → Puts a b
      → lookup j a ≡ some v
      → (u : V) × (lookup j b ≡ some u)
  Puts-lookup j {v} done e = (v, e)
  Puts-lookup j (next before w) e = Put-lookup j w (Puts-lookup j before e).1
