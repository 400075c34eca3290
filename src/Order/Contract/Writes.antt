-- ===== src/Order/Contract/Writes.antt =====
-- internal/order: what one write of a lawful repository does to the orders.
use native.Mathlib.Decide.{ℕ_discrete}
use order_service_go_archite.Prelude.{
  ◌≡◌, refl, ◌∙◌, Option, none, some, List, ok, err, Result, Result-cases, inl, inr, ap, ◌⊎◌, Text,
}
use order_service_go_archite.Order.Status.{OrderStatus, created}
use order_service_go_archite.Order.Status.Graph.{◌⟶◌, here, ⟶*_one}
use order_service_go_archite.Order.Model.{Uuid, Time, Order, OrderItem}
use order_service_go_archite.Order.Ports.{
  RepoError, order_not_found, failure, Stored, OrderRepository,
}
use order_service_go_archite.Order.Contract.{View, RepoLaws, StatusWritten, Processed}
use order_service_go_archite.Order.Contract.Growth.{Grows, evolved, born, Grows-of_eq}

StatusWritten-Grows :
    {st : OrderStatus} {a b : Option Stored}
    → StatusWritten st a b
    → ((r : Stored) → a ≡ some r → r.0.status ⟶ st)
    → Grows a b
StatusWritten-Grows (r, t, before, after) step =
    rw (before, after)
      (evolved (record {
        same_id = refl;
        same_customer = refl;
        same_total = refl;
        same_creator = refl;
        same_creation = refl;
        same_items = refl;
        path = ⟶*_one (step r before);
      }))

Processed-Grows :
    {st : OrderStatus} {t : Time} {a b : Option Stored}
    → Processed st t a b
    → ((r : Stored) → a ≡ some r → r.0.status ⟶ st)
    → Grows a b
Processed-Grows (r, before, after) step =
    rw (before, after)
      (evolved (record {
        same_id = refl;
        same_customer = refl;
        same_total = refl;
        same_creator = refl;
        same_creation = refl;
        same_items = refl;
        path = ⟶*_one (step r before);
      }))

module _ {S : Type 0} {repo : OrderRepository S} {view : View S} (laws : RepoLaws repo view) where
  -- A stored order is found, or the repository fails.
  pub find_cases :
      (id : Uuid) (s : S) {o : Stored}
      → view s id ≡ some o
      → ((repo.find_by_id id s).0 ≡ ok o)
        ⊎ ((m : Text) × ((repo.find_by_id id s).0 ≡ err (failure m)))
  find_cases id s {o} at = go (repo.find_by_id id s).0 refl
    where
      go :
          (r : Result RepoError Stored)
          → (repo.find_by_id id s).0 ≡ r
          → ((repo.find_by_id id s).0 ≡ ok o)
            ⊎ ((m : Text) × ((repo.find_by_id id s).0 ≡ err (failure m)))
      go (ok q) e = inl (e ∙ ap {B = Result RepoError Stored} ok (cc (laws.find_some id s e, at)))
      go (err order_not_found) e = absurd (let gone = laws.find_none id s e in cc)
      go (err (failure m)) e = inr (m, e)

  -- A change of status along an edge is growth, whether or not the write succeeds.
  pub update-Grows :
      (id : Uuid) (st : OrderStatus) (s : S)
      → ((r : Stored) → view s id ≡ some r → r.0.status ⟶ st)
      → (j : Uuid) → Grows (view s j) (view (repo.update_status id st s).1 j)
  update-Grows id st s step j = elim (ℕ_discrete j id) [
    | no other ↦ Grows-of_eq (laws.update_others id st s j other)
    | yes same ↦ elim (Result-cases (repo.update_status id st s).0) [
      | inl (_, e) ↦ rw same (StatusWritten-Grows (laws.update_ok id st s e) step)
      | inr (_, e) ↦ rw same (Grows-of_eq (laws.update_err id st s e))
    ]
  ]

  pub mark-Grows :
      (id : Uuid) (st : OrderStatus) (t : Time) (s : S)
      → ((r : Stored) → view s id ≡ some r → r.0.status ⟶ st)
      → (j : Uuid) → Grows (view s j) (view (repo.mark_processed id st t s).1 j)
  mark-Grows id st t s step j = elim (ℕ_discrete j id) [
    | no other ↦ Grows-of_eq (laws.mark_others id st t s j other)
    | yes same ↦ elim (Result-cases (repo.mark_processed id st t s).0) [
      | inl (_, e) ↦ rw same (Processed-Grows (laws.mark_ok id st t s e) step)
      | inr (_, e) ↦ rw same (Grows-of_eq (laws.mark_err id st t s e))
    ]
  ]

  -- A new order under an identifier that was free is growth.
  pub create-Grows :
      (o : Order) (items : List OrderItem) (s : S)
      → view s o.id ≡ none
      → o.status ≡ created
      → (j : Uuid) → Grows (view s j) (view (repo.create_with_items o items s).1 j)
  create-Grows o items s free fresh j = elim (ℕ_discrete j o.id) [
    | no other ↦ Grows-of_eq (laws.create_others o items s j other)
    | yes same ↦ elim (Result-cases (repo.create_with_items o items s).0) [
      | inl (_, e) ↦ rw (same, free, laws.create_ok o items s e) (born (rw fresh here))
      | inr (_, e) ↦ rw same (Grows-of_eq (laws.create_err o items s e))
    ]
  ]
