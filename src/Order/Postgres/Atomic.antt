-- ===== src/Order/Postgres/Atomic.antt =====
-- internal/order/postgres_repository.go, `CreateWithItems`: the order and its items, or nothing.
use mathlib.Core.List.{append_assoc, append-nil}
use order_service_go_archite.Prelude.{
  ℕ, ◌≡◌, refl, sym, ap, subst, ◌∙◌, ◌⊎◌, inl, inr, List, [], ◌∷◌, ◌++◌, map, Text, Result,
  Result-cases, ok, err,
}
use order_service_go_archite.Order.Model.{Order, OrderItem}
use order_service_go_archite.Order.Ports.{RepoError, failure}
use order_service_go_archite.Order.Postgres.{
  OrderDatabase, insert_order, insert_item, order_args, item_args, after_commit, insert_items,
  after_insert, after_begin, create_with_items,
}
use order_service_go_archite.Postgres.{Arg}

abbrev pub Statement : Type 0
Statement = Text × List Arg

-- A transaction: its statements are kept apart from what is committed until its commit applies them.
pub record Transactions {S C : Type 0} (db : OrderDatabase S) (committed : S → C)
    (open_statements : S → List Statement) (apply : List Statement → C → C) : Type 0 where
  pub begins :
      (s : S)
      → (committed (db.begin_tx s).1 ≡ committed s)
        × ((db.begin_tx s).0 ≡ ok tt → open_statements (db.begin_tx s).1 ≡ [])
  pub executes :
      (q : Text) (args : List Arg) (s : S)
      → (committed (db.exec_tx q args s).1 ≡ committed s)
        × ((n : ℕ)
            → (db.exec_tx q args s).0 ≡ ok n
            → open_statements (db.exec_tx q args s).1 ≡ open_statements s ++ (q, args) ∷ [])
  pub commits :
      (s : S)
      → (db.commit_tx s).0 ≡ ok tt
      → committed (db.commit_tx s).1 ≡ apply (open_statements s) (committed s)
  pub fails :
      (s : S) {m : Text} → (db.commit_tx s).0 ≡ err m → committed (db.commit_tx s).1 ≡ committed s
  -- Also after a commit, when there is nothing left to undo.
  pub rolls_back : (s : S) → committed (db.rollback_tx s) ≡ committed s

abbrev pub item_statements : List OrderItem → List Statement
item_statements items = map (λ (i : OrderItem). (insert_item, item_args i)) items

module _ {S C : Type 0} {db : OrderDatabase S} {committed : S → C}
    {open_statements : S → List Statement} {apply : List Statement → C → C}
    (laws : Transactions db committed open_statements apply) where
  -- The statements took effect together, or an error is reported and none did.
  abbrev pub AllOrNothing : List Statement → C → Result RepoError (Unit {0}) × S → Type 0
  AllOrNothing all before end =
      ((end.0 ≡ ok tt) × (committed end.1 ≡ apply all before))
      ⊎ ((e : RepoError) × (end.0 ≡ err e) × (committed end.1 ≡ before))

  moved :
      {all all' : List Statement} {c c' : C} {end : Result RepoError (Unit {0}) × S}
      → all ≡ all'
      → c ≡ c'
      → AllOrNothing all c end
      → AllOrNothing all' c' end
  moved {all} {all'} {c} {c'} {end} e f h =
      subst (λ (x : List Statement). AllOrNothing x c' end) e
        (subst (λ (x : C). AllOrNothing all x end) f h)

  items_rest :
      (items : List OrderItem) (s : S)
      → AllOrNothing
          (open_statements s ++ item_statements items)
          (committed s)
          (insert_items db items s)
  unfolding insert_items after_commit
  items_rest [] s = elim (Result-cases (db.commit_tx s).0) [
    | inl (_, good) ↦
        rw (good, after_commit)
          (inl (
            refl,
            laws.rolls_back _
                ∙ (laws.commits s good
                    ∙ ap (λ (x : List Statement). apply x (committed s))
                        (sym (append-nil (open_statements s)))),
          ))
    | inr (m, bad) ↦
        rw (bad, after_commit) (inr (failure m, refl, laws.rolls_back _ ∙ laws.fails s bad))
  ]
  items_rest (i ∷ items) s = elim (Result-cases (db.exec_tx insert_item (item_args i) s).0) [
    | inr (m, bad) ↦
        rw (bad, insert_items)
          (inr (failure m, refl, laws.rolls_back _ ∙ (laws.executes insert_item (item_args i) s).0))
    | inl (n, good) ↦
        let (kept, queued) = laws.executes insert_item (item_args i) s in
        let s1 = (db.exec_tx insert_item (item_args i) s).1 in
        let all : open_statements s1 ++ item_statements items
            ≡ open_statements s ++ item_statements (i ∷ items) =
          ap (λ (x : List Statement). x ++ item_statements items) (queued n good)
          ∙ append_assoc (open_statements s) ((insert_item, item_args i) ∷ [])
              (item_statements items) in
        rw (good, insert_items) (moved all kept (items_rest items s1))
  ]

  -- A creation in PostgreSQL is atomic: either it succeeds and the insertion of the order and of every item,
  -- in order, has taken effect, or it reports an error and the committed state is as it was, at
  -- whichever statement it failed.
  pub create_with_items-AllOrNothing :
      (o : Order) (items : List OrderItem) (s : S)
      → AllOrNothing
          ((insert_order, order_args o) ∷ item_statements items)
          (committed s)
          (create_with_items db o items s)
  unfolding create_with_items after_begin after_insert
  create_with_items-AllOrNothing o items s = elim (Result-cases (db.begin_tx s).0) [
    | inr (m, bad) ↦ rw (bad, after_begin) (inr (failure m, refl, (laws.begins s).0))
    | inl (_, good) ↦
        let (kept, empty) = laws.begins s in
        let s1 = (db.begin_tx s).1 in
        let (kept', queued) = laws.executes insert_order (order_args o) s1 in
        elim (Result-cases (db.exec_tx insert_order (order_args o) s1).0) [
          | inr (m, bad) ↦
              rw (good, after_begin, bad, after_insert)
                (inr (failure m, refl, laws.rolls_back _ ∙ (kept' ∙ kept)))
          | inl (n, ran) ↦
              let all =
                queued n ran
                ∙ ap (λ (x : List Statement). x ++ (insert_order, order_args o) ∷ [])
                    (empty good) in
              rw (good, after_begin, ran, after_insert)
                (moved (ap (λ (x : List Statement). x ++ item_statements items) all) (kept' ∙ kept)
                  (items_rest items _))
        ]
  ]
