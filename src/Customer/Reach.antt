-- ===== src/Customer/Reach.antt =====
-- internal/customer: the stores that sequences of the service's writes lead to, from an empty one.
use order_service_go_archite.Prelude.{
  true, ◌≡◌, refl, ◌≢◌, false, inl, inr, ◌==◌, Option-cases, some, [], lookup, ok, err, is_blank,
  trim_space, insert, arith,
}
use order_service_go_archite.Errors.{duplicate}
use order_service_go_archite.Prelude.{text}
use order_service_go_archite.Catalog.{find_by}
use order_service_go_archite.Catalog.Unique.{find_by_sound, find_by_complete}
use order_service_go_archite.Catalog.Put.{Put-IsValid, Put-lookup}
use order_service_go_archite.Order.Model.{Uuid, nil_uuid, Time}
use order_service_go_archite.Customer.{
  CustomerOutput, Customer, CustomerInput, Items, create_item, repository, to_output,
}
use order_service_go_archite.Customer.Service.{
  check_unique, ensure_document_unique, new_customer, after_create, store_new, create, update,
  deactivate,
}
use order_service_go_archite.Customer.Writes.{
  id_of, document_of, Valid, Write, create-Write, update-Write, deactivate-Write,
}

-- One call that may write; a new identifier is not the nil one.
pub data Step (m : Items) : Items → Type 0 where
  creates :
      (id : Uuid) (now : Time) (input : CustomerInput)
      → id ≢ nil_uuid
      → Step m (create repository id now input m).1
  updates :
      (id : Uuid) (now : Time) (input : CustomerInput) → Step m (update repository id now input m).1
  deactivates : (id : Uuid) → Step m (deactivate repository id m).1

pub data Steps (m : Items) : Items → Type 0 where
  here : Steps m m
  then : {a b : Items} → Steps m a → Step a b → Steps m b

Step-Write : {a b : Items} → Step a b → Valid a → Write a b
Step-Write {a} (creates id now input some_id) h = create-Write id now input a some_id h
Step-Write {a} (updates id now input) h = update-Write id now input a h
Step-Write {a} (deactivates id) h = deactivate-Write id a h

Steps-Valid : {a b : Items} → Steps a b → Valid a → Valid b
Steps-Valid here h = h
Steps-Valid (then before s) h =
    let v = Steps-Valid before h in Put-IsValid id_of document_of (Step-Write s v) v

-- However customers are created, updated and deactivated, starting from an empty repository: no two
-- of them have the same document.
pub documents_unique :
    (m : Items)
    → Steps [] m
    → (i j : Uuid) (a b : Customer) → lookup i m ≡ some a
    → lookup j m ≡ some b
    → a.document ≡ b.document
    → i ≡ j
documents_unique m reached = (Steps-Valid reached (tt, (λ i j a b ea eb e. cc), refl)).1

-- No sequence of calls removes a customer: who was stored at one time is found at every later time.
pub customers_stay :
    (a b : Items)
    → Steps [] a
    → Steps a b
    → (j : Uuid) (c : Customer) → lookup j a ≡ some c
    → (c' : Customer) × (lookup j b ≡ some c')
customers_stay a b reached later j c e = go later
  where
    start : Valid a
    start = Steps-Valid reached (tt, (λ i j a b ea eb e. cc), refl)

    go : {x : Items} → Steps a x → (c' : Customer) × (lookup j x ≡ some c')
    go here = (c, e)
    go (then before s) =
        Put-lookup id_of document_of j (Step-Write s (Steps-Valid before start)) (go before).1

-- A request with a name and a document that are not blank, to a store that is well formed. When no customer
-- has the trimmed document, an active customer with the given identifier, the trimmed texts of the
-- request and the given time is stored, and the same is shown; when one has it, the request is refused
-- as a duplicate and nothing is stored.
pub create_customer_decides :
    (id : Uuid) (now : Time) (input : CustomerInput) (m : Items)
    → Valid m
    → is_blank (trim_space input.name) ≡ false
    → is_blank (trim_space input.document) ≡ false
    → let c : Customer = record {
      id = id;
      name = trim_space input.name;
      document = trim_space input.document;
      email = trim_space input.email;
      phone = trim_space input.phone;
      active = true;
      created_at = now;
      updated_at = now;
    } in
      let shown : CustomerOutput = record {
        id = id;
        name = trim_space input.name;
        document = trim_space input.document;
        email = trim_space input.email;
        phone = trim_space input.phone;
        active = true;
        created_at = now;
        updated_at = now;
      } in
      (((j : Uuid) (v : Customer) → lookup j m ≡ some v → v.document ≢ c.document)
        → create repository id now input m ≡ (ok shown, insert id c m))
      × ((j : Uuid) (v : Customer)
          → lookup j m ≡ some v
          → v.document ≡ c.document
          → create repository id now input m
            ≡ (err (duplicate (text "a customer with this document already exists")), m))
unfolding create ensure_document_unique store_new after_create create_item check_unique
create_customer_decides id now input m (keyed, unique, no_nil) named full = (accepted, refused)
  where
    c : Customer
    c = new_customer id now input

    accepted :
        ((j : Uuid) (v : Customer) → lookup j m ≡ some v → v.document ≢ c.document)
        → create repository id now input m ≡ (ok (to_output c), insert id c m)
    accepted others = elim (Option-cases (find_by document_of c.document m)) [
      | inl none_has ↦ rw (named, full, none_has) refl
      | inr (v, has) ↦
          let (same, at) = find_by_sound id_of document_of c.document m keyed has in
          absurd (others v.id v at same)
    ]

    refused :
        (j : Uuid) (v : Customer)
        → lookup j m ≡ some v
        → v.document ≡ c.document
        → create repository id now input m
          ≡ (err (duplicate (text "a customer with this document already exists")), m)
    refused j v at same = elim (Option-cases (find_by document_of c.document m)) [
      | inl none_has ↦ absurd (find_by_complete id_of document_of c.document m j at same none_has)
      | inr (u, has) ↦
          let (_, there) = find_by_sound id_of document_of c.document m keyed has in
          let some_id : (u.id == nil_uuid) ≡ false = ground (arith, not_nil u there) in
          rw (named, full, has, some_id) refl
    ]
      where
        not_nil : (u : Customer) → lookup u.id m ≡ some u → u.id ≢ 0
        not_nil u there e = let there' = rw e at there in cc
