-- ===== src/Auth/Seed/Once.antt =====
-- internal/auth/seed.go: what a seeding leaves for the next one.
use order_service_go_archite.Prelude.{
  ◌≡◌, refl, ap, ◌∙◌, Option, Option-cases, some, [], ◌∷◌, Text, text, text_eq, text_eq_iff, Result,
  Result-cases, inl, inr, ok, err, Bool-cases,
}
use order_service_go_archite.Order.Model.{Time}
use order_service_go_archite.Auth.{User, Passwords}
use order_service_go_archite.Auth.Postgres.{
  InsertError, pg_error, other_error, UserDatabase, select_user, insert_user, user_args, found_user,
  inserted, find_by_email, create,
}
use order_service_go_archite.Auth.Seed.{
  default_admin_email, default_admin, after_create, after_hash, after_find, seed_default_admin,
}
use order_service_go_archite.Postgres.{text_arg}

-- A server in reach with the users by their address, which is unique: what the two statements do.
pub record UserServer {S : Type 0} (db : UserDatabase S) (users : S → Text → Option User)
    : Type 0 where
  pub answers :
      (email : Text) (s : S)
      → (db.one_user select_user (text_arg email ∷ []) s).0 ≡ ok (users s email)
  pub asking_keeps :
      (email : Text) (s : S) (e : Text)
      → users (db.one_user select_user (text_arg email ∷ []) s).1 e ≡ users s e
  pub stores :
      (u : User) (s : S)
      → (db.insert insert_user (user_args u) s).0 ≡ ok tt
      → users (db.insert insert_user (user_args u) s).1 u.email ≡ some u
  -- A violation of the unique address leaves the user who has it.
  pub refuses :
      (u : User) (s : S) {m : Text}
      → (db.insert insert_user (user_args u) s).0 ≡ err (pg_error (text "23505") m)
      → (v : User) × (users (db.insert insert_user (user_args u) s).1 u.email ≡ some v)

module _ {S : Type 0} {db : UserDatabase S} {users : S → Text → Option User}
    (server : UserServer db users) (passwords : Passwords) where
  -- The default address belongs to a user.
  abbrev pub HasAdmin : S → Type 0
  HasAdmin s = (u : User) × (users s default_admin_email ≡ some u)

  admin_made :
      (u : User) (s : S)
      → after_create (create db u s).0 ≡ ok tt
      → (v : User) × (users (create db u s).1 u.email ≡ some v)
  unfolding create after_create inserted
  admin_made u s e = go (db.insert insert_user (user_args u) s).0 refl e
    where
      go :
          (r : Result InsertError (Unit {0}))
          → (db.insert insert_user (user_args u) s).0 ≡ r
          → after_create (inserted r) ≡ ok tt
          → (v : User) × (users (db.insert insert_user (user_args u) s).1 u.email ≡ some v)
      go (ok _) is h = (u, server.stores u s is)
      go (err (other_error m)) is h = absurd (cc)
      go (err (pg_error code m)) is h = elim (Bool-cases (text_eq code (text "23505"))) [
        | inl unique ↦
            let same = (text_eq_iff code (text "23505")).0 unique in
            server.refuses u s {m = m} (is ∙ ap (λ (x : Text). err (pg_error x m)) same)
        | inr other ↦ absurd (let h' = rw (other, inserted) at h in cc)
      ]

  seeded :
      (id : Text) (now : Time) (s : S)
      → (seed_default_admin db passwords id now s).0 ≡ ok tt
      → HasAdmin (seed_default_admin db passwords id now s).1
  unfolding seed_default_admin find_by_email
  seeded id now s e = elim (Option-cases (users s default_admin_email)) [
    | inr (u, at) ↦
        let there = server.answers default_admin_email s ∙ ap (λ (x : Option User). ok x) at in
        rw (there, found_user, after_find)
          (u, server.asking_keeps default_admin_email s default_admin_email ∙ at)
    | inl gone ↦
        let absent = server.answers default_admin_email s ∙ ap (λ (x : Option User). ok x) gone in
        elim (Result-cases (passwords.hash (text "123456"))) [
          | inr (m, bad) ↦
              absurd (let e' = rw (absent, found_user, after_find, bad, after_hash) at e in cc)
          | inl (hash, good) ↦
              rw (absent, found_user, after_find, good, after_hash)
                (admin_made (default_admin id now hash) _
                  (rw (absent, found_user, after_find, good, after_hash) at e))
        ]
  ]

  again :
      (id : Text) (now : Time) (s : S)
      → HasAdmin s
      → ((seed_default_admin db passwords id now s).0 ≡ ok tt)
        × ((e : Text) → users (seed_default_admin db passwords id now s).1 e ≡ users s e)
  unfolding seed_default_admin find_by_email
  again id now s (u, at) =
      let there = server.answers default_admin_email s ∙ ap (λ (x : Option User). ok x) at in
      (
        rw (there, found_user, after_find) refl,
        λ e. rw (there, found_user, after_find) (server.asking_keeps default_admin_email s e),
      )

  -- After a seeding that reports no error the default address belongs to a user, also when another process
  -- has taken it meanwhile; and from then on a seeding, with any identifier and at any time, succeeds
  -- and changes no user.
  pub seed_once :
      (id : Text) (now : Time) (s : S)
      → (seed_default_admin db passwords id now s).0 ≡ ok tt
      → let s1 = (seed_default_admin db passwords id now s).1 in
        HasAdmin s1
        × ((id' : Text) (now' : Time)
            → ((seed_default_admin db passwords id' now' s1).0 ≡ ok tt)
              × ((e : Text) → users (seed_default_admin db passwords id' now' s1).1 e ≡ users s1 e))
  seed_once id now s e = let has = seeded id now s e in (has, λ id' now'. again id' now' _ has)
