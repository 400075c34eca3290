-- ===== src/Auth/Seed.antt =====
-- internal/auth/seed.go: `SeedDefaultAdmin`, with the identifier and the time that it takes.
pub mod Once
use order_service_go_archite.Prelude.{Text, text, Result, ok, err, Action, true}
use order_service_go_archite.Order.Model.{Time}
use order_service_go_archite.Auth.{
  UserError, user_not_found, email_taken, failure, admin, User, Passwords,
}
use order_service_go_archite.Auth.Postgres.{UserDatabase, find_by_email, create}

abbrev pub default_admin_email : Text
default_admin_email = text "admin@example.com"

abbrev pub default_admin : Text → Time → Text → User
default_admin id now hash = record {
  id = id;
  name = text "Admin";
  email = default_admin_email;
  password_hash = hash;
  role = admin;
  active = true;
  created_at = now;
  updated_at = now;
}

-- An address that was taken meanwhile is no error.
unfoldable pub after_create : Result UserError (Unit {0}) → Result UserError (Unit {0})
after_create (ok _) = ok tt
after_create (err email_taken) = ok tt
after_create (err user_not_found) = err user_not_found
after_create (err (failure m)) = err (failure m)

module _ {S : Type 0} (db : UserDatabase S) (passwords : Passwords) where
  unfoldable pub after_hash : Text → Time → Result Text Text → Action S UserError (Unit {0})
  unfolding after_create
  after_hash id now (err m) s = (err (failure m), s)
  after_hash id now (ok hash) s =
      let (r, s1) = create db (default_admin id now hash) s in (after_create r, s1)

  unfoldable pub after_find : Text → Time → Result UserError User → Action S UserError (Unit {0})
  unfolding after_hash
  after_find id now (ok _) s = (ok tt, s)
  after_find id now (err user_not_found) s = after_hash id now (passwords.hash (text "123456")) s
  after_find id now (err email_taken) s = (err email_taken, s)
  after_find id now (err (failure m)) s = (err (failure m), s)

  -- `SeedDefaultAdmin`.
  unfoldable pub seed_default_admin : Text → Time → Action S UserError (Unit {0})
  unfolding after_find
  seed_default_admin id now s =
      let (r, s1) = find_by_email db default_admin_email s in after_find id now r s1
