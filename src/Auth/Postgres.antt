-- ===== src/Auth/Postgres.antt =====
-- internal/auth/postgres_repository.go. pgx and the server are an argument; the role column is taken to hold
-- one of the two roles, as the service writes it.
use order_service_go_archite.Prelude.{
  if◌then◌else◌, Option, none, some, List, [], ◌∷◌, Text, text, text_eq, Result, ok, err, Action,
}
use order_service_go_archite.Auth.{
  User, role_text, UserError, user_not_found, email_taken, failure, UserRepository,
}
use order_service_go_archite.Postgres.{Arg, text_arg, bool_arg, time_arg}

-- A `*pgconn.PgError` with its code and message, or any other error of an insertion.
pub data InsertError : Type 0 where
  pg_error : Text → Text → InsertError
  other_error : Text → InsertError

-- `QueryRow` with its scan, `none` being `pgx.ErrNoRows`, and `Exec`.
pub record UserDatabase (S : Type 0) : Type 0 where
  pub one_user : Text → List Arg → Action S Text (Option User)
  pub insert : Text → List Arg → Action S InsertError (Unit {0})

abbrev pub select_user : Text
select_user =
    text
      "SELECT id, name, email, password_hash, role, active, created_at, updated_at\n\t\tFROM users WHERE email = $1"

abbrev pub insert_user : Text
insert_user =
    text
      "INSERT INTO users (id, name, email, password_hash, role, active, created_at, updated_at)\n\t\tVALUES ($1, $2, $3, $4, $5, $6, $7, $8)"

abbrev pub user_args : User → List Arg
user_args u =
    text_arg u.id
    ∷ text_arg u.name
    ∷ text_arg u.email
    ∷ text_arg u.password_hash
    ∷ text_arg (role_text u.role)
    ∷ bool_arg u.active
    ∷ time_arg u.created_at
    ∷ time_arg u.updated_at
    ∷ []

unfoldable pub found_user : Result Text (Option User) → Result UserError User
found_user (err m) = err (failure m)
found_user (ok none) = err user_not_found
found_user (ok (some u)) = ok u

unfoldable pub inserted : Result InsertError (Unit {0}) → Result UserError (Unit {0})
inserted (ok _) = ok tt
inserted (err (pg_error code m)) =
    if text_eq code (text "23505") then err email_taken else err (failure m)
inserted (err (other_error m)) = err (failure m)

module _ {S : Type 0} (db : UserDatabase S) where
  -- `FindByEmail`.
  unfoldable pub find_by_email : Text → Action S UserError User
  unfolding found_user
  find_by_email email s =
      let (r, s1) = db.one_user select_user (text_arg email ∷ []) s in (found_user r, s1)

  -- `Create`.
  unfoldable pub create : User → Action S UserError (Unit {0})
  unfolding inserted
  create u s = let (r, s1) = db.insert insert_user (user_args u) s in (inserted r, s1)

  -- `PostgresUserRepository`.
  abbrev pub repository : UserRepository S
  repository = record { find = find_by_email; store = create }
