-- ===== src/Auth.antt =====
-- internal/auth: roles, users, the in-memory user repository, and the service's registration and
-- login over any user repository. The bcrypt and token libraries are arguments.
pub mod Token
pub mod Login
pub mod Postgres
pub mod Seed
pub mod Handler
use order_service_go_archite.Prelude.{
  ℕ, Bool, true, false, not, if◌then◌else◌, ltb, Option, none, some, List, [], ◌∷◌, map, ℤ, Text,
  text, text_eq, is_blank, trim_space, to_lower, byte_len, Result, ok, err, Action,
}
use order_service_go_archite.Errors.{AppError, unauthorized, validation, internal, duplicate}
use order_service_go_archite.Order.Model.{Time}

pub data Role : Type 0 where
  admin operator : Role

abbrev pub role_text : Role → Text
role_text admin = text "ADMIN"
role_text operator = text "OPERATOR"

-- `ParseRole`; the error does not repeat the refused text.
unfoldable pub parse_role : Text → Option Role
parse_role s =
    if text_eq s (text "ADMIN")
    then some admin
    else (if text_eq s (text "OPERATOR") then some operator else none)

pub record User : Type 0 where
  pub id : Text
  pub name : Text
  pub email : Text
  pub password_hash : Text
  pub role : Role
  pub active : Bool
  pub created_at : Time
  pub updated_at : Time

-- `ErrUserNotFound`, `ErrEmailTaken`, or any other error of a repository as its text.
pub data UserError : Type 0 where
  user_not_found email_taken : UserError
  failure : Text → UserError

abbrev pub user_error_text : UserError → Text
user_error_text user_not_found = text "user not found"
user_error_text email_taken = text "email already registered"
user_error_text (failure m) = m

-- The interface `UserRepository`.
pub record UserRepository (S : Type 0) : Type 0 where
  pub find : Text → Action S UserError User
  pub store : User → Action S UserError (Unit {0})

-- `InMemoryUserRepository.byEmail`.
abbrev pub Users : Type 0
Users = List (Text × User)

unfoldable pub find_by_email : Text → Users → Option User
find_by_email email [] = none
find_by_email email ((k, u) ∷ m) = if text_eq k email then some u else find_by_email email m

abbrev pub found_in_memory : Option User → Result UserError User
found_in_memory none = err user_not_found
found_in_memory (some u) = ok u

unfoldable pub create_user : User → Action Users UserError (Unit {0})
create_user u m = elim (find_by_email u.email m) [
  | some _ ↦ (err email_taken, m)
  | none ↦ (ok tt, (u.email, u) ∷ m)
]

-- `InMemoryUserRepository`.
abbrev pub in_memory : UserRepository Users
in_memory = record {
  find = λ email m. (found_in_memory (find_by_email email m), m);
  store = create_user;
}

pub record LoginRequest : Type 0 where
  pub email : Text
  pub password : Text

pub record RegisterRequest : Type 0 where
  pub name : Text
  pub email : Text
  pub password : Text
  pub role : Text

pub record TokenResponse : Type 0 where
  pub access_token : Text
  pub token_type : Text
  pub expires_in : ℕ

pub record UserResponse : Type 0 where
  pub id : Text
  pub name : Text
  pub email : Text
  pub role : Text

-- `HashPassword` and `ComparePassword`, which call bcrypt; an error is its text.
pub record Passwords : Type 0 where
  pub hash : Text → Result Text Text
  pub compare : Text → Text → Bool

abbrev pub invalid_credentials : AppError
invalid_credentials = unauthorized (text "Invalid credentials")

abbrev pub normalize_email : Text → Text
normalize_email email = map to_lower (trim_space email)

-- `none` is a valid request.
unfoldable pub validate_register : RegisterRequest → Option AppError
validate_register req =
    if is_blank (trim_space req.name)
    then some (validation (text "name is required"))
    else (if is_blank (trim_space req.email)
        then some (validation (text "email is required"))
        else (if ltb (byte_len req.password) 6
            then some (validation (text "password must be at least 6 characters"))
            else (if ltb 72 (byte_len req.password)
                then some (validation (text "password must be at most 72 bytes"))
                else none)))

-- The user that `Register` stores.
abbrev pub new_user : Text → Time → RegisterRequest → Text → Role → User
new_user id now req hash role = record {
  id = id;
  name = req.name;
  email = normalize_email req.email;
  password_hash = hash;
  role = role;
  active = true;
  created_at = now;
  updated_at = now;
}

-- After `Create`.
unfoldable pub after_store : User → Result UserError (Unit {0}) → Result AppError UserResponse
after_store u (ok _) =
    ok (record { id = u.id; name = u.name; email = u.email; role = role_text u.role })
after_store u (err user_not_found) =
    err (internal (text "could not create user") (user_error_text user_not_found))
after_store u (err email_taken) = err (duplicate (text "Email already registered"))
after_store u (err (failure m)) = err (internal (text "could not create user") m)

module _ (passwords : Passwords) where
  -- After `FindByEmail`, with the token that `Issue` gives for the user, which is never an error; the
  -- comparison with the dummy hash for an unknown email has no effect but its time.
  unfoldable pub login_found :
      (User → Text × ℕ) → LoginRequest → Result UserError User → Result AppError TokenResponse
  login_found issue req (err user_not_found) = err invalid_credentials
  login_found issue req (err email_taken) =
      err (internal (text "could not load user") (user_error_text email_taken))
  login_found issue req (err (failure m)) = err (internal (text "could not load user") m)
  login_found issue req (ok user) =
      if not (passwords.compare user.password_hash req.password)
      then err invalid_credentials
      else (if not user.active
          then err invalid_credentials
          else (let (token, expires_in) = issue user in
              ok (record {
                access_token = token;
                token_type = text "Bearer";
                expires_in = expires_in;
              })))

module _ {S : Type 0} (repo : UserRepository S) (passwords : Passwords) where
  -- `Login`.
  unfoldable pub login : (User → Text × ℕ) → LoginRequest → Action S AppError TokenResponse
  unfolding login_found
  login issue req s =
      let (r, s1) = repo.find (normalize_email req.email) s in
      (login_found passwords issue req r, s1)

  unfoldable pub store_user : User → Action S AppError UserResponse
  unfolding after_store
  store_user u s = let (r, s1) = repo.store u s in (after_store u r, s1)

  unfoldable pub register_hashed :
      Text → Time → RegisterRequest → Role → Result Text Text → Action S AppError UserResponse
  unfolding store_user
  register_hashed id now req role (err e) s = (err (internal (text "could not hash password") e), s)
  register_hashed id now req role (ok hash) s = store_user (new_user id now req hash role) s

  unfoldable pub register_as :
      Text → Time → RegisterRequest → Option Role → Action S AppError UserResponse
  unfolding register_hashed
  register_as id now req none s =
      (err (validation (text "invalid role: must be ADMIN or OPERATOR")), s)
  register_as id now req (some role) s =
      register_hashed id now req role (passwords.hash req.password) s

  -- `Register`, with the identifier and the time that it takes.
  unfoldable pub register : Text → Time → RegisterRequest → Action S AppError UserResponse
  unfolding register_as
  register id now req s = elim (validate_register req) [
    | some e ↦ (err e, s)
    | none ↦ register_as id now req (parse_role req.role) s
  ]
