-- ===== src/Auth/Login.antt =====
-- internal/auth/service.go: who may log in, and what registration stores.
use order_service_go_archite.Prelude.{
  ℕ, Result, ◌≢◌, ◌≡◌, refl, sym, ◌⊎◌, inl, inr, true, Bool-cases, Option-cases, Result-cases, some,
  Text, text, text_eq, text_eq_iff, ok, err,
}
use order_service_go_archite.Order.Model.{Time}
use order_service_go_archite.Errors.{AppError, internal}
use order_service_go_archite.Auth.{
  UserError, user_not_found, email_taken, failure, user_error_text, UserRepository, in_memory,
  TokenResponse, after_store, Role, User, Users, find_by_email, create_user, LoginRequest,
  RegisterRequest, UserResponse, Passwords, invalid_credentials, normalize_email, validate_register,
  parse_role, login_found, login, new_user, store_user, register_hashed, register_as, register,
}

module _ {S : Type 0} (repo : UserRepository S) (passwords : Passwords)
    (issue : User → Text × ℕ) where
  -- Whom a login is for: an active user whom the repository gives for the address, and whose hash the
  -- password matches.
  abbrev pub Known : LoginRequest → S → User → Type 0
  Known req s u =
      ((repo.find (normalize_email req.email) s).0 ≡ ok u)
      × (passwords.compare u.password_hash req.password ≡ true)
      × (u.active ≡ true)

  -- The repository fails with an error other than that there is no such user.
  abbrev pub Unloadable : LoginRequest → S → UserError → Type 0
  Unloadable req s e = ((repo.find (normalize_email req.email) s).0 ≡ err e) × (e ≢ user_not_found)

  abbrev pub Decides : LoginRequest → S → Result AppError TokenResponse → Type 0
  Decides req s out =
      ((u : User) × Known req s u
        × (out
            ≡ ok (record {
              access_token = (issue u).0;
              token_type = text "Bearer";
              expires_in = (issue u).1;
            })))
      ⊎ (((e : UserError) × Unloadable req s e
            × (out ≡ err (internal (text "could not load user") (user_error_text e))))
          ⊎ (((u : User) → Known req s u → ⊥)
              × ((e : UserError) → Unloadable req s e → ⊥)
              × (out ≡ err invalid_credentials)))

  login_found-Decides :
      (req : LoginRequest) (s : S) (r : Result UserError User)
      → (repo.find (normalize_email req.email) s).0 ≡ r
      → Decides req s (login_found passwords issue req r)
  unfolding login_found
  login_found-Decides req s (err user_not_found) is =
      inr (inr ((λ u k. cc (is, k.0)), (λ e k. k.1 (let k' = k.0 in cc)), refl))
  login_found-Decides req s (err email_taken) is = inr (inl (email_taken, (is, λ e. cc), refl))
  login_found-Decides req s (err (failure m)) is = inr (inl (failure m, (is, λ e. cc), refl))
  login_found-Decides req s (ok u) is =
      elim (Bool-cases (passwords.compare u.password_hash req.password)) [
        | inr wrong ↦ inr (
            inr (
              (λ v k. other v k (λ e. let k' = rw (sym e) at k.1 in cc)),
              (λ e k. ok_not_err e k.0),
              rw wrong refl,
            ))
        | inl right ↦ elim (Bool-cases u.active) [
          | inl active ↦ inl (u, (is, right, active), rw (right, active) refl)
          | inr inactive ↦ inr (
              inr (
                (λ v k. other v k (λ e. let k' = rw (sym e) at k.2 in cc)),
                (λ e k. ok_not_err e k.0),
                rw (right, inactive) refl,
              ))
        ]
      ]
    where
      other : (v : User) → Known req s v → (u ≡ v → ⊥) → ⊥
      other v k differ = differ (let k' = k.0 in cc)

      ok_not_err : (e : UserError) → (repo.find (normalize_email req.email) s).0 ≡ err e → ⊥
      ok_not_err e bad = cc

  -- A login has one of three ends. For an active user whom the repository gives for the normalized address
  -- and whose hash the password matches, it is a bearer token issued for that user. When the
  -- repository fails otherwise than by finding no user, it is an internal error. In every other case it is
  -- one and the same error, whether the address is unknown, the password wrong or the user inactive.
  -- Nothing is called but that one search.
  pub login-Decides :
      (req : LoginRequest) (s : S)
      → Decides req s (login repo passwords issue req s).0
        × ((login repo passwords issue req s).1 ≡ (repo.find (normalize_email req.email) s).1)
  unfolding login
  login-Decides req s = (login_found-Decides req s _ refl, refl)

text_eq_refl : (t : Text) → text_eq t t ≡ true
text_eq_refl t = (text_eq_iff t t).1 refl

found_after :
    (passwords : Passwords) (u : User) (m : Users) {out : UserResponse}
    → (store_user in_memory passwords u m).0 ≡ ok out
    → find_by_email u.email (store_user in_memory passwords u m).1 ≡ some u
unfolding store_user find_by_email create_user
found_after passwords u m e = elim (Option-cases (find_by_email u.email m)) [
  | inl free ↦ rw (free, create_user, text_eq_refl u.email) refl
  | inr (v, taken) ↦ absurd (let e' = rw (taken, create_user, after_store) at e in cc)
]

-- What a successful registration has stored.
registered :
    (passwords : Passwords) (id : Text) (now : Time) (req : RegisterRequest) (m : Users)
    {out : UserResponse}
    → (register in_memory passwords id now req m).0 ≡ ok out
    → (hash : Text) × (role : Role) × (passwords.hash req.password ≡ ok hash)
      × (parse_role req.role ≡ some role)
      × (find_by_email (normalize_email req.email) (register in_memory passwords id now req m).1
          ≡ some (new_user id now req hash role))
unfolding register register_as register_hashed store_user
registered passwords id now req m {out} e = elim (Option-cases (validate_register req)) [
  | inr (bad, invalid) ↦ absurd (let e' = rw (invalid, register) at e in cc)
  | inl valid ↦ elim (Option-cases (parse_role req.role)) [
    | inl no_role ↦ absurd (let e' = rw (valid, register, no_role) at e in cc)
    | inr (role, is) ↦ elim (Result-cases (passwords.hash req.password)) [
      | inr (why, fails) ↦ absurd (let e' = rw (valid, register, is, fails) at e in cc)
      | inl (hash, good) ↦
          let stored = rw (valid, register, is, good, register_hashed) at e in
          (
            hash,
            role,
            good,
            is,
            rw (valid, register, is, good, register_hashed)
                (found_after passwords (new_user id now req hash role) m stored),
          )
    ]
  ]
]

-- bcrypt's promise: a password matches its own hash.
abbrev pub ComparesOwn : Passwords → Type 0
ComparesOwn passwords =
    (password hash : Text)
    → passwords.hash password ≡ ok hash
    → passwords.compare hash password ≡ true

-- Over the in-memory repository: who has registered can log in, with the same password and any spelling of
-- the address that trims and lowers to the registered one. The token is issued for the user that the
-- registration has stored under the address, who has the new identifier, the requested name and
-- role, and is active.
pub login-register :
    (passwords : Passwords) (issue : User → Text × ℕ)
    → ComparesOwn passwords
    → (id : Text) (now : Time) (req : RegisterRequest) (m : Users) {out : UserResponse}
    → (register in_memory passwords id now req m).0 ≡ ok out
    → (email : Text) → normalize_email email ≡ normalize_email req.email
    → let m1 = (register in_memory passwords id now req m).1 in
      (u : User) × (find_by_email (normalize_email req.email) m1 ≡ some u)
      × (u.id ≡ id)
      × (u.name ≡ req.name)
      × (parse_role req.role ≡ some u.role)
      × (u.active ≡ true)
      × (login in_memory passwords issue (record { email = email; password = req.password }) m1 ≡ (
        ok (record {
          access_token = (issue u).0;
          token_type = text "Bearer";
          expires_in = (issue u).1;
        }),
        m1,
      ))
unfolding login login_found
login-register passwords issue own id now req m e email same =
    let (hash, role, good, is, stored) = registered passwords id now req m e in
    (
      new_user id now req hash role,
      stored,
      refl,
      refl,
      is,
      refl,
      rw (same, stored, own req.password hash good) refl,
    )
