-- ===== src/Server/Signup.antt =====
-- internal/server/router.go with internal/auth: what the public registration route makes.
use order_service_go_archite.Prelude.{◌≡◌, refl, none, some, ◌∷◌, Text, text, text_eq_iff, ok}
use order_service_go_archite.Auth.{
  admin, User, Users, RegisterRequest, UserResponse, normalize_email, find_by_email, create_user,
  validate_register, parse_role, new_user, store_user, after_store, register_hashed, register_as,
  in_memory,
}
use order_service_go_archite.Auth
use order_service_go_archite.Auth.Handler as AuthHandler
use order_service_go_archite.Http.{Request, replied, decode_json}
use order_service_go_archite.Server
use order_service_go_archite.Server.{
  Draw, Services, Backend, user, serve, after_guard, guard, group, handle,
}

-- The address is now an ADMIN's, and the answer says so.
abbrev pub IsAdmin : {S : Type 0} → RegisterRequest → Server.Answer × Backend S → Type 0
IsAdmin req (answer, b) =
    ((out : UserResponse) × (answer ≡ user (replied 201 out)) × (out.role ≡ text "ADMIN"))
    × ((u : User) × (find_by_email (normalize_email req.email) b.users ≡ some u) × (u.role ≡ admin))

parse_role-admin : (t : Text) → t ≡ text "ADMIN" → parse_role t ≡ some admin
unfolding parse_role
parse_role-admin t e = rw e refl

module _ {S : Type 0} (v : Services S) where
  abbrev made : Draw → RegisterRequest → Text → User
  made d req hash = new_user d.id_text d.now req hash admin

  registered :
      (d : Draw) (m : Users) (req : RegisterRequest) {hash : Text}
      → req.role ≡ text "ADMIN"
      → validate_register req ≡ none
      → v.passwords.hash req.password ≡ ok hash
      → find_by_email (normalize_email req.email) m ≡ none
      → Auth.register in_memory v.passwords d.id_text d.now req m ≡ (
        ok (record {
          id = d.id_text;
          name = req.name;
          email = normalize_email req.email;
          role = text "ADMIN";
        }),
        (normalize_email req.email, made d req hash) ∷ m,
      )
  unfolding Auth.register register_as register_hashed store_user after_store create_user
  registered d m req role valid hashed free =
      rw
        (
          valid,
          Auth.register,
          parse_role-admin req.role role,
          register_as,
          hashed,
          register_hashed,
          free,
          create_user,
          after_store,
        )
        refl

  handled :
      (d : Draw) (r : Request) (m : Users) (req : RegisterRequest)
      → v.readers.read_register r.body ≡ some req
      → AuthHandler.register in_memory v.passwords v.readers.read_register d.id_text d.now r m
        ≡ AuthHandler.register_decoded in_memory v.passwords d.id_text d.now (ok req) m
  unfolding AuthHandler.register decode_json
  handled d r m req read = rw (read, decode_json) refl

  -- Whatever its headers, so without any token, a registration of a free address with a valid name and
  -- password and the role ADMIN makes an ADMIN of that address.
  pub registers-IsAdmin :
      (d : Draw) (r : Request) (b : Backend S) (req : RegisterRequest) {hash : Text}
      → v.readers.read_register r.body ≡ some req
      → req.role ≡ text "ADMIN"
      → validate_register req ≡ none
      → v.passwords.hash req.password ≡ ok hash
      → find_by_email (normalize_email req.email) b.users ≡ none
      → IsAdmin req (serve v Server.register d r b)
  unfolding serve after_guard guard group handle AuthHandler.register_decoded find_by_email
  registers-IsAdmin d r b req {hash} read role valid hashed free =
      let found = (text_eq_iff (normalize_email req.email) (normalize_email req.email)).1 refl in
      rw (handled d r b.users req read, registered d b.users req role valid hashed free)
        ((_, refl, refl), (made d req hash, rw found refl, refl))
