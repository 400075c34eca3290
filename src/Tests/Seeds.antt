-- ===== src/Tests/Seeds.antt =====
-- internal/auth/seed.go over a small server with a unique address.
use order_service_go_archite.Prelude.{
  ◌≡◌, refl, if◌then◌else◌, Option, none, some, List, [], ◌∷◌, Text, text, text_eq, text_eq_iff,
  Result, ok, err,
}
use order_service_go_archite.Order.Model.{Time}
use order_service_go_archite.Auth.{Role, role_text, admin, operator, User, Users, find_by_email}
use order_service_go_archite.Auth.Postgres.{
  InsertError, pg_error, other_error, UserDatabase, select_user, insert_user, user_args, found_user,
  inserted,
}
use order_service_go_archite.Auth.Postgres
use order_service_go_archite.Auth.Seed.{seed_default_admin, after_find, after_hash, after_create}
use order_service_go_archite.Auth.Seed.Once.{UserServer, HasAdmin, seed_once}
use order_service_go_archite.Postgres.{Arg, text_arg, bool_arg, time_arg}
use order_service_go_archite.Tests.Access.{marked}

role_back : (r : Role) → (if text_eq (role_text r) (text "ADMIN") then admin else operator) ≡ r
role_back admin = refl
role_back operator = refl

abbrev asked : List Arg → Text
asked (text_arg t ∷ []) = t
asked _ = []

-- The user that the bound values of an insertion describe.
abbrev bound_user : List Arg → Option User
bound_user
      (text_arg id
        ∷ text_arg name
        ∷ text_arg email
        ∷ text_arg hash
        ∷ text_arg role
        ∷ bool_arg active
        ∷ time_arg made
        ∷ time_arg changed
        ∷ []) =
    some (record {
      id = id;
      name = name;
      email = email;
      password_hash = hash;
      role = if text_eq role (text "ADMIN") then admin else operator;
      active = active;
      created_at = made;
      updated_at = changed;
    })
bound_user _ = none

abbrev keyed : Option User → Option User → Users → Result InsertError (Unit {0}) × Users
keyed none taken m = (err (other_error (text "wrong values")), m)
keyed (some u) (some _) m = (err (pg_error (text "23505") (text "duplicate key")), m)
keyed (some u) none m = (ok tt, (u.email, u) ∷ m)

abbrev email_of : Option User → Text
email_of none = []
email_of (some u) = u.email

abbrev db : UserDatabase Users
db = record {
  one_user = λ q args m. (ok (find_by_email (asked args) m), m);
  insert = λ q args m. let u = bound_user args in keyed u (find_by_email (email_of u) m) m;
}

server : UserServer db (λ m e. find_by_email e m)
unfolding find_by_email
server = record {
  answers = λ e m. refl;
  asking_keeps = λ e m j. refl;
  stores = λ u m h. stored u m (find_by_email u.email m) refl h;
  refuses = λ u m h. taken u m (find_by_email u.email m) refl h;
}
  where
    stored :
        (u : User) (m : Users) (o : Option User)
        → find_by_email u.email m ≡ o
        → (keyed (bound_user (user_args u)) o m).0 ≡ ok tt
        → find_by_email u.email (keyed (bound_user (user_args u)) o m).1 ≡ some u
    stored u m (some v) is h = absurd (cc)
    stored u m none is h =
        let own = (text_eq_iff u.email u.email).1 refl in
        rw own (λ i. some (record u { role = role_back u.role i }))

    taken :
        (u : User) (m : Users) (o : Option User) {t : Text}
        → find_by_email u.email m ≡ o
        → (keyed (bound_user (user_args u)) o m).0 ≡ err (pg_error (text "23505") t)
        → (v : User) × (find_by_email u.email (keyed (bound_user (user_args u)) o m).1 ≡ some v)
    taken u m none is h = absurd (cc)
    taken u m (some v) is h = (v, is)

seed_ok : (seed_default_admin db marked (text "u1") 5 []).0 ≡ ok tt
unfolding seed_default_admin Postgres.find_by_email Postgres.create found_user inserted after_find
    after_hash after_create find_by_email
seed_ok = refl

seed_once_example :
    let s1 = (seed_default_admin db marked (text "u1") 5 []).1 in
    HasAdmin server marked s1
    × ((id' : Text) (now' : Time)
        → ((seed_default_admin db marked id' now' s1).0 ≡ ok tt)
          × ((e : Text)
              → find_by_email e (seed_default_admin db marked id' now' s1).1 ≡ find_by_email e s1))
seed_once_example = seed_once server marked (text "u1") 5 [] seed_ok
