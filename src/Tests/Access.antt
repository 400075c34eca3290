-- ===== src/Tests/Access.antt =====
-- internal/auth, internal/middleware: a token library of the simplest kind, and users.
use order_service_go_archite.Prelude.{
  true, ℕ, zero, suc, ◌+◌, ◌*◌, ◌/◌, ◌-◌, ◌≡◌, refl, if◌then◌else◌, ltb, Option, none, some, [],
  ◌∷◌, ◌++◌, map, length, take, drop, ℤ, pos, negsuc, Text, text, text_eq, trim_space, trim_left,
  is_space, to_lower, byte_len, ok, err, arith, ap, sym, text_eq_iff,
}
use order_service_go_archite.Errors.{wrap, plain, write}
use order_service_go_archite.Errors.Responses.{wrapped, both_plain, write_hides}
use order_service_go_archite.Money.Digits.{All}
use order_service_go_archite.Money.Separate.{is_no_dot}
use order_service_go_archite.Auth.{
  operator, User, Users, find_by_email, create_user, LoginRequest, RegisterRequest, Passwords,
  in_memory, after_store, validate_register, parse_role, login, register, register_as,
  register_hashed, store_user, normalize_email,
}
use order_service_go_archite.Auth.Login.{Decides, login-Decides, ComparesOwn, login-register}
use order_service_go_archite.Auth.Token.{
  Header, Payload, Claims, Codec, expired, second, issue, verify,
}
use order_service_go_archite.Auth.Token.RoundTrip.{CodecLaws, verify-issue}
use order_service_go_archite.Auth.Token.Sound.{Signed, verify_sound}

-- A text as numbers that are no dot.
abbrev shifted : Text → Text
shifted t = map (λ c. c + 47) t

abbrev int_text : ℤ → Text
int_text (pos n) = 0 ∷ n ∷ []
int_text (negsuc n) = 1 ∷ n ∷ []

abbrev read_int : ℕ → ℕ → ℤ
read_int zero n = pos n
read_int (suc _) n = negsuc n

abbrev read_payload : Text → Option Payload
read_payload (s ∷ n ∷ r ∷ k ∷ l ∷ t) =
    some (record { sub = take l t; role = drop l t; exp = read_int s n; iat = read_int r k })
read_payload _ = none

abbrev read_header : Text → Option Header
read_header (l ∷ t) = some (record { alg = take l t; typ = drop l t })
read_header [] = none

abbrev pub plain_codec : Codec
plain_codec = record {
  json_header = λ h. length h.alg ∷ (h.alg ++ h.typ);
  read_header = read_header;
  json_payload = λ p. int_text p.exp ++ (int_text p.iat ++ length p.sub ∷ (p.sub ++ p.role));
  read_payload = read_payload;
  encode = shifted;
  decode = λ t. some (map (λ c. c - 47) t);
  hmac = λ t. 7 ∷ t;
}

front : (s t : Text) → (take (length s) (s ++ t) ≡ s) × (drop (length s) (s ++ t) ≡ t)
front [] t = (refl, refl)
front (c ∷ s) t = let (a, b) = front s t in (rw a refl, b)

shift_back : (t : Text) → map (λ c. c - 47) (shifted t) ≡ t
shift_back [] = refl
shift_back (c ∷ t) = let e : c + 47 - 47 ≡ c = omega arith in rw (e, shift_back t) refl

no_dots : (t : Text) → All is_no_dot (shifted t)
no_dots [] = tt
no_dots (c ∷ t) = (ground arith, no_dots t)

read_signs :
    (a b : ℤ) (s t : Text)
    → read_payload (int_text a ++ (int_text b ++ length s ∷ (s ++ t)))
      ≡ some (record { sub = s; role = t; exp = a; iat = b })
read_signs (pos a) (pos b) s t = let (x, y) = front s t in rw (x, y) refl
read_signs (pos a) (negsuc b) s t = let (x, y) = front s t in rw (x, y) refl
read_signs (negsuc a) (pos b) s t = let (x, y) = front s t in rw (x, y) refl
read_signs (negsuc a) (negsuc b) s t = let (x, y) = front s t in rw (x, y) refl

plain_codec_laws : CodecLaws plain_codec
plain_codec_laws = record {
  read-json_header = λ h. let (x, y) = front h.alg h.typ in rw (x, y) refl;
  read-json_payload = λ p _ _. read_signs p.exp p.iat p.sub p.role;
  decode-encode = λ t. ap (λ (x : Text). some x) (shift_back t);
  encode_no_dot = no_dots;
}

abbrev pub ann_token : Text
ann_token = (issue plain_codec 3600000000000 5000000000 (text "ann") operator).0

verify-issue_example : verify plain_codec 6000000000 ann_token ≡ (
    if ltb 6000000000 ((5000000000 + 3600000000000) / second * second)
    then ok (record {
      user_id = text "ann";
      role = operator;
      expires_at = pos ((5000000000 + 3600000000000) / second * second);
    })
    else err expired)
verify-issue_example =
    verify-issue plain_codec_laws 3600000000000 5000000000 6000000000 (text "ann") operator
      (omega arith)

abbrev pub ann_claims : Claims
ann_claims = record { user_id = text "ann"; role = operator; expires_at = pos 3605000000000 }

pub ann_verified : verify plain_codec 6000000000 ann_token ≡ ok ann_claims
ann_verified = verify-issue_example

verify_sound_example : Signed plain_codec 6000000000 ann_token ann_claims
verify_sound_example = verify_sound plain_codec 6000000000 ann_token ann_verified

-- A hash that only marks the password.
abbrev pub marked : Passwords
marked = record { hash = λ p. ok (9 ∷ p); compare = λ h p. text_eq h (9 ∷ p) }

marked_own : ComparesOwn marked
marked_own p h e = let same : 9 ∷ p ≡ h = cc (e) in (text_eq_iff h (9 ∷ p)).1 (sym same)

abbrev pub ann_request : RegisterRequest
ann_request = record {
  name = text "Ann";
  email = text "Ann@example.com";
  password = text "secret";
  role = text "OPERATOR";
}

abbrev token_for : User → Text × ℕ
token_for u = issue plain_codec 3600000000000 5000000000 u.id u.role

runs : Unit {0}
unfolding register register_as register_hashed store_user after_store create_user find_by_email
    validate_register parse_role byte_len trim_space trim_left is_space to_lower
runs = tt

ann_registers :
    (register in_memory marked (text "u1") 5 ann_request []).0
    ≡ ok (record {
      id = text "u1";
      name = text "Ann";
      email = text "ann@example.com";
      role = text "OPERATOR";
    })
unfolding runs
ann_registers = refl

same_address : normalize_email (text " ANN@example.com ") ≡ normalize_email ann_request.email
unfolding runs
same_address = refl

abbrev with_ann : Users
with_ann = (register in_memory marked (text "u1") 5 ann_request []).1

login-register_example :
    (u : User) × (find_by_email (normalize_email ann_request.email) with_ann ≡ some u)
    × (u.id ≡ text "u1")
    × (u.name ≡ text "Ann")
    × (parse_role ann_request.role ≡ some u.role)
    × (u.active ≡ true)
    × (login in_memory marked token_for
          (record { email = text " ANN@example.com "; password = text "secret" })
          with_ann
        ≡ (
          ok (record {
            access_token = (token_for u).0;
            token_type = text "Bearer";
            expires_in = (token_for u).1;
          }),
          with_ann,
        ))
login-register_example =
    login-register marked token_for marked_own (text "u1") 5 ann_request [] ann_registers
      (text " ANN@example.com ") same_address

abbrev stranger : LoginRequest
stranger = record { email = text "eve@example.com"; password = text "secret" }

login-Decides_example :
    Decides in_memory marked token_for stranger with_ann
      (login in_memory marked token_for stranger with_ann).0
    × ((login in_memory marked token_for stranger with_ann).1 ≡ with_ann)
login-Decides_example = login-Decides in_memory marked token_for stranger with_ann

write_hides_example :
    write (wrap (text "while saving") (plain (text "connection refused")))
    ≡ write (plain (text "timeout"))
write_hides_example =
    write_hides
      (wrapped (text "while saving") (both_plain (text "connection refused") (text "timeout")))
