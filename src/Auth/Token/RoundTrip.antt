-- ===== src/Auth/Token/RoundTrip.antt =====
-- internal/auth/jwt.go: what `Verify` makes of an issued token.
use order_service_go_archite.Prelude.{
  IsInt64, two63, ◌<◌, ◌≤◌, ℕ, ◌+◌, ◌*◌, ◌/◌, ◌≡◌, refl, if◌then◌else◌, Bool, true, not, some, ◌∷◌,
  ◌++◌, pos, ◌*ℤ◌, ltb, ltb_ℤ, Text, text, text_eq, text_eq_iff, ok, err, arith,
}
use order_service_go_archite.Money.Digits.{All}
use order_service_go_archite.Money.Separate.{is_no_dot, split-three}
use order_service_go_archite.Order.Model.{Time}
use order_service_go_archite.Auth.{Role, admin, operator, role_text, parse_role}
use order_service_go_archite.Auth.Token.{
  Header, Payload, Codec, expired, second, alg_hs256, header_segment, payload_segment, payload_of,
  issue, check_role, check_payload, check_signature, check_header, verify_parts, verify,
}

-- What the token code relies on: what is encoded is read back, and base64url has no dot.
pub record CodecLaws (codec : Codec) : Type 0 where
  pub read-json_header : (h : Header) → codec.read_header (codec.json_header h) ≡ some h
  -- The two times of a payload are int64s.
  pub read-json_payload :
      (p : Payload)
      → IsInt64 p.exp
      → IsInt64 p.iat
      → codec.read_payload (codec.json_payload p) ≡ some p
  pub decode-encode : (t : Text) → codec.decode (codec.encode t) ≡ some t
  pub encode_no_dot : (t : Text) → All is_no_dot (codec.encode t)

parse_role-role_text : (r : Role) → parse_role (role_text r) ≡ some r
unfolding parse_role
parse_role-role_text admin = refl
parse_role-role_text operator = refl

text_eq_refl : (t : Text) → text_eq t t ≡ true
text_eq_refl t = (text_eq_iff t t).1 refl

pos_times : (a b : ℕ) → pos a *ℤ pos b ≡ pos (a * b)
unfolding ◌*ℤ◌
pos_times a b = ground arith

-- The two tests of a time before another.
early : (a b : ℕ) → ltb_ℤ (pos a) (pos b) ≡ ltb a b
early a b = ground arith

if_not :
    {A : Type 0} (x y : A) {a b : Bool} → a ≡ b → (if not a then x else y) ≡ (if b then y else x)
if_not x y {a} e = ground arith

-- A token that is issued for an expiry in the range of int64 seconds is verified as the claims that it was issued for, until the second in which it
-- expires; from then on it is refused as expired.
pub verify-issue :
    {codec : Codec}
    → CodecLaws codec
    → (expiry : ℕ) (issued now : Time) (user_id : Text) (role : Role)
    → (issued + expiry) / second < two63
    → let end = (issued + expiry) / second * second in
      verify codec now (issue codec expiry issued user_id role).0 ≡ (
        if ltb now end
        then ok (record { user_id = user_id; role = role; expires_at = pos end })
        else err expired)
unfolding verify issue
verify-issue {codec} laws expiry issued now user_id role fits =
    let begun : issued / second ≤ (issued + expiry) / second = ground arith in
    let header : Header = record { alg = alg_hs256; typ = text "JWT" } in
    let payload = payload_of codec expiry issued user_id role in
    let signing = header_segment codec header ++ b'.' ∷ payload_segment codec payload in
    rw
      (
        split-three (header_segment codec header) (payload_segment codec payload)
            (codec.encode (codec.hmac signing)) (laws.encode_no_dot _) (laws.encode_no_dot _)
            (laws.encode_no_dot _),
        verify_parts,
        laws.decode-encode (codec.json_header header),
        laws.read-json_header header,
        check_header,
        laws.decode-encode (codec.hmac signing),
        check_signature,
        text_eq_refl (codec.hmac signing),
        laws.decode-encode (codec.json_payload payload),
        laws.read-json_payload payload (fits, omega arith) (omega arith, omega arith),
        check_payload,
        parse_role-role_text role,
        check_role,
        pos_times ((issued + expiry) / second) second,
      )
      (if_not _ _ (early now _))
