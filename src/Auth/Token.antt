-- ===== src/Auth/Token.antt =====
-- internal/auth/jwt.go: `TokenManager`. JSON, base64 and HMAC-SHA256 under the secret are arguments;
-- a time is in nanoseconds since the epoch, and an `exp` in seconds.
pub mod RoundTrip
pub mod Sound
use order_service_go_archite.Prelude.{
  ℕ, zero, suc, ◌+◌, ◌*◌, ◌/◌, ◌==◌, if◌then◌else◌, Bool, true, false, not, Option, none, some,
  List, [], ◌∷◌, ◌++◌, ℤ, pos, ◌*ℤ◌, ltb_ℤ, Text, text, text_eq, split, Result, ok, err,
}
use order_service_go_archite.Order.Model.{Time}
use order_service_go_archite.Auth.{Role, role_text, parse_role}

-- `jwtHeader` and `jwtPayload`. Both times of a payload are int64s in the code; a reader of JSON gives
-- no others, and the instants are taken to be such that a `time.Time` holds.
pub record Header : Type 0 where
  pub alg : Text
  pub typ : Text

pub record Payload : Type 0 where
  pub sub : Text
  pub role : Text
  pub exp : ℤ
  pub iat : ℤ

-- `ExpiresAt` in nanoseconds.
pub record Claims : Type 0 where
  pub user_id : Text
  pub role : Role
  pub expires_at : ℤ

pub record Codec : Type 0 where
  pub json_header : Header → Text
  pub read_header : Text → Option Header
  pub json_payload : Payload → Text
  pub read_payload : Text → Option Payload
  pub encode : Text → Text
  pub decode : Text → Option Text
  pub hmac : Text → Text

-- The reason that `ErrInvalidToken` is wrapped with.
pub data Refusal : Type 0 where
  expected_3_segments bad_header signature_encoding signature_mismatch bad_payload : Refusal
  expired bad_role : Refusal
  unexpected_alg : Text → Refusal

abbrev pub second : ℕ
second = 1000000000

abbrev pub alg_hs256 : Text
alg_hs256 = text "HS256"

module _ (codec : Codec) where
  -- `encodeSegment`, for the two values that are encoded.
  abbrev pub header_segment : Header → Text
  header_segment h = codec.encode (codec.json_header h)

  abbrev pub payload_segment : Payload → Text
  payload_segment p = codec.encode (codec.json_payload p)

  -- `decodeSegment`.
  abbrev pub decode_segment : {A : Type 0} → (Text → Option A) → Text → Option A
  decode_segment read segment = elim (codec.decode segment) [ none ↦ none | some raw ↦ read raw ]

  abbrev pub payload_of : ℕ → Time → Text → Role → Payload
  payload_of expiry now user_id role = record {
    sub = user_id;
    role = role_text role;
    exp = pos ((now + expiry) / second);
    iat = pos (now / second);
  }

  -- `Issue`: the token, and its expiry in seconds.
  unfoldable pub issue : ℕ → Time → Text → Role → Text × ℕ
  issue expiry now user_id role =
      let signing =
        header_segment (record { alg = alg_hs256; typ = text "JWT" })
        ++ b'.' ∷ payload_segment (payload_of expiry now user_id role) in
      (signing ++ b'.' ∷ codec.encode (codec.hmac signing), expiry / second)

  unfoldable pub check_role : Payload → Option Role → Result Refusal Claims
  check_role p none = err bad_role
  check_role p (some role) =
      ok (record { user_id = p.sub; role = role; expires_at = p.exp *ℤ pos second })

  -- `!now.Before(exp)` is expired.
  unfoldable pub check_payload : Time → Option Payload → Result Refusal Claims
  unfolding check_role
  check_payload now none = err bad_payload
  check_payload now (some p) =
      if not (ltb_ℤ (pos now) (p.exp *ℤ pos second))
      then err expired
      else check_role p (parse_role p.role)

  unfoldable pub check_signature : Time → Text → Text → Option Text → Result Refusal Claims
  unfolding check_payload
  check_signature now header payload none = err signature_encoding
  check_signature now header payload (some actual) =
      if not (text_eq (codec.hmac (header ++ b'.' ∷ payload)) actual)
      then err signature_mismatch
      else check_payload now (decode_segment codec.read_payload payload)

  unfoldable pub check_header : Time → Text → Text → Text → Option Header → Result Refusal Claims
  unfolding check_signature
  check_header now header payload signature none = err bad_header
  check_header now header payload signature (some h) =
      if not (text_eq h.alg alg_hs256)
      then err (unexpected_alg h.alg)
      else check_signature now header payload (codec.decode signature)

  unfoldable pub verify_parts : Time → List Text → Result Refusal Claims
  unfolding check_header
  verify_parts now (header ∷ payload ∷ signature ∷ []) =
      check_header now header payload signature (decode_segment codec.read_header header)
  verify_parts now [] = err expected_3_segments
  verify_parts now (_ ∷ []) = err expected_3_segments
  verify_parts now (_ ∷ _ ∷ []) = err expected_3_segments
  verify_parts now (_ ∷ _ ∷ _ ∷ _ ∷ _) = err expected_3_segments

  -- `Verify` at a time.
  unfoldable pub verify : Time → Text → Result Refusal Claims
  unfolding verify_parts
  verify now token = verify_parts now (split b'.' token)
