-- ===== src/Auth/Token/Sound.antt =====
-- internal/auth/jwt.go: what `Verify` requires of a token, whoever made it.
use order_service_go_archite.Prelude.{
  ◌≡◌, refl, sym, ap, subst, true, Bool-cases, Option-cases, inl, inr, Option, none, some, List, [],
  ◌∷◌, ◌++◌, pos, ◌*ℤ◌, ltb_ℤ, Text, text_eq, text_eq_iff, split, ok,
}
use order_service_go_archite.Order.Model.{Time}
use order_service_go_archite.Auth.{parse_role}
use order_service_go_archite.Auth.Token.{
  Header, Payload, Claims, Codec, second, alg_hs256, decode_segment, check_role, check_payload,
  check_signature, check_header, verify_parts, verify,
}

module _ (codec : Codec) (now : Time) where
  -- A payload that is accepted: read from its segment, not expired, with a known role, and the source of the claims.
  abbrev pub Accepts : Payload → Claims → Type 0
  Accepts p c =
      (parse_role p.role ≡ some c.role)
      × (c.user_id ≡ p.sub)
      × (c.expires_at ≡ p.exp *ℤ pos second)
      × (ltb_ℤ (pos now) c.expires_at ≡ true)

  -- Three segments: a header with the algorithm, the payload, and the signature of the two.
  pub record Signed (token : Text) (c : Claims) : Type 0 where
    pub header : Text
    pub payload : Text
    pub signature : Text
    pub head : Header
    pub body : Payload
    pub segments : split b'.' token ≡ header ∷ payload ∷ signature ∷ []
    pub head_read : decode_segment codec codec.read_header header ≡ some head
    pub head_alg : head.alg ≡ alg_hs256
    pub signed : codec.decode signature ≡ some (codec.hmac (header ++ b'.' ∷ payload))
    pub body_read : decode_segment codec codec.read_payload payload ≡ some body
    pub accepts : Accepts body c

  payload_sound :
      (r : Option Payload) {c : Claims}
      → check_payload codec now r ≡ ok c
      → (p : Payload) × (r ≡ some p) × Accepts p c
  unfolding check_payload check_role
  payload_sound none e = absurd (cc)
  payload_sound (some p) {c} e = elim (Bool-cases (ltb_ℤ (pos now) (p.exp *ℤ pos second))) [
    | inr late ↦ absurd (let e' = rw late at e in cc)
    | inl early ↦ elim (Option-cases (parse_role p.role)) [
      | inl no_role ↦ absurd (let e' = rw (early, no_role) at e in cc)
      | inr (role, is) ↦
          let e' = rw (early, is) at e in
          let same : record { user_id = p.sub; role = role; expires_at = p.exp *ℤ pos second } ≡ c =
            cc in
          (p, refl, subst (λ x. Accepts p x) same (is, refl, refl, early))
    ]
  ]

  signature_sound :
      (h b : Text) (r : Option Text) {c : Claims}
      → check_signature codec now h b r ≡ ok c
      → (r ≡ some (codec.hmac (h ++ b'.' ∷ b)))
        × ((p : Payload) × (decode_segment codec codec.read_payload b ≡ some p) × Accepts p c)
  unfolding check_signature
  signature_sound h b none e = absurd (cc)
  signature_sound h b (some actual) {c} e =
      elim (Bool-cases (text_eq (codec.hmac (h ++ b'.' ∷ b)) actual)) [
        | inr forged ↦ absurd (let e' = rw forged at e in cc)
        | inl same ↦ (
          ap (λ t. some t) (sym ((text_eq_iff (codec.hmac (h ++ b'.' ∷ b)) actual).0 same)),
          payload_sound _ (rw same at e),
        )
      ]

  header_sound :
      (h b s : Text) (r : Option Header) {c : Claims}
      → check_header codec now h b s r ≡ ok c
      → (hd : Header) × (r ≡ some hd)
        × (hd.alg ≡ alg_hs256)
        × (check_signature codec now h b (codec.decode s) ≡ ok c)
  unfolding check_header
  header_sound h b s none e = absurd (cc)
  header_sound h b s (some hd) e = elim (Bool-cases (text_eq hd.alg alg_hs256)) [
    | inr other ↦ absurd (let e' = rw other at e in cc)
    | inl same ↦ (hd, refl, (text_eq_iff hd.alg alg_hs256).0 same, rw same at e)
  ]

  parts_sound :
      (parts : List Text) {c : Claims}
      → verify_parts codec now parts ≡ ok c
      → (h b s : Text) × (parts ≡ h ∷ b ∷ s ∷ [])
        × (check_header codec now h b s (decode_segment codec codec.read_header h) ≡ ok c)
  unfolding verify_parts
  parts_sound (h ∷ b ∷ s ∷ []) e = (h, b, s, refl, e)
  parts_sound [] e = absurd (cc)
  parts_sound (_ ∷ []) e = absurd (cc)
  parts_sound (_ ∷ _ ∷ []) e = absurd (cc)
  parts_sound (_ ∷ _ ∷ _ ∷ _ ∷ _) e = absurd (cc)

  -- A token is accepted only when it has three segments, its header names HS256, its signature is
  -- the HMAC of the two other segments, its role is a known one and its expiry lies ahead; the
  -- claims are those of its payload.
  pub verify_sound : (token : Text) {c : Claims} → verify codec now token ≡ ok c → Signed token c
  unfolding verify
  verify_sound token e =
      let (h, b, s, three, e1) = parts_sound (split b'.' token) e in
      let (hd, read, alg, e2) = header_sound h b s _ e1 in
      let (signed, (p, body, accepts)) = signature_sound h b _ e2 in
      record {
        header = h;
        payload = b;
        signature = s;
        head = hd;
        body = p;
        segments = three;
        head_read = read;
        head_alg = alg;
        signed = signed;
        body_read = body;
        accepts = accepts;
      }
