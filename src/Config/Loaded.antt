-- ===== src/Config/Loaded.antt =====
-- internal/config/config.go: what holds of a configuration that `Load` returns.
use order_service_go_archite.Prelude.{
  ◌≡◌, refl, subst, if◌then◌else◌, ℕ, ◌<◌, Bool, true, false, Bool-cases, Option-cases,
  Result-cases, inl, inr, Option, none, some, [], ◌∷◌, ℤ, pos, negsuc, ltb_ℤ, IsInt64, two63, Text,
  text, is_blank, parse_int, parse_uint, pos_in_range, neg_in_range, ok, arith, ◌==◌,
}
use order_service_go_archite.Config.{
  Config, value_or, int_or, valid_log_level, missing_one, required, built, load_checked,
  load_numbers, load,
}

-- A configuration that the rest of the program can rely on.
pub record Usable (c : Config) : Type 0 where
  pub has_database : is_blank c.database_url ≡ false
  pub has_redis : is_blank c.redis_addr ≡ false
  pub has_secret : is_blank c.jwt_secret ≡ false
  pub minutes_fit : IsInt64 c.jwt_expiration_minutes
  pub workers_fit : IsInt64 c.order_worker_count
  pub retries : ℕ
  pub retries_are : c.order_max_retries ≡ pos retries
  pub retries_fit : retries < two63
  pub level_known : valid_log_level c.log_level ≡ true

pos_in_range-IsInt64 : (n : Option ℕ) {a : ℤ} → pos_in_range n ≡ some a → IsInt64 a
pos_in_range-IsInt64 none e = absurd (cc)
pos_in_range-IsInt64 (some n) e = ground arith

neg_in_range-IsInt64 : (n : Option ℕ) {a : ℤ} → neg_in_range n ≡ some a → IsInt64 a
neg_in_range-IsInt64 none e = absurd (cc)
neg_in_range-IsInt64 (some n) e = ground arith

parse_int-IsInt64 : (t : Text) {a : ℤ} → parse_int t ≡ some a → IsInt64 a
unfolding parse_int
parse_int-IsInt64 [] e = absurd (cc)
parse_int-IsInt64 (c ∷ s) e = elim (Bool-cases (c == b'+')) [
  | inl plus ↦ pos_in_range-IsInt64 (parse_uint s) (rw plus at e)
  | inr other ↦ elim (Bool-cases (c == b'-')) [
    | inl dash ↦ neg_in_range-IsInt64 (parse_uint s) (rw (other, dash) at e)
    | inr digit ↦ pos_in_range-IsInt64 (parse_uint (c ∷ s)) (rw (other, digit) at e)
  ]
]

int_or-IsInt64 :
    (getenv : Text → Text) (key : Text) (fallback : ℤ) {a : ℤ}
    → IsInt64 fallback
    → int_or getenv key fallback ≡ ok a
    → IsInt64 a
unfolding int_or
int_or-IsInt64 getenv key fallback {a} h e = elim (Bool-cases (is_blank (getenv key))) [
  | inl unset ↦
      let e' : ok fallback ≡ ok a = rw unset at e in
      let same : fallback ≡ a = cc (e') in subst IsInt64 same h
  | inr set ↦ elim (Option-cases (parse_int (getenv key))) [
    | inl bad ↦ absurd (let e' = rw (set, bad) at e in cc)
    | inr (n, good) ↦
        let e' : ok n ≡ ok a = rw (set, good) at e in
        let same : n ≡ a = cc (e') in subst IsInt64 same (parse_int-IsInt64 (getenv key) good)
  ]
]

-- What the check of the required variables lets pass.
none_missing :
    (getenv : Text → Text)
    → missing_one getenv required ≡ none
    → (is_blank (getenv (text "DATABASE_URL")) ≡ false)
      × (is_blank (getenv (text "REDIS_ADDR")) ≡ false)
      × (is_blank (getenv (text "JWT_SECRET")) ≡ false)
unfolding missing_one
none_missing getenv e =
    let d = is_blank (getenv (text "DATABASE_URL")) in
    let r = is_blank (getenv (text "REDIS_ADDR")) in
    let j = is_blank (getenv (text "JWT_SECRET")) in go d r j _ _ _ e
  where
    go :
        (d r j : Bool) (x y z : Text)
        → (if d then some x else (if r then some y else (if j then some z else none))) ≡ none
        → (d ≡ false) × (r ≡ false) × (j ≡ false)
    go true r j x y z e = absurd (cc)
    go false true j x y z e = absurd (cc)
    go false false true x y z e = absurd (cc)
    go false false false x y z e = (refl, refl, refl)

checked_sound :
    (getenv : Text → Text) (minutes workers retries : ℤ) {c : Config}
    → missing_one getenv required ≡ none
    → IsInt64 minutes
    → IsInt64 workers
    → IsInt64 retries
    → load_checked getenv minutes workers retries ≡ ok c
    → Usable c
unfolding load_checked
checked_sound getenv minutes workers (negsuc n) full hm hw hr e =
    absurd (let low : ltb_ℤ (negsuc n) (pos 0) ≡ true = ground arith in let e' = rw low at e in cc)
checked_sound getenv minutes workers (pos n) {c} full hm hw hr e =
    let level = value_or getenv (text "LOG_LEVEL") (text "info") in
    let fine : ltb_ℤ (pos n) (pos 0) ≡ false = ground arith in
    elim (Bool-cases (valid_log_level level)) [
      | inr unknown ↦ absurd (let e' = rw (fine, unknown) at e in cc)
      | inl known ↦
          let (database, redis, secret) = none_missing getenv full in
          let e' = rw (fine, known) at e in
          let same : built getenv minutes workers (pos n) ≡ c = cc (e') in
          subst Usable same (record {
            has_database = database;
            has_redis = redis;
            has_secret = secret;
            minutes_fit = hm;
            workers_fit = hw;
            retries = n;
            retries_are = refl;
            retries_fit = hr.0;
            level_known = known;
          })
    ]

-- A configuration that is loaded names a database, a Redis address and a secret, has numbers of 64
-- bits, a number of retries that is not negative, and a known log level.
pub load-Usable : (getenv : Text → Text) {c : Config} → load getenv ≡ ok c → Usable c
unfolding load load_numbers
load-Usable getenv e = elim (Option-cases (missing_one getenv required)) [
  | inr (name, missing) ↦ absurd (let e' = rw (missing, load) at e in cc)
  | inl full ↦ elim (Result-cases (int_or getenv (text "JWT_EXPIRATION_MINUTES") (pos 120))) [
    | inr (why, bad) ↦ absurd (let e' = rw (full, load, bad) at e in cc)
    | inl (minutes, m_read) ↦
        elim (Result-cases (int_or getenv (text "ORDER_WORKER_COUNT") (pos 3))) [
          | inr (why, bad) ↦ absurd (let e' = rw (full, load, m_read, bad) at e in cc)
          | inl (workers, w_read) ↦
              elim (Result-cases (int_or getenv (text "ORDER_MAX_RETRIES") (pos 3))) [
                | inr (why, bad) ↦ absurd (let e' = rw (full, load, m_read, w_read, bad) at e in cc)
                | inl (retries, r_read) ↦
                    checked_sound getenv minutes workers retries full
                      (int_or-IsInt64 getenv _ (pos 120) (omega arith, omega arith) m_read)
                      (int_or-IsInt64 getenv _ (pos 3) (omega arith, omega arith) w_read)
                      (int_or-IsInt64 getenv _ (pos 3) (omega arith, omega arith) r_read)
                      (rw (full, load, m_read, w_read, r_read) at e)
              ]
        ]
  ]
]
