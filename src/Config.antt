-- ===== src/Config.antt =====
-- internal/config/config.go: the configuration read from the environment.

pub mod Loaded
use order_service_go_archite.Prelude.{
  ◌≡◌, ℕ, Bool, true, false, not, ◌||◌, if◌then◌else◌, Option, none, some, List, [], ◌∷◌, ℤ, pos,
  ltb_ℤ, Text, text, text_eq, is_blank, parse_int, Result, ok, err,
}

pub record Config : Type 0 where
  pub app_env : Text
  pub http_port : Text
  pub database_url : Text
  pub redis_addr : Text
  pub redis_password : Text
  pub jwt_secret : Text
  pub jwt_expiration_minutes : ℤ
  pub order_worker_count : ℤ
  pub order_max_retries : ℤ
  pub transient_failure_total : Text
  pub metrics_port : Text
  pub log_level : Text

-- The errors, with the variable that each names.
pub data ConfigError : Type 0 where
  is_missing not_an_integer : Text → ConfigError
  negative_max_retries invalid_log_level : ConfigError

abbrev pub value_or : (Text → Text) → Text → Text → Text
value_or getenv key fallback = let v = getenv key in if is_blank v then fallback else v

-- `strconv.Atoi` of a 64-bit platform.
unfoldable pub int_or : (Text → Text) → Text → ℤ → Result ConfigError ℤ
int_or getenv key fallback =
    let raw = getenv key in
    if is_blank raw
    then ok fallback
    else elim (parse_int raw) [ none ↦ err (not_an_integer key) | some n ↦ ok n ]

unfoldable pub valid_log_level : Text → Bool
valid_log_level level =
    text_eq level (text "debug")
    || text_eq level (text "info")
    || text_eq level (text "warn")
    || text_eq level (text "error")

-- The first required variable that is empty.
unfoldable pub missing_one : (Text → Text) → List Text → Option Text
missing_one getenv [] = none
missing_one getenv (name ∷ names) =
    if is_blank (getenv name) then some name else missing_one getenv names

abbrev pub required : List Text
required = text "DATABASE_URL" ∷ text "REDIS_ADDR" ∷ text "JWT_SECRET" ∷ []

module _ (getenv : Text → Text) where
  -- The configuration for the three numbers.
  abbrev pub built : ℤ → ℤ → ℤ → Config
  built minutes workers retries = record {
    app_env = value_or getenv (text "APP_ENV") (text "development");
    http_port = value_or getenv (text "HTTP_PORT") (text "8080");
    database_url = getenv (text "DATABASE_URL");
    redis_addr = getenv (text "REDIS_ADDR");
    redis_password = getenv (text "REDIS_PASSWORD");
    jwt_secret = getenv (text "JWT_SECRET");
    jwt_expiration_minutes = minutes;
    order_worker_count = workers;
    order_max_retries = retries;
    transient_failure_total = getenv (text "ORDER_TRANSIENT_FAILURE_TOTAL");
    metrics_port = value_or getenv (text "METRICS_PORT") (text "9090");
    log_level = value_or getenv (text "LOG_LEVEL") (text "info");
  }

  -- `Load` after its three numbers.
  unfoldable pub load_checked : ℤ → ℤ → ℤ → Result ConfigError Config
  load_checked minutes workers retries =
      if ltb_ℤ retries (pos 0)
      then err negative_max_retries
      else (let level = value_or getenv (text "LOG_LEVEL") (text "info") in
          if not (valid_log_level level)
          then err invalid_log_level
          else ok (built minutes workers retries))

  infixl 5 ◌>>=◌
  abbrev ◌>>=◌ :
      {A B : Type 0} → Result ConfigError A → (A → Result ConfigError B) → Result ConfigError B
  err e >>= k = err e
  ok a >>= k = k a

  unfoldable pub load_numbers : Result ConfigError Config
  unfolding int_or load_checked
  load_numbers = do
    minutes ← int_or getenv (text "JWT_EXPIRATION_MINUTES") (pos 120)
    workers ← int_or getenv (text "ORDER_WORKER_COUNT") (pos 3)
    retries ← int_or getenv (text "ORDER_MAX_RETRIES") (pos 3)
    load_checked minutes workers retries

  -- `Load`.
  unfoldable pub load : Result ConfigError Config
  unfolding missing_one load_numbers
  load = elim (missing_one getenv required) [
    | some name ↦ err (is_missing name)
    | none ↦ load_numbers
  ]
