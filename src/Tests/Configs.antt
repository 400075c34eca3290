-- ===== src/Tests/Configs.antt =====
-- internal/config: an environment with two numbers set.
use order_service_go_archite.Prelude.{
  ◌≡◌, refl, if◌then◌else◌, pos, text, Text, text_eq, ok, parse_int, parse_uint, parse_digits,
}
use order_service_go_archite.Config.{
  Config, load, load_numbers, int_or, load_checked, missing_one, valid_log_level,
}
use order_service_go_archite.Config.Loaded.{Usable, load-Usable}

abbrev environment : Text → Text
environment key =
    if text_eq key (text "DATABASE_URL")
    then text "postgres://db"
    else (if text_eq key (text "REDIS_ADDR")
        then text "redis:6379"
        else (if text_eq key (text "JWT_SECRET")
            then text "secret"
            else (if text_eq key (text "ORDER_MAX_RETRIES") then text "5" else text "")))

abbrev loaded : Config
loaded = record {
  app_env = text "development";
  http_port = text "8080";
  database_url = text "postgres://db";
  redis_addr = text "redis:6379";
  redis_password = text "";
  jwt_secret = text "secret";
  jwt_expiration_minutes = pos 120;
  order_worker_count = pos 3;
  order_max_retries = pos 5;
  transient_failure_total = text "";
  metrics_port = text "9090";
  log_level = text "info";
}

loads : load environment ≡ ok loaded
unfolding load load_numbers int_or load_checked missing_one valid_log_level parse_int parse_uint
    parse_digits
loads = refl

load-Usable_example : Usable loaded
load-Usable_example = load-Usable environment loads
