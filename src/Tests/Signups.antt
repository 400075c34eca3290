-- ===== src/Tests/Signups.antt =====
-- internal/auth over HTTP: a stranger registers.
use order_service_go_archite.Prelude.{
  ◌≡◌, refl, some, none, text, trim_space, trim_left, is_space, byte_len,
}
use order_service_go_archite.Auth.{RegisterRequest, validate_register, find_by_email}
use order_service_go_archite.Server
use order_service_go_archite.Server.{Services, serve}
use order_service_go_archite.Server.Signup.{IsAdmin, registers-IsAdmin}
use order_service_go_archite.Tests.Requests.{Shop, services, shop, draw, delete_product}

abbrev eve : RegisterRequest
eve = record {
  name = text "Eve";
  email = text "eve@example.com";
  password = text "secret";
  role = text "ADMIN";
}

abbrev open_services : Services Shop
open_services = record services {
  readers = record (services.readers) { read_register = λ t. some eve };
}

eve_valid : validate_register eve ≡ none
unfolding validate_register trim_space trim_left is_space byte_len
eve_valid = refl

registers-IsAdmin_example :
    IsAdmin eve (serve open_services Server.register draw delete_product shop)
unfolding find_by_email
registers-IsAdmin_example =
    registers-IsAdmin open_services draw delete_product shop eve refl refl eve_valid refl refl
