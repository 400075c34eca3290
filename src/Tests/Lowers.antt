-- ===== src/Tests/Lowers.antt =====
-- `strings.ToLower` inside and outside ASCII.
use order_service_go_archite.Prelude.{◌≡◌, refl, map, text, to_lower}

lowers : map to_lower (text "JOÃO Ÿ ǅ ΑΣ Жя Az9") ≡ text "joão ÿ ǆ ασ жя az9"
unfolding to_lower
lowers = refl
