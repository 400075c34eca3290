-- ===== src/Order/Status.antt =====
-- internal/order/status.go: the lifecycle states and the transition table.
pub mod Graph
use order_service_go_archite.Prelude.{
  ℕ, ◌-◌, Bool, true, false, ◌&&◌, ◌||◌, ◌==◌, leb, if◌then◌else◌, Option, none, some, List, [],
  ◌∷◌, map, Text, text, text_eq, trim_space,
}

pub data OrderStatus : Type 0 where
  created processing paid shipped canceled failed : OrderStatus

unfoldable pub status_text : OrderStatus → Text
status_text created = text "CREATED"
status_text processing = text "PROCESSING"
status_text paid = text "PAID"
status_text shipped = text "SHIPPED"
status_text canceled = text "CANCELED"
status_text failed = text "FAILED"

-- `==` of two status values.
abbrev pub status_eq : OrderStatus → OrderStatus → Bool
status_eq created created = true
status_eq processing processing = true
status_eq paid paid = true
status_eq shipped shipped = true
status_eq canceled canceled = true
status_eq failed failed = true
status_eq _ _ = false

abbrev pub all_statuses : List OrderStatus
all_statuses = created ∷ processing ∷ paid ∷ shipped ∷ canceled ∷ failed ∷ []

-- `strings.ToUpper` as far as a comparison with ASCII text shows: the two letters outside ASCII
-- with an upper case inside it are ı and ſ.
unfoldable pub to_upper : ℕ → ℕ
to_upper c =
    if leb b'a' c && leb c b'z'
    then c - 32
    else (if c == 0x131 then b'I' else (if c == 0x17f then b'S' else c))

-- The `switch` on the normalised text.
unfoldable pub status_of_text : Text → List OrderStatus → Option OrderStatus
status_of_text t [] = none
status_of_text t (s ∷ ss) = if text_eq t (status_text s) then some s else status_of_text t ss

unfoldable pub parse_order_status : Text → Option OrderStatus
unfolding status_of_text status_text to_upper
parse_order_status raw = status_of_text (trim_space (map to_upper raw)) all_statuses

unfoldable pub can_transition : OrderStatus → OrderStatus → Bool
can_transition created to = status_eq to processing || status_eq to canceled
can_transition processing to = status_eq to paid || status_eq to failed
can_transition paid to = status_eq to shipped
can_transition _ to = false
