-- ===== src/Errors/Codes.antt =====
-- internal/errors/app_error.go: the canonical error codes.
use order_service_go_archite.Prelude.{Text, text}

-- The canonical error codes.
pub data Code : Type 0 where
  validation unauthorized forbidden not_found duplicate invalid_order_status inactive_customer
        inactive_product internal :
      Code

unfoldable pub code_text : Code → Text
code_text Code.validation = text "VALIDATION_ERROR"
code_text Code.unauthorized = text "UNAUTHORIZED"
code_text Code.forbidden = text "FORBIDDEN"
code_text Code.not_found = text "RESOURCE_NOT_FOUND"
code_text Code.duplicate = text "DUPLICATE_RESOURCE"
code_text Code.invalid_order_status = text "INVALID_ORDER_STATUS"
code_text Code.inactive_customer = text "INACTIVE_CUSTOMER"
code_text Code.inactive_product = text "INACTIVE_PRODUCT"
code_text Code.internal = text "INTERNAL_ERROR"
