-- ===== src/Catalog.antt =====
-- What the in-memory repositories of internal/customer and internal/product share: a map of records
-- by identifier with a second field, the document or the SKU, by which a record is found as well.
pub mod Unique
pub mod Put
use order_service_go_archite.Prelude.{
  ℕ, ◌==◌, if◌then◌else◌, Bool, Option, none, some, List, [], ◌∷◌, Text, text_eq,
}

-- `ErrNotFound`, or any other error of a repository, as its text.
pub data StoreError : Type 0 where
  missing : StoreError
  failure : Text → StoreError

-- The first record of the map whose field `key` is the text.
unfoldable pub find_by {ℓ} : {V : Type ℓ} → (V → Text) → Text → List (ℕ × V) → Option V
find_by key t [] = none
find_by key t ((_, v) ∷ m) = if text_eq (key v) t then some v else find_by key t m

abbrev pub values {ℓ} : {V : Type ℓ} → List (ℕ × V) → List V
values [] = []
values ((_, v) ∷ m) = v ∷ values m

-- A filter that is set and that the value does not meet.
abbrev pub fails {ℓ} : {A : Type ℓ} → (A → Bool) → Option A → Bool
fails bad none = Bool.false
fails bad (some a) = bad a
