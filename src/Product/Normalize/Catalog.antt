-- ===== src/Product/Normalize/Catalog.antt =====
-- The catalog of policies (frontend/lib/product-api/normalize.ts, normalizePolicyCatalog).
use reinforcement_learning_c.Prelude.{
  String, Bool, Option, none, some, List, [], ◌∷◌, Result, ok, ◌>>=◌, need,
}
use reinforcement_learning_c.Json.{Json, null, text, object, text_of, array_of}
use reinforcement_learning_c.Product.{ProductApiError, malformed_product_api_response}
use reinforcement_learning_c.Product.Normalize.{
  first, required_record, optional_boolean, unwrap_resource, PolicyReference, policy_reference,
}

pub record PolicyCatalogItem : Type 0 where
  pub reference : PolicyReference
  pub description : Option Json  -- a text or null
  pub config : Option Json  -- a record or null
  pub available : Option Bool
  pub created_at : Option String
  pub updated_at : Option String

unfoldable pub text_or_null : Option Json → Option Json
text_or_null (some null) = some null
text_or_null (some (text s)) = some (text s)
text_or_null _ = none

unfoldable pub record_or_null : Option Json → Option Json
record_or_null (some null) = some null
record_or_null (some (object fs)) = some (object fs)
record_or_null _ = none

-- `normalizePolicyCatalogItem`
unfoldable pub policy_catalog_item : Json → Result ProductApiError PolicyCatalogItem
unfolding first text_or_null record_or_null required_record
policy_catalog_item v = do
  fs ← required_record (some v) "policy catalog item"
  reference ← policy_reference (some (object fs))
  ok (record {
    reference = reference;
    description = text_or_null (first ("description" ∷ []) fs);
    config = record_or_null (first ("config" ∷ "config_json" ∷ "configJson" ∷ []) fs);
    available =
        optional_boolean (first ("available" ∷ "is_available" ∷ "isAvailable" ∷ "active" ∷ []) fs);
    created_at = text_of (first ("created_at" ∷ "createdAt" ∷ []) fs);
    updated_at = text_of (first ("updated_at" ∷ "updatedAt" ∷ []) fs);
  })

unfoldable pub map_items {ℓ} :
    {A : Type ℓ} → (Json → Result ProductApiError A) → List Json → Result ProductApiError (List A)
map_items read [] = ok []
map_items read (v ∷ vs) = do a ← read v; rest ← map_items read vs; ok (a ∷ rest)

catalog_items : Json → Option Json
catalog_items (object fs) = first ("items" ∷ "policies" ∷ []) fs
catalog_items v = some v

-- `normalizePolicyCatalog`
unfoldable pub policy_catalog : Json → Result ProductApiError (List PolicyCatalogItem)
unfolding catalog_items map_items
policy_catalog payload = do
  items ←
      need (array_of (catalog_items (unwrap_resource ("policies" ∷ "items" ∷ []) payload)))
        (malformed_product_api_response "Product API policy response is not a list.")
  map_items policy_catalog_item items
