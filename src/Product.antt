-- ===== src/Product.antt =====
-- The error of the product clients (frontend/lib/product-api/errors.ts, ProductApiError), without
-- its cause. Product/Errors builds it from the body of a failed response.
pub mod Errors
pub mod Normalize
mod Tests
use reinforcement_learning_c.Prelude.{ℕ, String, Option, none, some, List, []}
use reinforcement_learning_c.Json.{Number, Json}

pub data PathPart : Type 0 where
  index : Number → PathPart
  name : String → PathPart

pub record ErrorDetail : Type 0 where
  pub message : String
  pub code : Option String
  pub field : Option String
  pub path : Option (List PathPart)
  pub value : Option Json

pub record ProductApiError : Type 0 where
  pub message : String
  pub status : ℕ
  pub status_text : Option String
  pub code : Option String
  pub details : List ErrorDetail
  pub field_errors : List (String × List String)

-- `malformedProductApiResponse`
unfoldable pub malformed_product_api_response : String → ProductApiError
malformed_product_api_response message = record {
  message = message;
  status = 502;
  status_text = some "Bad Gateway";
  code = some "MALFORMED_PRODUCT_API_RESPONSE";
  details = [];
  field_errors = [];
}
