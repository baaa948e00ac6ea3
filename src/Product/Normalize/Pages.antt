-- ===== src/Product/Normalize/Pages.antt =====
-- A page of the list of experiments (frontend/lib/product-api/normalize.ts: listCandidate and
-- normalizeExperimentPage). Numbers are exact, so `Math.ceil` of a quotient is a quotient of naturals;
-- a negative total counts as 0, since the number of pages is 1 at least.
pub mod Bounds
use Prim.Native.Nat.{◌/◌, max}
use reinforcement_learning_c.Prelude.{
  ℕ, ◌+◌, ◌-◌, String, Bool, true, false, not, Option, none, some, List, [], ◌∷◌, length, Result,
  ok, err, ◌>>=◌, need,
}
use reinforcement_learning_c.Json.{
  Number, decimal, Json, Fields, array, object, no_fields, field, member, record_of, array_of,
  values_list, natural_part,
}
use reinforcement_learning_c.Json.Numbers.{number_le}
use reinforcement_learning_c.Product.{ProductApiError, malformed_product_api_response}
use reinforcement_learning_c.Product.Errors.{nullish_or, fields_or_none}
use reinforcement_learning_c.Product.Normalize.{
  first, required_record, optional_integer, optional_boolean, or_else, get_or,
}
use reinforcement_learning_c.Product.Normalize.Catalog.{map_items}
use reinforcement_learning_c.Product.Normalize.Experiments.{
  ExperimentListItem, experiment_list_item,
}

pub record Candidate : Type 0 where
  pub items : List Json
  pub metadata : Fields

-- `{ ...root, ...pagination }`, read by `member`.
spread : Fields → Fields → Fields
spread no_fields root = root
spread (field key v pagination) root = field key v (spread pagination root)

metadata_with : Option Fields → Fields → Fields
metadata_with none root = root
metadata_with (some pagination) root = spread pagination root

abbrev item_keys : List String
item_keys = "items" ∷ "experiments" ∷ []

abbrev pagination_keys : List String
pagination_keys = "pagination" ∷ "meta" ∷ []

nested_candidate : Fields → Fields → Result ProductApiError Candidate
nested_candidate data_fields root = do
  items ←
      need (array_of (nullish_or (first item_keys data_fields) (first item_keys root)))
        (malformed_product_api_response "Product API experiment response is not a list.")
  ok (record {
    items = items;
    metadata =
        metadata_with
          (record_of (nullish_or (first pagination_keys data_fields) (first pagination_keys root)))
          root;
  })

root_candidate : Option (List Json) → Fields → Result ProductApiError Candidate
root_candidate (some items) root = ok (record {
  items = items;
  metadata = metadata_with (record_of (first pagination_keys root)) root;
})
root_candidate none root = nested_candidate (fields_or_none (record_of (member "data" root))) root

-- `listCandidate`
unfoldable pub list_candidate : Json → Result ProductApiError Candidate
unfolding root_candidate nested_candidate metadata_with spread nullish_or first required_record
list_candidate (array vs) = ok (record { items = values_list vs; metadata = no_fields })
list_candidate v = do
  root ← required_record (some v) "experiment list"
  root_candidate (array_of (member "data" root)) root

-- A natural number as JSON has it.
abbrev pub whole : ℕ → Number
whole n = decimal false n 0

-- `Math.max(1, Math.ceil(totalItems / Math.max(pageSize, 1)))`
unfoldable pub page_count : (total_items page_size : Number) → ℕ
page_count total_items page_size =
    let size = max (natural_part page_size) 1 in
    max 1 ((natural_part total_items + size - 1) / size)

pub record ExperimentPage : Type 0 where
  pub items : List ExperimentListItem
  pub page : Number
  pub page_size : Number
  pub total_items : Number
  pub total_pages : Number
  pub has_next : Bool
  pub has_previous : Bool

unfoldable pub page_with :
    (metadata : Fields) (items : List ExperimentListItem) (page page_size : ℕ) → ExperimentPage
unfolding page_count first optional_boolean
page_with metadata items requested_page requested_size =
    let page =
      get_or (optional_integer (first ("page" ∷ "current_page" ∷ "currentPage" ∷ []) metadata))
        (whole requested_page) in
    let page_size =
      get_or
        (optional_integer
          (first ("page_size" ∷ "pageSize" ∷ "limit" ∷ "per_page" ∷ "perPage" ∷ []) metadata))
        (whole requested_size) in
    let total_items =
      get_or
        (optional_integer (first ("total_items" ∷ "totalItems" ∷ "total" ∷ "count" ∷ []) metadata))
        (whole (length items)) in
    let total_pages =
      get_or (optional_integer (first ("total_pages" ∷ "totalPages" ∷ "pages" ∷ []) metadata))
        (whole (page_count total_items page_size)) in
    record {
      items = items;
      page = page;
      page_size = page_size;
      total_items = total_items;
      total_pages = total_pages;
      has_next =
          get_or (optional_boolean (first ("has_next" ∷ "hasNext" ∷ []) metadata))
            (not (number_le total_pages page));
      has_previous =
          get_or (optional_boolean (first ("has_previous" ∷ "hasPrevious" ∷ []) metadata))
            (not (number_le page (whole 1)));
    }

-- `normalizeExperimentPage`
unfoldable pub experiment_page : Json → (page page_size : ℕ) → Result ProductApiError ExperimentPage
unfolding list_candidate page_with map_items
experiment_page payload page page_size = do
  candidate ← list_candidate payload
  items ← map_items experiment_list_item candidate.items
  ok (page_with candidate.metadata items page page_size)
