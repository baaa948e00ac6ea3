-- ===== src/Product/Normalize.antt =====
-- Policies from answers (frontend/lib/product-api/normalize.ts), and the readers of members that all
-- of its normalizers share. A label of a missing member is a part of the message.
pub mod Catalog
pub mod Experiments
pub mod Episodes
pub mod Pages
pub mod Listed
pub mod Typed
pub mod Steps
mod Tests
use Prim.Native.String.{◌++◌ as str_append}
use reinforcement_learning_c.Prelude.{
  String, Bool, true, false, not, Option, none, some, List, [], ◌∷◌, string_eq, ◌==◌, any, Result,
  ok, err, ◌>>=◌, ◌>>◌, throw_if, need, if◌then◌else◌,
}
use reinforcement_learning_c.Json.{
  Number, Json, Fields, null, boolean, number, text, array, object, no_fields, field, member,
  record_of, text_of, array_of, is_integral,
}
use reinforcement_learning_c.Product.{ProductApiError, malformed_product_api_response}

-- `first(record, ...keys)`
unfoldable pub first : List String → Fields → Option Json
first [] fs = none
first (key ∷ keys) fs = elim (member key fs) [ none ↦ first keys fs | some v ↦ some v ]

abbrev pub missing : String → ProductApiError
missing label =
    malformed_product_api_response
      (str_append "Product API response is missing " (str_append label "."))

-- `requiredString`
unfoldable pub required_string : Option Json → (label : String) → Result ProductApiError String
required_string v label = need (text_of v) (missing label)

-- `requiredRecord`
unfoldable pub required_record : Option Json → (label : String) → Result ProductApiError Fields
required_record v label = need (record_of v) (missing label)

-- `optionalInteger`
unfoldable pub optional_integer : Option Json → Option Number
optional_integer (some (number n)) = if is_integral n then some n else none
optional_integer _ = none

-- `optionalBoolean`
unfoldable pub optional_boolean : Option Json → Option Bool
optional_boolean (some (boolean b)) = some b
optional_boolean _ = none

-- `a ?? b`, for values that are not null.
abbrev pub or_else {ℓ} : {A : Type ℓ} → Option A → Option A → Option A
or_else none b = b
or_else (some a) b = some a

abbrev pub get_or {ℓ} : {A : Type ℓ} → Option A → A → A
get_or none b = b
get_or (some a) b = a

-- `candidate[key]` of the first key that is there, or the candidate.
unfoldable pub resource_in : List String → Json → Json
resource_in keys (object fs) = get_or (first keys fs) (object fs)
resource_in keys v = v

-- `unwrapResource`
unfoldable pub unwrap_resource : List String → Json → Json
unfolding resource_in
unwrap_resource keys (object fs) = resource_in keys (get_or (member "data" fs) (object fs))
unwrap_resource keys v = v

pub record PolicyReference : Type 0 where
  pub id : String
  pub name : String
  pub version : String
  pub key : Option String

put_member : String → Option Json → Fields → Fields
put_member key none fs = fs
put_member key (some v) fs = field key v fs

policy_source_from : Option Fields → Fields → Fields
policy_source_from (some nested) fs = nested
policy_source_from none fs = put_member "id" (first ("policy_id" ∷ "policyId" ∷ []) fs) (
    put_member "key" (first ("policy_key" ∷ "policyKey" ∷ []) fs) (
      put_member "name" (first ("policy_name" ∷ "policyName" ∷ []) fs)
        (put_member "version" (first ("policy_version" ∷ "policyVersion" ∷ []) fs) no_fields)))

-- `normalizePolicySource`
unfoldable pub policy_source : Fields → Fields
unfolding policy_source_from put_member first
policy_source fs =
    policy_source_from (record_of (first ("policy" ∷ "selected_policy" ∷ "selectedPolicy" ∷ []) fs))
      fs

abbrev pub id_keys : List String
id_keys = "id" ∷ "policy_id" ∷ "policyId" ∷ "policy_key" ∷ "policyKey" ∷ "key" ∷ []

abbrev pub name_keys : List String
name_keys = "name" ∷ "display_name" ∷ "displayName" ∷ "policy_name" ∷ "policyName" ∷ []

abbrev pub version_keys : List String
version_keys = "version" ∷ "policy_version" ∷ "policyVersion" ∷ []

-- `normalizePolicyReference`
unfoldable pub policy_reference : Option Json → Result ProductApiError PolicyReference
unfolding required_record required_string first
policy_reference v = do
  fs ← required_record v "policy"
  id ← required_string (first id_keys fs) "policy id"
  version ← required_string (first version_keys fs) "policy version"
  let key = text_of (first ("key" ∷ "policy_key" ∷ "policyKey" ∷ []) fs)
  ok (record {
    id = id;
    name = get_or (text_of (first name_keys fs)) (get_or key id);
    version = version;
    key = key;
  })
