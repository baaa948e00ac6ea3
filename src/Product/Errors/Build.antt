-- ===== src/Product/Errors/Build.antt =====
-- Field errors, the error of a failed response and the text that a page shows for it
-- (frontend/lib/product-api/errors.ts: collectFieldErrors, productApiErrorFromPayload and
-- productApiErrorMessage).
pub mod Given
pub mod Grouped
pub mod Messages
use Prim.Native.String.{◌++◌ as str_append}
use reinforcement_learning_c.Prelude.{
  ℕ, String, Bool, true, false, not, ◌&&◌, ◌||◌, Option, none, some, List, [], ◌∷◌, ◌++◌, nat_eq,
  string_eq, ◌==◌, insert, lookup, is_text, is_empty, if◌then◌else◌,
}
use reinforcement_learning_c.Json.{
  Number, Json, Fields, array, no_fields, field, decimal, values_list, member, record_of, text_of,
}
use reinforcement_learning_c.Product.{ErrorDetail, ProductApiError}
use reinforcement_learning_c.Product.Errors.{
  nullish_or, text_or, fields_or_none, error_fields, collect_details,
}

-- `messages.map(nonEmptyString).filter(Boolean)`
put_message : Option String → List String → List String
put_message none ms = ms
put_message (some m) ms = m ∷ ms

unfoldable pub full_texts : List Json → List String
unfolding put_message
full_texts [] = []
full_texts (v ∷ vs) = put_message (text_of (some v)) (full_texts vs)

-- `Array.isArray(messages) ? messages : [messages]`
unfoldable pub message_values : Json → List Json
message_values (array vs) = values_list vs
message_values v = v ∷ []

abbrev pub FieldErrors : Type 0
FieldErrors = List (String × List String)

unfoldable pub put_messages : String → List String → FieldErrors → FieldErrors
put_messages key [] result = result
put_messages key (m ∷ ms) result = insert key (m ∷ ms) result

-- The loop over the entries of the body's field errors.
unfoldable pub put_raw : Fields → FieldErrors → FieldErrors
unfolding full_texts message_values put_messages
put_raw no_fields result = result
put_raw (field key v fs) result =
    put_raw fs (put_messages key (full_texts (message_values v)) result)

abbrev pub messages_or : Option (List String) → List String
messages_or none = []
messages_or (some ms) = ms

abbrev pub messages_at : String → FieldErrors → List String
messages_at key result = messages_or (lookup key result)

-- A detail is put under its field. A field that every object has by its prototype, where the source
-- throws, is like any other here.
unfoldable pub put_field : Option String → (message : String) → FieldErrors → FieldErrors
put_field none message result = result
put_field (some key) message result =
    if is_empty key then result else insert key (messages_at key result ++ message ∷ []) result

-- The loop over the details.
unfoldable pub put_detail_messages : List ErrorDetail → FieldErrors → FieldErrors
unfolding put_field
put_detail_messages [] result = result
put_detail_messages (d ∷ ds) result = put_detail_messages ds (put_field d.field d.message result)

-- The body's own field errors, under one of four names.
unfoldable pub raw_field_errors : Fields → Fields
unfolding nullish_or
raw_field_errors payload = fields_or_none (
    record_of (
      nullish_or (member "field_errors" (error_fields payload)) (
        nullish_or (member "fieldErrors" (error_fields payload))
          (nullish_or (member "field_errors" payload) (member "fieldErrors" payload)))))

-- `collectFieldErrors`
unfoldable pub collect_field_errors : Fields → List ErrorDetail → FieldErrors
unfolding raw_field_errors put_raw put_detail_messages
collect_field_errors payload details =
    put_detail_messages details (put_raw (raw_field_errors payload) [])

abbrev pub first_message : List ErrorDetail → Option String
first_message [] = none
first_message (d ∷ ds) = some d.message

abbrev pub text_or_else : Option String → String → String
text_or_else none s = s
text_or_else (some t) s = t

-- `productApiErrorFromPayload`
unfoldable pub product_api_error_from_payload :
    (show : Number → String) (payload : Option Json) (status : ℕ) (status_text : Option String)
    → ProductApiError
unfolding collect_details collect_field_errors
product_api_error_from_payload show payload status status_text =
    let body = fields_or_none (record_of payload) in
    let error = error_fields body in
    let details = collect_details show body in
    record {
      message =
          text_or_else
            (text_or (text_of (member "message" error)) (
              text_or (text_of (member "message" body))
                (text_or (first_message details) status_text)))
            (str_append "Product API request failed ("
              (str_append (show (decimal false status 0)) ")"));
      status = status;
      status_text = status_text;
      code = text_or (text_of (member "code" error)) (text_of (member "code" body));
      details = details;
      field_errors = collect_field_errors body details;
    }

-- What a client may catch: the redirect to the login page, a product error, another error with its
-- message, or a value that is no error.
pub data Caught : Type 0 where
  auth_redirect : Caught
  product : ProductApiError → Caught
  other_error : (message : String) → Caught
  no_error : Caught

unfoldable pub product_message : ProductApiError → (fallback : String) → String
product_message e fallback =
    if e.status == 401
    then "Your session has expired. Please sign in again."
    else if e.status == 403
    then "You are not authorized to perform this action."
    else if e.status == 0 || is_text e.code "NETWORK_ERROR"
    then str_append "Network error: " e.message
    else if e.status == 409
    then str_append "Conflict: " e.message
    else if is_empty e.message
    then fallback
    else e.message

-- `productApiErrorMessage`
unfoldable pub product_api_error_message : Caught → (fallback : String) → String
unfolding product_message
product_api_error_message auth_redirect fallback =
    "Your session has expired. Redirecting to sign in."
product_api_error_message (product e) fallback = product_message e fallback
product_api_error_message (other_error message) fallback =
    if is_empty message then fallback else message
product_api_error_message no_error fallback = fallback
