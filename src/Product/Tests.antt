-- ===== src/Product/Tests.antt =====
-- The body of a failed response with a detail, and the error that is made of it.
use reinforcement_learning_c.Prelude.{
  String, some, [], ◌∷◌, ◌++◌, ◌≡◌, refl, is_blank, insert, lookup,
}
use reinforcement_learning_c.Json.{
  Number, Json, Fields, text, array, object, no_values, value, no_fields, field, member, record_of,
  values_list, text_of,
}
use reinforcement_learning_c.Product.Errors.{normalize_detail, collect_details}
use reinforcement_learning_c.Product.Errors.Build.{
  messages_at, collect_field_errors, product_api_error_from_payload,
}
use reinforcement_learning_c.Product.Errors.Build.Given.{given_messages}
use reinforcement_learning_c.Product.Errors.Build.Grouped.{
  own_messages, messages_at-collect_field_errors,
}

checks : Unit {0}
unfolding product_api_error_from_payload normalize_detail is_blank member record_of values_list
    text_of insert lookup
checks = tt

abbrev show_any : Number → String
show_any n = "7"

abbrev detail : Json
detail = object (
    field "msg" (text "too small")
      (field "loc" (array (value (text "body") (value (text "spares") no_values))) no_fields))

abbrev body : Fields
body = field "detail" (array (value detail no_values)) no_fields

message_of_first_detail :
    (product_api_error_from_payload show_any
      (some (object body))
      422
      (some "Unprocessable")).message
    ≡ "too small"
unfolding checks
message_of_first_detail = refl

grouped_by_path :
    (product_api_error_from_payload show_any
      (some (object body))
      422
      (some "Unprocessable")).field_errors
    ≡ ("body.spares", "too small" ∷ []) ∷ []
unfolding checks
grouped_by_path = refl

messages_at-collect_field_errors_example :
    messages_at "body.spares" (collect_field_errors body (collect_details show_any body))
    ≡ given_messages "body.spares" no_fields
      ++ own_messages "body.spares" (collect_details show_any body)
unfolding checks
messages_at-collect_field_errors_example =
    messages_at-collect_field_errors body no_fields no_fields (collect_details show_any body)
      "body.spares" refl refl tt (refl, tt) refl
