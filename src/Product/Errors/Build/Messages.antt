-- ===== src/Product/Errors/Build/Messages.antt =====
-- The error of a failed response has a message (frontend/lib/product-api/errors.ts,
-- productApiErrorFromPayload).
use Prim.Native.String.{◌++◌ as str_append}
use package.text.Mathlib.TextLemmas.{cons-append}
use reinforcement_learning_c.Prelude.{
  ℕ, String, false, Option, none, some, List, [], ◌∷◌, All, is_blank, Bool-cases, inl, inr,
}
use reinforcement_learning_c.Json.{
  Number, Json, Fields, null, boolean, number, text, array, object, decimal, member, record_of,
  text_of,
}
use reinforcement_learning_c.Json.Texts.{IsText, IsOptionalText, text_of-IsOptionalText}
use reinforcement_learning_c.Product.{ErrorDetail}
use reinforcement_learning_c.Product.Errors.{
  text_or, fields_or_none, error_fields, detail_with, normalize_detail, normalize_details,
  candidate_values, put_detail, or_later, first_details, collect_details,
}
use reinforcement_learning_c.Product.Errors.Build.{
  text_or_else, first_message, product_api_error_from_payload,
}

text_or-IsOptionalText :
    (a b : Option String) → IsOptionalText a → IsOptionalText b → IsOptionalText (text_or a b)
text_or-IsOptionalText none b ha hb = hb
text_or-IsOptionalText (some s) b ha hb = ha

text_or_else-IsText :
    (a : Option String) (s : String) → IsOptionalText a → IsText s → IsText (text_or_else a s)
text_or_else-IsText none s ha hs = hs
text_or_else-IsText (some t) s ha hs = ha

abbrev IsToldDetail : ErrorDetail → Type 0
IsToldDetail d = IsText d.message

abbrev IsTold : Option ErrorDetail → Type 0
IsTold none = Unit
IsTold (some d) = IsToldDetail d

put_detail-IsToldDetail :
    (d : Option ErrorDetail) (ds : List ErrorDetail)
    → IsTold d
    → All IsToldDetail ds
    → All IsToldDetail (put_detail d ds)
put_detail-IsToldDetail none ds h hs = hs
put_detail-IsToldDetail (some d) ds h hs = (h, hs)

or_later-IsToldDetail :
    (ds later : List ErrorDetail)
    → All IsToldDetail ds
    → All IsToldDetail later
    → All IsToldDetail (or_later ds later)
or_later-IsToldDetail [] later h hs = hs
or_later-IsToldDetail (d ∷ ds) later h hs = h

first_message-IsOptionalText :
    (ds : List ErrorDetail) → All IsToldDetail ds → IsOptionalText (first_message ds)
first_message-IsOptionalText [] h = tt
first_message-IsOptionalText (d ∷ ds) h = h.0

last_resort-IsText :
    (s : String) → IsText (str_append "Product API request failed (" (str_append s ")"))
unfolding is_blank
last_resort-IsText s = rw (cons-append "P" "roduct API request failed (" (str_append s ")"))

module _ (show : Number → String) where
  detail_with-IsTold :
      (m : Option String) (fs : Fields) → IsOptionalText m → IsTold (detail_with show m fs)
  unfolding detail_with
  detail_with-IsTold none fs h = tt
  detail_with-IsTold (some s) fs h = h

  normalize_detail-IsTold : (v : Json) → IsTold (normalize_detail show v)
  unfolding normalize_detail
  normalize_detail-IsTold (text s) = elim (Bool-cases (is_blank s)) [
    | inl blank ↦ rw blank tt
    | inr full ↦ rw full full
  ]
  normalize_detail-IsTold (object fs) =
      detail_with-IsTold (text_or (text_of (member "message" fs)) (text_of (member "msg" fs))) fs (
        text_or-IsOptionalText (text_of (member "message" fs)) (text_of (member "msg" fs))
          (text_of-IsOptionalText (member "message" fs)) (text_of-IsOptionalText (member "msg" fs)))
  normalize_detail-IsTold null = tt
  normalize_detail-IsTold (boolean b) = tt
  normalize_detail-IsTold (number n) = tt
  normalize_detail-IsTold (array vs) = tt

  normalize_details-IsToldDetail : (vs : List Json) → All IsToldDetail (normalize_details show vs)
  unfolding normalize_details
  normalize_details-IsToldDetail [] = tt
  normalize_details-IsToldDetail (v ∷ vs) =
      put_detail-IsToldDetail (normalize_detail show v) (normalize_details show vs)
        (normalize_detail-IsTold v) (normalize_details-IsToldDetail vs)

  first_details-IsToldDetail : (cs : List (Option Json)) → All IsToldDetail (first_details show cs)
  unfolding first_details
  first_details-IsToldDetail [] = tt
  first_details-IsToldDetail (c ∷ cs) =
      or_later-IsToldDetail (normalize_details show (candidate_values c)) (first_details show cs)
        (normalize_details-IsToldDetail (candidate_values c)) (first_details-IsToldDetail cs)

  collect_details-IsToldDetail :
      (payload : Fields) → All IsToldDetail (collect_details show payload)
  unfolding collect_details
  collect_details-IsToldDetail payload = first_details-IsToldDetail (
      member "details" (error_fields payload)
      ∷ member "detail" (error_fields payload)
      ∷ member "details" payload
      ∷ member "detail" payload
      ∷ member "errors" payload
      ∷ [])

  -- The message of an error is never blank, if the status text of the response is not.
  pub product_api_error_from_payload-IsText :
      (payload : Option Json) (status : ℕ) (status_text : Option String)
      → IsOptionalText status_text
      → IsText (product_api_error_from_payload show payload status status_text).message
  unfolding product_api_error_from_payload
  product_api_error_from_payload-IsText payload status status_text h =
      let body : Fields = fields_or_none (record_of payload) in
      let error : Fields = error_fields body in
      text_or_else-IsText _ _
        (text_or-IsOptionalText _ _ (text_of-IsOptionalText (member "message" error)) (
          text_or-IsOptionalText _ _ (text_of-IsOptionalText (member "message" body)) (
            text_or-IsOptionalText _ status_text
              (first_message-IsOptionalText _ (collect_details-IsToldDetail body)) h)))
        (last_resort-IsText (show (decimal false status 0)))
