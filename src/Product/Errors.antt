-- ===== src/Product/Errors.antt =====
-- The details in the bodies of failed responses (frontend/lib/product-api/errors.ts). `show` is what
-- `String` makes of a number. The members of an object are read as its own; the names that
-- `Object.prototype` has, such as `constructor`, are left out as field names.
pub mod Build
use Prim.Native.Char.{Char, code}
use Prim.Native.String.{◌++◌ as str_append}
use reinforcement_learning_c.Prelude.{
  ℕ, String, Bool, true, false, not, ◌&&◌, ◌||◌, Option, none, some, List, [], ◌∷◌, ◌++◌, map,
  nat_eq, ◌==◌, insert, lookup, is_text, is_empty, is_blank, if◌then◌else◌,
}
use reinforcement_learning_c.Json.{
  Number, Json, Fields, null, boolean, number, text, array, object, no_fields, field, decimal,
  infinite, values_list, member, record_of, text_of,
}
use reinforcement_learning_c.Product.{PathPart, index, name, ErrorDetail, ProductApiError}

-- `a ?? b`, where `undefined` and `null` give way.
unfoldable pub nullish_or : Option Json → Option Json → Option Json
nullish_or none b = b
nullish_or (some null) b = b
nullish_or (some v) b = some v

-- `a ?? b` on texts.
abbrev pub text_or : Option String → Option String → Option String
text_or none b = b
text_or (some s) b = some s

-- `value.split(".").filter(Boolean)`: the parts between dots that are not empty.
put_part : String → List PathPart → List PathPart
put_part part parts = if is_empty part then parts else name part ∷ parts

unfoldable pub split_path : (part : String) → String → List PathPart
unfolding put_part
split_path part String.[] = put_part part []
split_path part (String.◌∷◌ c s) =
    let rest = split_path "" s in
    let longer = split_path (str_append part (String.◌∷◌ c String.[])) s in
    if code c == 46 then put_part part rest else longer

unfoldable pub path_parts : List Json → List PathPart
path_parts [] = []
path_parts (number n ∷ vs) = index n ∷ path_parts vs
path_parts (text s ∷ vs) = name s ∷ path_parts vs
path_parts (_ ∷ vs) = path_parts vs

abbrev unless_empty {ℓ} : {A : Type ℓ} → List A → Option (List A)
unless_empty [] = none
unless_empty (x ∷ xs) = some (x ∷ xs)

-- `normalizePath`
unfoldable pub normalize_path : Option Json → Option (List PathPart)
unfolding split_path path_parts
normalize_path (some (text s)) = if is_blank s then none else some (split_path "" s)
normalize_path (some (array vs)) = unless_empty (path_parts (values_list vs))
normalize_path _ = none

abbrev pub plain_detail : String → ErrorDetail
plain_detail message = record {
  message = message;
  code = none;
  field = none;
  path = none;
  value = none;
}

abbrev pub put_detail : Option ErrorDetail → List ErrorDetail → List ErrorDetail
put_detail none ds = ds
put_detail (some d) ds = d ∷ ds

is_nonzero : Number → Bool
is_nonzero (decimal negative mantissa scale) = not (mantissa == 0)
is_nonzero (infinite negative) = true

-- `Array.isArray(candidate) ? candidate : candidate ? [candidate] : []`
unfoldable pub candidate_values : Option Json → List Json
unfolding is_nonzero
candidate_values none = []
candidate_values (some null) = []
candidate_values (some (boolean b)) = if b then boolean b ∷ [] else []
candidate_values (some (number n)) = if is_nonzero n then number n ∷ [] else []
candidate_values (some (text s)) = if is_empty s then [] else text s ∷ []
candidate_values (some (array vs)) = values_list vs
candidate_values (some (object fs)) = object fs ∷ []

abbrev pub or_later {ℓ} : {A : Type ℓ} → List A → List A → List A
or_later [] later = later
or_later (x ∷ xs) later = x ∷ xs

abbrev pub fields_or_none : Option Fields → Fields
fields_or_none none = no_fields
fields_or_none (some fs) = fs

-- `isRecord(payload.error) ? payload.error : {}`
abbrev pub error_fields : Fields → Fields
error_fields payload = fields_or_none (record_of (member "error" payload))

module _ (show : Number → String) where
  show_part : PathPart → String
  show_part (index n) = show n
  show_part (name s) = s

  -- `path.join(".")`
  unfoldable pub join_path : List PathPart → String
  unfolding show_part
  join_path [] = ""
  join_path (p ∷ []) = show_part p
  join_path (p ∷ q ∷ ps) = str_append (show_part p) (str_append "." (join_path (q ∷ ps)))

  -- `path?.length ? path.join(".") : undefined`
  unfoldable pub path_field : Option (List PathPart) → Option String
  unfolding join_path
  path_field none = none
  path_field (some []) = none
  path_field (some (p ∷ ps)) = some (join_path (p ∷ ps))

  unfoldable pub detail_with : Option String → Fields → Option ErrorDetail
  unfolding nullish_or normalize_path path_field
  detail_with none fs = none
  detail_with (some message) fs =
      let path = normalize_path (nullish_or (member "path" fs) (member "loc" fs)) in
      some (record {
        message = message;
        code = text_or (text_of (member "code" fs)) (text_of (member "type" fs));
        field = text_or (text_of (member "field" fs)) (path_field path);
        path = path;
        value = nullish_or (member "value" fs) (member "input" fs);
      })

  -- `normalizeDetail`
  unfoldable pub normalize_detail : Json → Option ErrorDetail
  unfolding detail_with
  normalize_detail (text s) = if is_blank s then none else some (plain_detail s)
  normalize_detail (object fs) =
      detail_with (text_or (text_of (member "message" fs)) (text_of (member "msg" fs))) fs
  normalize_detail _ = none

  unfoldable pub normalize_details : List Json → List ErrorDetail
  unfolding normalize_detail
  normalize_details [] = []
  normalize_details (v ∷ vs) = put_detail (normalize_detail v) (normalize_details vs)

  unfoldable pub first_details : List (Option Json) → List ErrorDetail
  unfolding normalize_details candidate_values
  first_details [] = []
  first_details (c ∷ cs) = or_later (normalize_details (candidate_values c)) (first_details cs)

  -- `collectDetails`
  unfoldable pub collect_details : Fields → List ErrorDetail
  unfolding first_details
  collect_details payload = first_details (
      member "details" (error_fields payload)
      ∷ member "detail" (error_fields payload)
      ∷ member "details" payload
      ∷ member "detail" payload
      ∷ member "errors" payload
      ∷ [])
