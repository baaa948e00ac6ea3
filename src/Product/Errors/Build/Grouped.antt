-- ===== src/Product/Errors/Build/Grouped.antt =====
-- No message of a detail is lost among the field errors of frontend/lib/product-api/errors.ts.
use reinforcement_learning_c.Prelude.{
  String, false, All, any, lookup, Option, none, some, List, [], ◌∷◌, ◌++◌, ◌≡◌, ap, sym, ◌∙◌,
  string_eq, ◌==◌, is_text, is_empty, lookup-insert, lookup-insert_self, if◌then◌else◌, Bool-cases,
  inl, inr, eq_iff,
}
use mathlib.Core.List.{append-nil, append_assoc}
use reinforcement_learning_c.Json.{Fields, no_fields, field, member}
use reinforcement_learning_c.Product.{ErrorDetail}
use reinforcement_learning_c.Product.Errors.Build.{
  FieldErrors, put_raw, messages_at, put_field, put_detail_messages, raw_field_errors,
  collect_field_errors,
}
use reinforcement_learning_c.Product.Errors.Build.Given.{
  IsRecordIn, AreFieldErrors, given_messages, messages_at-put_raw, or_earlier_nil, fields_last,
  raw_field_errors-eq,
}

-- The messages of the details whose field is `key`.
pub own_messages : String → List ErrorDetail → List String
own_messages key [] = []
own_messages key (d ∷ ds) =
    let rest = own_messages key ds in if is_text d.field key then d.message ∷ rest else rest

abbrev added : Option String → String → String → List String
added f key message = if is_text f key then message ∷ [] else []

messages_at-put_field_self :
    (key message : String) (result : FieldErrors)
    → is_empty key ≡ false
    → messages_at key (put_field (some key) message result) ≡ messages_at key result ++ message ∷ []
unfolding put_field
messages_at-put_field_self key message result full =
    rw (full, lookup-insert_self key (messages_at key result ++ message ∷ []) result)

messages_at-put_field_other :
    (key f message : String) (result : FieldErrors)
    → (f == key) ≡ false
    → messages_at key (put_field (some f) message result) ≡ messages_at key result
unfolding put_field
messages_at-put_field_other key f message result other = elim (Bool-cases (is_empty f)) [
  | inl empty ↦ rw empty
  | inr full ↦ rw (full, lookup-insert f key (messages_at f result ++ message ∷ []) result, other)
]

messages_at-put_field :
    (key : String) (f : Option String) (message : String) (result : FieldErrors)
    → is_empty key ≡ false
    → messages_at key (put_field f message result) ≡ messages_at key result ++ added f key message
unfolding put_field
messages_at-put_field key none message result full = sym (append-nil (messages_at key result))
messages_at-put_field key (some f) message result full = elim (Bool-cases (f == key)) [
  | inl same ↦
      let e : f ≡ key = (eq_iff f key).0 same in
      rw same (rw e (messages_at-put_field_self key message result full))
  | inr other ↦ rw other (
      messages_at-put_field_other key f message result other
      ∙ sym (append-nil (messages_at key result)))
]

own_messages_lem :
    (key : String) (d : ErrorDetail) (ds : List ErrorDetail)
    → own_messages key (d ∷ ds) ≡ added d.field key d.message ++ own_messages key ds
unfolding own_messages
own_messages_lem key d ds = elim (Bool-cases (is_text d.field key)) [
  | inl own ↦ rw own
  | inr foreign ↦ rw foreign
]

messages_at-put_detail_messages :
    (key : String) (ds : List ErrorDetail) (result : FieldErrors)
    → is_empty key ≡ false
    → messages_at key (put_detail_messages ds result)
      ≡ messages_at key result ++ own_messages key ds
unfolding put_detail_messages own_messages
messages_at-put_detail_messages key [] result full = sym (append-nil (messages_at key result))
messages_at-put_detail_messages key (d ∷ ds) result full =
    messages_at-put_detail_messages key ds (put_field d.field d.message result) full
    ∙ ap (λ ms. ms ++ own_messages key ds) (messages_at-put_field key d.field d.message result full)
    ∙ append_assoc (messages_at key result) (added d.field key d.message) (own_messages key ds)
    ∙ ap (λ ms. messages_at key result ++ ms) (sym (own_messages_lem key d ds))

-- A name that every object of JavaScript has.
abbrev pub inherited : List String
inherited =
    "constructor" ∷ "toString" ∷ "toLocaleString" ∷ "valueOf" ∷ "hasOwnProperty" ∷ "isPrototypeOf"
    ∷ "propertyIsEnumerable" ∷ "__proto__" ∷ "__defineGetter__" ∷ "__defineSetter__"
    ∷ "__lookupGetter__" ∷ "__lookupSetter__" ∷ []

abbrev pub IsPlain : String → Type 0
IsPlain name = any (λ n. n == name) inherited ≡ false

abbrev pub ArePlain : Fields → Type 0
ArePlain no_fields = Unit
ArePlain (field key v fs) = IsPlain key × ArePlain fs

abbrev pub HasPlainName : Option String → Type 0
HasPlainName none = Unit
HasPlainName (some name) = IsPlain name

abbrev pub HasPlainField : ErrorDetail → Type 0
HasPlainField d = HasPlainName d.field

-- Under each field that has a name, the errors are the texts that the body gives for it, alone or in
-- a list, and then the messages of the details of this field, in their order. What the body gives
-- is the first of `error.field_errors`, `error.fieldErrors`, `field_errors` and `fieldErrors` that
-- is there and not null. No field has a name that every object of JavaScript has.
pub messages_at-collect_field_errors :
    (payload error fs : Fields) (details : List ErrorDetail) (key : String)
    → IsRecordIn (member "error" payload) error (error ≡ no_fields)
    → AreFieldErrors payload error fs
    → ArePlain fs
    → All HasPlainField details
    → is_empty key ≡ false
    → messages_at key (collect_field_errors payload details)
      ≡ given_messages key fs ++ own_messages key details
unfolding collect_field_errors lookup
messages_at-collect_field_errors payload error fs details key is_error is_given plain named full =
    let own = fields_last (member "error" payload) error is_error in
    messages_at-put_detail_messages key details (put_raw (raw_field_errors payload) []) full
    ∙ ap (λ ms. ms ++ own_messages key details)
        (messages_at-put_raw key (raw_field_errors payload) []
          ∙ or_earlier_nil (given_messages key (raw_field_errors payload))
          ∙ ap (given_messages key) (sym (raw_field_errors-eq payload error fs own is_given)))
