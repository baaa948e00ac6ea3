-- ===== src/Product/Errors/Build/Given.antt =====
-- The field errors that the body of a failed response gives itself, in
-- frontend/lib/product-api/errors.ts.
use reinforcement_learning_c.Prelude.{
  String, Bool, true, false, is_blank, arith, refl, Option, none, some, List, [], ◌∷◌, ◌≡◌, ap, ◌∙◌,
  string_eq, ◌==◌, lookup-insert, lookup-insert_self, if◌then◌else◌, Bool-cases, inl, inr, eq_iff,
}
use reinforcement_learning_c.Json.{
  Json, Fields, null, boolean, number, text, array, object, no_fields, field, values_list, member,
  record_of, text_of,
}
use reinforcement_learning_c.Product.Errors.{nullish_or, fields_or_none, error_fields}
use reinforcement_learning_c.Product.Errors.Build.{
  FieldErrors, full_texts, message_values, put_messages, put_raw, messages_or, messages_at,
  raw_field_errors,
}

-- What is in the first of several members that is neither left out nor null: its members if it is a
-- record, and none otherwise.
abbrev pub IsRecordIn : Option Json → Fields → Type 0 → Type 0
IsRecordIn none fs rest = rest
IsRecordIn (some null) fs rest = rest
IsRecordIn (some (object gs)) fs rest = fs ≡ gs
IsRecordIn (some (boolean b)) fs rest = fs ≡ no_fields
IsRecordIn (some (number n)) fs rest = fs ≡ no_fields
IsRecordIn (some (text s)) fs rest = fs ≡ no_fields
IsRecordIn (some (array vs)) fs rest = fs ≡ no_fields

-- The record of field errors of a body: of its error, and otherwise its own.
abbrev pub AreFieldErrors : (payload error : Fields) → Fields → Type 0
AreFieldErrors payload error fs = IsRecordIn (member "field_errors" error) fs (
    IsRecordIn (member "fieldErrors" error) fs (
      IsRecordIn (member "field_errors" payload) fs
        (IsRecordIn (member "fieldErrors" payload) fs (fs ≡ no_fields))))

-- The texts of a value, alone or in a list, that are not blank.
abbrev texts_in : List Json → List String
texts_in [] = []
texts_in (text s ∷ vs) = let rest = texts_in vs in if is_blank s then rest else s ∷ rest
texts_in (null ∷ vs) = texts_in vs
texts_in (boolean b ∷ vs) = texts_in vs
texts_in (number n ∷ vs) = texts_in vs
texts_in (array ws ∷ vs) = texts_in vs
texts_in (object fs ∷ vs) = texts_in vs

abbrev texts_of : Json → List String
texts_of (array vs) = texts_in (values_list vs)
texts_of v = texts_in (v ∷ [])

abbrev pub or_earlier : List String → List String → List String
or_earlier [] earlier = earlier
or_earlier (m ∷ ms) earlier = m ∷ ms

-- The messages that a record has for a field: the last that are any.
unfoldable pub given_messages : String → Fields → List String
given_messages key no_fields = []
given_messages key (field k v fs) =
    let later = given_messages key fs in if k == key then or_earlier later (texts_of v) else later

full_texts-eq : (vs : List Json) → full_texts vs ≡ texts_in vs
unfolding full_texts text_of
full_texts-eq [] = refl
full_texts-eq (text s ∷ vs) = ground (arith, full_texts-eq vs)
full_texts-eq (null ∷ vs) = full_texts-eq vs
full_texts-eq (boolean b ∷ vs) = full_texts-eq vs
full_texts-eq (number n ∷ vs) = full_texts-eq vs
full_texts-eq (array ws ∷ vs) = full_texts-eq vs
full_texts-eq (object fs ∷ vs) = full_texts-eq vs

full_texts-message_values : (v : Json) → full_texts (message_values v) ≡ texts_of v
unfolding message_values
full_texts-message_values (array vs) = full_texts-eq (values_list vs)
full_texts-message_values null = full_texts-eq (null ∷ [])
full_texts-message_values (boolean b) = full_texts-eq (boolean b ∷ [])
full_texts-message_values (number n) = full_texts-eq (number n ∷ [])
full_texts-message_values (text s) = full_texts-eq (text s ∷ [])
full_texts-message_values (object fs) = full_texts-eq (object fs ∷ [])

messages_at-put_messages :
    (key k : String) (ms : List String) (result : FieldErrors)
    → messages_at key (put_messages k ms result)
      ≡ (if k == key then or_earlier ms (messages_at key result) else messages_at key result)
unfolding put_messages
messages_at-put_messages key k [] result = ground arith
messages_at-put_messages key k (m ∷ ms) result = elim (Bool-cases (k == key)) [
  | inl same ↦
      let e : k ≡ key = (eq_iff k key).0 same in
      rw same (rw e (ap messages_or (lookup-insert_self key (m ∷ ms) result)))
  | inr other ↦ rw other (rw (lookup-insert k key (m ∷ ms) result, other) refl)
]

pub or_earlier_nil : (ms : List String) → or_earlier ms [] ≡ ms
or_earlier_nil [] = refl
or_earlier_nil (m ∷ ms) = refl

or_earlier_assoc :
    (a b c : List String) → or_earlier a (or_earlier b c) ≡ or_earlier (or_earlier a b) c
or_earlier_assoc [] b c = refl
or_earlier_assoc (m ∷ ms) b c = refl

pub messages_at-put_raw :
    (key : String) (fs : Fields) (result : FieldErrors)
    → messages_at key (put_raw fs result)
      ≡ or_earlier (given_messages key fs) (messages_at key result)
unfolding put_raw given_messages
messages_at-put_raw key no_fields result = refl
messages_at-put_raw key (field k v fs) result =
    messages_at-put_raw key fs (put_messages k (full_texts (message_values v)) result)
    ∙ ap (or_earlier (given_messages key fs))
        (messages_at-put_messages key k (full_texts (message_values v)) result)
    ∙ rw (full_texts-message_values v) (by_key (k == key))
  where
    by_key :
        (b : Bool)
        → or_earlier
            (given_messages key fs)
            (if b then or_earlier (texts_of v) (messages_at key result) else messages_at key result)
          ≡ or_earlier
              (if b then or_earlier (given_messages key fs) (texts_of v) else given_messages key fs)
              (messages_at key result)
    by_key true = or_earlier_assoc (given_messages key fs) (texts_of v) (messages_at key result)
    by_key false = refl

pub fields_last :
    (o : Option Json) (fs : Fields)
    → IsRecordIn o fs (fs ≡ no_fields)
    → fs ≡ fields_or_none (record_of o)
unfolding record_of
fields_last none fs h = h
fields_last (some null) fs h = h
fields_last (some (object gs)) fs h = h
fields_last (some (boolean b)) fs h = h
fields_last (some (number n)) fs h = h
fields_last (some (text s)) fs h = h
fields_last (some (array vs)) fs h = h

fields_in :
    (o later : Option Json) (fs : Fields) (R : Type 0)
    → (R → fs ≡ fields_or_none (record_of later))
    → IsRecordIn o fs R
    → fs ≡ fields_or_none (record_of (nullish_or o later))
unfolding nullish_or record_of
fields_in none later fs R f h = f h
fields_in (some null) later fs R f h = f h
fields_in (some (object gs)) later fs R f h = h
fields_in (some (boolean b)) later fs R f h = h
fields_in (some (number n)) later fs R f h = h
fields_in (some (text s)) later fs R f h = h
fields_in (some (array vs)) later fs R f h = h

pub raw_field_errors-eq :
    (payload error fs : Fields)
    → error ≡ error_fields payload
    → AreFieldErrors payload error fs
    → fs ≡ raw_field_errors payload
unfolding raw_field_errors
raw_field_errors-eq payload error fs e h = rw (← e) (
    fields_in (member "field_errors" error) _ fs _
      (fields_in (member "fieldErrors" error) _ fs _ (
        fields_in (member "field_errors" payload) _ fs _
          (fields_last (member "fieldErrors" payload) fs)))
      h)
