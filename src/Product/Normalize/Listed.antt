-- ===== src/Product/Normalize/Listed.antt =====
-- The records and lists that frontend/lib/product-api/normalize.ts takes from answers.
use reinforcement_learning_c.Prelude.{
  String, Option, none, some, List, [], ◌∷◌, ◌≡◌, arith, Ensures, Result, ◌>>=◌, need-Ensures,
}
use reinforcement_learning_c.Json.{
  Json, Fields, null, boolean, number, text, array, object, no_values, values_list, member,
  record_of, array_of,
}
use reinforcement_learning_c.Product.{ProductApiError}
use reinforcement_learning_c.Product.Errors.{nullish_or}
use reinforcement_learning_c.Product.Normalize.{first, missing, required_record}

-- What a member that is looked for says: it is the list, or there is none, which `rest` is asked of.
abbrev pub IsListIn : Option Json → List Json → Type 0 → Type 0
IsListIn none vs rest = rest
IsListIn (some null) vs rest = vs ≡ []
IsListIn (some (array given)) vs rest = vs ≡ values_list given
IsListIn (some (boolean b)) vs rest = ⊥
IsListIn (some (number n)) vs rest = ⊥
IsListIn (some (text s)) vs rest = ⊥
IsListIn (some (object fs)) vs rest = ⊥

-- The list under the first of the keys that the record has; empty if it has none, or null there.
abbrev pub IsListAt : List String → Fields → List Json → Type 0
IsListAt [] fs vs = vs ≡ []
IsListAt (key ∷ keys) fs vs = IsListIn (member key fs) vs (IsListAt keys fs vs)

pub array_of-IsListAt :
    (keys : List String) (fs : Fields) {vs : List Json}
    → array_of (nullish_or (first keys fs) (some (array no_values))) ≡ some vs
    → IsListAt keys fs vs
unfolding array_of nullish_or first values_list
array_of-IsListAt [] fs h = cc
array_of-IsListAt (key ∷ keys) fs {vs} h = at_member (array_of-IsListAt keys fs) (member key fs) h
  where
    at_member :
        (array_of (nullish_or (first keys fs) (some (array no_values))) ≡ some vs
          → IsListAt keys fs vs)
        → (o : Option Json)
        → array_of (
            nullish_or (elim o [ none ↦ first keys fs | some v ↦ some v ]) (some (array no_values)))
          ≡ some vs
        → IsListIn o vs (IsListAt keys fs vs)
    at_member later none e = later e
    at_member later (some null) e = cc
    at_member later (some (array given)) e = cc
    at_member later (some (boolean b)) e = absurd (ground arith)
    at_member later (some (number n)) e = absurd (ground arith)
    at_member later (some (text s)) e = absurd (ground arith)
    at_member later (some (object gs)) e = absurd (ground arith)

pub record_of-object :
    (o : Option Json) {fs : Fields} → record_of o ≡ some fs → o ≡ some (object fs)
unfolding record_of
record_of-object (some (object gs)) h = cc
record_of-object none h = absurd (ground arith)
record_of-object (some null) h = absurd (ground arith)
record_of-object (some (boolean b)) h = absurd (ground arith)
record_of-object (some (number n)) h = absurd (ground arith)
record_of-object (some (text s)) h = absurd (ground arith)
record_of-object (some (array vs)) h = absurd (ground arith)

pub required_record-Ensures {ℓ κ} :
    {A : Type ℓ} (P : A → Type κ) (o : Option Json) (label : String)
    (next : Fields → Result ProductApiError A)
    → ((fs : Fields) → o ≡ some (object fs) → Ensures P (next fs))
    → Ensures P (required_record o label >>= next)
unfolding required_record
required_record-Ensures P o label next h =
    need-Ensures P (record_of o) (missing label) next λ fs e. h fs (record_of-object o e)
