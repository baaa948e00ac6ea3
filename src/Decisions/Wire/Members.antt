-- ===== src/Decisions/Wire/Members.antt =====
-- What the readers of members in frontend/lib/decision-api/client.ts say of the records that they
-- read.
use mathlib.Core.List.{Memᴰ}
use reinforcement_learning_c.Prelude.{
  String, true, Option, none, some, List, [], ◌∷◌, ◌≡◌, refl, arith, Result, ◌>>=◌, Ensures,
  Bool-cases, inl, inr, string_eq, ◌==◌, eq_iff, need, need-Ensures,
}
use reinforcement_learning_c.Json.{
  Number, Json, Values, Fields, null, boolean, number, text, array, object, no_values, value,
  member, values_list, record_of, text_of, array_of, number_of, is_finite, finite_number,
}
use reinforcement_learning_c.Json.Texts.{IsText}
use reinforcement_learning_c.Product.{ProductApiError}
use reinforcement_learning_c.Decisions.Wire.{is_named, is_only_named, is_any_named, need_named}

-- A value is a name, or a list of one value that is the name.
pub data IsNamed (name : String) : Json → Type 0 where
  itself : {v : Json} → v ≡ text name → IsNamed name v
  only : {v : Json} (w : Json) → v ≡ array (value w no_values) → IsNamed name w → IsNamed name v

abbrev pub IsAnyNamed : List String → Json → Type 0
IsAnyNamed names v = (name : String) × Memᴰ name names × IsNamed name v

text_name : {s t : String} → s ≡ t → text s ≡ text t
text_name e = cc

is_named-IsNamed : (name : String) (v : Json) → is_named name v ≡ true → IsNamed name v
unfolding is_named is_only_named
is_named-IsNamed name (text s) h = let e : s ≡ name = (eq_iff s name).0 h in itself (text_name e)
is_named-IsNamed name (array (value w no_values)) h = only w refl (is_named-IsNamed name w h)
is_named-IsNamed name (array no_values) h = absurd (ground arith)
is_named-IsNamed name (array (value w (value x ws))) h = absurd (ground arith)
is_named-IsNamed name null h = absurd (ground arith)
is_named-IsNamed name (boolean b) h = absurd (ground arith)
is_named-IsNamed name (number n) h = absurd (ground arith)
is_named-IsNamed name (object fs) h = absurd (ground arith)

pub is_any_named-IsAnyNamed :
    (names : List String) (v : Json) → is_any_named names v ≡ true → IsAnyNamed names v
unfolding is_any_named
is_any_named-IsAnyNamed [] v h = absurd (ground arith)
is_any_named-IsAnyNamed (name ∷ names) v h = elim (Bool-cases (is_named name v)) [
  | inl own ↦ (name, Memᴰ.head refl, is_named-IsNamed name v own)
  | inr other ↦
      let (found, m, named) = is_any_named-IsAnyNamed names v (ground arith) in
      (found, Memᴰ.tail m, named)
]

-- A text is any of the names.
pub is_any_named-mem :
    (names : List String) (s : String) → is_any_named names (text s) ≡ true → Memᴰ s names
unfolding is_any_named is_named
is_any_named-mem [] s h = absurd (ground arith)
is_any_named-mem (name ∷ names) s h = elim (Bool-cases (s == name)) [
  | inl own ↦ Memᴰ.head ((eq_iff s name).0 own)
  | inr other ↦ Memᴰ.tail (is_any_named-mem names s (ground arith))
]

-- The kinds of members of a record.
abbrev pub HasText : String → Fields → String → Type 0
HasText key fs s = (member key fs ≡ some (text s)) × IsText s

abbrev pub HasNumber : String → Fields → Number → Type 0
HasNumber key fs n = member key fs ≡ some (number n)

abbrev pub HasRecord : String → Fields → Fields → Type 0
HasRecord key fs gs = member key fs ≡ some (object gs)

abbrev pub HasNamed : List String → String → Fields → Json → Type 0
HasNamed names key fs v = (member key fs ≡ some v) × IsAnyNamed names v

-- The member that is there if it is of its kind.
abbrev pub HasTextIfAny : String → Fields → Option String → Type 0
HasTextIfAny key fs none = (s : String) → HasText key fs s → ⊥
HasTextIfAny key fs (some s) = HasText key fs s

abbrev pub HasRecordIfAny : String → Fields → Option Fields → Type 0
HasRecordIfAny key fs none = (gs : Fields) → HasRecord key fs gs → ⊥
HasRecordIfAny key fs (some gs) = HasRecord key fs gs

abbrev pub HasFiniteIfAny : String → Fields → Option Number → Type 0
HasFiniteIfAny key fs none = (n : Number) → HasNumber key fs n → is_finite n ≡ true → ⊥
HasFiniteIfAny key fs (some n) = HasNumber key fs n × (is_finite n ≡ true)

text_of-IsTextOf :
    (o : Option Json) {s : String} → text_of o ≡ some s → (o ≡ some (text s)) × IsText s
unfolding text_of
text_of-IsTextOf none h = absurd (ground arith)
text_of-IsTextOf (some (text s)) h = ground arith
text_of-IsTextOf (some null) h = absurd (ground arith)
text_of-IsTextOf (some (boolean b)) h = absurd (ground arith)
text_of-IsTextOf (some (number n)) h = absurd (ground arith)
text_of-IsTextOf (some (array vs)) h = absurd (ground arith)
text_of-IsTextOf (some (object fs)) h = absurd (ground arith)

text_of-text : (s : String) → IsText s → text_of (some (text s)) ≡ some s
unfolding text_of
text_of-text s h = rw h refl

pub text_of-HasTextIfAny :
    (key : String) (fs : Fields) → HasTextIfAny key fs (text_of (member key fs))
text_of-HasTextIfAny key fs = at_text (text_of (member key fs)) refl
  where
    at_text : (o : Option String) → text_of (member key fs) ≡ o → HasTextIfAny key fs o
    at_text (some s) e = text_of-IsTextOf (member key fs) e
    at_text none e = λ s h.
        let found : text_of (member key fs) ≡ some s = rw h.0 (text_of-text s h.1) in cc (e, found)

pub record_of-IsObject :
    (o : Option Json) {fs : Fields} → record_of o ≡ some fs → o ≡ some (object fs)
unfolding record_of
record_of-IsObject (some (object gs)) h = cc
record_of-IsObject none h = absurd (ground arith)
record_of-IsObject (some null) h = absurd (ground arith)
record_of-IsObject (some (boolean b)) h = absurd (ground arith)
record_of-IsObject (some (number n)) h = absurd (ground arith)
record_of-IsObject (some (text s)) h = absurd (ground arith)
record_of-IsObject (some (array vs)) h = absurd (ground arith)

pub record_of-HasRecordIfAny :
    (key : String) (fs : Fields) → HasRecordIfAny key fs (record_of (member key fs))
unfolding record_of
record_of-HasRecordIfAny key fs = at_record (record_of (member key fs)) refl
  where
    at_record : (o : Option Fields) → record_of (member key fs) ≡ o → HasRecordIfAny key fs o
    at_record (some gs) e = record_of-IsObject (member key fs) e
    at_record none e =
        λ gs h. let found : record_of (member key fs) ≡ some gs = rw h refl in cc (e, found)

finite_number-IsFiniteOf :
    (o : Option Json) {n : Number}
    → finite_number o ≡ some n
    → (o ≡ some (number n)) × (is_finite n ≡ true)
unfolding finite_number
finite_number-IsFiniteOf (some (number n)) h = ground arith
finite_number-IsFiniteOf none h = absurd (ground arith)
finite_number-IsFiniteOf (some null) h = absurd (ground arith)
finite_number-IsFiniteOf (some (boolean b)) h = absurd (ground arith)
finite_number-IsFiniteOf (some (text s)) h = absurd (ground arith)
finite_number-IsFiniteOf (some (array vs)) h = absurd (ground arith)
finite_number-IsFiniteOf (some (object fs)) h = absurd (ground arith)

finite_number-number : (n : Number) → is_finite n ≡ true → finite_number (some (number n)) ≡ some n
unfolding finite_number
finite_number-number n h = rw h refl

pub finite_number-HasFiniteIfAny :
    (key : String) (fs : Fields) → HasFiniteIfAny key fs (finite_number (member key fs))
finite_number-HasFiniteIfAny key fs = at_number (finite_number (member key fs)) refl
  where
    at_number : (o : Option Number) → finite_number (member key fs) ≡ o → HasFiniteIfAny key fs o
    at_number (some n) e = finite_number-IsFiniteOf (member key fs) e
    at_number none e = λ n h finite.
        let found : finite_number (member key fs) ≡ some n = rw h (finite_number-number n finite) in
        cc (e, found)

number_of-IsNumber : (o : Option Json) {n : Number} → number_of o ≡ some n → o ≡ some (number n)
unfolding number_of
number_of-IsNumber (some (number n)) h = cc
number_of-IsNumber none h = absurd (ground arith)
number_of-IsNumber (some null) h = absurd (ground arith)
number_of-IsNumber (some (boolean b)) h = absurd (ground arith)
number_of-IsNumber (some (text s)) h = absurd (ground arith)
number_of-IsNumber (some (array vs)) h = absurd (ground arith)
number_of-IsNumber (some (object fs)) h = absurd (ground arith)

pub array_of-IsArray :
    (o : Option Json) {vs : List Json}
    → array_of o ≡ some vs
    → (ws : Values) × (o ≡ some (array ws)) × (vs ≡ values_list ws)
unfolding array_of
array_of-IsArray (some (array ws)) h = (ws, refl, cc)
array_of-IsArray none h = absurd (ground arith)
array_of-IsArray (some null) h = absurd (ground arith)
array_of-IsArray (some (boolean b)) h = absurd (ground arith)
array_of-IsArray (some (number n)) h = absurd (ground arith)
array_of-IsArray (some (text s)) h = absurd (ground arith)
array_of-IsArray (some (object fs)) h = absurd (ground arith)

module _ {ℓ κ} {A : Type ℓ} (P : A → Type κ) where
  pub need-HasText :
      (key : String) (fs : Fields) (e : ProductApiError) (next : String → Result ProductApiError A)
      → ((s : String) → HasText key fs s → Ensures P (next s))
      → Ensures P (need (text_of (member key fs)) e >>= next)
  need-HasText key fs e next h =
      need-Ensures P (text_of (member key fs)) e next
        λ s is_s. h s (text_of-IsTextOf (member key fs) is_s)

  pub need-HasNumber :
      (key : String) (fs : Fields) (e : ProductApiError) (next : Number → Result ProductApiError A)
      → ((n : Number) → HasNumber key fs n → Ensures P (next n))
      → Ensures P (need (number_of (member key fs)) e >>= next)
  need-HasNumber key fs e next h =
      need-Ensures P (number_of (member key fs)) e next
        λ n is_n. h n (number_of-IsNumber (member key fs) is_n)

  pub need-IsObject :
      (o : Option Json) (e : ProductApiError) (next : Fields → Result ProductApiError A)
      → ((gs : Fields) → o ≡ some (object gs) → Ensures P (next gs))
      → Ensures P (need (record_of o) e >>= next)
  need-IsObject o e next h =
      need-Ensures P (record_of o) e next λ gs is_gs. h gs (record_of-IsObject o is_gs)

  pub need-HasNamed :
      (names : List String) (key : String) (fs : Fields) (e : ProductApiError)
      (next : Json → Result ProductApiError A)
      → ((v : Json) → HasNamed names key fs v → Ensures P (next v))
      → Ensures P (need_named names (member key fs) e >>= next)
  unfolding need_named
  need-HasNamed names key fs e next h = at_member (member key fs) λ v same named. h v (same, named)
    where
      at_member :
          (o : Option Json)
          → ((v : Json) → o ≡ some v → IsAnyNamed names v → Ensures P (next v))
          → Ensures P (need_named names o e >>= next)
      at_member none k = tt
      at_member (some v) k = elim (Bool-cases (is_any_named names v)) [
        | inl named ↦ rw named (k v refl (is_any_named-IsAnyNamed names v named))
        | inr other ↦ rw other tt
      ]
