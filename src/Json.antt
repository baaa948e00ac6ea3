-- ===== src/Json.antt =====
-- JSON values as the clients meet them after `JSON.parse`, and the tests that their normalizers share
-- (`record`, `text` and `number` of frontend/lib/decision-api/normalize.ts, with their copies in
-- frontend/lib/product-api/errors.ts and normalize.ts). A number is a decimal or an infinity, which
-- `JSON.parse` makes of a literal that is too large; the rounding to binary64 is left out. The keys
-- of an object differ. A member that is absent, `undefined` in the source, is `none`.
pub mod Texts
pub mod Numbers
use reinforcement_learning_c.Prelude.{
  ℕ, zero, suc, ◌*◌, String, Bool, true, false, ◌||◌, Option, none, some, List, [], ◌∷◌, ◌==◌,
  string_eq, nat_eq, is_blank, Result, ok, err, if◌then◌else◌,
}
use Prim.Native.Nat.{◌%◌, ◌/◌}

pub data Number : Type 0 where
  decimal : (negative : Bool) (mantissa scale : ℕ) → Number  -- mantissa / 10 ^ scale
  infinite : (negative : Bool) → Number

mutual
  pub data Json : Type 0 where
    null : Json
    boolean : Bool → Json
    number : Number → Json
    text : String → Json
    array : Values → Json
    object : Fields → Json

  pub data Values : Type 0 where
    no_values : Values
    value : Json → Values → Values

  pub data Fields : Type 0 where
    no_fields : Fields
    field : (key : String) → Json → Fields → Fields

unfoldable pub values_list : Values → List Json
values_list no_values = []
values_list (value v vs) = v ∷ values_list vs

-- `record[key]`
unfoldable pub member : String → Fields → Option Json
member key no_fields = none
member key (field k v fs) = let rest = member key fs in if k == key then some v else rest

-- `record(value)`
unfoldable pub record_of : Option Json → Option Fields
record_of (some (object fs)) = some fs
record_of _ = none

-- `text(value)`: a string that is not blank, as it stands.
unfoldable pub text_of : Option Json → Option String
text_of (some (text s)) = if is_blank s then none else some s
text_of _ = none

unfoldable pub array_of : Option Json → Option (List Json)
array_of (some (array vs)) = some (values_list vs)
array_of _ = none

-- `typeof value === "number"`
unfoldable pub number_of : Option Json → Option Number
number_of (some (number n)) = some n
number_of _ = none

unfoldable pub is_finite : Number → Bool
is_finite (decimal negative mantissa scale) = true
is_finite (infinite negative) = false

-- `typeof value === "number" && Number.isFinite(value)`
unfoldable pub finite_number : Option Json → Option Number
unfolding is_finite
finite_number (some (number n)) = if is_finite n then some n else none
finite_number _ = none

unfoldable pub power : ℕ → ℕ → ℕ
power base zero = 1
power base (suc n) = base * power base n

-- `Number.isInteger(value)`
unfoldable pub is_integral : Number → Bool
unfolding power
is_integral (decimal negative mantissa scale) = mantissa % power 10 scale == 0
is_integral (infinite negative) = false

abbrev pub floor_of : Bool → ℕ → ℕ
floor_of true n = 0
floor_of false n = n

-- `Math.max(0, value)` of an integer.
unfoldable pub natural_part : Number → ℕ
unfolding power
natural_part (decimal negative mantissa scale) = floor_of negative (mantissa / power 10 scale)
natural_part (infinite negative) = 0

-- `options.includes(value)` for texts.
abbrev pub is_one_of : List String → Option Json → Bool
is_one_of [] v = false
is_one_of (o ∷ os) (some (text s)) = s == o || is_one_of os (some (text s))
is_one_of (o ∷ os) _ = false
