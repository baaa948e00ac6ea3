-- ===== src/Json/Texts.antt =====
-- Texts that are not blank, which is what `text` of frontend/lib/decision-api/normalize.ts lets pass.
use reinforcement_learning_c.Prelude.{
  String, false, Option, none, some, ◌≡◌, is_blank, arith, Bool-cases, inl, inr,
}
use reinforcement_learning_c.Json.{Json, text, text_of}

abbrev pub IsText : String → Type 0
IsText s = is_blank s ≡ false

abbrev pub IsOptionalText : Option String → Type 0
IsOptionalText none = Unit
IsOptionalText (some s) = IsText s

pub text_of-IsText : (v : Option Json) {s : String} → text_of v ≡ some s → IsText s
unfolding text_of
text_of-IsText none h = ground arith
text_of-IsText (some (text s)) h = ground arith
text_of-IsText (some _) h = ground arith

pub text_of-IsOptionalText : (v : Option Json) → IsOptionalText (text_of v)
unfolding text_of
text_of-IsOptionalText none = tt
text_of-IsOptionalText (some (text s)) = elim (Bool-cases (is_blank s)) [
  | inl blank ↦ rw blank tt
  | inr full ↦ rw full full
]
text_of-IsOptionalText (some _) = tt
