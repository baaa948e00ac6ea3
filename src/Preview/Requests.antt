-- ===== src/Preview/Requests.antt =====
-- Idempotency receipts of the preview: `receipt` and the comparison of normalized request bodies.
-- Two bodies have the same sorted JSON text exactly when all their fields agree, so the model
-- keeps the body itself and compares field by field.
use Prim.Native.Char.{code}
use reinforcement_learning_c.Prelude.{
  String, Bool, true, false, not, ◌&&◌, Option, none, some, Result, ok, err, ◌==◌, nat_eq,
  string_eq, leb, lookup, if◌then◌else◌, is_empty, units,
}
use reinforcement_learning_c.Decision.{Mode, live, simulation_only}
use reinforcement_learning_c.Preview.{
  ApiFailure, failure, Body, create_body, command_body, Choice, approve, reject, commit, Store,
  CaseResponse,
}

unfoldable pub same_mode : Mode → Mode → Bool
same_mode live live = true
same_mode simulation_only simulation_only = true
same_mode _ _ = false

unfoldable pub same_note : Option String → Option String → Bool
same_note none none = true
same_note (some a) (some b) = a == b
same_note _ _ = false

unfoldable pub same_choice : Choice → Choice → Bool
unfolding same_note
same_choice (approve c v n) (approve d w m) = c == d && v == w && same_note n m
same_choice (reject n) (reject m) = n == m
same_choice (commit c v) (commit d w) = c == d && v == w
same_choice _ _ = false

unfoldable pub same_body : Body → Body → Bool
same_body (create_body a) (create_body b) =
    a.factory_id == b.factory_id
    && a.expected_snapshot_id == b.expected_snapshot_id
    && a.expected_plan_version == b.expected_plan_version
    && same_mode a.mode b.mode
    && a.trigger == b.trigger
same_body (command_body a) (command_body b) =
    a.decision_case_id == b.decision_case_id
    && a.recommendation_id == b.recommendation_id
    && a.expected_snapshot_id == b.expected_snapshot_id
    && a.expected_plan_version == b.expected_plan_version
    && a.expected_case_revision == b.expected_case_revision
    && same_choice a.choice b.choice
same_body _ _ = false

-- /^[\x21-\x7e]{1,128}$/
all_printable : String → Bool
all_printable String.[] = true
all_printable (String.◌∷◌ c s) = leb 0x21 (code c) && leb (code c) 0x7e && all_printable s

unfoldable pub is_key : String → Bool
unfolding all_printable units
is_key k = all_printable k && not (is_empty k) && leb (units k) 128

-- The stored response of the key, `none` for a new key.
unfoldable pub receipt : Store → String → Body → Result ApiFailure (Option CaseResponse)
unfolding same_body is_key
receipt s key body =
    if not (is_key key)
    then err (failure 400 "VALIDATION_ERROR")
    else elim (lookup key s.receipts) [
      | none ↦ ok none
      | some r ↦
          if same_body r.body body
          then ok (some r.response)
          else err (failure 409 "IDEMPOTENCY_KEY_REUSED")
    ]
