-- ===== src/Decisions/Wire.antt =====
-- What the decision client makes of the bodies of answers (frontend/lib/decision-api/client.ts:
-- dataRecord, dataList, decisionFrom, actionFrom and the readers of single answers).
pub mod Members
pub mod Candidate
pub mod Sound
pub mod History
use reinforcement_learning_c.Prelude.{
  ℕ, suc, zero, String, Bool, true, false, ◌&&◌, ◌||◌, not, Option, none, some, List, [], ◌∷◌,
  string_eq, ◌==◌, Result, ok, err, ◌>>=◌, ◌>>◌, throw_if, if◌then◌else◌, need,
}
use Prim.Native.Nat.{max}
use reinforcement_learning_c.Json.{
  Number, Json, Values, Fields, null, boolean, number, text, array, object, no_values, value,
  member, record_of, text_of, array_of, number_of, finite_number, is_integral, natural_part,
}
use reinforcement_learning_c.Product.{ProductApiError, malformed_product_api_response}
use reinforcement_learning_c.Decisions.{
  MaintenanceDecision, MaintenanceDecisionAction, DecisionHistory,
}

unfoldable mutual
  -- `String(value) === name`, for a name that is neither empty nor with a comma, and is not what
  -- `String` makes of a number, a truth value, `null` or an object.
  pub is_named : String → Json → Bool
  is_named name (text s) = s == name
  is_named name (array vs) = is_only_named name vs
  is_named name null = false
  is_named name (boolean b) = false
  is_named name (number n) = false
  is_named name (object fs) = false

  pub is_only_named : String → Values → Bool
  is_only_named name no_values = false
  is_only_named name (value v no_values) = is_named name v
  is_only_named name (value v (value w vs)) = false

-- `names.includes(String(value))` and `names.has(String(value))`
unfoldable pub is_any_named : List String → Json → Bool
is_any_named [] v = false
is_any_named (name ∷ names) v = is_named name v || is_any_named names v

unfoldable pub need_named :
    List String → Option Json → ProductApiError → Result ProductApiError Json
need_named names none e = err e
need_named names (some v) e = if is_any_named names v then ok v else err e

unfoldable pub is_true : Option Json → Bool
is_true (some (boolean b)) = b
is_true _ = false

abbrev pub statuses : List String
statuses = "PENDING_REVIEW" ∷ "APPROVED" ∷ "REJECTED" ∷ "OVERRIDDEN" ∷ []

abbrev pub final_statuses : List String
final_statuses = "APPROVED" ∷ "REJECTED" ∷ "OVERRIDDEN" ∷ []

abbrev pub actions : List String
actions = "REPLACE_NOW" ∷ "SCHEDULE_REPLACEMENT" ∷ "DEFER" ∷ []

abbrev pub severities : List String
severities = "CRITICAL" ∷ "HIGH" ∷ "MEDIUM" ∷ "LOW" ∷ []

abbrev pub load_classes : List String
load_classes = "LIGHT" ∷ "NOMINAL" ∷ "HEAVY" ∷ []

-- `dataRecord`. The label of the answer is a part of the message.
unfoldable pub data_record : Json → (message : String) → Result ProductApiError Fields
unfolding is_true
data_record payload message = do
  body ← need (record_of (some payload)) (malformed_product_api_response message)
  throw_if (not (is_true (member "success" body))) (malformed_product_api_response message)
  need (record_of (member "data" body)) (malformed_product_api_response message)

pub record Batch : Type 0 where
  pub items : List Json
  pub total_pages : ℕ

-- The pages that the answer's `meta` names: one at least.
unfoldable pub pages_of : Option Number → ℕ
pages_of none = 1
pages_of (some n) = if is_integral n then max 1 (natural_part n) else 1

unfoldable pub meta_pages : Option Fields → Option Number
meta_pages none = none
meta_pages (some meta) = number_of (member "totalPages" meta)

-- `dataList`
unfoldable pub data_list : Json → (message : String) → Result ProductApiError Batch
unfolding is_true pages_of meta_pages
data_list payload message = do
  body ← need (record_of (some payload)) (malformed_product_api_response message)
  throw_if (not (is_true (member "success" body))) (malformed_product_api_response message)
  items ← need (array_of (member "data" body)) (malformed_product_api_response message)
  ok (record {
    items = items;
    total_pages = pages_of (meta_pages (record_of (member "meta" body)));
  })

abbrev pub malformed_decision : ProductApiError
malformed_decision = malformed_product_api_response "Maintenance API returned a malformed decision."

-- `decisionFrom`
unfoldable pub decision_from : Json → Result ProductApiError MaintenanceDecision
unfolding need_named
decision_from v = do
  fs ← need (record_of (some v)) malformed_decision
  id ← need (text_of (member "id" fs)) malformed_decision
  recommendation_id ← need (text_of (member "recommendationId" fs)) malformed_decision
  status ← need_named statuses (member "status" fs) malformed_decision
  ok (record {
    id = id;
    recommendation_id = recommendation_id;
    status = status;
    created_at = text_of (member "createdAt" fs);
  })

abbrev pub malformed_action : ProductApiError
malformed_action =
    malformed_product_api_response "Maintenance API returned a malformed review action."

-- `actionFrom`. The status before is always `PENDING_REVIEW`.
unfoldable pub action_from : Json → Result ProductApiError MaintenanceDecisionAction
unfolding need_named
action_from v = do
  fs ← need (record_of (some v)) malformed_action
  id ← need (text_of (member "id" fs)) malformed_action
  decision_id ← need (text_of (member "decisionId" fs)) malformed_action
  actor_user_id ← need (text_of (member "actorUserId" fs)) malformed_action
  to_status ← need_named final_statuses (member "toStatus" fs) malformed_action
  recommendation_snapshot ← need (record_of (member "recommendationSnapshot" fs)) malformed_action
  risk_snapshot ← need (record_of (member "riskSnapshot" fs)) malformed_action
  created_at ← need (text_of (member "createdAt" fs)) malformed_action
  ok (record {
    id = id;
    decision_id = decision_id;
    actor_user_id = actor_user_id;
    to_status = to_status;
    reason = text_of (member "reason" fs);
    selected_action = record_of (member "selectedAction" fs);
    recommendation_snapshot = recommendation_snapshot;
    risk_snapshot = risk_snapshot;
    created_at = created_at;
  })

unfoldable pub map_ok {ℓ κ} :
    {A : Type ℓ} {B : Type κ}
    → (A → Result ProductApiError B)
    → List A
    → Result ProductApiError (List B)
map_ok f [] = ok []
map_ok f (x ∷ xs) = do y ← f x; ys ← map_ok f xs; ok (y ∷ ys)

-- What `getHistory` makes of its answer.
unfoldable pub history_from : Json → Result ProductApiError DecisionHistory
unfolding map_ok
history_from payload = do
  fs ← data_record payload "Maintenance API returned malformed decision history."
  decision ← decision_from (object fs)
  actions ←
      need (array_of (member "actions" fs))
        (malformed_product_api_response "Maintenance API returned malformed action history.")
  actions ← map_ok action_from actions
  ok (record { decision = decision; actions = actions })

abbrev pub malformed_review : ProductApiError
malformed_review =
    malformed_product_api_response "Maintenance API returned malformed review response."

-- What `submitReview` makes of its answer.
unfoldable pub review_from : Json → Result ProductApiError MaintenanceDecisionAction
unfolding need_named
review_from payload = do
  fs ← data_record payload "Maintenance API returned malformed review response."
  action ← need (record_of (member "action" fs)) malformed_review
  id ← need (text_of (member "id" fs)) malformed_review
  status ← need_named final_statuses (member "status" fs) malformed_review
  action_from (object action)
