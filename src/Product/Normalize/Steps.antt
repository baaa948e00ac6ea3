-- ===== src/Product/Normalize/Steps.antt =====
-- The steps of an episode (frontend/lib/product-api/normalize.ts: payloadFrom, normalizeRiskValues,
-- normalizeEpisodeStepRecord and normalizeEpisodeDetail). Records of the simulation are kept as they
-- came.
pub mod Order
mod Tests
use reinforcement_learning_c.Prelude.{
  String, Bool, true, false, Option, none, some, List, [], ◌∷◌, is_some, ◌||◌, ◌&&◌, Result, ok,
  err, ◌>>=◌, need,
}
use reinforcement_learning_c.Prelude.Sorting.{sort_by}
use reinforcement_learning_c.Json.{
  Number, Json, Fields, null, number, text, array, object, no_values, no_fields, field, member,
  record_of, text_of, array_of,
}
use reinforcement_learning_c.Json.Numbers.{number_le}
use reinforcement_learning_c.Product.{ProductApiError, malformed_product_api_response}
use reinforcement_learning_c.Product.Errors.{nullish_or, fields_or_none}
use reinforcement_learning_c.Product.Normalize.{first, required_record, unwrap_resource}
use reinforcement_learning_c.Product.Normalize.Catalog.{map_items}
use reinforcement_learning_c.Product.Normalize.Experiments.{Nullable, absent, null_value, given}
use reinforcement_learning_c.Product.Normalize.Episodes.{
  optional_number, required_number, Failure, normalize_failure, no_context, EpisodeListItem,
  episode_list_item,
}

-- `payloadFrom`
unfoldable pub payload_from : Option Json → Option Json
unfolding nullish_or first
payload_from (some (object fs)) =
    nullish_or (first ("payload_json" ∷ "payloadJson" ∷ "payload" ∷ []) fs) (some (object fs))
payload_from v = v

put_risk : String → Json → Fields → Fields
put_risk key null fs = field key null fs
put_risk key (number n) fs = field key (number n) fs
put_risk key (text s) fs = field key (text s) fs
put_risk key _ fs = fs

-- The entries of a record that are null, numbers or texts.
unfoldable pub risk_entries : Fields → Fields
unfolding put_risk
risk_entries no_fields = no_fields
risk_entries (field key v fs) = put_risk key v (risk_entries fs)

-- `normalizeRiskValues`
unfoldable pub risk_values : Option Json → Nullable Fields
unfolding risk_entries
risk_values (some null) = null_value
risk_values (some (object fs)) = given (risk_entries fs)
risk_values _ = absent

-- `value === null ? null : isRecord(value) ? value : undefined`
unfoldable pub nullable_record : Option Json → Nullable Fields
nullable_record (some null) = null_value
nullable_record (some (object fs)) = given fs
nullable_record _ = absent

pub record StepRecord : Type 0 where
  pub step : Number
  pub observation : Nullable Fields
  pub recommendation : Nullable Fields
  pub result : Nullable Fields
  pub persisted_at : Option String
  pub step_cost : Nullable Number
  pub cumulative_cost : Nullable Number
  pub risk : Nullable Fields
  pub failure : Nullable Failure

-- The record is an observation itself.
unfoldable pub is_direct : Fields → Bool
unfolding first
is_direct fs =
    is_some (first ("payload_json" ∷ "payloadJson" ∷ []) fs)
    || (is_some (member "observation_id" fs) && is_some (array_of (member "machines" fs)))

direct_observation : Bool → Fields → Option Json
direct_observation true fs = some (object fs)
direct_observation false fs = none

abbrev step_in : Option Json → Option Json
step_in v = member "step" (fields_or_none (record_of v))

-- `normalizeEpisodeStepRecord`
unfoldable pub step_record : Json → Result ProductApiError StepRecord
unfolding required_record required_number is_direct direct_observation nullish_or first
step_record v = do
  fs ← required_record (some v) "episode step"
  let observation = payload_from (
      nullish_or (first ("observation" ∷ "fleet_observation" ∷ "fleetObservation" ∷ []) fs)
        (direct_observation (is_direct fs) fs))
  let recommendation =
      payload_from
        (first ("recommendation" ∷ "policy_recommendation" ∷ "policyRecommendation" ∷ []) fs)
  let result = payload_from (first ("result" ∷ "step_result" ∷ "stepResult" ∷ []) fs)
  step ←
      required_number
        (nullish_or (first ("step" ∷ []) fs) (nullish_or (step_in observation) (step_in result)))
        "episode step number"
  ok (record {
    step = step;
    observation = nullable_record observation;
    recommendation = nullable_record recommendation;
    result = nullable_record result;
    persisted_at =
        text_of (first ("persisted_at" ∷ "persistedAt" ∷ "created_at" ∷ "createdAt" ∷ []) fs);
    step_cost = optional_number (first ("step_cost" ∷ "stepCost" ∷ []) fs);
    cumulative_cost = optional_number (first ("cumulative_cost" ∷ "cumulativeCost" ∷ []) fs);
    risk = risk_values (first ("risk_values" ∷ "riskValues" ∷ "risk" ∷ []) fs);
    failure =
        normalize_failure (first ("failure" ∷ "failure_info" ∷ "failureInfo" ∷ "error" ∷ []) fs);
  })

-- `a.step - b.step <= 0`
unfoldable pub is_not_later : (a b : StepRecord) → Bool
is_not_later a b = number_le a.step b.step

pub record EpisodeDetail : Type 0 where
  pub base : EpisodeListItem
  pub environment_config : Fields
  pub summary : Nullable Fields
  pub steps : List StepRecord

abbrev pub step_keys : List String
step_keys = "steps" ∷ "step_records" ∷ "stepRecords" ∷ "events" ∷ "observations" ∷ []

abbrev pub config_keys : List String
config_keys = "environment_config" ∷ "environmentConfig" ∷ []

-- `normalizeEpisodeDetail`
unfoldable pub episode_detail : Json → Result ProductApiError EpisodeDetail
unfolding required_record nullish_or first is_not_later map_items
episode_detail payload = do
  fs ← required_record (some (unwrap_resource ("episode" ∷ []) payload)) "episode detail"
  base ← episode_list_item no_context (object fs)
  raw ←
      need (array_of (nullish_or (first step_keys fs) (some (array no_values))))
        (malformed_product_api_response "Product API episode steps are not a list.")
  environment_config ←
      required_record
        (nullish_or (first config_keys fs)
          (first config_keys (fields_or_none (record_of (member "experiment" fs)))))
        "environment configuration"
  steps ← map_items step_record raw
  ok (record {
    base = base;
    environment_config = environment_config;
    summary =
        nullable_record
          (payload_from (first ("summary" ∷ "episode_summary" ∷ "episodeSummary" ∷ []) fs));
    steps = sort_by is_not_later steps;
  })
