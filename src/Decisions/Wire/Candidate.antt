-- ===== src/Decisions/Wire/Candidate.antt =====
-- `candidateFrom` of frontend/lib/decision-api/client.ts: a row of the queue from the body of an
-- answer. Its first condition is read part by part; all parts throw the same error.
pub mod Row
pub mod Sound
use reinforcement_learning_c.Prelude.{
  String, Option, none, some, List, Result, ok, err, ◌>>=◌, ◌>>◌, throw_if, need,
}
use reinforcement_learning_c.Json.{
  Number, Json, Fields, text, member, record_of, text_of, number_of, finite_number,
}
use reinforcement_learning_c.Product.{ProductApiError, malformed_product_api_response}
use reinforcement_learning_c.Decisions.{DecisionQueueItem}
use reinforcement_learning_c.Decisions.Wire.{
  need_named, statuses, actions, severities, load_classes,
}

abbrev pub malformed_candidate : ProductApiError
malformed_candidate =
    malformed_product_api_response "Maintenance API returned a malformed queue candidate."

abbrev pub invalid_candidate : ProductApiError
invalid_candidate =
    malformed_product_api_response "Maintenance API returned an invalid queue candidate."

-- The kinds of members that the first condition asks for.
unfoldable pub need_record : String → Fields → Result ProductApiError Fields
need_record key fs = need (record_of (member key fs)) malformed_candidate

unfoldable pub need_text : String → Fields → Result ProductApiError String
need_text key fs = need (text_of (member key fs)) malformed_candidate

unfoldable pub need_number : String → Fields → Result ProductApiError Number
need_number key fs = need (number_of (member key fs)) malformed_candidate

-- `typeof value === "string"`
unfoldable pub string_of : Option Json → Option String
string_of (some (text s)) = some s
string_of _ = none

-- `text(value) ?? "Not provided"`
unfoldable pub or_not_provided : Option String → String
or_not_provided none = "Not provided"
or_not_provided (some s) = s

pub record Source : Type 0 where
  pub experiment_id : String
  pub episode_id : String
  pub observation_id : String
  pub recommendation_id : String
  pub attempt : Number
  pub step : Number

unfoldable pub source_from : Fields → Result ProductApiError Source
unfolding need_text need_number
source_from fs = do
  experiment_id ← need_text "experimentId" fs
  episode_id ← need_text "episodeId" fs
  observation_id ← need_text "observationId" fs
  recommendation_id ← need_text "recommendationId" fs
  attempt ← need_number "attempt" fs
  step ← need_number "step" fs
  ok (record {
    experiment_id = experiment_id;
    episode_id = episode_id;
    observation_id = observation_id;
    recommendation_id = recommendation_id;
    attempt = attempt;
    step = step;
  })

pub record Risk : Type 0 where
  pub failure_probability : Number
  pub observed_wear_um : Number
  pub posterior_median_wear_um : Number
  pub failure_threshold_um : Number

unfoldable pub risk_from : Fields → Result ProductApiError Risk
unfolding need_number
risk_from fs = do
  failure_probability ← need_number "failureProbabilityNextStep" fs
  observed_wear_um ← need_number "observedWearUm" fs
  posterior_median_wear_um ← need_number "posteriorMedianWearUm" fs
  failure_threshold_um ← need_number "failureThresholdUm" fs
  ok (record {
    failure_probability = failure_probability;
    observed_wear_um = observed_wear_um;
    posterior_median_wear_um = posterior_median_wear_um;
    failure_threshold_um = failure_threshold_um;
  })

-- `candidateFrom`
unfoldable pub candidate_from : Json → Result ProductApiError DecisionQueueItem
unfolding source_from risk_from need_record need_text need_number string_of or_not_provided
candidate_from v = do
  fs ← need (record_of (some v)) malformed_candidate
  source_fields ← need_record "source" fs
  risk_fields ← need_record "risk" fs
  resources ← need_record "resources" fs
  predicted_cost ← need_record "predictedCost" fs
  cost_of_delay ← need_record "costOfDelay" fs
  result ← need_record "result" fs
  id ← need_text "id" fs
  machine_id ← need_text "machineId" fs
  recommended_action ← need_text "recommendedAction" fs
  status ← need_text "status" fs
  source ← source_from source_fields
  risk ← risk_from risk_fields
  spares_available ← need_number "sparesAvailable" resources
  inventory_capacity ← need_number "inventoryCapacity" resources
  outcome ← need (string_of (member "outcome" result)) malformed_candidate
  incurred_cost ← need_number "incurredCost" result
  _ ← need_named statuses (some (text status)) invalid_candidate
  _ ← need_named actions (some (text recommended_action)) invalid_candidate
  severity ← need_named severities (member "severity" fs) invalid_candidate
  condition ← need (record_of (member "condition" risk_fields)) invalid_candidate
  load_class ← need_named load_classes (member "loadClass" condition) invalid_candidate
  ok (record {
    row_id = id;
    recommendation_id = source.recommendation_id;
    decision_id = text_of (member "decisionId" fs);
    experiment_id = source.experiment_id;
    episode_id = source.episode_id;
    observation_id = source.observation_id;
    attempt = source.attempt;
    step = source.step;
    machine_id = machine_id;
    tool_id = text_of (member "toolId" fs);
    job_id = text_of (member "jobId" fs);
    recommended_action = recommended_action;
    severity = severity;
    failure_risk = risk.failure_probability;
    predicted_rul_steps = finite_number (member "predictedRulSteps" risk_fields);
    observed_wear_um = risk.observed_wear_um;
    posterior_median_wear_um = risk.posterior_median_wear_um;
    failure_threshold_um = risk.failure_threshold_um;
    load_class = load_class;
    spares_available = spares_available;
    inventory_capacity = inventory_capacity;
    predicted_expected_cost = finite_number (member "expected" predicted_cost);
    predicted_cvar_cost = finite_number (member "cvar" predicted_cost);
    cost_of_delay = finite_number (member "amount" cost_of_delay);
    rationale = or_not_provided (text_of (member "rationale" fs));
    outcome = outcome;
    incurred_cost = incurred_cost;
    status = status;
    created_at = text_of (member "createdAt" fs);
  })
