-- ===== src/Decisions/Tests.antt =====
-- Answers with one row of the queue and one decided history, and two pages of the queue.
use reinforcement_learning_c.Prelude.{
  ℕ, ◌≢◌, true, false, arith, none, some, [], ◌∷◌, ◌≡◌, refl, Result, ok, is_blank,
}
use reinforcement_learning_c.Json.{
  decimal, Json, Fields, null, text, number, boolean, array, object, no_fields, field, no_values,
  value, member, record_of, text_of, array_of, number_of, values_list, is_finite, finite_number,
  is_integral, natural_part,
}
use reinforcement_learning_c.Product.{ProductApiError}
use reinforcement_learning_c.Decisions.{DecisionHistory, DecisionQueueItem}
use reinforcement_learning_c.Decisions.Wire.{
  is_any_named, is_named, need_named, data_record, data_list, decision_from, action_from, map_ok,
  history_from,
}
use reinforcement_learning_c.Decisions.Wire.History.{IsHistory, history_from-IsHistory}
use reinforcement_learning_c.Decisions.Wire.Candidate.{candidate_from}
use reinforcement_learning_c.Decisions.Wire.Candidate.Row.{IsCandidate}
use reinforcement_learning_c.Decisions.Wire.Candidate.Sound.{candidate_from-IsCandidate}
use reinforcement_learning_c.Decisions.Paging.{queue_page, event_page, list_queue, all_events}
use reinforcement_learning_c.Decisions.Paging.Ends.{rows_from, paging_ends, list_queue-eq-rows_from}

checks : Unit {0}
unfolding is_blank member record_of text_of array_of number_of values_list finite_number is_integral
    natural_part is_finite is_any_named is_named need_named data_record data_list decision_from
    action_from map_ok history_from candidate_from queue_page event_page list_queue all_events
    rows_from
checks = tt

abbrev row : DecisionQueueItem
row = record {
  row_id = "r1";
  recommendation_id = "rec1";
  decision_id = none;
  experiment_id = "e";
  episode_id = "p";
  observation_id = "o1";
  attempt = decimal false 1 0;
  step = decimal false 4 0;
  machine_id = "M1";
  tool_id = some "T1";
  job_id = none;
  recommended_action = "REPLACE_NOW";
  severity = text "HIGH";
  failure_risk = decimal false 25 2;
  predicted_rul_steps = some (decimal false 3 0);
  observed_wear_um = decimal false 120 0;
  posterior_median_wear_um = decimal false 118 0;
  failure_threshold_um = decimal false 300 0;
  load_class = array (value (text "HEAVY") no_values);
  spares_available = decimal false 2 0;
  inventory_capacity = decimal false 4 0;
  predicted_expected_cost = none;
  predicted_cvar_cost = some (decimal false 99 1);
  cost_of_delay = none;
  rationale = "Not provided";
  outcome = "PENDING";
  incurred_cost = decimal false 0 0;
  status = "PENDING_REVIEW";
  created_at = none;
}

abbrev source_fields : Fields
source_fields = field "experimentId" (text row.experiment_id) (
    field "episodeId" (text row.episode_id) (
      field "observationId" (text row.observation_id) (
        field "recommendationId" (text row.recommendation_id)
          (field "attempt" (number row.attempt) (field "step" (number row.step) no_fields)))))

abbrev risk_fields : Fields
risk_fields = field "failureProbabilityNextStep" (number row.failure_risk) (
    field "observedWearUm" (number row.observed_wear_um) (
      field "posteriorMedianWearUm" (number row.posterior_median_wear_um) (
        field "failureThresholdUm" (number row.failure_threshold_um) (
          field "predictedRulSteps" (number (decimal false 3 0))
            (field "condition" (object (field "loadClass" row.load_class no_fields)) no_fields)))))

-- The row in an answer.
abbrev row_json : Json
row_json = object (
    field "id" (text row.row_id) (
      field "decisionId" null (
        field "machineId" (text row.machine_id) (
          field "toolId" (text "T1") (
            field "jobId" null (
              field "recommendedAction" (text row.recommended_action) (
                field "severity" row.severity (
                  field "rationale" (text row.rationale) (
                    field "status" (text row.status) (
                      field "createdAt" null (
                        field "source" (object source_fields) (
                          field "risk" (object risk_fields) (
                            field "resources"
                              (object (
                                field "sparesAvailable" (number row.spares_available) (
                                  field "inventoryCapacity" (number row.inventory_capacity)
                                    no_fields)))
                              (field "predictedCost"
                                (object (
                                  field "expected" null
                                    (field "cvar" (number (decimal false 99 1)) no_fields)))
                                (field "costOfDelay" (object (field "amount" null no_fields)) (
                                  field "result"
                                    (object (
                                      field "outcome" (text row.outcome) (
                                        field "incurredCost" (number row.incurred_cost) no_fields)))
                                    no_fields))))))))))))))))

candidate_from-IsCandidate_example : IsCandidate row_json row
unfolding checks
candidate_from-IsCandidate_example = candidate_from-IsCandidate row_json refl

abbrev decided : DecisionHistory
decided = record {
  decision = record {
    id = "d1";
    recommendation_id = "rec1";
    status = text "APPROVED";
    created_at = none;
  };
  actions =
      record {
        id = "a1";
        decision_id = "d1";
        actor_user_id = "u1";
        to_status = text "APPROVED";
        reason = none;
        selected_action = some no_fields;
        recommendation_snapshot = no_fields;
        risk_snapshot = no_fields;
        created_at = "2026-09-17";
      }
      ∷ [];
}

abbrev action_json : Json
action_json = object (
    field "id" (text "a1") (
      field "decisionId" (text "d1") (
        field "actorUserId" (text "u1") (
          field "toStatus" (text "APPROVED") (
            field "selectedAction" (object no_fields) (
              field "recommendationSnapshot" (object no_fields) (
                field "riskSnapshot" (object no_fields)
                  (field "createdAt" (text "2026-09-17") no_fields))))))))

abbrev history_answer : Json
history_answer = object (
    field "success" (boolean true) (
      field "data"
        (object (
          field "id" (text "d1") (
            field "recommendationId" (text "rec1") (
              field "status" (text "APPROVED")
                (field "actions" (array (value action_json no_values)) no_fields)))))
        no_fields))

history_from-IsHistory_example : IsHistory history_answer decided
unfolding checks
history_from-IsHistory_example = history_from-IsHistory history_answer refl

-- A page of the queue with the row, of two pages.
abbrev queue_answer : Json
queue_answer = object (
    field "success" (boolean true) (
      field "data" (array (value row_json no_values)) (
        field "meta" (object (field "totalPages" (number (decimal false 2 0)) no_fields))
          no_fields)))

abbrev queue_request : ℕ → Result ProductApiError Json
queue_request page = ok queue_answer

paging_ends_example : (list_queue queue_request 2 ≢ none) × (all_events queue_request 2 ≢ none)
unfolding checks
paging_ends_example =
    paging_ends queue_request 2 2 (omega arith) (omega arith) (λ page. omega arith)
      (λ page. omega arith)

list_queue-eq-rows_from_example :
    list_queue queue_request 2 ≡ some (ok (rows_from (λ page. row ∷ []) 2 1))
unfolding checks
list_queue-eq-rows_from_example =
    list_queue-eq-rows_from queue_request (λ page. row ∷ []) 1 0 (λ page small. refl)
