-- ===== src/Decisions/Wire/Candidate/Row.antt =====
-- What a row of the queue is made of, in frontend/lib/decision-api/client.ts.
use mathlib.Core.List.{Memᴰ}
use reinforcement_learning_c.Prelude.{String, Option, none, some, [], ◌∷◌, ◌≡◌, refl, Ensures}
use reinforcement_learning_c.Json.{Json, Fields, text, object, member}
use reinforcement_learning_c.Decisions.{DecisionQueueItem}
use reinforcement_learning_c.Decisions.Wire.Candidate.{
  malformed_candidate, need_text, need_number, or_not_provided, Source, source_from, Risk,
  risk_from,
}
use reinforcement_learning_c.Decisions.Wire.Members.{
  HasText, HasNumber, HasRecord, HasNamed, HasTextIfAny, HasFiniteIfAny, need-HasText,
  need-HasNumber,
}

pub record IsSourceOf (fs : Fields) (s : Source) : Type 0 where
  pub experiment_id : HasText "experimentId" fs s.experiment_id
  pub episode_id : HasText "episodeId" fs s.episode_id
  pub observation_id : HasText "observationId" fs s.observation_id
  pub recommendation_id : HasText "recommendationId" fs s.recommendation_id
  pub attempt : HasNumber "attempt" fs s.attempt
  pub step : HasNumber "step" fs s.step

pub source_from-IsSourceOf : (fs : Fields) → Ensures (IsSourceOf fs) (source_from fs)
unfolding source_from need_text need_number
source_from-IsSourceOf fs =
    let P : Source → Type 0 = IsSourceOf fs in
    need-HasText P "experimentId" fs malformed_candidate _ λ a is_a.
      need-HasText P "episodeId" fs malformed_candidate _ λ b is_b.
        need-HasText P "observationId" fs malformed_candidate _ λ c is_c.
          need-HasText P "recommendationId" fs malformed_candidate _ λ d is_d.
            need-HasNumber P "attempt" fs malformed_candidate _ λ m is_m.
              need-HasNumber P "step" fs malformed_candidate _ λ n is_n. record {
                experiment_id = is_a;
                episode_id = is_b;
                observation_id = is_c;
                recommendation_id = is_d;
                attempt = is_m;
                step = is_n;
              }

pub record IsRiskOf (fs : Fields) (r : Risk) : Type 0 where
  pub failure_probability : HasNumber "failureProbabilityNextStep" fs r.failure_probability
  pub observed_wear_um : HasNumber "observedWearUm" fs r.observed_wear_um
  pub posterior_median_wear_um : HasNumber "posteriorMedianWearUm" fs r.posterior_median_wear_um
  pub failure_threshold_um : HasNumber "failureThresholdUm" fs r.failure_threshold_um

pub risk_from-IsRiskOf : (fs : Fields) → Ensures (IsRiskOf fs) (risk_from fs)
unfolding risk_from need_number
risk_from-IsRiskOf fs =
    let P : Risk → Type 0 = IsRiskOf fs in
    need-HasNumber P "failureProbabilityNextStep" fs malformed_candidate _ λ a is_a.
      need-HasNumber P "observedWearUm" fs malformed_candidate _ λ b is_b.
        need-HasNumber P "posteriorMedianWearUm" fs malformed_candidate _ λ c is_c.
          need-HasNumber P "failureThresholdUm" fs malformed_candidate _ λ d is_d. record {
            failure_probability = is_a;
            observed_wear_um = is_b;
            posterior_median_wear_um = is_c;
            failure_threshold_um = is_d;
          }

-- The records that the body of a row has.
pub record Parts : Type 0 where
  pub row : Fields
  pub source : Fields
  pub risk : Fields
  pub resources : Fields
  pub predicted_cost : Fields
  pub cost_of_delay : Fields
  pub outcome : Fields
  pub condition : Fields

pub record ArePartsOf (v : Json) (p : Parts) : Type 0 where
  pub row : v ≡ object p.row
  pub source : HasRecord "source" p.row p.source
  pub risk : HasRecord "risk" p.row p.risk
  pub resources : HasRecord "resources" p.row p.resources
  pub predicted_cost : HasRecord "predictedCost" p.row p.predicted_cost
  pub cost_of_delay : HasRecord "costOfDelay" p.row p.cost_of_delay
  pub outcome : HasRecord "result" p.row p.outcome
  pub condition : HasRecord "condition" p.risk p.condition

abbrev pub IsProvided : Option String → String → Type 0
IsProvided none s = s ≡ "Not provided"
IsProvided (some given) s = s ≡ given

-- The given text, or a fixed one where there is none.
abbrev pub IsRationale : Fields → String → Type 0
IsRationale fs s = (o : Option String) × HasTextIfAny "rationale" fs o × IsProvided o s

pub or_not_provided-IsProvided : (o : Option String) → IsProvided o (or_not_provided o)
unfolding or_not_provided
or_not_provided-IsProvided none = refl
or_not_provided-IsProvided (some s) = refl

-- A row of these parts: each member is the one of its name.
pub record IsRowOf (p : Parts) (c : DecisionQueueItem) : Type 0 where
  pub row_id : HasText "id" p.row c.row_id
  pub source : IsSourceOf p.source (record {
    experiment_id = c.experiment_id;
    episode_id = c.episode_id;
    observation_id = c.observation_id;
    recommendation_id = c.recommendation_id;
    attempt = c.attempt;
    step = c.step;
  })
  pub decision_id : HasTextIfAny "decisionId" p.row c.decision_id
  pub machine_id : HasText "machineId" p.row c.machine_id
  pub tool_id : HasTextIfAny "toolId" p.row c.tool_id
  pub job_id : HasTextIfAny "jobId" p.row c.job_id
  pub recommended_action :
      HasText "recommendedAction" p.row c.recommended_action
      × Memᴰ c.recommended_action ("REPLACE_NOW" ∷ "SCHEDULE_REPLACEMENT" ∷ "DEFER" ∷ [])
  pub severity : HasNamed ("CRITICAL" ∷ "HIGH" ∷ "MEDIUM" ∷ "LOW" ∷ []) "severity" p.row c.severity
  pub risk : IsRiskOf p.risk (record {
    failure_probability = c.failure_risk;
    observed_wear_um = c.observed_wear_um;
    posterior_median_wear_um = c.posterior_median_wear_um;
    failure_threshold_um = c.failure_threshold_um;
  })
  pub predicted_rul_steps : HasFiniteIfAny "predictedRulSteps" p.risk c.predicted_rul_steps
  pub load_class :
      HasNamed ("LIGHT" ∷ "NOMINAL" ∷ "HEAVY" ∷ []) "loadClass" p.condition c.load_class
  pub spares_available : HasNumber "sparesAvailable" p.resources c.spares_available
  pub inventory_capacity : HasNumber "inventoryCapacity" p.resources c.inventory_capacity
  pub predicted_expected_cost : HasFiniteIfAny "expected" p.predicted_cost c.predicted_expected_cost
  pub predicted_cvar_cost : HasFiniteIfAny "cvar" p.predicted_cost c.predicted_cvar_cost
  pub cost_of_delay : HasFiniteIfAny "amount" p.cost_of_delay c.cost_of_delay
  pub rationale : IsRationale p.row c.rationale
  pub outcome : member "outcome" p.outcome ≡ some (text c.outcome)
  pub incurred_cost : HasNumber "incurredCost" p.outcome c.incurred_cost
  pub status :
      HasText "status" p.row c.status
      × Memᴰ c.status ("PENDING_REVIEW" ∷ "APPROVED" ∷ "REJECTED" ∷ "OVERRIDDEN" ∷ [])
  pub created_at : HasTextIfAny "createdAt" p.row c.created_at

abbrev pub IsCandidate : Json → DecisionQueueItem → Type 0
IsCandidate v c = (p : Parts) × ArePartsOf v p × IsRowOf p c
