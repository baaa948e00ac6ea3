-- ===== src/Product/Normalize/Steps/Tests.antt =====
-- The details of an episode whose steps come in the wrong order.
use reinforcement_learning_c.Prelude.{false, none, some, [], ◌∷◌, refl, is_blank}
use reinforcement_learning_c.Prelude.Sorting.{sort_by}
use reinforcement_learning_c.Json.{
  Number, decimal, Json, text, number, array, object, no_fields, field, no_values, value, member,
  record_of, text_of, array_of, values_list, finite_number, is_finite, is_integral,
}
use reinforcement_learning_c.Json.Numbers.{number_le}
use reinforcement_learning_c.Product.Errors.{nullish_or}
use reinforcement_learning_c.Product.Normalize.{
  first, required_string, required_record, optional_integer, unwrap_resource, policy_source,
  policy_reference,
}
use reinforcement_learning_c.Product.Normalize.Catalog.{map_items}
use reinforcement_learning_c.Product.Normalize.Experiments.{absent, given}
use reinforcement_learning_c.Product.Normalize.Episodes.{
  episode_list_item, episode_status, required_number, optional_number, normalize_failure,
  dated_failure, optional_time,
}
use reinforcement_learning_c.Product.Normalize.Steps.{
  payload_from, risk_values, nullable_record, is_direct, step_record, StepRecord, is_not_later,
  EpisodeDetail, episode_detail,
}
use reinforcement_learning_c.Product.Normalize.Steps.Order.{
  IsEpisodeDetail, episode_detail-IsEpisodeDetail,
}

checks : Unit {0}
unfolding is_blank member record_of text_of array_of values_list finite_number is_finite is_integral
    number_le nullish_or first required_string required_record optional_integer unwrap_resource
    policy_source policy_reference map_items episode_list_item episode_status required_number
    optional_number normalize_failure dated_failure optional_time payload_from risk_values
    nullable_record is_direct step_record is_not_later episode_detail sort_by
checks = tt

abbrev second_step : Json
second_step = object (
    field "step" (number (decimal false 2 0))
      (field "risk" (object (field "M1" (number (decimal false 3 1)) no_fields)) no_fields))

-- A step whose number stands in its observation.
abbrev first_step : Json
first_step =
    object
      (field "observation" (object (field "step" (number (decimal false 1 0)) no_fields)) no_fields)

abbrev episode_json : Json
episode_json = object (
    field "id" (text "ep") (
      field "experiment_id" (text "x") (
        field "status" (text "COMPLETED") (
          field "seed" (number (decimal false 7 0)) (
            field "policy"
              (object (field "key" (text "risk") (field "version" (text "1") no_fields)))
              (field "steps" (array (value second_step (value first_step no_values)))
                (field "environmentConfig" (object no_fields) no_fields)))))))

abbrev step_at : Number → StepRecord
step_at n = record {
  step = n;
  observation = absent;
  recommendation = absent;
  result = absent;
  persisted_at = none;
  step_cost = absent;
  cumulative_cost = absent;
  risk = absent;
  failure = absent;
}

abbrev detail : EpisodeDetail
detail = record {
  base = record {
    id = "ep";
    experiment_id = "x";
    status = "COMPLETED";
    seed = decimal false 7 0;
    attempt = none;
    policy = record { id = "risk"; name = "risk"; version = "1"; key = some "risk" };
    key = none;
    steps_completed = none;
    total_cost = absent;
    failure_count = absent;
    replacement_count = absent;
    waiting_steps = absent;
    failure = absent;
    created_at = none;
    updated_at = none;
    started_at = absent;
    completed_at = absent;
  };
  environment_config = no_fields;
  summary = absent;
  steps =
      record (step_at (decimal false 1 0)) {
        observation = given (field "step" (number (decimal false 1 0)) no_fields);
      }
      ∷ record (step_at (decimal false 2 0)) {
        risk = given (field "M1" (number (decimal false 3 1)) no_fields);
      }
      ∷ [];
}

episode_detail-IsEpisodeDetail_example : IsEpisodeDetail episode_json detail
unfolding checks
episode_detail-IsEpisodeDetail_example = episode_detail-IsEpisodeDetail episode_json refl
