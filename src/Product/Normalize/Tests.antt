-- ===== src/Product/Normalize/Tests.antt =====
-- An experiment with one episode, alone and as a page of a longer list.
use reinforcement_learning_c.Prelude.{true, false, none, some, [], ◌∷◌, refl, is_blank}
use reinforcement_learning_c.Json.{
  decimal, Json, Fields, text, number, array, object, no_fields, field, no_values, value, member,
  record_of, text_of, array_of, values_list, finite_number, is_finite, is_integral, natural_part,
}
use reinforcement_learning_c.Json.Numbers.{number_le}
use reinforcement_learning_c.Product.Errors.{nullish_or}
use reinforcement_learning_c.Product.Normalize.{
  first, required_string, required_record, optional_integer, optional_boolean, unwrap_resource,
  PolicyReference, policy_source, policy_reference,
}
use reinforcement_learning_c.Product.Normalize.Catalog.{text_or_null, map_items}
use reinforcement_learning_c.Product.Normalize.Experiments.{
  absent, given, normalize_owner, episode_counts, infer_experiment_policy, experiment_status,
  ExperimentListItem, experiment_list_item, count_value,
}
use reinforcement_learning_c.Product.Normalize.Episodes.{
  episode_list_item, ExperimentDetail, experiment_detail, episode_status, required_number,
  optional_number, normalize_failure, dated_failure, optional_time,
}
use reinforcement_learning_c.Product.Normalize.Pages.{
  list_candidate, page_with, page_count, ExperimentPage, experiment_page, whole,
}
use reinforcement_learning_c.Product.Normalize.Pages.Bounds.{IsCounted, experiment_page-IsCounted}

checks : Unit {0}
unfolding is_blank member record_of text_of array_of values_list finite_number is_finite is_integral
    natural_part number_le nullish_or first required_string required_record optional_integer
    optional_boolean unwrap_resource policy_source policy_reference text_or_null map_items
    normalize_owner episode_counts infer_experiment_policy experiment_status experiment_list_item
    episode_list_item experiment_detail episode_status required_number optional_number
    normalize_failure dated_failure optional_time list_candidate page_with page_count
    experiment_page count_value
checks = tt

abbrev policy_json : Json
policy_json =
    object
      (field "id" (text "p1") (field "version" (text "2") (field "name" (text "Risk") no_fields)))

abbrev episode_json : Json
episode_json = object (
    field "episodeId" (text "ep1") (
      field "status" (text "FAILED") (
        field "seed" (number (decimal false 7 0))
          (field "failure" (text "worn out") (field "failedAt" (text "2026-09-17") no_fields)))))

abbrev experiment_fields : Fields
experiment_fields = field "id" (text "x1") (
    field "name" (text "demo") (
      field "status" (text "RUNNING") (
        field "policy" policy_json (
          field "createdAt" (text "2026-09-16") (
            field "episodes" (array (value episode_json no_values))
              (field "environment_config" (object no_fields) no_fields))))))

abbrev policy : PolicyReference
policy = record { id = "p1"; name = "Risk"; version = "2"; key = none }

abbrev detail : ExperimentDetail
detail = record {
  base = record {
    id = "x1";
    name = "demo";
    status = "RUNNING";
    policy = policy;
    created_at = "2026-09-16";
    key = none;
    description = none;
    updated_at = none;
    owner = absent;
    number_of_episodes = none;
    counts = some (record {
      total = whole 1;
      pending = none;
      running = none;
      completed = none;
      failed = none;
      cancelled = none;
    });
  };
  environment_config = no_fields;
  episodes =
      record {
        id = "ep1";
        experiment_id = "x1";
        status = "FAILED";
        seed = decimal false 7 0;
        attempt = none;
        policy = policy;
        key = none;
        steps_completed = none;
        total_cost = absent;
        failure_count = absent;
        replacement_count = absent;
        waiting_steps = absent;
        failure = given (record {
          message = "worn out";
          code = none;
          occurred_at = some "2026-09-17";
          details = none;
        });
        created_at = none;
        updated_at = none;
        started_at = absent;
        completed_at = absent;
      }
      ∷ [];
}

abbrev meta_fields : Fields
meta_fields =
    field "total" (number (decimal false 45 0))
      (field "limit" (number (decimal false 20 0)) no_fields)

abbrev list_fields : Fields
list_fields =
    field "data" (array (value (object experiment_fields) no_values))
      (field "meta" (object meta_fields) no_fields)

abbrev experiment : ExperimentListItem
experiment = detail.base

-- Three pages of twenty.
abbrev second_page : ExperimentPage
second_page = record {
  items = experiment ∷ [];
  page = whole 2;
  page_size = whole 20;
  total_items = whole 45;
  total_pages = whole 3;
  has_next = true;
  has_previous = true;
}

experiment_page-IsCounted_example : IsCounted second_page
unfolding checks
experiment_page-IsCounted_example =
    experiment_page-IsCounted (object list_fields) 2 25
      {c = record {
        items = object experiment_fields ∷ [];
        metadata =
            field "total" (number (decimal false 45 0))
              (field "limit" (number (decimal false 20 0)) list_fields);
      }}
      refl refl refl
