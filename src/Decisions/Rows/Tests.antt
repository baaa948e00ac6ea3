-- ===== src/Decisions/Rows/Tests.antt =====
-- A recommendation for one machine, and a queue of two rows.
use Prim.Native.Nat.{compare, Ordering}
use mathlib.Core.List.{Perm}
use reinforcement_learning_c.Prelude.{
  All, String, false, none, some, [], ◌∷◌, map, ◌≡◌, refl, arith, insert, lookup, is_blank, units,
}
use reinforcement_learning_c.Prelude.Sorting.{Neighbours, sort_by}
use reinforcement_learning_c.Json.{
  decimal, Json, text, number, array, object, no_fields, field, no_values, value, member, record_of,
  text_of, array_of, values_list, finite_number, is_finite,
}
use reinforcement_learning_c.Json.Numbers.{number_le}
use reinforcement_learning_c.Decisions.Rows.{
  Input, Row, has_machine, actions_in, index_observations, advice_from, row_for, rows_for, rows_of,
  rows_from_events,
}
use reinforcement_learning_c.Decisions.Review.{approved, Decisions}
use reinforcement_learning_c.Decisions.Review.Listing.{
  ListedRow, known_of, group_rows, listed_row, list_preview, IsShown, list_preview-IsShown,
  open_status,
}
use reinforcement_learning_c.Decisions.Rows.Keys.{all_keys, row_key, rows_from_events-row_key}
use reinforcement_learning_c.Decisions.Rows.Queue.{
  flip, IsInOrder, row_order, sort_decision_queue, sort_decision_queue-IsInOrder,
}

checks : Unit {0}
unfolding is_blank insert lookup member record_of text_of array_of values_list finite_number
    is_finite has_machine actions_in index_observations advice_from row_for rows_for rows_of
    rows_from_events sort_decision_queue number_le row_order sort_by known_of group_rows listed_row
    list_preview open_status
checks = tt

abbrev observation : Json
observation = object (
    field "id" (text "o1") (
      field "payload"
        (object (
          field "machines"
            (array (
              value
                (object (
                  field "machine_id" (text "M1") (
                    field "severity" (text "high")
                      (field "failure_risk" (number (decimal false 4 1)) no_fields))))
                no_values))
            (field "inventory" (object no_fields) (field "observation_id" (text "obs") no_fields))))
        no_fields))

abbrev recommendation : Json
recommendation = object (
    field "id" (text "rec") (
      field "observationId" (text "o1") (
        field "payload"
          (object (
            field "actions"
              (object (
                field "actions"
                  (array (
                    value
                      (object (
                        field "machine_id" (text "M1") (field "action" (text "REPLACE") no_fields)))
                      no_values))
                  no_fields))
              no_fields))
          no_fields)))

abbrev input : Input String
input = record {
  experiment_id = "e";
  experiment_name = "demo";
  episode_id = "p";
  attempt = 1;
  environment_config = "config";
  observations = observation ∷ [];
  recommendations = recommendation ∷ [];
  known_statuses = [];
}

abbrev row : Row String
row = record {
  row_id = "rec:M1";
  recommendation_id = "rec";
  decision_id = none;
  experiment_id = "e";
  experiment_name = "demo";
  episode_id = "p";
  attempt = 1;
  step = none;
  machine_id = "M1";
  tool_id = none;
  recommended_action = "REPLACE";
  severity = some "high";
  failure_risk = some (decimal false 4 1);
  predicted_cost = none;
  defer_consequence = none;
  status = "NOT_OPENED";
  policy_id = "Not provided";
  observation_key = "obs";
  observation =
      field "machines"
        (array (
          value
            (object (
              field "machine_id" (text "M1") (
                field "severity" (text "high")
                  (field "failure_risk" (number (decimal false 4 1)) no_fields))))
            no_values))
        (field "inventory" (object no_fields) (field "observation_id" (text "obs") no_fields));
  recommendation =
      field "actions"
        (object (
          field "actions"
            (array (
              value
                (object
                  (field "machine_id" (text "M1") (field "action" (text "REPLACE") no_fields)))
                no_values))
            no_fields))
        no_fields;
  environment_config = "config";
  created_at = none;
}

rows_from_events-row_key_example : map row_key (row ∷ []) ≡ all_keys (recommendation ∷ [])
unfolding checks
rows_from_events-row_key_example = rows_from_events-row_key input {rows = row ∷ []} refl

abbrev upper_of_known : String → String
upper_of_known s = "HIGH"

abbrev by_length : String → String → Ordering
by_length s t = compare (units s) (units t)

by_length_flips : (s t : String) → by_length t s ≡ flip (by_length s t)
by_length_flips s t = ground arith

-- The row of the higher risk comes first.
abbrev riskier : Row String
riskier = record row { failure_risk = some (decimal false 45 2) }

sorted_by_risk :
    sort_decision_queue upper_of_known by_length (row ∷ riskier ∷ []) ≡ riskier ∷ row ∷ []
unfolding checks
sorted_by_risk = refl

sort_decision_queue-IsInOrder_example :
    Perm (sort_decision_queue upper_of_known by_length (row ∷ riskier ∷ [])) (row ∷ riskier ∷ [])
    × Neighbours
        (IsInOrder upper_of_known by_length)
        (sort_decision_queue upper_of_known by_length (row ∷ riskier ∷ []))
sort_decision_queue-IsInOrder_example =
    sort_decision_queue-IsInOrder upper_of_known by_length by_length_flips (row ∷ riskier ∷ [])

-- The decision on the recommendation is approved.
abbrev reviewed : Decisions
reviewed =
    (
      "rec",
      record {
        id = "dec";
        recommendation_id = "rec";
        status = approved;
        created_at = "t";
        actions = [];
      },
    )
    ∷ []

abbrev shown_row : ListedRow String
shown_row = record {
  row = record row { decision_id = some "dec"; status = "APPROVED" };
  predicted_expected_cost = none;
}

list_preview-IsShown_example : All (IsShown reviewed) (shown_row ∷ [])
unfolding checks
list_preview-IsShown_example =
    list_preview-IsShown reviewed upper_of_known by_length (input ∷ []) {rows = shown_row ∷ []} refl
