-- ===== src/Decisions/Rows.antt =====
-- The rows of the queue from events (frontend/lib/decision-api/normalize.ts, rowsFromEvents).
pub mod Queue
mod Tests
pub mod Keys
use Prim.Native.String.{◌++◌ as str_append}
use reinforcement_learning_c.Prelude.{
  ℕ, String, Bool, true, false, ◌&&◌, ◌||◌, not, Option, none, some, List, [], ◌∷◌, ◌++◌, string_eq,
  ◌==◌, is_text, Result, ok, err, ◌>>=◌, ◌>>◌, throw_if, need, find, is_some, insert, lookup,
  if◌then◌else◌,
}
use reinforcement_learning_c.Json.{
  Number, Json, Fields, number, text, object, member, record_of, text_of, array_of, number_of,
  finite_number,
}
use reinforcement_learning_c.Product.{ProductApiError, malformed_product_api_response}

pub record KnownStatus : Type 0 where
  pub decision_id : String
  pub status : String

-- What rows have in common.
pub record Input (Config : Type 0) : Type 0 where
  pub experiment_id : String
  pub experiment_name : String
  pub episode_id : String
  pub attempt : ℕ
  pub environment_config : Config
  pub observations : List Json
  pub recommendations : List Json
  pub known_statuses : List (String × KnownStatus)

-- The members of a row that rowsFromEvents sets.
pub record Row (Config : Type 0) : Type 0 where
  pub row_id : String
  pub recommendation_id : String
  pub decision_id : Option String
  pub experiment_id : String
  pub experiment_name : String
  pub episode_id : String
  pub attempt : ℕ
  pub step : Option Json
  pub machine_id : String
  pub tool_id : Option String
  pub recommended_action : String
  pub severity : Option String
  pub failure_risk : Option Number
  pub predicted_cost : Option Number
  pub defer_consequence : Option String
  pub status : String
  pub policy_id : String
  pub observation_key : String
  pub observation : Fields
  pub recommendation : Fields
  pub environment_config : Config
  pub created_at : Option String

-- `a ?? b`
abbrev pub or_else {ℓ} : {A : Type ℓ} → Option A → Option A → Option A
or_else none b = b
or_else (some a) b = some a

abbrev pub get_or {ℓ} : {A : Type ℓ} → Option A → A → A
get_or none b = b
get_or (some a) b = a

pub record MachineAction : Type 0 where
  pub machine_id : String
  pub action : String

-- `value.action === "CONTINUE" || value.action === "REPLACE"`
unfoldable pub tool_action : Option Json → Option String
tool_action (some (text s)) = if s == "CONTINUE" || s == "REPLACE" then some s else none
tool_action _ = none

unfoldable pub action_of : Option String → Option String → Option MachineAction
action_of (some machine_id) (some action) =
    some (record { machine_id = machine_id; action = action })
action_of _ _ = none

unfoldable pub action_in : Option Fields → Option MachineAction
unfolding action_of tool_action
action_in none = none
action_in (some fs) =
    action_of (text_of (member "machine_id" fs)) (tool_action (member "action" fs))

unfoldable pub and_action :
    Option MachineAction → Option (List MachineAction) → Option (List MachineAction)
and_action (some a) (some more) = some (a ∷ more)
and_action _ _ = none

-- `actions.every(machineAction)`, with the actions that it has found.
unfoldable pub actions_in : List Json → Option (List MachineAction)
unfolding and_action action_in
actions_in [] = some []
actions_in (v ∷ vs) = and_action (action_in (record_of (some v))) (actions_in vs)

abbrev malformed : String → ProductApiError
malformed = malformed_product_api_response

-- The first loop: the observation events by their ids. A later one takes the place of an earlier.
unfoldable pub index_observations :
    List Json → List (String × Fields) → Result ProductApiError (List (String × Fields))
index_observations [] index = ok index
index_observations (v ∷ vs) index = do
  fs ← need (record_of (some v)) (malformed "Product API returned a malformed observation event.")
  id ←
      need (text_of (member "id" fs))
        (malformed "Product API returned a malformed observation event.")
  payload ←
      need (record_of (member "payload" fs))
        (malformed "Product API returned a malformed observation event.")
  index_observations vs (insert id fs index)

-- A recommendation event that was checked, with the event of its observation.
pub record Advice : Type 0 where
  pub id : String
  pub event : Fields
  pub recommendation : Fields
  pub actions : List MachineAction
  pub observation_event : Fields
  pub observation : Fields
  pub observation_id : String
  pub machines : List Json

abbrev pub malformed_advice : ProductApiError
malformed_advice = malformed "Product API returned a malformed recommendation event."

abbrev pub unmatched_advice : ProductApiError
unmatched_advice = malformed "Recommendation has no matching observation event."

abbrev pub malformed_data : ProductApiError
malformed_data = malformed "Product API returned malformed CNC recommendation data."

-- The checks of the second loop on one event.
unfoldable pub advice_from : List (String × Fields) → Json → Result ProductApiError Advice
unfolding actions_in
advice_from index v = do
  event ← need (record_of (some v)) malformed_advice
  id ← need (text_of (member "id" event)) malformed_advice
  observed ← need (text_of (member "observationId" event)) malformed_advice
  recommendation ← need (record_of (member "payload" event)) malformed_advice
  observation_event ← need (lookup observed index) unmatched_advice
  observation ← need (record_of (member "payload" observation_event)) unmatched_advice
  joint ← need (record_of (member "actions" recommendation)) malformed_data
  listed ← need (array_of (member "actions" joint)) malformed_data
  actions ← need (actions_in listed) malformed_data
  machines ← need (array_of (member "machines" observation)) malformed_data
  inventory ← need (record_of (member "inventory" observation)) malformed_data
  observation_id ← need (text_of (member "observation_id" observation)) malformed_data
  ok (record {
    id = id;
    event = event;
    recommendation = recommendation;
    actions = actions;
    observation_event = observation_event;
    observation = observation;
    observation_id = observation_id;
    machines = machines;
  })

has_machine_in : String → Option Json → Bool
has_machine_in id (some (text s)) = s == id
has_machine_in id _ = false

-- `record(candidate) && candidate.machine_id === id`
unfoldable pub has_machine : String → Json → Bool
unfolding has_machine_in
has_machine id (object fs) = has_machine_in id (member "machine_id" fs)
has_machine id _ = false

-- `typeof value.step === "number" ? value.step : observation.step`
unfoldable pub step_of : Option Json → Option Json → Option Json
step_of (some (number n)) other = some (number n)
step_of _ other = other

known_id : Option KnownStatus → Option String
known_id none = none
known_id (some k) = some k.decision_id

unfoldable pub known_status : Option KnownStatus → String
known_status none = "NOT_OPENED"
known_status (some k) = k.status

module _ {Config : Type 0} (input : Input Config) where
  -- The row of one action, on its machine.
  unfoldable pub row_for : Advice → MachineAction → Fields → Row Config
  unfolding known_id known_status step_of
  row_for advice action machine =
      let known = lookup advice.id input.known_statuses in
      record {
        row_id = str_append advice.id (str_append ":" action.machine_id);
        recommendation_id = advice.id;
        decision_id = known_id known;
        experiment_id = input.experiment_id;
        experiment_name = input.experiment_name;
        episode_id = input.episode_id;
        attempt = input.attempt;
        step = step_of (member "step" advice.event) (member "step" advice.observation);
        machine_id = action.machine_id;
        tool_id = text_of (member "tool_id" machine);
        recommended_action = action.action;
        severity =
            or_else (text_of (member "severity" machine))
              (text_of (member "severity" advice.recommendation));
        failure_risk =
            or_else (finite_number (member "failure_risk" machine))
              (finite_number (member "failureRisk" machine));
        predicted_cost = finite_number (member "estimated_expected_cost" advice.recommendation);
        defer_consequence =
            or_else (text_of (member "defer_consequence" machine))
              (text_of (member "defer_consequence" advice.recommendation));
        status = known_status known;
        policy_id = get_or (text_of (member "policy_id" advice.recommendation)) "Not provided";
        observation_key =
            get_or (text_of (member "observationKey" advice.observation_event))
              advice.observation_id;
        observation = advice.observation;
        recommendation = advice.recommendation;
        environment_config = input.environment_config;
        created_at = text_of (member "createdAt" advice.event);
      }

  -- The inner loop: a row for each action.
  unfoldable pub rows_for : Advice → List MachineAction → Result ProductApiError (List (Row Config))
  unfolding has_machine
  rows_for advice [] = ok []
  rows_for advice (action ∷ actions) = do
    machine ←
        need (record_of (find (has_machine action.machine_id) advice.machines))
          (malformed "Recommendation action has no matching machine.")
    rows ← rows_for advice actions
    ok (row_for advice action machine ∷ rows)

  unfoldable pub rows_of :
      List (String × Fields) → List Json → Result ProductApiError (List (Row Config))
  rows_of index [] = ok []
  rows_of index (v ∷ vs) = do
    advice ← advice_from index v
    rows ← rows_for advice advice.actions
    more ← rows_of index vs
    ok (rows ++ more)

  -- `rowsFromEvents`
  unfoldable pub rows_from_events : Result ProductApiError (List (Row Config))
  unfolding index_observations rows_of
  rows_from_events = do
    index ← index_observations input.observations []
    rows_of index input.recommendations
