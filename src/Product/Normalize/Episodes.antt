-- ===== src/Product/Normalize/Episodes.antt =====
-- Episodes and the details of an experiment (frontend/lib/product-api/normalize.ts: normalizeFailure,
-- normalizeEpisodeListItem, normalizeOptionalTimestamps and normalizeExperimentDetail).
use Prim.Native.String.{◌++◌ as str_append}
use reinforcement_learning_c.Prelude.{
  String, not, Option, none, some, List, [], ◌∷◌, string_eq, ◌==◌, any, is_blank, Result, ok, err,
  ◌>>=◌, ◌>>◌, throw_if, need, if◌then◌else◌,
}
use reinforcement_learning_c.Json.{
  Number, Json, Fields, null, text, array, object, no_values, member, record_of, text_of, array_of,
  finite_number,
}
use reinforcement_learning_c.Product.{ProductApiError, malformed_product_api_response}
use reinforcement_learning_c.Product.Errors.{nullish_or, fields_or_none}
use reinforcement_learning_c.Product.Normalize.{
  first, missing, required_record, required_string, optional_integer, or_else, unwrap_resource,
  PolicyReference, policy_source, policy_reference,
}
use reinforcement_learning_c.Product.Normalize.Catalog.{map_items}
use reinforcement_learning_c.Product.Normalize.Experiments.{
  Nullable, absent, null_value, given, episode_keys, ExperimentListItem, experiment_list_item,
}

-- `optionalNumber`
unfoldable pub optional_number : Option Json → Nullable Number
optional_number (some null) = null_value
optional_number v = elim (finite_number v) [ none ↦ absent | some n ↦ given n ]

-- `requiredNumber`
unfoldable pub required_number : Option Json → (label : String) → Result ProductApiError Number
required_number v label = need (finite_number v) (missing label)

pub record Failure : Type 0 where
  pub message : String
  pub code : Option String
  pub occurred_at : Option String
  pub details : Option Json

failure_with : Option String → Fields → Nullable Failure
failure_with none fs = absent
failure_with (some message) fs = given (record {
  message = message;
  code = text_of (member "code" fs);
  occurred_at = text_of (first ("occurred_at" ∷ "occurredAt" ∷ "timestamp" ∷ []) fs);
  details = first ("details" ∷ "detail" ∷ []) fs;
})

-- `normalizeFailure`
unfoldable pub normalize_failure : Option Json → Nullable Failure
unfolding failure_with first
normalize_failure (some null) = null_value
normalize_failure (some (text s)) =
    if is_blank s
    then absent
    else given (record { message = s; code = none; occurred_at = none; details = none })
normalize_failure (some (object fs)) =
    failure_with (text_of (first ("message" ∷ "reason" ∷ "error_message" ∷ "errorMessage" ∷ []) fs))
      fs
normalize_failure _ = absent

-- A failure with no time of its own has the time of the episode's failure.
unfoldable pub dated_failure : Nullable Failure → Option String → Nullable Failure
dated_failure (given f) failed_at =
    given (record f { occurred_at = or_else f.occurred_at failed_at })
dated_failure f failed_at = f

-- What the answer around an episode says of it.
pub record Context : Type 0 where
  pub experiment_id : Option String
  pub policy : Option PolicyReference

abbrev pub no_context : Context
no_context = record { experiment_id = none; policy = none }

-- `catch`: the policy of the context, or the error.
unfoldable pub context_policy :
    Result ProductApiError PolicyReference
    → Option PolicyReference
    → Result ProductApiError PolicyReference
context_policy (ok policy) fallback = ok policy
context_policy (err e) none = err e
context_policy (err e) (some policy) = ok policy

abbrev text_json : Option String → Option Json
text_json none = none
text_json (some s) = some (text s)

abbrev pub episode_statuses : List String
episode_statuses = "PENDING" ∷ "RUNNING" ∷ "COMPLETED" ∷ "FAILED" ∷ "CANCELLED" ∷ []

-- `normalizeEpisodeStatus`
unfoldable pub episode_status : Option Json → Result ProductApiError String
unfolding required_string
episode_status v = do
  status ← required_string v "episode status"
  throw_if (not (any (λ s. s == status) episode_statuses)) (
      malformed_product_api_response
        (str_append "Unknown episode status: " (str_append status ".")))
  ok status

-- `value === null ? null : optionalString(value)`
unfoldable pub optional_time : Option Json → Nullable String
optional_time (some null) = null_value
optional_time v = elim (text_of v) [ none ↦ absent | some s ↦ given s ]

pub record EpisodeListItem : Type 0 where
  pub id : String
  pub experiment_id : String
  pub status : String
  pub seed : Number
  pub attempt : Option Number
  pub policy : PolicyReference
  pub key : Option String
  pub steps_completed : Option Number
  pub total_cost : Nullable Number
  pub failure_count : Nullable Number
  pub replacement_count : Nullable Number
  pub waiting_steps : Nullable Number
  pub failure : Nullable Failure
  pub created_at : Option String
  pub updated_at : Option String
  pub started_at : Nullable String
  pub completed_at : Nullable String

abbrev episode_id_keys : List String
episode_id_keys = "id" ∷ "episode_id" ∷ "episodeId" ∷ "episode_key" ∷ "episodeKey" ∷ []

-- `normalizeEpisodeListItem`
unfoldable pub episode_list_item : Context → Json → Result ProductApiError EpisodeListItem
unfolding context_policy episode_status required_record required_string required_number nullish_or
    first
episode_list_item context v = do
  fs ← required_record (some v) "episode"
  policy ← context_policy (policy_reference (some (object (policy_source fs)))) context.policy
  id ← required_string (first episode_id_keys fs) "episode id"
  experiment_id ←
      required_string
        (nullish_or (first ("experiment_id" ∷ "experimentId" ∷ []) fs) (
          nullish_or (member "id" (fields_or_none (record_of (member "experiment" fs))))
            (text_json context.experiment_id)))
        "experiment id"
  status ← episode_status (member "status" fs)
  seed ← required_number (member "seed" fs) "episode seed"
  ok (record {
    id = id;
    experiment_id = experiment_id;
    status = status;
    seed = seed;
    attempt = optional_integer (member "attempt" fs);
    policy = policy;
    key = text_of (first ("key" ∷ "episode_key" ∷ "episodeKey" ∷ []) fs);
    steps_completed = optional_integer (first ("steps_completed" ∷ "stepsCompleted" ∷ []) fs);
    total_cost = optional_number (first ("total_cost" ∷ "totalCost" ∷ []) fs);
    failure_count = optional_number (first ("failure_count" ∷ "failureCount" ∷ []) fs);
    replacement_count = optional_number (first ("replacement_count" ∷ "replacementCount" ∷ []) fs);
    waiting_steps = optional_number (first ("waiting_steps" ∷ "waitingSteps" ∷ []) fs);
    failure =
        dated_failure
          (normalize_failure (first ("failure" ∷ "failure_info" ∷ "failureInfo" ∷ "error" ∷ []) fs))
          (text_of (first ("failed_at" ∷ "failedAt" ∷ []) fs));
    created_at = text_of (first ("created_at" ∷ "createdAt" ∷ []) fs);
    updated_at = text_of (first ("updated_at" ∷ "updatedAt" ∷ []) fs);
    started_at = optional_time (first ("started_at" ∷ "startedAt" ∷ []) fs);
    completed_at = optional_time (first ("completed_at" ∷ "completedAt" ∷ []) fs);
  })

pub record ExperimentDetail : Type 0 where
  pub base : ExperimentListItem
  pub environment_config : Fields
  pub episodes : List EpisodeListItem

-- `normalizeExperimentDetail`
unfoldable pub experiment_detail : Json → Result ProductApiError ExperimentDetail
unfolding map_items nullish_or required_record first
experiment_detail payload = do
  fs ← required_record (some (unwrap_resource ("experiment" ∷ []) payload)) "experiment detail"
  base ← experiment_list_item (object fs)
  raw ←
      need (array_of (nullish_or (first episode_keys fs) (some (array no_values))))
        (malformed_product_api_response "Product API experiment episodes are not a list.")
  episodes ←
      map_items
        (episode_list_item (record { experiment_id = some base.id; policy = some base.policy })) raw
  environment_config ←
      required_record (first ("environment_config" ∷ "environmentConfig" ∷ []) fs)
        "environment configuration"
  ok (record { base = base; environment_config = environment_config; episodes = episodes })
