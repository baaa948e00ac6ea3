-- ===== src/Product/Normalize/Experiments.antt =====
-- Experiments of a list (frontend/lib/product-api/normalize.ts: normalizeOwner,
-- normalizeEpisodeCounts, inferExperimentPolicy and normalizeExperimentListItem).
use reinforcement_learning_c.Prelude.{
  String, false, not, ◌||◌, Option, none, some, List, [], ◌∷◌, length, string_eq, ◌==◌, any,
  is_some, is_blank, Result, ok, err, ◌>>=◌, ◌>>◌, throw_if, if◌then◌else◌,
}
use Prim.Native.String.{◌++◌ as str_append}
use reinforcement_learning_c.Json.{
  Number, decimal, Json, Fields, null, text, object, no_fields, member, record_of, text_of,
  array_of,
}
use reinforcement_learning_c.Product.{ProductApiError, malformed_product_api_response}
use reinforcement_learning_c.Product.Normalize.{
  first, required_record, required_string, optional_integer, or_else, PolicyReference,
  policy_source, policy_reference,
}
use reinforcement_learning_c.Product.Normalize.Catalog.{text_or_null}

-- A value, `null` or nothing.
pub data Nullable {ℓ} (A : Type ℓ) : Type ℓ where
  absent : Nullable A
  null_value : Nullable A
  given : A → Nullable A

pub record Owner : Type 0 where
  pub id : Option String
  pub username : Option String
  pub display_name : Option String

owner_with : Owner → Nullable Owner
owner_with o =
    if is_some o.id || is_some o.username || is_some o.display_name then given o else absent

-- `normalizeOwner`
unfoldable pub normalize_owner : Option Json → Nullable Owner
unfolding owner_with first
normalize_owner (some null) = null_value
normalize_owner (some (text s)) =
    if is_blank s
    then absent
    else given (record { id = none; username = none; display_name = some s })
normalize_owner (some (object fs)) = owner_with (record {
  id = text_of (member "id" fs);
  username = text_of (member "username" fs);
  display_name =
      text_of (first ("display_name" ∷ "displayName" ∷ "full_name" ∷ "fullName" ∷ "name" ∷ []) fs);
})
normalize_owner _ = absent

pub record EpisodeCounts : Type 0 where
  pub total : Number
  pub pending : Option Number
  pub running : Option Number
  pub completed : Option Number
  pub failed : Option Number
  pub cancelled : Option Number

-- `countValue`
unfoldable pub count_value : List String → Fields → Option Number
unfolding first
count_value keys fs = optional_integer (first keys fs)

counts_with : Option Number → Fields → Option EpisodeCounts
counts_with none fs = none
counts_with (some total) fs = some (record {
  total = total;
  pending = count_value ("pending" ∷ "pending_count" ∷ "pendingCount" ∷ []) fs;
  running = count_value ("running" ∷ "running_count" ∷ "runningCount" ∷ []) fs;
  completed = count_value ("completed" ∷ "completed_count" ∷ "completedCount" ∷ []) fs;
  failed = count_value ("failed" ∷ "failed_count" ∷ "failedCount" ∷ []) fs;
  cancelled = count_value ("cancelled" ∷ "cancelled_count" ∷ "cancelledCount" ∷ []) fs;
})

counts_in : Option Fields → Option Number → Option EpisodeCounts
counts_in none fallback = counts_with fallback no_fields
counts_in (some fs) fallback =
    counts_with
      (or_else (count_value ("total" ∷ "total_episodes" ∷ "totalEpisodes" ∷ []) fs) fallback) fs

-- `normalizeEpisodeCounts`
unfoldable pub episode_counts : Option Json → (fallback : Option Number) → Option EpisodeCounts
unfolding counts_in counts_with count_value
episode_counts v fallback = counts_in (record_of v) fallback

abbrev pub episode_keys : List String
episode_keys = "episodes" ∷ "episode_items" ∷ "episodeItems" ∷ []

unfoldable pub first_record : Option (List Json) → Option Fields
first_record (some (v ∷ vs)) = record_of (some v)
first_record _ = none

-- `catch`: the policy of the first episode, or the error.
unfoldable pub policy_of_episode :
    Option Fields → ProductApiError → Result ProductApiError PolicyReference
policy_of_episode none e = err e
policy_of_episode (some fs) e = policy_reference (some (object (policy_source fs)))

unfoldable pub policy_or :
    Result ProductApiError PolicyReference → Option Fields → Result ProductApiError PolicyReference
policy_or (ok policy) episode = ok policy
policy_or (err e) episode = policy_of_episode episode e

-- `inferExperimentPolicy`
unfoldable pub infer_experiment_policy : Fields → Result ProductApiError PolicyReference
unfolding policy_or policy_of_episode first_record first
infer_experiment_policy fs =
    policy_or (policy_reference (some (object (policy_source fs))))
      (first_record (array_of (first episode_keys fs)))

abbrev pub experiment_statuses : List String
experiment_statuses = "DRAFT" ∷ "READY" ∷ "RUNNING" ∷ "COMPLETED" ∷ "FAILED" ∷ "CANCELLED" ∷ []

-- `normalizeExperimentStatus`
unfoldable pub experiment_status : Option Json → Result ProductApiError String
unfolding required_string
experiment_status v = do
  status ← required_string v "experiment status"
  throw_if (not (any (λ s. s == status) experiment_statuses)) (
      malformed_product_api_response
        (str_append "Unknown experiment status: " (str_append status ".")))
  ok status

pub record ExperimentListItem : Type 0 where
  pub id : String
  pub name : String
  pub status : String
  pub policy : PolicyReference
  pub created_at : String
  pub key : Option String
  pub description : Option Json
  pub updated_at : Option String
  pub owner : Nullable Owner
  pub number_of_episodes : Option Number
  pub counts : Option EpisodeCounts

episodes_length : Option (List Json) → Option Number
episodes_length none = none
episodes_length (some vs) = some (decimal false (length vs) 0)

-- `normalizeExperimentListItem`
unfoldable pub experiment_list_item : Json → Result ProductApiError ExperimentListItem
unfolding first required_record required_string experiment_status episodes_length
experiment_list_item v = do
  fs ← required_record (some v) "experiment"
  let number_of_episodes = optional_integer (
      first
        ("number_of_episodes" ∷ "numberOfEpisodes" ∷ "episodeCount" ∷ "requested_episode_count"
          ∷ "requestedEpisodeCount" ∷ [])
        fs)
  id ←
      required_string
        (first ("id" ∷ "experiment_id" ∷ "experimentId" ∷ "experiment_key" ∷ "experimentKey" ∷ [])
          fs)
        "experiment id"
  name ← required_string (member "name" fs) "experiment name"
  status ← experiment_status (member "status" fs)
  policy ← infer_experiment_policy fs
  created_at ←
      required_string (first ("created_at" ∷ "createdAt" ∷ []) fs) "experiment creation time"
  ok (record {
    id = id;
    name = name;
    status = status;
    policy = policy;
    created_at = created_at;
    key = text_of (first ("key" ∷ "experiment_key" ∷ "experimentKey" ∷ []) fs);
    description = text_or_null (member "description" fs);
    updated_at = text_of (first ("updated_at" ∷ "updatedAt" ∷ []) fs);
    owner = normalize_owner (first ("owner" ∷ "created_by" ∷ "createdBy" ∷ "createdById" ∷ []) fs);
    number_of_episodes = number_of_episodes;
    counts =
        episode_counts (first ("episode_counts" ∷ "episodeCounts" ∷ "counts" ∷ []) fs)
          (or_else number_of_episodes (episodes_length (array_of (first episode_keys fs))));
  })
