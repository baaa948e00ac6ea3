-- ===== src/Decisions/Paging.antt =====
-- The loops over pages of the decision client (frontend/lib/decision-api/client.ts: allEvents and
-- listQueue), and the context of a row that is chosen from what they return (getContext). A
-- `request` is what the service answers for a page; no page is asked for twice.
pub mod Ends
pub mod Context
use reinforcement_learning_c.Prelude.{
  ℕ, zero, suc, ◌+◌, String, Bool, true, false, ◌&&◌, not, Option, none, some, List, [], ◌∷◌, ◌++◌,
  string_eq, leb, ◌==◌, Result, ok, err, ◌>>=◌, ◌>>◌, throw_if, find, if◌then◌else◌, need,
}
use reinforcement_learning_c.Json.{Json, Fields, text, object, member, record_of, text_of}
use reinforcement_learning_c.Product.{ProductApiError, malformed_product_api_response}
use reinforcement_learning_c.Decisions.{DecisionQueueItem}
use reinforcement_learning_c.Decisions.Wire.{data_list, map_ok}
use reinforcement_learning_c.Decisions.Wire.Candidate.{candidate_from}

-- The rows of a page, and how many pages the answer names.
pub record Page {ℓ} (A : Type ℓ) : Type ℓ where
  pub rows : List A
  pub total_pages : ℕ

module _ {ℓ} {A : Type ℓ} where
  -- `none` is a loop that has not ended.
  unfoldable pub put_before :
      List A → Option (Result ProductApiError (List A)) → Option (Result ProductApiError (List A))
  put_before rows none = none
  put_before rows (some (err e)) = some (err e)
  put_before rows (some (ok more)) = some (ok (rows ++ more))

  unfoldable pub after_page :
      Result ProductApiError (Page A)
      → (page : ℕ) (rest : Option (Result ProductApiError (List A)))
      → Option (Result ProductApiError (List A))
  unfolding put_before
  after_page (err e) page rest = some (err e)
  after_page (ok p) page rest =
      if leb (page + 1) p.total_pages then put_before p.rows rest else some (ok p.rows)

  -- The loop from `page` on. Its test reads the number of pages from the last answer.
  unfoldable pub collect :
      (ℕ → Result ProductApiError (Page A))
      → (fuel page : ℕ) → Option (Result ProductApiError (List A))
  unfolding after_page
  collect ask zero page = none
  collect ask (suc fuel) page =
      let rest = collect ask fuel (page + 1) in after_page (ask page) page rest

-- One round of `listQueue`.
unfoldable pub queue_page :
    Result ProductApiError Json → Result ProductApiError (Page DecisionQueueItem)
queue_page answer = do
  payload ← answer
  batch ← data_list payload "Product API returned malformed decision queue."
  rows ← map_ok candidate_from batch.items
  ok (record { rows = rows; total_pages = batch.total_pages })

-- One round of `allEvents`.
unfoldable pub event_page : Result ProductApiError Json → Result ProductApiError (Page Json)
event_page answer = do
  payload ← answer
  batch ← data_list payload "Product API returned malformed event list."
  ok (record { rows = batch.items; total_pages = batch.total_pages })

module _ (request : ℕ → Result ProductApiError Json) (fuel : ℕ) where
  -- `listQueue`
  unfoldable pub list_queue : Option (Result ProductApiError (List DecisionQueueItem))
  unfolding collect queue_page
  list_queue = collect (λ page. queue_page (request page)) fuel 1

  -- `allEvents`. Its test stands before a round, and holds of the first one.
  unfoldable pub all_events : Option (Result ProductApiError (List Json))
  unfolding collect event_page
  all_events = collect (λ page. event_page (request page)) fuel 1

pub record DecisionContext (Config : Type 0) : Type 0 where
  pub experiment_name : String
  pub observation_key : String
  pub observation : Fields
  pub recommendation : Fields
  pub environment_config : Config

has_id_in : String → Option Json → Bool
has_id_in id (some (text s)) = s == id
has_id_in id _ = false

-- `record(event) && event.id === id`
unfoldable pub has_id : String → Json → Bool
unfolding has_id_in
has_id id (object fs) = has_id_in id (member "id" fs)
has_id id _ = false

abbrev pub malformed_context : ProductApiError
malformed_context =
    malformed_product_api_response "Maintenance API could not load the selected decision context."

-- `getContext`, once the experiment and both lists of events are there. An experiment is
-- its name and its configuration.
unfoldable pub context_from :
    {Config : Type 0} (name : String) (config : Config) (item : DecisionQueueItem)
    (observations recommendations : List Json)
    → Result ProductApiError (DecisionContext Config)
unfolding has_id
context_from name config item observations recommendations = do
  observation ← need (record_of (find (has_id item.observation_id) observations)) malformed_context
  payload ← need (record_of (member "payload" observation)) malformed_context
  key ← need (text_of (member "observationKey" observation)) malformed_context
  recommendation ←
      need (record_of (find (has_id item.recommendation_id) recommendations)) malformed_context
  advice ← need (record_of (member "payload" recommendation)) malformed_context
  ok (record {
    experiment_name = name;
    observation_key = key;
    observation = payload;
    recommendation = advice;
    environment_config = config;
  })
