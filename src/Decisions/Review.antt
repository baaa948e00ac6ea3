-- ===== src/Decisions/Review.antt =====
-- The preview of the decision service (frontend/lib/decision-api/mock.ts, MockDecisionApiClient):
-- opening a review, reading its history and submitting a verdict. Its decisions are a map from
-- recommendations to histories. The fixture, its rows and ids, is an argument; so are the new ids and
-- the time. A copy that `clone` makes is the value itself, since nothing else changes it.
pub mod Store
mod Tests
pub mod Once
pub mod Life
pub mod Listing
pub mod Frozen
pub mod Override
use reinforcement_learning_c.Prelude.{
  String, Bool, true, false, ◌&&◌, ◌||◌, not, Option, none, some, List, [], ◌∷◌, ◌++◌, map,
  string_eq, ◌==◌, Eq, Result, ok, err, ◌>>=◌, ◌>>◌, throw_if, find, any, all, is_blank, trim,
  is_text, is_some, insert, lookup, if◌then◌else◌,
}
use reinforcement_learning_c.Prelude.Sorting.{sort_texts}

pub data Status : Type 0 where
  pending_review : Status
  approved : Status
  rejected : Status
  overridden : Status

pub data ReviewAction : Type 0 where
  approve : ReviewAction
  reject : ReviewAction
  override : ReviewAction

pub data ToolAction : Type 0 where
  continue : ToolAction
  replace : ToolAction

pub record MachineAction : Type 0 where
  pub machine_id : String
  pub action : ToolAction

pub record JointAction : Type 0 where
  pub observation_id : String
  pub actions : List MachineAction

-- What a row of the fixture says: the recommendation and the observation that it is for.
pub record ReviewRow : Type 0 where
  pub recommendation_id : String
  pub observation_key : String
  pub machines : List String
  pub policy_id : String
  pub recommended : JointAction

-- A review action. Both of its snapshots are copies of the row, and the status before is always
-- `PENDING_REVIEW`.
pub record Review : Type 0 where
  pub id : String
  pub decision_id : String
  pub actor_user_id : String
  pub to_status : Status
  pub reason : Option String
  pub selected_action : Option JointAction
  pub evidence : ReviewRow
  pub created_at : String

pub record History : Type 0 where
  pub id : String
  pub recommendation_id : String
  pub status : Status
  pub created_at : String
  pub actions : List Review

pub record Ids : Type 0 where
  pub recommendation : String
  pub decision : String

pub record ReviewInput : Type 0 where
  pub reason : Option String
  pub replacement : Option JointAction

-- What a new review is given from outside.
pub record Stamp : Type 0 where
  pub uuid : String
  pub now : String

pub data PreviewError : Type 0 where
  aborted : PreviewError
  not_found : (code : Option String) → PreviewError  -- status 404
  invalid_transition : PreviewError  -- status 409
  invalid_replacement : PreviewError  -- status 400

abbrev pub Decisions : Type 0
Decisions = List (String × History)

unfoldable pub is_pending : Status → Bool
is_pending pending_review = true
is_pending _ = false

unfoldable pub same_action : ToolAction → ToolAction → Bool
same_action continue continue = true
same_action replace replace = true
same_action _ _ = false

-- `[...this.decisions.values()].find((value) => value.id === decisionId)`
unfoldable pub find_decision : String → Decisions → Option History
find_decision id [] = none
find_decision id ((key, h) ∷ rest) = if h.id == id then some h else find_decision id rest

-- The same search, and the assignments to what it finds, which the map shares.
unfoldable pub update_decision : String → (History → History) → Decisions → Decisions
update_decision id f [] = []
update_decision id f ((key, h) ∷ rest) =
    if h.id == id then (key, f h) ∷ rest else (key, h) ∷ update_decision id f rest

abbrev pub machine_ids : JointAction → List String
machine_ids a = map (λ (m : MachineAction). m.machine_id) a.actions

-- The replacement gives a machine another action than the recommendation.
unfoldable pub is_changed : (original replacement : JointAction) → Bool
unfolding same_action
is_changed original replacement =
    any
      (λ (m : MachineAction). is_some (
        find
          (λ (o : MachineAction).
            o.machine_id == m.machine_id && not (same_action o.action m.action))
          original.actions))
      replacement.actions

-- `!input.reason?.trim()`
unfoldable pub lacks_reason : Option String → Bool
lacks_reason none = true
lacks_reason (some s) = is_blank s

unfoldable pub same_texts : List String → List String → Bool
same_texts [] [] = true
same_texts (s ∷ ss) (t ∷ ts) = s == t && same_texts ss ts
same_texts _ _ = false

unfoldable pub is_bad_replacement : ReviewRow → Option JointAction → Bool
unfolding is_changed same_texts
is_bad_replacement row none = true
is_bad_replacement row (some replacement) =
    not (replacement.observation_id == row.observation_key)
    || not (same_texts (sort_texts row.machines) (sort_texts (machine_ids replacement)))
    || not (is_changed row.recommended replacement)

unfoldable pub is_bad_override : ReviewAction → ReviewRow → ReviewInput → Bool
unfolding is_bad_replacement lacks_reason
is_bad_override override row input =
    lacks_reason input.reason || is_bad_replacement row input.replacement
is_bad_override _ row input = false

unfoldable pub verdict : ReviewAction → Status
verdict approve = approved
verdict reject = rejected
verdict override = overridden

-- `input.reason?.trim() || null`
unfoldable pub kept_reason : Option String → Option String
kept_reason none = none
kept_reason (some s) = if is_blank s then none else some (trim s)

unfoldable pub selected : ReviewAction → Option JointAction → JointAction → Option JointAction
selected reject replacement recommended = none
selected _ none recommended = some recommended
selected _ (some replacement) recommended = some replacement

abbrev pub reviewer : String
reviewer = "878c179a-a0e1-4cd7-aa36-74c48ea99a1b"

unfoldable pub new_review : Stamp → String → ReviewAction → ReviewInput → ReviewRow → Review
unfolding verdict kept_reason selected
new_review stamp decision_id action input row = record {
  id = stamp.uuid;
  decision_id = decision_id;
  actor_user_id = reviewer;
  to_status = verdict action;
  reason = kept_reason input.reason;
  selected_action = selected action input.replacement row.recommended;
  evidence = row;
  created_at = stamp.now;
}

-- `decision.status = toStatus; decision.actions.push(review)`
unfoldable pub decide : Review → History → History
decide review h = record h { status = review.to_status; actions = h.actions ++ review ∷ [] }

-- `Map.get` on the ids of the fixture.
abbrev pub known_ids : String → List Ids → Option Ids
known_ids id ids = find (λ (i : Ids). i.recommendation == id) ids

abbrev pub row_of : String → List ReviewRow → Option ReviewRow
row_of id rows = find (λ (r : ReviewRow). r.recommendation_id == id) rows

abbrev pub new_history : Ids → (recommendation_id now : String) → History
new_history ids recommendation_id now = record {
  id = ids.decision;
  recommendation_id = recommendation_id;
  status = pending_review;
  created_at = now;
  actions = [];
}
