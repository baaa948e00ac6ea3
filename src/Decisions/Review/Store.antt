-- ===== src/Decisions/Review/Store.antt =====
-- The operations of frontend/lib/decision-api/mock.ts, MockDecisionApiClient: openReview, getHistory
-- and submitReview, and runs of them. An operation returns the map and its result.
use reinforcement_learning_c.Prelude.{
  String, Bool, true, false, not, Option, none, some, List, [], ◌∷◌, string_eq, Result, ok, err,
  ◌>>=◌, ◌>>◌, throw_if, insert, lookup, need,
}
use reinforcement_learning_c.Decisions.Review.{
  Status, ReviewAction, ReviewRow, Review, History, Ids, ReviewInput, Stamp, PreviewError, aborted,
  not_found, invalid_transition, invalid_replacement, Decisions, is_pending, find_decision,
  update_decision, is_bad_override, new_review, decide, known_ids, row_of, new_history,
}

-- A decision without its actions.
pub record Resource : Type 0 where
  pub id : String
  pub recommendation_id : String
  pub status : Status
  pub created_at : String

abbrev pub resource : History → Resource
resource h = record {
  id = h.id;
  recommendation_id = h.recommendation_id;
  status = h.status;
  created_at = h.created_at;
}

-- The fixture: the ids of decisions, and the rows.
pub record Fixture : Type 0 where
  pub ids : List Ids
  pub rows : List ReviewRow

unfoldable pub open_new :
    Option Ids
    → (recommendation_id now : String) → Decisions
    → Decisions × Result PreviewError Resource
open_new none recommendation_id now ds = (ds, err (not_found (some "RECOMMENDATION_NOT_FOUND")))
open_new (some ids) recommendation_id now ds =
    let h = new_history ids recommendation_id now in
    (insert recommendation_id h ds, ok (resource h))

unfoldable pub open_found :
    Option History
    → (fixture : Fixture) (recommendation_id now : String) (ds : Decisions)
    → Decisions × Result PreviewError Resource
open_found (some h) fixture recommendation_id now ds = (ds, ok (resource h))
open_found none fixture recommendation_id now ds =
    open_new (known_ids recommendation_id fixture.ids) recommendation_id now ds

-- `openReview`. `stop` is the aborted signal of `check`.
unfoldable pub open_review :
    Fixture
    → (stop : Bool) (recommendation_id now : String) (ds : Decisions)
    → Decisions × Result PreviewError Resource
unfolding open_found open_new
open_review fixture true recommendation_id now ds = (ds, err aborted)
open_review fixture false recommendation_id now ds =
    open_found (lookup recommendation_id ds) fixture recommendation_id now ds

-- `getHistory`
unfoldable pub get_history :
    (stop : Bool) (decision_id : String) → Decisions → Result PreviewError History
get_history stop decision_id ds = do
  throw_if stop aborted
  need (find_decision decision_id ds) (not_found (some "DECISION_NOT_FOUND"))

-- The review that `submitReview` makes, or its error.
unfoldable pub prepare_review :
    Fixture
    → (stop : Bool) (stamp : Stamp) (decision_id : String) (action : ReviewAction)
      (input : ReviewInput) (ds : Decisions)
    → Result PreviewError Review
unfolding get_history
prepare_review fixture stop stamp decision_id action input ds = do
  decision ← get_history stop decision_id ds
  throw_if (not (is_pending decision.status)) invalid_transition
  row ← need (row_of decision.recommendation_id fixture.rows) (not_found none)
  throw_if (is_bad_override action row input) invalid_replacement
  ok (new_review stamp decision_id action input row)

unfoldable pub store_review :
    (decision_id : String) → Result PreviewError Review → Decisions → Decisions
store_review decision_id (err e) ds = ds
store_review decision_id (ok review) ds = update_decision decision_id (decide review) ds

-- `submitReview`
unfoldable pub submit_review :
    Fixture
    → (stop : Bool) (stamp : Stamp) (decision_id : String) (action : ReviewAction)
      (input : ReviewInput) (ds : Decisions)
    → Decisions × Result PreviewError Review
unfolding store_review
submit_review fixture stop stamp decision_id action input ds =
    let result = prepare_review fixture stop stamp decision_id action input ds in
    (store_review decision_id result ds, result)

-- The calls that change the map.
pub data Call : Type 0 where
  opening : (stop : Bool) (recommendation_id now : String) → Call
  submitting :
      (stop : Bool) (stamp : Stamp) (decision_id : String) (action : ReviewAction)
      (input : ReviewInput)
      → Call

unfoldable pub call : Fixture → Call → Decisions → Decisions
call fixture (opening stop recommendation_id now) ds =
    (open_review fixture stop recommendation_id now ds).0
call fixture (submitting stop stamp decision_id action input) ds =
    (submit_review fixture stop stamp decision_id action input ds).0

unfoldable pub calls : Fixture → List Call → Decisions → Decisions
unfolding call
calls fixture [] ds = ds
calls fixture (c ∷ cs) ds = calls fixture cs (call fixture c ds)
