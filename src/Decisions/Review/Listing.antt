-- ===== src/Decisions/Review/Listing.antt =====
-- The queue of frontend/lib/decision-api/mock.ts (fixtureRows and listQueue): the rows of the fixture
-- with the statuses of the decisions. The events of the fixture, a group for each recommendation, are
-- an argument.
use reinforcement_learning_c.Prelude.{
  String, false, Option, none, some, List, [], ◌∷◌, ◌++◌, map, ◌≡◌, ◌∙◌, ap, refl, string_eq, ◌==◌,
  All, All-append, lookup, Result, ok, ◌>>=◌, need, Ensures, Ensures-eq-ok, >>=-Ensures,
  >>=-Ensures_any, Bool-cases, inl, inr, if◌then◌else◌,
}
use Prim.Native.Nat.{Ordering}
use reinforcement_learning_c.Prelude.Sorting.{All-sort_by}
use reinforcement_learning_c.Json.{Number, decimal, Json, Fields}
use reinforcement_learning_c.Product.{ProductApiError}
use reinforcement_learning_c.Decisions.Rows.{
  KnownStatus, Input, Row, MachineAction, get_or, known_status, Advice, advice_from,
  index_observations, row_for, rows_for, rows_of, rows_from_events,
}
use reinforcement_learning_c.Decisions.Rows.Queue.{is_before, sort_decision_queue}
use reinforcement_learning_c.Decisions.Review.{
  Status, pending_review, approved, rejected, overridden, History, Decisions,
}

unfoldable pub status_text : Status → String
status_text pending_review = "PENDING_REVIEW"
status_text approved = "APPROVED"
status_text rejected = "REJECTED"
status_text overridden = "OVERRIDDEN"

-- What a map of decisions says to `rowsFromEvents`.
unfoldable pub known_of : Decisions → List (String × KnownStatus)
unfolding status_text
known_of [] = []
known_of ((key, h) ∷ rest) =
    (key, record { decision_id = h.id; status = status_text h.status }) ∷ known_of rest

-- A row as the preview lists it, whose other costs are null.
pub record ListedRow (Config : Type 0) : Type 0 where
  pub row : Row Config
  pub predicted_expected_cost : Option Number

unfoldable pub open_status : String → String
open_status status = if status == "NOT_OPENED" then "PENDING_REVIEW" else status

-- The defaults of `listQueue`.
unfoldable pub listed_row : {Config : Type 0} → Row Config → ListedRow Config
unfolding open_status
listed_row r = record {
  row = record r {
    status = open_status r.status;
    severity = some (get_or r.severity "MEDIUM");
    failure_risk = some (get_or r.failure_risk (decimal false 1 1));
  };
  predicted_expected_cost = r.predicted_cost;
}

module _ {Config : Type 0} where
  abbrev pub known_input : Input Config → Decisions → Input Config
  known_input group ds = record group { known_statuses = known_of ds }

  -- `groups.flat()`
  unfoldable pub group_rows :
      List (Input Config) → Decisions → Result ProductApiError (List (Row Config))
  unfolding known_of
  group_rows [] ds = ok []
  group_rows (group ∷ groups) ds = do
    rows ← rows_from_events (known_input group ds)
    more ← group_rows groups ds
    ok (rows ++ more)

  -- `listQueue`, after `check`.
  unfoldable pub list_preview :
      (upper : String → String) (collate : String → String → Ordering)
      → List (Input Config)
      → Decisions
      → Result ProductApiError (List (ListedRow Config))
  unfolding group_rows listed_row
  list_preview upper collate groups ds = do
    rows ← group_rows groups ds
    ok (map listed_row (sort_decision_queue upper collate rows))

abbrev pub shown_status : Option History → String
shown_status none = "PENDING_REVIEW"
shown_status (some h) = status_text h.status

-- What `rowsFromEvents` is told of a recommendation.
abbrev told_status : Option History → String
told_status none = "NOT_OPENED"
told_status (some h) = status_text h.status

known_status-known_of :
    (key : String) (ds : Decisions)
    → known_status (lookup key (known_of ds)) ≡ told_status (lookup key ds)
unfolding known_of lookup known_status
known_status-known_of key [] = refl
known_status-known_of key ((k, h) ∷ rest) = elim (Bool-cases (k == key)) [
  | inl here ↦ rw here
  | inr there ↦ rw there (known_status-known_of key rest)
]

open_status-status_text : (s : Status) → open_status (status_text s) ≡ status_text s
unfolding open_status status_text
open_status-status_text pending_review = refl
open_status-status_text approved = refl
open_status-status_text rejected = refl
open_status-status_text overridden = refl

open_status-told_status : (o : Option History) → open_status (told_status o) ≡ shown_status o
unfolding open_status
open_status-told_status none = refl
open_status-told_status (some h) = open_status-status_text h.status

module _ {Config : Type 0} (ds : Decisions) where
  IsTold : Row Config → Type 0
  IsTold r = r.status ≡ told_status (lookup r.recommendation_id ds)

  -- The status of a row is the one of its decision, and pending if there is none.
  pub IsShown : ListedRow Config → Type 0
  IsShown l = l.row.status ≡ shown_status (lookup l.row.recommendation_id ds)

  module _ (group : Input Config) where
    rows_for-IsTold :
        (advice : Advice) (actions : List MachineAction)
        → Ensures (All IsTold) (rows_for (known_input group ds) advice actions)
    unfolding rows_for row_for IsTold
    rows_for-IsTold advice [] = tt
    rows_for-IsTold advice (action ∷ actions) = >>=-Ensures_any (All IsTold) (need _ _) _ λ machine.
        >>=-Ensures (All IsTold) (All IsTold) (rows_for (known_input group ds) advice actions) _
          (rows_for-IsTold advice actions) λ rows told. (known_status-known_of advice.id ds, told)

    rows_of-IsTold :
        (index : List (String × Fields)) (vs : List Json)
        → Ensures (All IsTold) (rows_of (known_input group ds) index vs)
    unfolding rows_of
    rows_of-IsTold index [] = tt
    rows_of-IsTold index (v ∷ vs) = >>=-Ensures_any (All IsTold) (advice_from index v) _ λ advice.
        >>=-Ensures (All IsTold) (All IsTold)
          (rows_for (known_input group ds) advice advice.actions) _
          (rows_for-IsTold advice advice.actions)
          λ rows told.
            >>=-Ensures (All IsTold) (All IsTold) (rows_of (known_input group ds) index vs) _
              (rows_of-IsTold index vs) λ more later. All-append IsTold rows more told later

    rows_from_events-IsTold : Ensures (All IsTold) (rows_from_events (known_input group ds))
    unfolding rows_from_events
    rows_from_events-IsTold =
        >>=-Ensures_any (All IsTold) (index_observations group.observations []) _
          λ index. rows_of-IsTold index group.recommendations

  group_rows-IsTold : (groups : List (Input Config)) → Ensures (All IsTold) (group_rows groups ds)
  unfolding group_rows
  group_rows-IsTold [] = tt
  group_rows-IsTold (group ∷ groups) =
      >>=-Ensures (All IsTold) (All IsTold) (rows_from_events (known_input group ds)) _
        (rows_from_events-IsTold group)
        λ rows told.
          >>=-Ensures (All IsTold) (All IsTold) (group_rows groups ds) _ (group_rows-IsTold groups)
            λ more later. All-append IsTold rows more told later

  listed_row-IsShown : (r : Row Config) → IsTold r → IsShown (listed_row r)
  unfolding listed_row IsTold IsShown
  listed_row-IsShown r told =
      ap open_status told ∙ open_status-told_status (lookup r.recommendation_id ds)

  map-IsShown : (rows : List (Row Config)) → All IsTold rows → All IsShown (map listed_row rows)
  map-IsShown [] h = tt
  map-IsShown (r ∷ rows) h = (listed_row-IsShown r h.0, map-IsShown rows h.1)

  -- Each row that the preview lists shows the status of the decision on its recommendation, and
  -- `PENDING_REVIEW` if none was opened.
  pub list_preview-IsShown :
      (upper : String → String) (collate : String → String → Ordering)
      (groups : List (Input Config)) {rows : List (ListedRow Config)}
      → list_preview upper collate groups ds ≡ ok rows
      → All IsShown rows
  unfolding list_preview sort_decision_queue
  list_preview-IsShown upper collate groups e =
      Ensures-eq-ok (All IsShown) (list_preview upper collate groups ds)
        (>>=-Ensures (All IsShown) (All IsTold) (group_rows groups ds) _ (group_rows-IsTold groups)
          λ rows told.
            map-IsShown (sort_decision_queue upper collate rows)
              (All-sort_by (is_before upper collate) IsTold rows told))
        e
