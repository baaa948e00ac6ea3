-- ===== src/Preview/Reads.antt =====
-- The calls of the preview that only read: getDecisionCaseRecommendation, getOperationsSnapshot,
-- getCurrentSchedule and listEvents.
use reinforcement_learning_c.Prelude.{
  ℕ, String, Bool, not, ◌||◌, List, [], ◌∷◌, Option, none, some, Result, ok, err, ◌>>=◌, ◌>>◌,
  throw_if, ltb, is_some, length, take, lookup, if◌then◌else◌,
}
use reinforcement_learning_c.Decision.{
  Recommendation, Snapshot, Schedule, CommitMetadata, HistoryEvent, EventsPage,
}
use reinforcement_learning_c.Preview.{ApiFailure, failure, Fixture, Store, check, read, or_empty}

pub record Artifact : Type 0 where
  pub recommendation : Recommendation
  pub snapshot : Snapshot

unfoldable pub get_decision_case_recommendation :
    Fixture → Store → Bool → String → Result ApiFailure Artifact
unfolding check
get_decision_case_recommendation fx s aborted case_id = do
  check fx aborted
  elim (lookup case_id s.cases) [
    | none ↦ err (failure 404 "DECISION_CASE_NOT_FOUND")
    | some item ↦
        if not (is_some item.response.case_status.recommendation_id)
        then err (failure 404 "RECOMMENDATION_NOT_READY")
        else ok (record { recommendation = item.recommendation; snapshot = item.snapshot })
  ]

pub record SnapshotResponse : Type 0 where
  pub factory_id : String
  pub snapshot_id : String
  pub plan_version : ℕ
  pub current_schedule_id : Option String
  pub snapshot : Snapshot

abbrev schedule_id_of : Option Schedule → Option String
schedule_id_of none = none
schedule_id_of (some s) = some s.schedule_id

unfoldable pub get_operations_snapshot :
    Fixture → Store → Bool → String → Result ApiFailure SnapshotResponse
unfolding read
get_operations_snapshot fx s aborted factory_id = do
  snapshot ← read fx factory_id aborted
  ok (record {
    factory_id = snapshot.factory_id;
    snapshot_id = snapshot.snapshot_id;
    plan_version = s.plan_version;
    current_schedule_id = schedule_id_of s.published;
    snapshot = snapshot;
  })

pub record ScheduleResponse : Type 0 where
  pub factory_id : String
  pub snapshot_id : String
  pub plan_version : ℕ
  pub schedule : Option Schedule
  pub basis_snapshot : Option Snapshot
  pub commit : Option CommitMetadata

abbrev pub basis_of : Option Schedule → Snapshot → Option Snapshot
basis_of none snapshot = none
basis_of (some p) snapshot = some snapshot

unfoldable pub get_current_schedule :
    Fixture → Store → Bool → String → Result ApiFailure ScheduleResponse
unfolding read
get_current_schedule fx s aborted factory_id = do
  snapshot ← read fx factory_id aborted
  ok (record {
    factory_id = snapshot.factory_id;
    snapshot_id = snapshot.snapshot_id;
    plan_version = s.plan_version;
    schedule = s.published;
    basis_snapshot = basis_of s.published snapshot;
    commit = s.commit;
  })

-- The rows after a sequence.
unfoldable pub rows_after : ℕ → List HistoryEvent → List HistoryEvent
rows_after after [] = []
rows_after after (e ∷ es) =
    let rest = rows_after after es in if ltb after e.sequence then e ∷ rest else rest

abbrev pub last_or : ℕ → List HistoryEvent → ℕ
last_or d [] = d
last_or d (e ∷ es) = last_or e.sequence es

unfoldable pub page_of : ℕ → ℕ → List HistoryEvent → EventsPage
unfolding rows_after
page_of after limit history =
    let rows = rows_after after history in
    let items = take limit rows in
    record {
      items = items;
      has_more = ltb limit (length rows);
      next_after_sequence = last_or after items;
    }

-- `listEvents`. Sequences and limits are natural numbers, so only the range of the limit is tested.
unfoldable pub list_events : Fixture → Store → Bool → String → ℕ → ℕ → Result ApiFailure EventsPage
unfolding check page_of
list_events fx s aborted case_id after limit = do
  check fx aborted
  throw_if (not (is_some (lookup case_id s.cases))) (failure 404 "DECISION_CASE_NOT_FOUND")
  throw_if (ltb limit 1 || ltb 200 limit) (failure 400 "VALIDATION_ERROR")
  ok (page_of after limit (or_empty (lookup case_id s.events)))
