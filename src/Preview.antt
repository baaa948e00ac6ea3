-- ===== src/Preview.antt =====
-- frontend/lib/operations-api/mock.ts: the preview workflow, an in-memory Operations API with the
-- transport rules of the real one. The client is made with `persist: false`. The demo snapshot, its
-- schedule and the recommendation fixture are the parameter `Fixture`; random ids and the clock
-- come with each call as an `Env`. A call that throws leaves the store as it is.
pub mod Requests
pub mod Create
pub mod Decide
pub mod Commands
pub mod Receipts
pub mod Replay
pub mod Outcome
pub mod Publish
pub mod Freeze
mod Tests
pub mod Reads
use reinforcement_learning_c.Prelude.{
  ℕ, zero, suc, ◌+◌, String, Bool, true, false, not, List, [], ◌∷◌, ◌++◌, Option, none, some,
  Result, ok, err, ◌>>=◌, ◌>>◌, throw_if, ◌==◌, nat_eq, string_eq, is_some, length, lookup, insert,
  if◌then◌else◌,
}
use reinforcement_learning_c.Decision.{
  Mode, Status, CommandName, CaseStatus, Meta, Recommendation, Snapshot, Schedule, CommitMetadata,
  HistoryEvent, Payload, ActorKind,
}

pub data MockMode : Type 0 where
  success empty_schedule unauthorized unavailable forbidden missing_snapshot integrity_error :
      MockMode

-- An `OperationsApiError`, by its status and its code.
pub record ApiFailure : Type 0 where
  pub status : ℕ
  pub code : String

abbrev pub failure : ℕ → String → ApiFailure
failure status code = record { status = status; code = code }

pub record Fixture : Type 0 where
  pub mode : MockMode
  pub basis : Snapshot
  pub schedule : Option Schedule  -- basis.current_schedule
  pub recommendation : String → Recommendation  -- createOperationsRecommendationFixture

pub record Env : Type 0 where
  pub case_id : String
  pub event_id : String
  pub now : String

-- `{ caseStatus, meta }`, of which the preview always has both.
pub record CaseResponse : Type 0 where
  pub case_status : CaseStatus
  pub meta : Meta

-- A case with its artifact.
pub record CaseItem : Type 0 where
  pub response : CaseResponse
  pub recommendation : Recommendation
  pub snapshot : Snapshot

pub record CreateBody : Type 0 where
  pub factory_id : String
  pub expected_snapshot_id : String
  pub expected_plan_version : ℕ
  pub mode : Mode
  pub trigger : String  -- the rest of `request`, which the preview only compares

pub data Choice : Type 0 where
  approve : String → ℕ → Option String → Choice
  reject : String → Choice
  commit : String → ℕ → Choice

pub record CommandBody : Type 0 where
  pub decision_case_id : String
  pub recommendation_id : String
  pub expected_snapshot_id : String
  pub expected_plan_version : ℕ
  pub expected_case_revision : ℕ
  pub choice : Choice

pub data Body : Type 0 where
  create_body : CreateBody → Body
  command_body : CommandBody → Body

pub record Receipt : Type 0 where
  pub body : Body
  pub response : CaseResponse

pub record Store : Type 0 where
  pub published : Option Schedule
  pub plan_version : ℕ
  pub commit : Option CommitMetadata
  pub cases : List (String × CaseItem)
  pub receipts : List (String × Receipt)
  pub events : List (String × List HistoryEvent)

-- `mode === "empty-schedule"` clears the basis' schedule before `published` is read.
abbrev start_schedule : MockMode → Option Schedule → Option Schedule
start_schedule empty_schedule s = none
start_schedule _ s = s

unfoldable pub new_store : Fixture → Store
new_store fx =
    let published = start_schedule fx.mode fx.schedule in
    record {
      published = published;
      plan_version = if is_some published then 1 else 0;
      commit = none;
      cases = [];
      receipts = [];
      events = [];
    }

unfoldable pub check_mode : MockMode → Result ApiFailure (Unit {0})
check_mode success = ok tt
check_mode empty_schedule = ok tt
check_mode unauthorized = err (failure 401 "UNAUTHORIZED")
check_mode unavailable = err (failure 503 "DB_UNAVAILABLE")
check_mode forbidden = err (failure 403 "FORBIDDEN")
check_mode missing_snapshot = err (failure 404 "OPERATIONS_CONTEXT_NOT_FOUND")
check_mode integrity_error = err (failure 500 "OPERATIONS_INTEGRITY_ERROR")

-- `check`: an aborted signal throws first; its AbortError is written as status 0.
unfoldable pub check : Fixture → Bool → Result ApiFailure (Unit {0})
unfolding check_mode
check fx aborted = do throw_if aborted (failure 0 "AbortError"); check_mode fx.mode

-- `read`, which returns the basis snapshot.
unfoldable pub read : Fixture → String → Bool → Result ApiFailure Snapshot
unfolding check
read fx factory_id aborted = do
  check fx aborted
  throw_if (not (factory_id == fx.basis.factory_id)) (failure 404 "FACTORY_NOT_FOUND")
  ok fx.basis

abbrev pub or_empty : Option (List HistoryEvent) → List HistoryEvent
or_empty none = []
or_empty (some es) = es

-- `recordEvent`: the next sequence is one more than the number of events so far.
unfoldable pub record_event :
    Env
    → String
    → String
    → Payload
    → ActorKind
    → List (String × List HistoryEvent)
    → List (String × List HistoryEvent)
record_event env case_id type payload kind events =
    let history = or_empty (lookup case_id events) in
    let event : HistoryEvent = record {
      id = env.event_id;
      case_id = case_id;
      sequence = length history + 1;
      type = type;
      actor = kind;
      occurred_at = env.now;
      payload = payload;
    } in
    insert case_id (history ++ event ∷ []) events
