-- ===== src/Preview/Commands.antt =====
-- submitDecisionCommand of the preview (frontend/lib/operations-api/mock.ts), and the getDecisionCase
-- that moves a new case on.
use reinforcement_learning_c.Prelude.{
  ℕ, ◌+◌, String, Bool, not, ◌&&◌, List, [], ◌∷◌, Option, none, some, Result, ok, err, ◌>>=◌, ◌>>◌,
  throw_if, ◌==◌, nat_eq, string_eq, lookup, insert, if◌then◌else◌,
}
use reinforcement_learning_c.Decision
use reinforcement_learning_c.Decision.{
  Mode, Status, created, awaiting_approval, approved, rejected, committed, CommandName, CaseStatus,
  Meta, Recommendation, CandidatePlan, ApprovedCandidate, HumanDecision, CommitMetadata, Context,
  Payload, human, system, Schedule, is_created, is_awaiting_approval, is_approved, is_live, pending,
  succeeded,
}
use reinforcement_learning_c.Preview.{
  ApiFailure, failure, Fixture, Env, CaseResponse, CaseItem, Choice, approve, reject, commit,
  CommandBody, command_body, Store, check, record_event,
}
use reinforcement_learning_c.Preview.Requests.{receipt}
use reinforcement_learning_c.Preview.Create.{context, plain_payload}
use reinforcement_learning_c.Preview.Decide.{is_current, command_name, is_open_for, Effect, decide}

abbrev pub next_plan_version : Store → Effect → ℕ
next_plan_version s e = elim e.published [ none ↦ s.plan_version | some p ↦ s.plan_version + 1 ]

abbrev pub next_published : Store → Effect → Option Schedule
next_published s e = elim e.published [ none ↦ s.published | some (plan, c) ↦ some plan ]

abbrev pub next_commit : Store → Effect → Option CommitMetadata
next_commit s e = elim e.published [ none ↦ s.commit | some (plan, c) ↦ some c ]

abbrev pub commands_after : CaseStatus → List CommandName
commands_after c =
    if is_approved c.status && is_live c.mode then Decision.CommandName.commit ∷ [] else []

-- The response after a decision: revision, context, commands and time.
unfoldable pub finish : Fixture → Env → Store → Effect → CaseResponse
finish fx env s e = record {
  case_status = record e.response.case_status { updated_at = env.now };
  meta = record e.response.meta {
    case_revision = e.response.meta.case_revision + 1;
    current_context =
        some (record { snapshot_id = fx.basis.snapshot_id; plan_version = next_plan_version s e });
    available_commands = commands_after e.response.case_status;
  };
}

abbrev pub option_hash : Option ApprovedCandidate → (ApprovedCandidate → String) → Option String
option_hash none f = none
option_hash (some a) f = some (f a)

abbrev pub chosen : Choice → Option (String × ℕ)
chosen (approve c v n) = some (c, v)
chosen (reject n) = none
chosen (commit c v) = some (c, v)

unfoldable pub command_payload : Fixture → Env → Store → CaseItem → CommandBody → Effect → Payload
command_payload fx env s item body e =
    let r = finish fx env s e in
    record {
      from_status = some item.response.case_status.status;
      to_status = some r.case_status.status;
      revision = r.meta.case_revision;
      command = some (command_name body.choice);
      recommendation_id = some body.recommendation_id;
      candidate_plan_id = elim (chosen body.choice) [ none ↦ none | some (c, v) ↦ some c ];
      candidate_version = elim (chosen body.choice) [ none ↦ none | some (c, v) ↦ some v ];
      candidate_hash = elim (chosen body.choice) [
        | none ↦ none
        | some p ↦ option_hash r.meta.approved_candidate (λ a. a.candidate_hash)
      ];
      schedule_hash = elim (chosen body.choice) [
        | none ↦ none
        | some p ↦ option_hash r.meta.approved_candidate (λ a. a.schedule_hash)
      ];
      plan_version = some (next_plan_version s e);
    }

unfoldable pub apply_effect :
    Fixture → Env → Store → String → String → CaseItem → CommandBody → Effect → Store
apply_effect fx env s case_id key item body e =
    let response = finish fx env s e in
    record {
      published = next_published s e;
      plan_version = next_plan_version s e;
      commit = next_commit s e;
      cases = insert case_id (record item { response = response }) s.cases;
      events =
          record_event env case_id "CASE_STATUS_CHANGED" (command_payload fx env s item body e)
            human s.events;
      receipts = insert key (record { body = command_body body; response = response }) s.receipts;
    }

-- The part of `submitDecisionCommand` on the case that the store holds, if any.
unfoldable pub submit_to :
    Fixture
    → Env
    → Store
    → String
    → String
    → CommandBody
    → Option CaseItem
    → Result ApiFailure (Store × CaseResponse)
submit_to fx env s key case_id body none = err (failure 404 "DECISION_CASE_NOT_FOUND")
submit_to fx env s key case_id body (some item) = do
  throw_if (not (is_current fx s case_id item body)) (failure 409 "CASE_REVISION_CONFLICT")
  throw_if (not (is_open_for body.choice item.response.case_status.status))
      (failure 409 "CASE_STATE_CONFLICT")
  e ← decide fx env s case_id item body body.choice
  ok (apply_effect fx env s case_id key item body e, finish fx env s e)

-- The part behind the receipt.
unfoldable pub submit_new :
    Fixture
    → Env
    → Store
    → String
    → String
    → CommandBody
    → Option CaseResponse
    → Result ApiFailure (Store × CaseResponse)
submit_new fx env s key case_id body (some response) = ok (s, response)
submit_new fx env s key case_id body none =
    submit_to fx env s key case_id body (lookup case_id s.cases)

-- `submitDecisionCommand`: the new store and the response.
unfoldable pub submit_decision_command :
    Fixture
    → Env
    → Store
    → Bool
    → String
    → String
    → CommandBody
    → Result ApiFailure (Store × CaseResponse)
submit_decision_command fx env s aborted key case_id body = do
  check fx aborted
  replay ← receipt s key (command_body body)
  submit_new fx env s key case_id body replay

-- The commands that a read offers: none on a stale case.
unfoldable pub available : CaseResponse → Bool → List CommandName
available r stale =
    if stale
    then []
    else if is_awaiting_approval r.case_status.status
    then Decision.CommandName.approve ∷ Decision.CommandName.reject ∷ []
    else commands_after r.case_status

-- The response of a read: the case as it was found, in the current context.
unfoldable pub view : Fixture → Store → CaseResponse → CaseResponse
view fx s r =
    let stale = not (r.meta.base_plan_version == s.plan_version) in
    record r {
      meta = record r.meta {
        current_context = some (context fx s);
        stale = stale;
        available_commands = available r stale;
      };
    }

unfoldable pub advanced : CaseItem → CaseItem
advanced item = record item {
  response = record {
    case_status = record item.response.case_status {
      status = awaiting_approval;
      recommendation_id = some item.recommendation.recommendation_id;
    };
    meta = record item.response.meta {
      case_revision = item.response.meta.case_revision + 1;
      processing = some (record { status = succeeded; attempt = 1; error_code = none });
    };
  };
}

unfoldable pub store_advanced : Env → Store → String → CaseItem → Store
store_advanced env s case_id item = record s {
  cases = insert case_id (advanced item) s.cases;
  events =
      record_event env case_id "CASE_STATUS_CHANGED"
        (plain_payload (some created) (some awaiting_approval)
          (item.response.meta.case_revision + 1))
        system s.events;
}

-- The store after a case was read.
unfoldable pub advance : Env → Store → String → CaseItem → Store
advance env s case_id item =
    if is_created item.response.case_status.status then store_advanced env s case_id item else s

abbrev or_missing : Option CaseItem → Result ApiFailure CaseItem
or_missing none = err (failure 404 "DECISION_CASE_NOT_FOUND")
or_missing (some item) = ok item

unfoldable pub found_case : String → Store → Result ApiFailure CaseItem
found_case case_id s = or_missing (lookup case_id s.cases)

-- `getDecisionCase`: a case read as CREATED awaits approval from the next read on.
unfoldable pub get_decision_case :
    Fixture → Env → Store → Bool → String → Result ApiFailure (Store × CaseResponse)
get_decision_case fx env s aborted case_id = do
  check fx aborted
  item ← found_case case_id s
  ok (advance env s case_id item, view fx s item.response)
