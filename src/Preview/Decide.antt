-- ===== src/Preview/Decide.antt =====
-- The decisions of submitDecisionCommand (frontend/lib/operations-api/mock.ts): its guards on the
-- case and the candidate, and what REJECT, APPROVE and COMMIT change.
use reinforcement_learning_c.Prelude.{
  ◌>>=◌, ℕ, ◌+◌, String, Bool, true, false, not, ◌&&◌, ◌||◌, Option, none, some, Result, ok, err,
  ◌==◌, nat_eq, string_eq, ltb, find, is_blank, units, if◌then◌else◌,
}
use reinforcement_learning_c.Decision
use reinforcement_learning_c.Decision.{
  Mode, Status, created, awaiting_approval, approved, rejected, committed, CommandName, CaseStatus,
  Meta, Recommendation, CandidatePlan, ApprovedCandidate, HumanDecision, CommitMetadata, Context,
  Payload, human, system, Schedule, is_created, is_awaiting_approval, is_approved, is_live, pending,
  succeeded,
}
use reinforcement_learning_c.Preview.{
  ApiFailure, failure, Fixture, Env, CaseResponse, CaseItem, Choice, approve, reject, commit,
  CommandBody, Store,
}

-- The first test of `submitDecisionCommand` on a case: every token of the request is current.
unfoldable pub is_current : Fixture → Store → String → CaseItem → CommandBody → Bool
is_current fx s case_id item body =
    body.decision_case_id == case_id
    && body.expected_snapshot_id == fx.basis.snapshot_id
    && body.expected_plan_version == s.plan_version
    && item.response.meta.base_plan_version == s.plan_version
    && body.expected_case_revision == item.response.meta.case_revision
    && body.recommendation_id == item.recommendation.recommendation_id

abbrev pub command_name : Choice → CommandName
command_name (approve c v n) = Decision.CommandName.approve
command_name (reject n) = Decision.CommandName.reject
command_name (commit c v) = Decision.CommandName.commit

-- The status that a command wants.
abbrev pub is_open_for : Choice → Status → Bool
is_open_for (commit c v) status = is_approved status
is_open_for _ status = is_awaiting_approval status

abbrev pub of_version : ℕ → Option CandidatePlan → Result ApiFailure CandidatePlan
of_version version none = err (failure 409 "CANDIDATE_NOT_VALID")
of_version version (some p) =
    if p.plan_version == version && p.is_valid
    then ok p
    else err (failure 409 "CANDIDATE_NOT_VALID")

-- The candidate that approve and commit name, which must be valid and of the version named.
unfoldable pub valid_candidate : Recommendation → String → ℕ → Result ApiFailure CandidatePlan
valid_candidate r candidate version =
    of_version version (find (λ p. p.candidate_plan_id == candidate) r.candidate_plans)

-- "a".repeat(64) and "b".repeat(64)
unfoldable pub candidate_hash_text : String
candidate_hash_text = "aaaaaaaaaaaaaaaaaaaaaaaaaaaaaaaaaaaaaaaaaaaaaaaaaaaaaaaaaaaaaaaa"

unfoldable pub schedule_hash_text : String
schedule_hash_text = "bbbbbbbbbbbbbbbbbbbbbbbbbbbbbbbbbbbbbbbbbbbbbbbbbbbbbbbbbbbbbbbb"

-- What a command decides: the case's new response, and what it publishes.
pub record Effect : Type 0 where
  pub response : CaseResponse
  pub published : Option (Schedule × CommitMetadata)

abbrev pub is_approved_candidate : Option ApprovedCandidate → String → ℕ → Bool
is_approved_candidate none candidate version = false
is_approved_candidate (some a) candidate version =
    a.candidate_plan_id == candidate && a.candidate_version == version

abbrev pub approved_hash : Option ApprovedCandidate → String
approved_hash none = ""
approved_hash (some a) = a.schedule_hash

-- REJECT
unfoldable pub decide_reject : Env → CaseResponse → String → String → Result ApiFailure Effect
decide_reject env r recommendation_id note =
    if is_blank note || ltb 4000 (units note)
    then err (failure 400 "VALIDATION_ERROR")
    else ok (record {
      response = record {
        case_status = record r.case_status { status = rejected };
        meta = record r.meta {
          human_decision = some (record {
            decision = Decision.CommandName.reject;
            recommendation_id = recommendation_id;
            candidate_plan_id = none;
            candidate_version = none;
            candidate_hash = none;
            schedule_hash = none;
            note = some note;
            actor_id = "preview-operator";
            decided_at = env.now;
          });
        };
      };
      published = none;
    })

-- APPROVE, once the candidate is found valid
unfoldable pub decide_approve : Env → CaseResponse → String → String → ℕ → Option String → Effect
decide_approve env r recommendation_id candidate version note = record {
  response = record {
    case_status = record r.case_status { status = approved };
    meta = record r.meta {
      approved_candidate = some (record {
        recommendation_id = recommendation_id;
        candidate_plan_id = candidate;
        candidate_version = version;
        candidate_hash = candidate_hash_text;
        schedule_hash = schedule_hash_text;
      });
      human_decision = some (record {
        decision = Decision.CommandName.approve;
        recommendation_id = recommendation_id;
        candidate_plan_id = some candidate;
        candidate_version = some version;
        candidate_hash = some candidate_hash_text;
        schedule_hash = some schedule_hash_text;
        note = note;
        actor_id = "preview-operator";
        decided_at = env.now;
      });
    };
  };
  published = none;
}

unfoldable pub commit_of : Fixture → Env → Store → String → Meta → Schedule → CommitMetadata
commit_of fx env s case_id meta schedule = record {
  decision_case_id = case_id;
  factory_id = fx.basis.factory_id;
  snapshot_id = fx.basis.snapshot_id;
  schedule_id = schedule.schedule_id;
  schedule_revision = schedule.revision;
  schedule_hash = approved_hash meta.approved_candidate;
  plan_version = s.plan_version + 1;
  actor_id = "preview-operator";
  committed_at = env.now;
}

-- COMMIT, once the candidate is found valid
unfoldable pub decide_commit :
    Fixture
    → Env
    → Store
    → String
    → CaseResponse
    → String
    → ℕ
    → CandidatePlan
    → Result ApiFailure Effect
decide_commit fx env s case_id r candidate version plan =
    if not (is_live r.case_status.mode)
      || not (is_approved_candidate r.meta.approved_candidate candidate version)
    then err (failure 409 "APPROVED_CANDIDATE_CONFLICT")
    else let commit = commit_of fx env s case_id r.meta plan.schedule in
      ok (record {
        response = record {
          case_status = record r.case_status {
            status = committed;
            committed_schedule_id = some plan.schedule.schedule_id;
          };
          meta = record r.meta { commit = some commit; stale = true };
        };
        published = some (plan.schedule, commit);
      })

unfoldable pub decide :
    Fixture → Env → Store → String → CaseItem → CommandBody → Choice → Result ApiFailure Effect
decide fx env s case_id item body (reject note) =
    decide_reject env item.response body.recommendation_id note
decide fx env s case_id item body (approve candidate version note) = do
  plan ← valid_candidate item.recommendation candidate version
  ok (decide_approve env item.response body.recommendation_id candidate version note)
decide fx env s case_id item body (commit candidate version) = do
  plan ← valid_candidate item.recommendation candidate version
  decide_commit fx env s case_id item.response candidate version plan
