-- ===== src/Preview/Create.antt =====
-- createDecisionCase of the preview (frontend/lib/operations-api/mock.ts), and the context that its
-- responses name.
use reinforcement_learning_c.Prelude.{
  ℕ, String, Bool, false, not, ◌||◌, [], Option, none, some, Result, ok, err, ◌>>=◌, ◌==◌, nat_eq,
  string_eq, insert, if◌then◌else◌,
}
use reinforcement_learning_c.Decision.{
  Status, created, CaseStatus, Meta, Context, Payload, human, pending,
}
use reinforcement_learning_c.Preview.{
  ApiFailure, failure, Fixture, Env, CaseResponse, CaseItem, CreateBody, create_body, Store, read,
  record_event,
}
use reinforcement_learning_c.Preview.Requests.{receipt}

abbrev pub context : Fixture → Store → Context
context fx s = record { snapshot_id = fx.basis.snapshot_id; plan_version = s.plan_version }

unfoldable pub plain_payload : Option Status → Option Status → ℕ → Payload
plain_payload from_status to_status revision = record {
  from_status = from_status;
  to_status = to_status;
  revision = revision;
  command = none;
  recommendation_id = none;
  candidate_plan_id = none;
  candidate_version = none;
  candidate_hash = none;
  schedule_hash = none;
  plan_version = none;
}

unfoldable pub new_case : Fixture → Env → Store → CreateBody → CaseItem
new_case fx env s body =
    let status : CaseStatus = record {
      decision_case_id = env.case_id;
      mode = body.mode;
      status = created;
      snapshot_id = fx.basis.snapshot_id;
      created_at = env.now;
      updated_at = env.now;
      recommendation_id = none;
      committed_schedule_id = none;
      error_code = none;
    } in
    let meta : Meta = record {
      factory_id = fx.basis.factory_id;
      base_plan_version = s.plan_version;
      case_revision = 1;
      current_context = some (context fx s);
      stale = false;
      processing = some (record { status = pending; attempt = 0; error_code = none });
      approved_candidate = none;
      human_decision = none;
      available_commands = [];
      commit = none;
    } in
    record {
      response = record { case_status = status; meta = meta };
      recommendation = fx.recommendation env.case_id;
      snapshot = fx.basis;
    }

unfoldable pub store_case : Fixture → Env → Store → String → CreateBody → Store
store_case fx env s key body =
    let item = new_case fx env s body in
    record s {
      cases = insert env.case_id item s.cases;
      events =
          record_event env env.case_id "CASE_CREATED" (plain_payload none (some created) 1) human
            s.events;
      receipts =
          insert key (record { body = create_body body; response = item.response }) s.receipts;
    }

-- The part of `createDecisionCase` behind the receipt, on the stored response if there is one.
unfoldable pub create_to :
    Fixture
    → Env
    → Store
    → String
    → CreateBody
    → Option CaseResponse
    → Result ApiFailure (Store × CaseResponse)
create_to fx env s key body (some response) = ok (s, response)
create_to fx env s key body none =
    if not (body.expected_snapshot_id == fx.basis.snapshot_id)
      || not (body.expected_plan_version == s.plan_version)
    then err (failure 409 "SNAPSHOT_CONFLICT")
    else ok (store_case fx env s key body, (new_case fx env s body).response)

-- `createDecisionCase`: the new store and the response.
unfoldable pub create_decision_case :
    Fixture → Env → Store → Bool → String → CreateBody → Result ApiFailure (Store × CaseResponse)
create_decision_case fx env s aborted key body = do
  basis ← read fx body.factory_id aborted
  replay ← receipt s key (create_body body)
  create_to fx env s key body replay
