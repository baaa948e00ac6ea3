-- ===== src/WorkOrders.antt =====
-- Work orders: the command form (frontend/lib/work-orders/commands.ts). The child modules hold the
-- checks of the client's responses and the hook that keeps a write until it is reviewed.
use reinforcement_learning_c.Prelude.{
  ℕ, String, Bool, true, false, ◌&&◌, Option, none, some, List, [], ◌∷◌, Result, ok, err, ◌>>=◌,
  ◌>>◌, throw_if, trim, is_blank, is_empty, if◌then◌else◌,
}
pub mod Form
pub mod Intent
pub mod Replies
mod Tests

pub data CommandName : Type 0 where
  assign accept start block resume complete close request_rework cancel reassign manager_hold
        reassign_for_rework :
      CommandName

pub data Outcome : Type 0 where
  success partial stopped : Outcome

pub data Verification : Type 0 where
  verified verified_stopped : Verification

pub record CommandDraft : Type 0 where
  pub reason : String
  pub assignee : String
  pub outcome : Outcome
  pub work : String
  pub result : String
  pub stop_reason : String
  pub verification : Verification
  pub note : String

-- The `field` of a `WorkOrderFormError`.
pub data Field : Type 0 where
  assignee_field work_field result_field stop_reason_field note_field reason_field : Field

pub record Report : Type 0 where
  pub outcome : Outcome
  pub work_performed : String
  pub result : String
  pub stop_reason : Option String

-- The members of a request other than `command` and `expected_revision`.
pub record Content : Type 0 where
  pub assignee_user_id : Option String
  pub reason : Option String
  pub report : Option Report
  pub verification : Option (Verification × String)

pub record CommandRequest : Type 0 where
  pub command : CommandName
  pub expected_revision : ℕ
  pub content : Content

abbrev pub empty_content : Content
empty_content = record {
  assignee_user_id = none;
  reason = none;
  report = none;
  verification = none;
}

unfoldable pub needs_assignee : CommandName → Bool
needs_assignee assign = true
needs_assignee reassign = true
needs_assignee reassign_for_rework = true
needs_assignee _ = false

unfoldable pub is_stopped : Outcome → Bool
is_stopped stopped = true
is_stopped _ = false

-- The branch of COMPLETE.
unfoldable pub build_report : CommandDraft → Result Field Report
build_report d = do
  throw_if (is_blank d.work) work_field
  throw_if (is_blank d.result) result_field
  throw_if (is_stopped d.outcome && is_blank d.stop_reason) stop_reason_field
  ok (record {
    outcome = d.outcome;
    work_performed = trim d.work;
    result = trim d.result;
    stop_reason = if is_stopped d.outcome then some (trim d.stop_reason) else none;
  })

-- The branches that carry a reason; the reassignments carry the assignee too.
unfoldable pub build_reason : Option String → CommandDraft → Result Field Content
build_reason to d = do
  throw_if (is_blank d.reason) reason_field
  ok (record empty_content { reason = some (trim d.reason); assignee_user_id = to })

unfoldable pub build_content : CommandName → CommandDraft → Result Field Content
unfolding build_report build_reason
build_content accept d = ok empty_content
build_content start d = ok empty_content
build_content assign d = ok (record empty_content { assignee_user_id = some d.assignee })
build_content complete d = do
  report ← build_report d
  ok (record empty_content { report = some report })
build_content close d = do
  throw_if (is_blank d.note) note_field
  ok (record empty_content { verification = some (d.verification, trim d.note) })
build_content reassign d = build_reason (some d.assignee) d
build_content reassign_for_rework d = build_reason (some d.assignee) d
build_content _ d = build_reason none d

unfoldable pub build_work_order_command :
    CommandName → ℕ → CommandDraft → Result Field CommandRequest
unfolding needs_assignee build_content
build_work_order_command command revision d = do
  throw_if (needs_assignee command && is_empty d.assignee) assignee_field
  content ← build_content command d
  ok (record { command = command; expected_revision = revision; content = content })
