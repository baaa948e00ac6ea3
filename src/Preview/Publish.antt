-- ===== src/Preview/Publish.antt =====
-- What the preview publishes, and the life of its cases (frontend/lib/operations-api/mock.ts).
use reinforcement_learning_c.Prelude.{
  ℕ, ◌+◌, String, Bool, true, Option, some, ok, ◌≡◌, ◌⊎◌, inl, inr, arith, eq_iff, lookup,
}
use reinforcement_learning_c.Decision.{
  Status, awaiting_approval, approved, rejected, committed, CandidatePlan, is_live,
}
use reinforcement_learning_c.Preview.{
  Fixture, Env, CaseResponse, CaseItem, CommandBody, Choice, approve, reject, commit, command_body,
  Store,
}
use reinforcement_learning_c.Preview.Requests.{receipt}
use reinforcement_learning_c.Preview.Decide.{
  is_current, is_open_for, Effect, decide, is_approved_candidate, commit_of,
}
use reinforcement_learning_c.Preview.Commands.{apply_effect, finish, submit_decision_command}
use reinforcement_learning_c.Preview.Receipts.{submit_cases, Decided}
use reinforcement_learning_c.Preview.Outcome.{
  IsChosen, is_awaiting, is_approved_eq, decide_reject_ok, decide_approve_ok, decide_commit_ok,
}

-- The moves of a case under a command.
pub data Move : Status → Choice → Status → Type 0 where
  approves :
      (c : String) (v : ℕ) (n : Option String) → Move awaiting_approval (approve c v n) approved
  rejects : (n : String) → Move awaiting_approval (reject n) rejected
  commits : (c : String) (v : ℕ) → Move approved (commit c v) committed

-- What a command does to the publication: COMMIT publishes the schedule of the approved candidate
-- and raises the plan version, the others leave it.
abbrev pub Publishes : Fixture → Env → Store → String → CaseItem → Choice → Store → Type 0
Publishes fx env s case_id item (commit c v) s' =
    (plan : CandidatePlan) × IsChosen item.recommendation c v plan
    × (is_live item.response.case_status.mode ≡ true)
    × (is_approved_candidate item.response.meta.approved_candidate c v ≡ true)
    × (s'.published ≡ some plan.schedule)
    × (s'.plan_version ≡ s.plan_version + 1)
    × (s'.commit ≡ some (commit_of fx env s case_id item.response.meta plan.schedule))
Publishes fx env s case_id item _ s' =
    (s'.published ≡ s.published) × (s'.plan_version ≡ s.plan_version) × (s'.commit ≡ s.commit)

-- What holds of a new decision: the request named the current revision and plan version, the case
-- moved along the diagram to its next revision, and the publication follows the command.
pub record IsDecision (fx : Fixture) (env : Env) (s : Store) (case_id : String) (body : CommandBody)
    (s' : Store) (r : CaseResponse) : Type 0 where
  pub item : CaseItem
  pub found : lookup case_id s.cases ≡ some item
  pub named : body.decision_case_id ≡ case_id
  pub expected_revision : body.expected_case_revision ≡ item.response.meta.case_revision
  pub expected_plan : body.expected_plan_version ≡ s.plan_version
  pub base : item.response.meta.base_plan_version ≡ s.plan_version
  pub moved : Move item.response.case_status.status body.choice r.case_status.status
  pub revised : r.meta.case_revision ≡ item.response.meta.case_revision + 1
  pub publishes : Publishes fx env s case_id item body.choice s'

module _ (fx : Fixture) (env : Env) (s : Store) (case_id : String) (item : CaseItem)
    (body : CommandBody) (key : String) where
  current_tokens :
      is_current fx s case_id item body ≡ true
      → (body.decision_case_id ≡ case_id)
        × (body.expected_case_revision ≡ item.response.meta.case_revision)
        × (body.expected_plan_version ≡ s.plan_version)
        × (item.response.meta.base_plan_version ≡ s.plan_version)
  unfolding is_current
  current_tokens h = ground (arith, eq_iff body.decision_case_id case_id)

  decide-Move :
      (choice : Choice) {e : Effect}
      → is_open_for choice item.response.case_status.status ≡ true
      → decide fx env s case_id item body choice ≡ ok e
      → Move item.response.case_status.status choice (finish fx env s e).case_status.status
        × ((finish fx env s e).meta.case_revision ≡ item.response.meta.case_revision + 1)
        × Publishes fx env s case_id item choice (apply_effect fx env s case_id key item body e)
  unfolding finish apply_effect
  decide-Move (approve c v n) o h =
      let (plan, chosen, keeps, quiet, status) =
        decide_approve_ok fx env s case_id item body c v n h in
      (rw (status, is_awaiting _ o) (approves c v n), ground arith, ground arith)
  decide-Move (reject n) o h =
      let (keeps, quiet, status) = decide_reject_ok fx env s case_id item body n h in
      (rw (status, is_awaiting _ o) (rejects n), ground arith, ground arith)
  decide-Move (commit c v) o h =
      let (plan, chosen, keeps, is_live_case, agreed, publication, status) =
        decide_commit_ok fx env s case_id item body c v h in
      (
        rw (status, is_approved_eq _ o) (commits c v),
        ground arith,
        (plan, chosen, is_live_case, agreed, ground arith, ground arith, ground arith),
      )

Decided-IsDecision :
    {fx : Fixture} {env : Env} {s : Store} {key case_id : String} {body : CommandBody} {s' : Store}
    {r : CaseResponse}
    → Decided fx env s key case_id body s' r
    → IsDecision fx env s case_id body s' r
Decided-IsDecision {fx} {env} {s} {key} {case_id} {body} d =
    let (named, revision, plan, base) = current_tokens fx env s case_id d.item body key d.current in
    let (moved, revised, publishes) =
      decide-Move fx env s case_id d.item body key body.choice d.is_open d.decided in
    record {
      item = d.item;
      found = d.found;
      named = named;
      expected_revision = revision;
      expected_plan = plan;
      base = base;
      moved = rw d.answer moved;
      revised = rw d.answer revised;
      publishes = rw d.store publishes;
    }

-- A command that succeeds is either the replay of a stored receipt, which changes nothing, or a new
-- decision: it named the case's current revision and the current plan version, on which the case
-- is based; the case moved from AWAITING_APPROVAL to APPROVED or REJECTED or from APPROVED to
-- COMMITTED, one revision up; and only COMMIT, of a live case and of the valid candidate approved
-- before, published a schedule, which raised the plan version by one.
pub submit_sound :
    (fx : Fixture) (env : Env) (s : Store) (aborted : Bool) (key case_id : String)
    (body : CommandBody) {s' : Store} {r : CaseResponse}
    → submit_decision_command fx env s aborted key case_id body ≡ ok (s', r)
    → ((s' ≡ s) × (receipt s key (command_body body) ≡ ok (some r)))
      ⊎ IsDecision fx env s case_id body s' r
submit_sound fx env s aborted key case_id body e =
    elim (submit_cases fx env s aborted key case_id body e) [
      | inl replay ↦ inl replay
      | inr d ↦ inr (Decided-IsDecision d)
    ]
