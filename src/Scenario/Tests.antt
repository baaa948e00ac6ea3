-- ===== src/Scenario/Tests.antt =====
-- Scenario planning at concrete values: a draft with two overrides, and a run with one candidate.
use reinforcement_learning_c.Prelude.{
  ℕ, List, Bool, String, true, [], ◌∷◌, none, some, ◌≡◌, refl, All, Result, ok, trim,
}
use reinforcement_learning_c.WorkOrders.Replies.{has_duplicate}
use reinforcement_learning_c.Scenario.{
  ScenarioError, Draft, Baseline, technician_unavailable, maintenance_duration, same_override,
  has_target, is_bad_window, validate_overrides, validate_draft,
}
use reinforcement_learning_c.Scenario.Inputs.{IsSensible, AreDifferent, validate_draft_sound}
use reinforcement_learning_c.Scenario.Context.{
  Evaluation, Workspace, Job, JobResult, Findings, scenario_findings, set_size, is_bad_ranking,
  is_bad_candidate, is_bad_evaluation, validate_evaluation, is_bad_sweep, validate_points,
  is_other_run, is_other_sweep, assert_findings, is_other_workspace, is_other_identity,
  assert_result, assert_scenario_context,
}
use reinforcement_learning_c.Scenario.Context.Bound.{IsResultOf, assert_scenario_context_sound}
use reinforcement_learning_c.WorkOrders.Intent.{Actor, same_actor}
use reinforcement_learning_c.Scenario.Reading.{
  loading, nothing, timer, Reader, Signal, effect, timer_fired, answered, next_delay, load,
  verified, show, on_answer, on_timer, read_step, read_run,
}
use reinforcement_learning_c.Scenario.Reading.Delays.{IsPaced, IsNext, read_run-IsPaced}

drafts : Unit {0}
unfolding trim same_override has_target is_bad_window validate_overrides validate_draft
drafts = tt

abbrev baseline : Baseline
baseline = record {
  start_at = 100;
  end_at = 200;
  technicians = "t1" ∷ [];
  maintenance_requests = record { maintenance_request_id = "m1"; status = "OPEN" } ∷ [];
}

abbrev input : Draft
input = record {
  name = " plan ";
  note = "";
  overrides = technician_unavailable "t1" 100 150 ∷ maintenance_duration "m1" 30 ∷ [];
}

abbrev accepted_draft : Draft
accepted_draft = record input { name = "plan" }

validate_draft_sound_example :
    (accepted_draft ≡ record input { name = trim " plan "; note = trim "" })
    × (true ≡ true)
    × (◌≡◌ {A = Result ScenarioError (Unit {0})} (ok tt) (ok tt))
    × All (IsSensible baseline) input.overrides
    × AreDifferent [] input.overrides
unfolding drafts
validate_draft_sound_example =
    validate_draft_sound (λ d. true) (ok tt) input baseline accepted_draft refl

jobs : Unit {0}
unfolding has_duplicate set_size is_bad_ranking is_bad_candidate is_bad_evaluation
    validate_evaluation is_bad_sweep validate_points is_other_run is_other_sweep assert_findings
    is_other_workspace is_other_identity assert_result assert_scenario_context
jobs = tt

abbrev workspace : Workspace
workspace = record {
  workspace_id = "w";
  engine_version = "1";
  contract_version = "3";
  factory_id = "f";
  snapshot_id = "s";
  snapshot_hash = "h";
}

abbrev evaluation : Evaluation
evaluation = record {
  candidates =
      record {
        candidate_plan_id = "c1";
        validation = some (record { verdict = "VALID"; candidate_plan_id = "c1" });
        factory_id = "f";
        snapshot_id = "s";
      }
      ∷ [];
  outcome = "FEASIBLE";
  selected_candidate_id = some "c1";
  ranking = some ("c1" ∷ []);
}

abbrev no_plan : Evaluation
no_plan = record {
  candidates = [];
  outcome = "INFEASIBLE";
  selected_candidate_id = none;
  ranking = none;
}

abbrev run_findings : Findings
run_findings = scenario_findings "h" (some ("s", "f")) no_plan evaluation

abbrev run_result : JobResult
run_result = record {
  factory_id = "f";
  workspace_id = "w";
  run_id = "j";
  frozen_input_hash = "i";
  engine_version = "1";
  contract_version = "3";
  findings = run_findings;
}

abbrev job : Job
job = record {
  workspace_id = "w";
  engine_version = "1";
  contract_version = "3";
  is_run = true;
  job_id = "j";
  input_hash = "i";
  source_run_id = none;
  job_result = some run_result;
}

abbrev SameText : String → String → Type 0
SameText a b = a ≡ b

assert_scenario_context_sound_example :
    SameText "w" "w"
    × SameText "1" "1"
    × SameText "3" "3"
    × IsResultOf job workspace none (some run_result)
unfolding jobs
assert_scenario_context_sound_example =
    assert_scenario_context_sound (λ j. true) job workspace none {u = tt} refl

reads : Unit {0}
unfolding same_actor next_delay load verified show on_answer on_timer read_step read_run
reads = tt

abbrev ann : Actor
ann = record { id = "u1"; role = "planner" }

abbrev reader : Reader ℕ
reader = record {
  key = "k";
  enabled = true;
  actor = ann;
  state_key = "k";
  view = loading none;
  wait = nothing;
  reads = 0;
}

abbrev poll_all : ℕ → Bool
poll_all d = true

abbrev poll_twice : List (Signal ℕ)
poll_twice =
    effect "k" ann true ∷ answered (ok 5) (ok ann) ∷ timer_fired ∷ answered (ok 6) (ok ann) ∷ []

polled_twice : (read_run poll_all poll_twice reader).wait ≡ timer 4000 8000
unfolding reads
polled_twice = refl

read_run-IsPaced_example :
    IsPaced poll_all
      (read_run poll_all poll_twice reader).view
      (read_run poll_all poll_twice reader).wait
    × IsNext poll_all timer_fired
        (read_run poll_all poll_twice reader)
        (read_step poll_all timer_fired (read_run poll_all poll_twice reader)).wait
read_run-IsPaced_example = read_run-IsPaced poll_all poll_twice timer_fired reader refl
