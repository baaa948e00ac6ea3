-- ===== src/Scenario/Context.antt =====
-- A job's result belongs to its workspace (frontend/lib/scenario-planning/client.ts,
-- assertScenarioContext). The values of an axis are compared only, so numbers stand for them.
use reinforcement_learning_c.Prelude.{
  ℕ, suc, String, Bool, true, false, ◌&&◌, ◌||◌, not, Option, none, some, List, [], ◌∷◌, map, ◌==◌,
  string_eq, nat_eq, any, length, is_text, is_some, is_empty, Result, ok, err, ◌>>=◌, ◌>>◌,
  throw_if, if◌then◌else◌,
}
use reinforcement_learning_c.WorkOrders.Replies.{has_duplicate, is_nil}
use reinforcement_learning_c.Scenario.{ScenarioError}
pub mod Evaluations
pub mod Bound

pub record Validation : Type 0 where
  pub verdict : String
  pub candidate_plan_id : String

pub record Candidate : Type 0 where
  pub candidate_plan_id : String
  pub validation : Option Validation
  pub factory_id : String  -- schedule.factory_id
  pub snapshot_id : String

pub record Evaluation : Type 0 where
  pub candidates : List Candidate  -- none where the member is absent
  pub outcome : String
  pub selected_candidate_id : Option String
  pub ranking : Option (List String)  -- the candidate ids of its rows

pub record Workspace : Type 0 where
  pub workspace_id : String
  pub engine_version : String
  pub contract_version : String
  pub factory_id : String  -- of the baseline, and so on
  pub snapshot_id : String
  pub snapshot_hash : String

pub record Point : Type 0 where
  pub value : ℕ
  pub status : String
  pub evaluation : Evaluation

pub data Findings : Type 0 where
  scenario_findings :
      (source_hash : String) (effective : Option (String × String)) (baseline scenario : Evaluation)
      → Findings
  point_findings :
      (axis_values : List ℕ) (points : List Point) (baseline_point : Evaluation) → Findings

pub record JobResult : Type 0 where
  pub factory_id : String  -- identity.factory_id, and so on
  pub workspace_id : String
  pub run_id : String
  pub frozen_input_hash : String
  pub engine_version : String
  pub contract_version : String
  pub findings : Findings

pub record Job : Type 0 where
  pub workspace_id : String
  pub engine_version : String
  pub contract_version : String
  pub is_run : Bool  -- kind === "RUN"
  pub job_id : String
  pub input_hash : String
  pub source_run_id : Option String
  pub job_result : Option JobResult

abbrev pub invalid_job : ScenarioError
invalid_job = record { status = 502; code = "INVALID_RESPONSE" }

abbrev pub context_mismatch : ScenarioError
context_mismatch = record { status = 502; code = "CONTEXT_MISMATCH" }

-- `new Set(ids).size`
unfoldable pub set_size : List String → ℕ
set_size [] = 0
set_size (id ∷ ids) = let rest = set_size ids in if any (λ j. j == id) ids then rest else suc rest

-- `ids.includes(id)`
abbrev pub includes : List String → String → Bool
includes ids id = any (λ j. j == id) ids

abbrev pub first_is : List String → String → Bool
first_is [] id = false
first_is (j ∷ js) id = j == id

-- The conditions on a feasible evaluation: the choice is a candidate and ranks first, and the rows
-- of the ranking are as many as the candidates, all different and all of candidates.
unfoldable pub is_bad_ranking : List String → String → List String → Bool
is_bad_ranking ids selected rows =
    not (length rows == length ids)
    || not (first_is rows selected)
    || not (set_size rows == length ids)
    || any (λ row. not (includes ids row)) rows

abbrev pub is_bad_choice : List String → Option String → Option (List String) → Bool
is_bad_choice ids none ranking = true
is_bad_choice ids (some selected) none = true
is_bad_choice ids (some selected) (some rows) =
    is_nil ids
    || is_empty selected
    || not (includes ids selected)
    || is_bad_ranking ids selected rows

abbrev pub is_unvalidated : Candidate → Option Validation → Bool
is_unvalidated c none = true
is_unvalidated c (some v) =
    not (v.verdict == "VALID") || not (v.candidate_plan_id == c.candidate_plan_id)

unfoldable pub is_bad_candidate : Workspace → Candidate → Bool
is_bad_candidate w c =
    is_unvalidated c c.validation
    || not (c.factory_id == w.factory_id)
    || not (c.snapshot_id == w.snapshot_id)

unfoldable pub is_bad_evaluation : Workspace → Evaluation → Bool
is_bad_evaluation w e =
    let ids = map (λ c. c.candidate_plan_id) e.candidates in
    has_duplicate ids
    || (if e.outcome == "FEASIBLE"
        then is_bad_choice ids e.selected_candidate_id e.ranking
        else (not (is_nil ids) || is_some e.selected_candidate_id || is_some e.ranking))
    || any (is_bad_candidate w) e.candidates

unfoldable pub validate_evaluation : Workspace → Evaluation → Result ScenarioError (Unit {0})
validate_evaluation w e = throw_if (is_bad_evaluation w e) invalid_job

abbrev pub is_bad_snapshot : Workspace → Option (String × String) → Bool
is_bad_snapshot w none = false
is_bad_snapshot w (some s) = not (s.0 == w.snapshot_id) || not (s.1 == w.factory_id)

abbrev pub has_duplicate_value : List ℕ → Bool
has_duplicate_value [] = false
has_duplicate_value (v ∷ vs) = any (λ u. u == v) vs || has_duplicate_value vs

unfoldable pub is_bad_sweep : List ℕ → List Point → Bool
is_bad_sweep values points =
    not (length points == length values)
    || has_duplicate_value (map (λ p. p.value) points)
    || any (λ p. not (any (λ v. v == p.value) values) || not (p.status == p.evaluation.outcome))
        points

unfoldable pub validate_points : Workspace → List Point → Result ScenarioError (Unit {0})
validate_points w [] = ok tt
validate_points w (p ∷ ps) = do
  let rest = validate_points w ps
  validate_evaluation w p.evaluation
  rest

-- Whether the source run is not the one that the job names, if one is given.
abbrev pub is_other_source : Job → JobResult → Option Job → Bool
is_other_source job r none = false
is_other_source job r (some source) =
    not (is_text job.source_run_id source.job_id) || not (source.input_hash == r.frozen_input_hash)

-- The tests of a run's findings against the job and the baseline, and of a sweep's.
unfoldable pub is_other_run :
    Job → Workspace → JobResult → (hash : String) → Option (String × String) → Bool
is_other_run job w r hash effective =
    not job.is_run
    || not (r.run_id == job.job_id)
    || not (r.frozen_input_hash == job.input_hash)
    || not (hash == w.snapshot_hash)
    || is_bad_snapshot w effective

unfoldable pub is_other_sweep : Job → Option Job → JobResult → Bool
is_other_sweep job source r =
    job.is_run || not (is_text job.source_run_id r.run_id) || is_other_source job r source

unfoldable pub assert_findings :
    Job → Workspace → Option Job → JobResult → Findings → Result ScenarioError (Unit {0})
assert_findings job w source r (scenario_findings hash effective baseline scenario) = do
  throw_if (is_other_run job w r hash effective) context_mismatch
  validate_evaluation w baseline
  validate_evaluation w scenario
assert_findings job w source r (point_findings values points baseline) = do
  throw_if (is_other_sweep job source r) context_mismatch
  throw_if (is_bad_sweep values points) invalid_job
  validate_evaluation w baseline
  validate_points w points

unfoldable pub is_other_workspace : Job → Workspace → Bool
is_other_workspace job w =
    not (job.workspace_id == w.workspace_id)
    || not (job.engine_version == w.engine_version)
    || not (job.contract_version == w.contract_version)

unfoldable pub is_other_identity : Job → Workspace → JobResult → Bool
is_other_identity job w r =
    not (r.factory_id == w.factory_id)
    || not (r.workspace_id == w.workspace_id)
    || not (r.engine_version == job.engine_version)
    || not (r.contract_version == job.contract_version)

unfoldable pub assert_result :
    Job → Workspace → Option Job → Option JobResult → Result ScenarioError (Unit {0})
assert_result job w source none = ok tt
assert_result job w source (some r) = do
  throw_if (is_other_identity job w r) context_mismatch
  assert_findings job w source r r.findings

-- `fits_schema` is what `matchesScenarioSchema` says of the job.
unfoldable pub assert_scenario_context :
    (fits_schema : Job → Bool) → Job → Workspace → Option Job → Result ScenarioError (Unit {0})
assert_scenario_context fits_schema job w source = do
  throw_if (not (fits_schema job)) invalid_job
  throw_if (is_other_workspace job w) context_mismatch
  assert_result job w source job.job_result
