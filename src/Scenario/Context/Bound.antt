-- ===== src/Scenario/Context/Bound.antt =====
-- What an accepted result satisfies (frontend/lib/scenario-planning/client.ts).
use mathlib.Core.List.{Memᴰ}
use reinforcement_learning_c.Prelude.{
  ℕ, String, Bool, true, false, not, ◌||◌, Option, none, some, List, [], ◌∷◌, ◌≡◌, arith, length,
  ok, any, throw_if, ◌==◌, string_eq, nat_eq, eq_iff, >>=-eq-ok, throw_if-eq-ok, All, any-mem, map,
  subst, is_text-eq, ◌∙◌,
}
use reinforcement_learning_c.Scenario.Context.{
  Workspace, Point, Findings, scenario_findings, point_findings, JobResult, Job, invalid_job,
  context_mismatch, validate_evaluation, is_bad_snapshot, has_duplicate_value, is_other_source,
  is_bad_sweep, is_other_run, is_other_sweep, validate_points, assert_findings, is_other_workspace,
  is_other_identity, assert_result, assert_scenario_context,
}
use reinforcement_learning_c.Scenario.Context.Evaluations.{
  IsEvaluation, validate_evaluation-IsEvaluation,
}

-- Different numbers.
abbrev pub AreDistinct : List ℕ → Type 0
AreDistinct [] = Unit
AreDistinct (v ∷ vs) = (Memᴰ v vs → ⊥) × AreDistinct vs

-- The snapshot that a run used is the baseline's, if it used another than the one it froze.
abbrev pub IsOwnSnapshot : Workspace → Option (String × String) → Type 0
IsOwnSnapshot w none = Unit
IsOwnSnapshot w (some s) = (s.0 ≡ w.snapshot_id) × (s.1 ≡ w.factory_id)

-- The source run of a sweep, if one is given: the one that the job names, with the result's input.
abbrev pub IsSourceOf : Job → JobResult → Option Job → Type 0
IsSourceOf job r none = Unit
IsSourceOf job r (some s) =
    (job.source_run_id ≡ some s.job_id) × (s.input_hash ≡ r.frozen_input_hash)

-- The findings of a run: of the very job and input, on the workspace's baseline; or those of a
-- sweep: of the run that the job names, with a point for each value of the axis.
abbrev pub IsBoundTo : Job → Workspace → Option Job → JobResult → Findings → Type 0
IsBoundTo job w source r (scenario_findings hash effective baseline scenario) =
    (job.is_run ≡ true)
    × (r.run_id ≡ job.job_id)
    × (r.frozen_input_hash ≡ job.input_hash)
    × (hash ≡ w.snapshot_hash)
    × IsOwnSnapshot w effective
    × IsEvaluation w baseline
    × IsEvaluation w scenario
IsBoundTo job w source r (point_findings values points baseline) =
    (job.is_run ≡ false)
    × (job.source_run_id ≡ some r.run_id)
    × IsSourceOf job r source
    × (length points ≡ length values)
    × AreDistinct (map (λ p. p.value) points)
    × All (λ p. Memᴰ p.value values) points
    × IsEvaluation w baseline
    × All (λ p. (p.status ≡ p.evaluation.outcome) × IsEvaluation w p.evaluation) points

own_snapshot :
    (w : Workspace) (effective : Option (String × String))
    → is_bad_snapshot w effective ≡ false
    → IsOwnSnapshot w effective
own_snapshot w none h = tt
own_snapshot w (some s) h = ground (arith, eq_iff s.0 w.snapshot_id, eq_iff s.1 w.factory_id)

own_source :
    (job : Job) (r : JobResult) (source : Option Job)
    → is_other_source job r source ≡ false
    → IsSourceOf job r source
own_source job r none h = tt
own_source job r (some s) h = (
  is_text-eq job.source_run_id s.job_id (ground arith),
  ground (arith, eq_iff s.input_hash r.frozen_input_hash),
)

not_any_value : (v : ℕ) (vs : List ℕ) → any (λ u. u == v) vs ≡ false → Memᴰ v vs → ⊥
not_any_value v [] h m = elim m [ ]
not_any_value v (u ∷ vs) h (Memᴰ.head e) = absurd (ground arith)
not_any_value v (u ∷ vs) h (Memᴰ.tail m) = not_any_value v vs (ground arith) m

values_distinct : (vs : List ℕ) → has_duplicate_value vs ≡ false → AreDistinct vs
values_distinct [] h = tt
values_distinct (v ∷ vs) h = (not_any_value v vs (ground arith), values_distinct vs (ground arith))

on_axis :
    (values : List ℕ) (points : List Point)
    → any
        (λ p. not (any (λ v. v == p.value) values) || not (p.status == p.evaluation.outcome))
        points
      ≡ false
    → All (λ p. Memᴰ p.value values) points
on_axis values [] h = tt
on_axis values (p ∷ ps) h =
    let (v, m, same) = any-mem (λ v. v == p.value) values (ground arith) in
    let e : v ≡ p.value = ground arith in
    (subst (λ x. Memᴰ x values) e m, on_axis values ps (ground arith))

statuses :
    (values : List ℕ) (points : List Point)
    → any
        (λ p. not (any (λ v. v == p.value) values) || not (p.status == p.evaluation.outcome))
        points
      ≡ false
    → All (λ p. p.status ≡ p.evaluation.outcome) points
statuses values [] h = tt
statuses values (p ∷ ps) h =
    (ground (arith, eq_iff p.status p.evaluation.outcome), statuses values ps (ground arith))

points_valid :
    (w : Workspace) (points : List Point) {u : Unit {0}}
    → All (λ p. p.status ≡ p.evaluation.outcome) points
    → validate_points w points ≡ ok u
    → All (λ p. (p.status ≡ p.evaluation.outcome) × IsEvaluation w p.evaluation) points
unfolding validate_points
points_valid w [] s h = tt
points_valid w (p ∷ ps) s h =
    let (u, fine, rest) = >>=-eq-ok (validate_evaluation w p.evaluation) _ h in
    ((s.0, validate_evaluation-IsEvaluation w p.evaluation fine), points_valid w ps s.1 rest)

findings_bound :
    (job : Job) (w : Workspace) (source : Option Job) (r : JobResult) (f : Findings) {u : Unit {0}}
    → assert_findings job w source r f ≡ ok u
    → IsBoundTo job w source r f
unfolding assert_findings is_bad_sweep is_other_run is_other_sweep
findings_bound job w source r (scenario_findings hash effective baseline scenario) h =
    let (u, named, h₁) =
      >>=-eq-ok (throw_if (is_other_run job w r hash effective) context_mismatch) _ h in
    let (v, base, rest) = >>=-eq-ok (validate_evaluation w baseline) _ h₁ in
    let fine = throw_if-eq-ok (is_other_run job w r hash effective) context_mismatch named in
    (
      ground arith,
      ground (arith, eq_iff r.run_id job.job_id),
      ground (arith, eq_iff r.frozen_input_hash job.input_hash),
      ground (arith, eq_iff hash w.snapshot_hash),
      own_snapshot w effective (ground arith),
      validate_evaluation-IsEvaluation w baseline base,
      validate_evaluation-IsEvaluation w scenario rest,
    )
findings_bound job w source r (point_findings values points baseline) h =
    let (u, named, h₁) = >>=-eq-ok (throw_if (is_other_sweep job source r) context_mismatch) _ h in
    let (v, swept, h₂) = >>=-eq-ok (throw_if (is_bad_sweep values points) invalid_job) _ h₁ in
    let (x, base, h₃) = >>=-eq-ok (validate_evaluation w baseline) _ h₂ in
    let fine = throw_if-eq-ok (is_other_sweep job source r) context_mismatch named in
    let sweep = throw_if-eq-ok (is_bad_sweep values points) invalid_job swept in
    (
      ground arith,
      is_text-eq job.source_run_id r.run_id (ground arith),
      own_source job r source (ground arith),
      ground arith,
      values_distinct (map (λ p. p.value) points) (ground arith),
      on_axis values points (ground arith),
      validate_evaluation-IsEvaluation w baseline base,
      points_valid w points (statuses values points (ground arith)) h₃,
    )

-- A result, if the job has one, is of the workspace's factory and versions and bound to the job.
abbrev pub IsResultOf : Job → Workspace → Option Job → Option JobResult → Type 0
IsResultOf job w source none = Unit
IsResultOf job w source (some r) =
    (r.factory_id ≡ w.factory_id)
    × (r.workspace_id ≡ w.workspace_id)
    × (r.engine_version ≡ w.engine_version)
    × (r.contract_version ≡ w.contract_version)
    × IsBoundTo job w source r r.findings

result_bound :
    (job : Job) (w : Workspace) (source : Option Job) (o : Option JobResult) {u : Unit {0}}
    → job.engine_version ≡ w.engine_version
    → job.contract_version ≡ w.contract_version
    → assert_result job w source o ≡ ok u
    → IsResultOf job w source o
unfolding assert_result is_other_identity
result_bound job w source none engine contract h = tt
result_bound job w source (some r) engine contract h =
    let (x, own, h') = >>=-eq-ok (throw_if (is_other_identity job w r) context_mismatch) _ h in
    let same = throw_if-eq-ok (is_other_identity job w r) context_mismatch own in
    let r_engine : r.engine_version ≡ job.engine_version =
      ground (arith, eq_iff r.engine_version job.engine_version) in
    let r_contract : r.contract_version ≡ job.contract_version =
      ground (arith, eq_iff r.contract_version job.contract_version) in
    (
      ground (arith, eq_iff r.factory_id w.factory_id),
      ground (arith, eq_iff r.workspace_id w.workspace_id),
      r_engine ∙ engine,
      r_contract ∙ contract,
      findings_bound job w source r r.findings h',
    )

-- A job that is accepted for a workspace names it and its versions, and its result, if it has one,
-- is of the workspace's factory and versions. The findings of a run are of the very job and input,
-- of the baseline's hash, and of its snapshot and factory where they name one; those of a sweep are
-- of the run that the job names, which is the source run with its input if that is given, and have a
-- point for each value of the axis, no value twice. Every evaluation has different candidates, all
-- valid and of the baseline, and, if feasible, ranks each of them once with the selected one first,
-- and otherwise has no candidate.
pub assert_scenario_context_sound :
    (fits_schema : Job → Bool) (job : Job) (w : Workspace) (source : Option Job) {u : Unit {0}}
    → assert_scenario_context fits_schema job w source ≡ ok u
    → (job.workspace_id ≡ w.workspace_id)
      × (job.engine_version ≡ w.engine_version)
      × (job.contract_version ≡ w.contract_version)
      × IsResultOf job w source job.job_result
unfolding assert_scenario_context is_other_workspace
assert_scenario_context_sound fits_schema job w source h =
    let (u, fits, h₁) = >>=-eq-ok (throw_if (not (fits_schema job)) invalid_job) _ h in
    let (v, here, h₂) = >>=-eq-ok (throw_if (is_other_workspace job w) context_mismatch) _ h₁ in
    let fine = throw_if-eq-ok (is_other_workspace job w) context_mismatch here in
    let engine : job.engine_version ≡ w.engine_version =
      ground (arith, eq_iff job.engine_version w.engine_version) in
    let contract : job.contract_version ≡ w.contract_version =
      ground (arith, eq_iff job.contract_version w.contract_version) in
    (
      ground (arith, eq_iff job.workspace_id w.workspace_id),
      engine,
      contract,
      result_bound job w source job.job_result engine contract h₂,
    )
