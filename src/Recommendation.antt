-- ===== src/Recommendation.antt =====
-- frontend/lib/recommendation-center/data-source.ts: the reads of the Recommendation Center. The
-- real source joins a case with its artifact and fails closed where their identities differ.
-- Message texts are left out.
pub mod Approval
pub mod Binding
pub mod Polling
pub mod Chain
mod Tests
use reinforcement_learning_c.Prelude.{
  ℕ, String, Bool, true, false, not, ◌&&◌, ◌||◌, List, [], ◌∷◌, Option, none, some, Result, ok, err,
  ◌>>=◌, ◌>>◌, throw_if, ◌==◌, nat_eq, string_eq, is_text, is_some, is_empty, any, find,
  if◌then◌else◌,
}
use reinforcement_learning_c.Decision.{
  Status, created, analyzing, generating, validating, explaining, awaiting_approval, approved,
  modified, rejected, committed, failed, cancelled, CaseStatus, Meta, ApprovedCandidate,
  CommitMetadata, CandidatePlan, Recommendation, Snapshot, Schedule, is_committed,
}

-- POLLING_STATUSES
unfoldable pub is_polling_status : Status → Bool
is_polling_status created = true
is_polling_status analyzing = true
is_polling_status generating = true
is_polling_status validating = true
is_polling_status explaining = true
is_polling_status _ = false

-- ARTIFACT_STATUSES
unfoldable pub is_artifact_status : Status → Bool
is_artifact_status awaiting_approval = true
is_artifact_status approved = true
is_artifact_status modified = true
is_artifact_status rejected = true
is_artifact_status committed = true
is_artifact_status _ = false

-- The statuses of a case that ended without a recommendation.
abbrev pub is_blocked_status : Status → Bool
is_blocked_status failed = true
is_blocked_status cancelled = true
is_blocked_status _ = false

pub record Artifact : Type 0 where
  pub recommendation : Recommendation
  pub snapshot : Snapshot

pub data ArtifactState : Type 0 where
  ready : Artifact → ArtifactState
  pending blocked mismatch : ArtifactState

pub data Source : Type 0 where
  real mock_workflow : Source

-- `RecommendationCenterStatusData`
pub record StatusData : Type 0 where
  pub source : Source
  pub case_status : CaseStatus
  pub case_meta : Option Meta
  pub artifact_state : ArtifactState

-- `RecommendationCenterData`: the fixture of the preview, or a case with its status.
pub data CenterData : Type 0 where
  preview : CaseStatus → Artifact → Schedule → CenterData
  status_data : StatusData → CenterData

-- What a read throws: an `OperationsApiError` by its status and code, an abort, or another error.
pub data ReadFailure : Type 0 where
  api_error : ℕ → Option String → ReadFailure
  auth_redirect abort_error unexpected : ReadFailure

-- The two requests of a read, and whether the signal is aborted after each.
pub record Api : Type 0 where
  pub get_decision_case : Result ReadFailure (CaseStatus × Option Meta)
  pub aborted_after_case : Bool
  pub get_recommendation : Result ReadFailure Artifact
  pub aborted_after_artifact : Bool

-- `realWithoutArtifact`
abbrev pub real_without_artifact : CaseStatus → Option Meta → ArtifactState → StatusData
real_without_artifact case_status case_meta state = record {
  source = real;
  case_status = case_status;
  case_meta = case_meta;
  artifact_state = state;
}

-- `!caseStatus.recommendation_id`, where an empty text counts as missing
abbrev pub is_missing : Option String → Bool
is_missing none = true
is_missing (some id) = is_empty id

-- The failures that mean that the artifact is not there yet.
unfoldable pub is_not_ready : ReadFailure → Bool
is_not_ready (api_error status code) = status == 404 && is_text code "RECOMMENDATION_NOT_READY"
is_not_ready _ = false

abbrev pub plan_of : Recommendation → Option ApprovedCandidate → Option CandidatePlan
plan_of r none = none
plan_of r (some a) = find (λ p. p.candidate_plan_id == a.candidate_plan_id) r.candidate_plans

-- `caseMeta && caseMeta.factory_id !== snapshot.factory_id`
unfoldable pub is_other_factory : Snapshot → Meta → Bool
is_other_factory snapshot m = not (m.factory_id == snapshot.factory_id)

-- The approved candidate is another recommendation's, or not among its plans.
unfoldable pub is_other_candidate : Recommendation → Option ApprovedCandidate → Bool
is_other_candidate r none = false
is_other_candidate r (some a) =
    not (a.recommendation_id == r.recommendation_id)
    || not (
        any
          (λ p. p.candidate_plan_id == a.candidate_plan_id && p.plan_version == a.candidate_version)
          r.candidate_plans)

abbrev pub is_plan_schedule : Option CandidatePlan → CommitMetadata → Bool
is_plan_schedule none c = false
is_plan_schedule (some p) c =
    c.schedule_id == p.schedule.schedule_id && c.schedule_revision == p.schedule.revision

abbrev pub has_hash : Option ApprovedCandidate → CommitMetadata → Bool
has_hash none c = false
has_hash (some a) c = c.schedule_hash == a.schedule_hash

-- The publication is another case's, context's or schedule's than the approved one.
unfoldable pub is_other_commit :
    CaseStatus → Recommendation → Snapshot → Option ApprovedCandidate → Option CommitMetadata → Bool
is_other_commit s r snapshot a none = false
is_other_commit s r snapshot a (some c) =
    not (c.decision_case_id == s.decision_case_id)
    || not (c.snapshot_id == snapshot.snapshot_id)
    || not (c.factory_id == snapshot.factory_id)
    || not (is_text s.committed_schedule_id c.schedule_id)
    || not (is_plan_schedule (plan_of r a) c)
    || not (has_hash a c)

-- The tests on `caseMeta`, none of which fires without it but for the missing publication.
unfoldable pub is_other_meta : CaseStatus → Artifact → Option Meta → Bool
is_other_meta s a none = is_committed s.status
is_other_meta s a (some m) =
    is_other_factory a.snapshot m
    || is_other_candidate a.recommendation m.approved_candidate
    || is_other_commit s a.recommendation a.snapshot m.approved_candidate m.commit
    || (is_committed s.status && not (is_some m.commit))

unfoldable pub is_mismatch : CaseStatus → Option Meta → Artifact → Bool
is_mismatch s m a =
    not (a.recommendation.decision_case_id == s.decision_case_id)
    || not (a.recommendation.snapshot_id == s.snapshot_id)
    || not (a.snapshot.snapshot_id == s.snapshot_id)
    || not (is_text s.recommendation_id a.recommendation.recommendation_id)
    || is_other_meta s a m

-- The end of the read, on the outcome of the second request.
unfoldable pub bind_artifact :
    CaseStatus → Option Meta → Bool → Result ReadFailure Artifact → Result ReadFailure StatusData
bind_artifact s m aborted (err e) =
    if is_not_ready e then ok (real_without_artifact s m pending) else err e
bind_artifact s m aborted (ok a) = do
  throw_if aborted abort_error
  ok (real_without_artifact s m (if is_mismatch s m a then mismatch else ready a))

-- The read once the case is there.
unfoldable pub read_artifact :
    Api → String → CaseStatus → Option Meta → Result ReadFailure StatusData
read_artifact api case_id s m =
    if not (s.decision_case_id == case_id)
    then ok (real_without_artifact s m mismatch)
    else if is_blocked_status s.status
    then ok (real_without_artifact s m blocked)
    else if is_missing s.recommendation_id
    then ok (real_without_artifact s m (if is_polling_status s.status then pending else mismatch))
    else if not (is_artifact_status s.status)
    then ok (real_without_artifact s m mismatch)
    else bind_artifact s m api.aborted_after_artifact api.get_recommendation

-- `createRealRecommendationCenterDataSource(api).read`
unfoldable pub read_real : Api → String → Result ReadFailure StatusData
read_real api case_id = do
  (s, m) ← api.get_decision_case
  throw_if api.aborted_after_case abort_error
  read_artifact api case_id s m

-- The preview's fixture: its cases, and the one artifact with its modified schedule.
pub record Fixture : Type 0 where
  pub cases : List CaseStatus
  pub artifact : Artifact
  pub modified_schedule : Schedule

abbrev default_case_id : Fixture → Option String
default_case_id fx = elim fx.cases [ [] ↦ none | c ∷ cs ↦ some c.decision_case_id ]

unfoldable pub read_fixture : Fixture → String → Bool → Result ReadFailure CenterData
read_fixture fx case_id aborted = elim (find (λ c. c.decision_case_id == case_id) fx.cases) [
  | none ↦ err (api_error 404 (some "DECISION_CASE_NOT_FOUND"))
  | some c ↦ do throw_if aborted abort_error; ok (preview c fx.artifact fx.modified_schedule)
]

-- `createMockRecommendationCenterDataSource(api).read`; `aborted` is the signal at its start.
unfoldable pub read_mock : Fixture → Option Api → String → Bool → Result ReadFailure CenterData
read_mock fx api case_id aborted = if aborted then err abort_error else elim api [
  | none ↦ read_fixture fx case_id aborted
  | some a ↦
      if is_text (default_case_id fx) case_id
      then read_fixture fx case_id aborted
      else do d ← read_real a case_id; ok (status_data (record d { source = mock_workflow }))
]
