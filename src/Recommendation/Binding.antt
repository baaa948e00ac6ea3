-- ===== src/Recommendation/Binding.antt =====
-- What the Recommendation Center shows as ready is bound to the case that was asked for
-- (frontend/lib/recommendation-center/data-source.ts).
use mathlib.Core.List.{Memᴰ}
use reinforcement_learning_c.Prelude.{
  String, Bool, true, false, Option, none, some, Result, ok, err, ◌≡◌, ◌≢◌, ◌∙◌, throw_if, is_some,
  arith, eq_iff, >>=-eq-ok, is_text, string_eq, nat_eq, refl, ◌⊎◌,
}
use reinforcement_learning_c.Decision.{
  Status, awaiting_approval, approved, modified, rejected, committed, CaseStatus, Meta,
  ApprovedCandidate, CommitMetadata, CandidatePlan, is_committed,
}
use reinforcement_learning_c.Recommendation.{
  Artifact, ready, StatusData, ReadFailure, Api, is_artifact_status, is_other_factory,
  is_other_commit, is_other_meta, is_mismatch, bind_artifact, read_artifact, read_real, abort_error,
}
use reinforcement_learning_c.Recommendation.Approval.{
  IsApprovalOf, IsPlanOf, approval_free, approved_hash, planned_schedule,
}

-- The statuses of a case that has a recommendation.
abbrev pub HasArtifact : Status → Type 0
HasArtifact s =
    s ≡ awaiting_approval ⊎ (s ≡ approved) ⊎ (s ≡ modified) ⊎ (s ≡ rejected) ⊎ (s ≡ committed)

artifact_status-HasArtifact : (s : Status) → is_artifact_status s ≡ true → HasArtifact s
unfolding is_artifact_status
artifact_status-HasArtifact s h = ground arith

-- A publication is of this case, this context, and the schedule that was approved.
pub record IsCommitOf (s : CaseStatus) (a : Artifact) (approval : Option ApprovedCandidate)
    (c : CommitMetadata) : Type 0 where
  pub case_id : c.decision_case_id ≡ s.decision_case_id
  pub snapshot : c.snapshot_id ≡ a.snapshot.snapshot_id
  pub factory : c.factory_id ≡ a.snapshot.factory_id
  pub schedule : s.committed_schedule_id ≡ some c.schedule_id
  pub planned :
      (p : CandidatePlan) × Memᴰ p a.recommendation.candidate_plans
      × (c.schedule_id ≡ p.schedule.schedule_id)
      × (c.schedule_revision ≡ p.schedule.revision)
      × ((g : ApprovedCandidate) × (approval ≡ some g) × IsPlanOf g p)
  pub hash : (g : ApprovedCandidate) × (approval ≡ some g) × (c.schedule_hash ≡ g.schedule_hash)

-- The artifact is the one of the case.
pub record IsBound (case_id : String) (s : CaseStatus) (a : Artifact) : Type 0 where
  pub asked : s.decision_case_id ≡ case_id
  pub artifact_status : HasArtifact s.status
  pub recommendation_case : a.recommendation.decision_case_id ≡ case_id
  pub recommendation_snapshot : a.recommendation.snapshot_id ≡ s.snapshot_id
  pub snapshot : a.snapshot.snapshot_id ≡ s.snapshot_id
  pub recommendation : s.recommendation_id ≡ some a.recommendation.recommendation_id

is_text_eq : (o : Option String) (t : String) → is_text o t ≡ true → o ≡ some t
is_text_eq none t h = cc
is_text_eq (some s) t h = ground (arith, eq_iff s t)

mismatch_free :
    (s : CaseStatus) (m : Option Meta) (a : Artifact)
    → is_mismatch s m a ≡ false
    → (a.recommendation.decision_case_id ≡ s.decision_case_id)
      × (a.recommendation.snapshot_id ≡ s.snapshot_id)
      × (a.snapshot.snapshot_id ≡ s.snapshot_id)
      × (s.recommendation_id ≡ some a.recommendation.recommendation_id)
      × (is_other_meta s a m ≡ false)
unfolding is_mismatch
mismatch_free s m a h = ground (
  arith,
  eq_iff a.recommendation.decision_case_id s.decision_case_id,
  eq_iff a.recommendation.snapshot_id s.snapshot_id,
  eq_iff a.snapshot.snapshot_id s.snapshot_id,
  is_text_eq s.recommendation_id a.recommendation.recommendation_id,
)

-- The approval, the publication and the factory of the case's metadata fit the artifact.
abbrev pub IsMetaBound : CaseStatus → Artifact → Option Meta → Type 0
IsMetaBound s a none = s.status ≢ committed
IsMetaBound s a (some m) =
    (m.factory_id ≡ a.snapshot.factory_id)
    × ((g : ApprovedCandidate) → m.approved_candidate ≡ some g → IsApprovalOf a.recommendation g)
    × ((c : CommitMetadata) → m.commit ≡ some c → IsCommitOf s a m.approved_candidate c)
    × (s.status ≡ committed → (c : CommitMetadata) × (m.commit ≡ some c))

commit_free :
    (s : CaseStatus) (a : Artifact) (approval : Option ApprovedCandidate) (c : CommitMetadata)
    → is_other_commit s a.recommendation a.snapshot approval (some c) ≡ false
    → IsCommitOf s a approval c
unfolding is_other_commit
commit_free s a approval c h = record {
  case_id = ground (arith, eq_iff c.decision_case_id s.decision_case_id);
  snapshot = ground (arith, eq_iff c.snapshot_id a.snapshot.snapshot_id);
  factory = ground (arith, eq_iff c.factory_id a.snapshot.factory_id);
  schedule = ground (arith, is_text_eq s.committed_schedule_id c.schedule_id);
  planned = planned_schedule a.recommendation approval c (ground arith);
  hash = approved_hash approval c (ground arith);
}

committed_status : (s : CaseStatus) → s.status ≡ committed → is_committed s.status ≡ true
committed_status s h = ground arith

meta_free :
    (s : CaseStatus) (a : Artifact) (m : Option Meta)
    → is_other_meta s a m ≡ false
    → IsMetaBound s a m
unfolding is_other_meta
meta_free s a none h = λ e. ground (arith, committed_status s e)
meta_free s a (some m) h = (
  unfold is_other_factory in ground (arith, eq_iff m.factory_id a.snapshot.factory_id),
  λ g e. approval_free a.recommendation g (rw (← e) (ground arith)),
  λ c e. commit_free s a m.approved_candidate c (rw (← e) (ground arith)),
  λ e. some_commit m.commit (ground (arith, committed_status s e)),
)
  where
    some_commit :
        (o : Option CommitMetadata) → is_some o ≡ true → (c : CommitMetadata) × (o ≡ some c)
    some_commit none e = cc
    some_commit (some c) e = (c, refl)

-- What is true of a result that shows an artifact.
pub record IsReady (api : Api) (case_id : String) (d : StatusData) (a : Artifact) : Type 0 where
  pub bound : IsBound case_id d.case_status a
  pub meta_bound : IsMetaBound d.case_status a d.case_meta
  pub fetched : api.get_recommendation ≡ ok a
  pub case_fetched : api.get_decision_case ≡ ok (d.case_status, d.case_meta)

bind_artifact_ready :
    (s : CaseStatus) (m : Option Meta) (aborted : Bool) (r : Result ReadFailure Artifact)
    {d : StatusData} {a : Artifact}
    → bind_artifact s m aborted r ≡ ok d
    → d.artifact_state ≡ ready a
    → (r ≡ ok a) × (is_mismatch s m a ≡ false) × (d.case_status ≡ s) × (d.case_meta ≡ m)
unfolding bind_artifact
bind_artifact_ready s m aborted (err e) h q = ground arith
bind_artifact_ready s m aborted (ok b) h q = ground arith

read_artifact_ready :
    (api : Api) (case_id : String) (s : CaseStatus) (m : Option Meta) {d : StatusData}
    {a : Artifact}
    → read_artifact api case_id s m ≡ ok d
    → d.artifact_state ≡ ready a
    → (s.decision_case_id ≡ case_id)
      × (is_artifact_status s.status ≡ true)
      × (bind_artifact s m api.aborted_after_artifact api.get_recommendation ≡ ok d)
unfolding read_artifact
read_artifact_ready api case_id s m h q = ground (arith, eq_iff s.decision_case_id case_id)

IsBound-intro :
    (case_id : String) (s : CaseStatus) (m : Option Meta) (a : Artifact)
    → s.decision_case_id ≡ case_id
    → is_artifact_status s.status ≡ true
    → is_mismatch s m a ≡ false
    → IsBound case_id s a × IsMetaBound s a m
IsBound-intro case_id s m a asked readable fits =
    let (c, p, q, r, rest) = mismatch_free s m a fits in
    (
      record {
        asked = asked;
        artifact_status = artifact_status-HasArtifact s.status readable;
        recommendation_case = c ∙ asked;
        recommendation_snapshot = p;
        snapshot = q;
        recommendation = r;
      },
      meta_free s a m rest,
    )

-- Where a read of the real source shows an artifact as ready, it is the artifact that the server
-- returned for this very case: the case is the one asked for and in a status that has artifacts;
-- recommendation, snapshot and case name one another; an approval names the recommendation and one
-- of its plans in its version; and a
-- publication, which a COMMITTED case has, is of this case, snapshot and factory and of the
-- schedule, revision and hash that were approved.
pub read_real_ready :
    (api : Api) (case_id : String) (d : StatusData) (a : Artifact)
    → read_real api case_id ≡ ok d
    → d.artifact_state ≡ ready a
    → IsReady api case_id d a
unfolding read_real
read_real_ready api case_id d a h q =
    let ((s, m), fetched, h₁) = >>=-eq-ok api.get_decision_case _ h in
    let (u, quiet, h₂) = >>=-eq-ok (throw_if api.aborted_after_case abort_error) _ h₁ in
    let (asked, readable, h₃) = read_artifact_ready api case_id s m h₂ q in
    let (artifact, fits, same_case, same_meta) =
      bind_artifact_ready s m api.aborted_after_artifact api.get_recommendation h₃ q in
    let (bound, meta_bound) = IsBound-intro case_id s m a asked readable fits in
    record {
      bound = rw same_case bound;
      meta_bound = rw (same_case, same_meta) meta_bound;
      fetched = artifact;
      case_fetched = rw (same_case, same_meta) fetched;
    }
