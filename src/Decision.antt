-- ===== src/Decision.antt =====
-- The decision-case data that the Operations API, its preview and the recommendation page share:
-- frontend/lib/operations-api/client.ts, decision-case-reads.ts and the generated domain types.
-- Times are opaque texts. Of a schedule and a recommendation the fields that the code reads are kept.
use reinforcement_learning_c.Prelude.{ℕ, String, Bool, true, false, List, Option}

pub data Mode : Type 0 where
  live simulation_only : Mode

pub data Status : Type 0 where
  created analyzing generating validating explaining awaiting_approval approved modified rejected
        committed failed cancelled :
      Status

-- One status test for every comparison that the code makes.
abbrev pub is_created : Status → Bool
is_created created = true
is_created _ = false

abbrev pub is_awaiting_approval : Status → Bool
is_awaiting_approval awaiting_approval = true
is_awaiting_approval _ = false

abbrev pub is_approved : Status → Bool
is_approved approved = true
is_approved _ = false

abbrev pub is_committed : Status → Bool
is_committed committed = true
is_committed _ = false

abbrev pub is_live : Mode → Bool
is_live live = true
is_live simulation_only = false

pub data CommandName : Type 0 where
  approve reject commit : CommandName

pub record ApprovedCandidate : Type 0 where
  pub recommendation_id : String
  pub candidate_plan_id : String
  pub candidate_version : ℕ
  pub candidate_hash : String
  pub schedule_hash : String

pub record HumanDecision : Type 0 where
  pub decision : CommandName
  pub recommendation_id : String
  pub candidate_plan_id : Option String
  pub candidate_version : Option ℕ
  pub candidate_hash : Option String
  pub schedule_hash : Option String
  pub note : Option String
  pub actor_id : String
  pub decided_at : String

pub record CommitMetadata : Type 0 where
  pub decision_case_id : String
  pub factory_id : String
  pub snapshot_id : String
  pub schedule_id : String
  pub schedule_revision : ℕ
  pub schedule_hash : String
  pub plan_version : ℕ
  pub actor_id : String
  pub committed_at : String

pub data ProcessingStatus : Type 0 where
  pending running succeeded failed : ProcessingStatus

pub record Processing : Type 0 where
  pub status : ProcessingStatus
  pub attempt : ℕ
  pub error_code : Option String

pub record Context : Type 0 where
  pub snapshot_id : String
  pub plan_version : ℕ

pub record Meta : Type 0 where
  pub factory_id : String
  pub base_plan_version : ℕ
  pub case_revision : ℕ
  pub current_context : Option Context
  pub stale : Bool
  pub processing : Option Processing
  pub approved_candidate : Option ApprovedCandidate
  pub human_decision : Option HumanDecision
  pub available_commands : List CommandName
  pub commit : Option CommitMetadata

pub record CaseStatus : Type 0 where
  pub decision_case_id : String
  pub mode : Mode
  pub status : Status
  pub snapshot_id : String
  pub created_at : String
  pub updated_at : String
  pub recommendation_id : Option String
  pub committed_schedule_id : Option String
  pub error_code : Option String

pub record Schedule : Type 0 where
  pub schedule_id : String
  pub revision : ℕ

pub record CandidatePlan : Type 0 where
  pub candidate_plan_id : String
  pub plan_version : ℕ
  pub schedule : Schedule
  pub is_valid : Bool  -- validation?.verdict === "VALID"

pub record Recommendation : Type 0 where
  pub recommendation_id : String
  pub decision_case_id : String
  pub snapshot_id : String
  pub candidate_plans : List CandidatePlan

-- The identity of a factory snapshot.
pub record Snapshot : Type 0 where
  pub snapshot_id : String
  pub factory_id : String

pub record Payload : Type 0 where
  pub from_status : Option Status
  pub to_status : Option Status
  pub revision : ℕ
  pub command : Option CommandName
  pub recommendation_id : Option String
  pub candidate_plan_id : Option String
  pub candidate_version : Option ℕ
  pub candidate_hash : Option String
  pub schedule_hash : Option String
  pub plan_version : Option ℕ

pub data ActorKind : Type 0 where
  human system : ActorKind

pub record HistoryEvent : Type 0 where
  pub id : String
  pub case_id : String
  pub sequence : ℕ
  pub type : String
  pub actor : ActorKind
  pub occurred_at : String
  pub payload : Payload

-- A page of `listEvents`.
pub record EventsPage : Type 0 where
  pub items : List HistoryEvent
  pub has_more : Bool
  pub next_after_sequence : ℕ
