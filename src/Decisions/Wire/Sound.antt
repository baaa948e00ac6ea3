-- ===== src/Decisions/Wire/Sound.antt =====
-- Decisions and review actions that the client of frontend/lib/decision-api/client.ts has read.
use reinforcement_learning_c.Prelude.{some, [], ◌∷◌, ◌≡◌, Ensures}
use reinforcement_learning_c.Json.{Json, Fields, object, member}
use reinforcement_learning_c.Decisions.{MaintenanceDecision, MaintenanceDecisionAction}
use reinforcement_learning_c.Decisions.Wire.{
  statuses, final_statuses, decision_from, action_from, malformed_decision, malformed_action,
}
use reinforcement_learning_c.Decisions.Wire.Members.{
  HasText, HasRecord, HasNamed, HasTextIfAny, HasRecordIfAny, text_of-HasTextIfAny,
  record_of-HasRecordIfAny, need-HasText, need-IsObject, need-HasNamed,
}

pub the_object : {v : Json} {fs : Fields} → some v ≡ some (object fs) → v ≡ object fs
the_object e = cc

-- A decision of the members of a record.
pub record IsDecisionOf (fs : Fields) (d : MaintenanceDecision) : Type 0 where
  pub id : HasText "id" fs d.id
  pub recommendation_id : HasText "recommendationId" fs d.recommendation_id
  pub status :
      HasNamed ("PENDING_REVIEW" ∷ "APPROVED" ∷ "REJECTED" ∷ "OVERRIDDEN" ∷ []) "status" fs d.status
  pub created_at : HasTextIfAny "createdAt" fs d.created_at

abbrev pub IsDecision : Json → MaintenanceDecision → Type 0
IsDecision v d = (fs : Fields) × (v ≡ object fs) × IsDecisionOf fs d

pub decision_from-IsDecision : (v : Json) → Ensures (IsDecision v) (decision_from v)
unfolding decision_from
decision_from-IsDecision v =
    let P : MaintenanceDecision → Type 0 = IsDecision v in
    need-IsObject P (some v) malformed_decision _ λ fs is_object.
      need-HasText P "id" fs malformed_decision _ λ id is_id.
        need-HasText P "recommendationId" fs malformed_decision _ λ rid is_rid.
          need-HasNamed P statuses "status" fs malformed_decision _ λ status is_status. (
            fs,
            the_object is_object,
            record {
              id = is_id;
              recommendation_id = is_rid;
              status = is_status;
              created_at = text_of-HasTextIfAny "createdAt" fs;
            },
          )

-- A review action of the members of a record.
pub record IsActionOf (fs : Fields) (a : MaintenanceDecisionAction) : Type 0 where
  pub id : HasText "id" fs a.id
  pub decision_id : HasText "decisionId" fs a.decision_id
  pub actor_user_id : HasText "actorUserId" fs a.actor_user_id
  pub to_status : HasNamed ("APPROVED" ∷ "REJECTED" ∷ "OVERRIDDEN" ∷ []) "toStatus" fs a.to_status
  pub reason : HasTextIfAny "reason" fs a.reason
  pub selected_action : HasRecordIfAny "selectedAction" fs a.selected_action
  pub recommendation_snapshot : HasRecord "recommendationSnapshot" fs a.recommendation_snapshot
  pub risk_snapshot : HasRecord "riskSnapshot" fs a.risk_snapshot
  pub created_at : HasText "createdAt" fs a.created_at

abbrev pub IsAction : Json → MaintenanceDecisionAction → Type 0
IsAction v a = (fs : Fields) × (v ≡ object fs) × IsActionOf fs a

pub action_from-IsAction : (v : Json) → Ensures (IsAction v) (action_from v)
unfolding action_from
action_from-IsAction v =
    let P : MaintenanceDecisionAction → Type 0 = IsAction v in
    need-IsObject P (some v) malformed_action _ λ fs is_object.
      need-HasText P "id" fs malformed_action _ λ id is_id.
        need-HasText P "decisionId" fs malformed_action _ λ did is_did.
          need-HasText P "actorUserId" fs malformed_action _ λ actor is_actor.
            need-HasNamed P final_statuses "toStatus" fs malformed_action _ λ status is_status.
              need-IsObject P (member "recommendationSnapshot" fs) malformed_action _ λ rs is_rs.
                need-IsObject P (member "riskSnapshot" fs) malformed_action _ λ ks is_ks.
                  need-HasText P "createdAt" fs malformed_action _ λ date is_date. (
                    fs,
                    the_object is_object,
                    record {
                      id = is_id;
                      decision_id = is_did;
                      actor_user_id = is_actor;
                      to_status = is_status;
                      reason = text_of-HasTextIfAny "reason" fs;
                      selected_action = record_of-HasRecordIfAny "selectedAction" fs;
                      recommendation_snapshot = is_rs;
                      risk_snapshot = is_ks;
                      created_at = is_date;
                    },
                  )
