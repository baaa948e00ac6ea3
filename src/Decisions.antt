-- ===== src/Decisions.antt =====
-- Maintenance decisions as the clients hand them on (frontend/types/decision.ts). A status, a
-- severity and a load class stand as they came: the checks read them by `String`, which a list of
-- one name passes too.
pub mod Wire
pub mod Paging
pub mod Review
pub mod Rows
mod Tests
use reinforcement_learning_c.Prelude.{String, Option, List}
use reinforcement_learning_c.Json.{Number, Json, Fields}

pub record MaintenanceDecision : Type 0 where
  pub id : String
  pub recommendation_id : String
  pub status : Json
  pub created_at : Option String

pub record MaintenanceDecisionAction : Type 0 where
  pub id : String
  pub decision_id : String
  pub actor_user_id : String
  pub to_status : Json
  pub reason : Option String
  pub selected_action : Option Fields
  pub recommendation_snapshot : Fields
  pub risk_snapshot : Fields
  pub created_at : String

pub record DecisionHistory : Type 0 where
  pub decision : MaintenanceDecision
  pub actions : List MaintenanceDecisionAction

-- The members of a row that the queue's client sets.
pub record DecisionQueueItem : Type 0 where
  pub row_id : String
  pub recommendation_id : String
  pub decision_id : Option String
  pub experiment_id : String
  pub episode_id : String
  pub observation_id : String
  pub attempt : Number
  pub step : Number
  pub machine_id : String
  pub tool_id : Option String
  pub job_id : Option String
  pub recommended_action : String
  pub severity : Json
  pub failure_risk : Number
  pub predicted_rul_steps : Option Number
  pub observed_wear_um : Number
  pub posterior_median_wear_um : Number
  pub failure_threshold_um : Number
  pub load_class : Json
  pub spares_available : Number
  pub inventory_capacity : Number
  pub predicted_expected_cost : Option Number
  pub predicted_cvar_cost : Option Number
  pub cost_of_delay : Option Number
  pub rationale : String
  pub outcome : String
  pub incurred_cost : Number
  pub status : String
  pub created_at : Option String
