-- ===== src/Recommendation/Tests.antt =====
-- A case that is read while it works, and again when its recommendation is ready.
use reinforcement_learning_c.Prelude.{
  String, true, false, List, [], ◌∷◌, Option, none, some, ok, ◌≡◌, refl,
}
use reinforcement_learning_c.Decision.{live, Status, analyzing, awaiting_approval, CaseStatus}
use reinforcement_learning_c.Recommendation.{
  Artifact, ready, pending, StatusData, CenterData, status_data, Api, is_polling_status,
  is_artifact_status, is_not_ready, is_other_factory, is_other_candidate, is_other_commit,
  is_other_meta, is_mismatch, bind_artifact, read_artifact, read_real, real_without_artifact,
}
use reinforcement_learning_c.Recommendation.Binding.{IsReady, read_real_ready}
use reinforcement_learning_c.Recommendation.Polling.{
  loaded, Center, Event, open_case, timer_fired, answered, should_poll, begin, on_answer,
  open_effect, on_timer, on_response, failure_state, step, run,
}
use reinforcement_learning_c.Recommendation.Chain.{
  new_center, IsWorking, timer_scheduled, settled_data_stays,
}

centers : Unit {0}
unfolding is_polling_status is_artifact_status is_not_ready is_other_factory is_other_candidate
    is_other_commit is_other_meta is_mismatch bind_artifact read_artifact read_real should_poll
    begin on_answer open_effect on_timer on_response failure_state step run new_center
centers = tt

abbrev case_in : Status → Option String → CaseStatus
case_in status recommendation = record {
  decision_case_id = "A";
  mode = live;
  status = status;
  snapshot_id = "snap";
  created_at = "t0";
  updated_at = "t1";
  recommendation_id = recommendation;
  committed_schedule_id = none;
  error_code = none;
}

abbrev artifact : Artifact
artifact = record {
  recommendation = record {
    recommendation_id = "rec";
    decision_case_id = "A";
    snapshot_id = "snap";
    candidate_plans = [];
  };
  snapshot = record { snapshot_id = "snap"; factory_id = "factory" };
}

abbrev api : Api
api = record {
  get_decision_case = ok (case_in awaiting_approval (some "rec"), none);
  aborted_after_case = false;
  get_recommendation = ok artifact;
  aborted_after_artifact = false;
}

abbrev ready_data : StatusData
ready_data = real_without_artifact (case_in awaiting_approval (some "rec")) none (ready artifact)

abbrev working_data : StatusData
working_data = real_without_artifact (case_in analyzing none) none pending

read_real_ready_example : IsReady api "A" ready_data artifact
unfolding centers
read_real_ready_example = read_real_ready api "A" ready_data artifact refl refl

abbrev working : List Event
working = open_case true ∷ answered (ok (status_data working_data)) ∷ []

timer_scheduled_example :
    (d : CenterData) × ((run true working (new_center true)).state ≡ loaded d) × IsWorking d
unfolding centers
timer_scheduled_example = timer_scheduled true working refl

abbrev reading : Center
reading = run true (open_case true ∷ []) (new_center true)

settled_data_stays_example :
    ((run true (answered (ok (status_data ready_data)) ∷ timer_fired ∷ []) reading).reads
      ≡ reading.reads)
    × ((run true (answered (ok (status_data ready_data)) ∷ timer_fired ∷ []) reading).state
        ≡ loaded (status_data ready_data))
unfolding centers
settled_data_stays_example =
    settled_data_stays true (status_data ready_data) (timer_fired ∷ []) reading refl refl tt
