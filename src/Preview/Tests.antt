-- ===== src/Preview/Tests.antt =====
-- A small life of the preview: two cases, of which one is approved and committed.
use reinforcement_learning_c.Prelude.{
  String, true, false, none, some, Result, ok, err, ◌≡◌, refl, ◌⊎◌, lookup, insert, arith, Option,
  ◌<◌, [], ◌∷◌,
}
use reinforcement_learning_c.Decision.{live}
use reinforcement_learning_c.Preview.{
  success, ApiFailure, Fixture, Env, CaseResponse, CaseItem, CreateBody, CommandBody, Choice,
  approve, commit, command_body, Store, new_store, check, check_mode, read, record_event,
}
use reinforcement_learning_c.Preview.Requests.{
  same_mode, same_note, same_choice, same_body, is_key, receipt,
}
use reinforcement_learning_c.Preview.Create.{
  plain_payload, new_case, store_case, create_to, create_decision_case,
}
use reinforcement_learning_c.Preview.Decide.{
  is_current, valid_candidate, decide_reject, decide_approve, commit_of, decide_commit, decide,
  candidate_hash_text, schedule_hash_text,
}
use reinforcement_learning_c.Preview.Commands.{
  finish, command_payload, apply_effect, submit_to, submit_new, submit_decision_command, view,
  available, advanced, store_advanced, advance, found_case, get_decision_case,
}
use reinforcement_learning_c.Preview.Replay.{Steps, here, next, submit, submit_replay}
use reinforcement_learning_c.Preview.Publish.{IsDecision, submit_sound}
use reinforcement_learning_c.Preview.Freeze.{stale_case_frozen}

-- All that a run of the preview computes with.
runs : Unit {0}
unfolding new_store check check_mode read record_event same_mode same_note same_choice same_body
    is_key receipt plain_payload new_case store_case create_to create_decision_case is_current
    valid_candidate decide_reject decide_approve commit_of decide_commit decide candidate_hash_text
    schedule_hash_text finish command_payload apply_effect submit_to submit_new
    submit_decision_command view available advanced store_advanced advance found_case
    get_decision_case lookup insert
runs = tt

abbrev fixture : Fixture
fixture = record {
  mode = success;
  basis = record { snapshot_id = "snap"; factory_id = "factory" };
  schedule = some (record { schedule_id = "seed"; revision = 1 });
  recommendation = λ case_id. record {
    recommendation_id = "rec";
    decision_case_id = case_id;
    snapshot_id = "snap";
    candidate_plans =
        record {
          candidate_plan_id = "plan";
          plan_version = 4;
          schedule = record { schedule_id = "next"; revision = 2 };
          is_valid = true;
        }
        ∷ [];
  };
}

abbrev env : String → Env
env id = record { case_id = id; event_id = id; now = "now" }

abbrev creation : CreateBody
creation = record {
  factory_id = "factory";
  expected_snapshot_id = "snap";
  expected_plan_version = 1;
  mode = live;
  trigger = "alert";
}

abbrev command : Choice → CommandBody
command choice = record {
  decision_case_id = "A";
  recommendation_id = "rec";
  expected_snapshot_id = "snap";
  expected_plan_version = 1;
  expected_case_revision = elim choice [ commit c v ↦ 3 | _ ↦ 2 ];
  choice = choice;
}

-- The store and the response of a call that succeeds.
abbrev store_or : Store → Result ApiFailure (Store × CaseResponse) → Store
store_or s (ok (s', r)) = s'
store_or s (err e) = s

abbrev started : Store
started = new_store fixture

abbrev opened : Store
opened = store_or started (create_decision_case fixture (env "A") started false "k1" creation)

abbrev read_once : Store
read_once = store_or opened (get_decision_case fixture (env "e2") opened false "A")

abbrev decided : Store
decided = store_or read_once (
    submit_decision_command fixture (env "e3") read_once false "k2" "A"
      (command (approve "plan" 4 none)))

abbrev published : Store
published =
    store_or decided (
      submit_decision_command fixture (env "e4") decided false "k3" "A" (command (commit "plan" 4)))

abbrev approval : Result ApiFailure (Store × CaseResponse)
approval =
    submit_decision_command fixture (env "e3") read_once false "k2" "A"
      (command (approve "plan" 4 none))

abbrev response_of : Result ApiFailure (Store × CaseResponse) → CaseResponse
response_of (ok (s, r)) = r
response_of (err e) = (new_case fixture (env "") started creation).response

published_plan : (published.plan_version ≡ 2) × (read_once.plan_version ≡ 1)
unfolding runs
published_plan = (refl, refl)

approval_ok : approval ≡ ok (decided, response_of approval)
unfolding runs
approval_ok = refl

commit_ok :
    submit_decision_command fixture (env "e4") decided false "k3" "A" (command (commit "plan" 4))
    ≡ ok (
      published,
      response_of (
          submit_decision_command fixture
            (env "e4")
            decided
            false
            "k3"
            "A"
            (command (commit "plan" 4))),
    )
unfolding runs
commit_ok = refl

to_published : Steps fixture decided published
to_published = next here (submit (env "e4") false "k3" "A" (command (commit "plan" 4)) _ commit_ok)

submit_replay_example :
    submit_decision_command fixture
      (env "later")
      published
      false
      "k2"
      "A"
      (command (approve "plan" 4 none))
    ≡ ok (published, response_of approval)
submit_replay_example =
    submit_replay fixture (env "e3") (env "later") read_once published false "k2" "A"
      (command (approve "plan" 4 none)) approval_ok to_published

submit_sound_example :
    ((decided ≡ read_once)
      × (receipt read_once "k2" (command_body (command (approve "plan" 4 none)))
          ≡ ok (some (response_of approval))))
    ⊎ IsDecision fixture
        (env "e3")
        read_once
        "A"
        (command (approve "plan" 4 none))
        decided
        (response_of approval)
submit_sound_example =
    submit_sound fixture (env "e3") read_once false "k2" "A" (command (approve "plan" 4 none))
      approval_ok

abbrev item_or : Option CaseItem → CaseItem
item_or none = new_case fixture (env "") started creation
item_or (some item) = item

case_found : lookup "A" published.cases ≡ some (item_or (lookup "A" published.cases))
unfolding runs
case_found = refl

older_base :
    (item_or (lookup "A" published.cases)).response.meta.base_plan_version < published.plan_version
unfolding runs
older_base = omega arith

stale_case_frozen_example : published ≡ published
stale_case_frozen_example =
    stale_case_frozen fixture (env "later") published published false "k2" "A"
      (command (approve "plan" 4 none)) (item_or (lookup "A" published.cases)) here case_found
      older_base submit_replay_example
