-- ===== src/Decisions/Review/Tests.antt =====
-- A fixture of one recommendation for two machines, whose review is opened, overridden and tried
-- again.
use reinforcement_learning_c.Prelude.{
  false, some, [], ◌∷◌, ◌≡◌, refl, err, insert, lookup, is_blank,
}
use reinforcement_learning_c.Prelude.Sorting.{sort_texts}
use reinforcement_learning_c.Decisions.Review.{
  pending_review, overridden, approve, override, continue, replace, JointAction, Review, History,
  ReviewInput, Stamp, Decisions, invalid_transition, invalid_replacement, is_pending, find_decision,
  update_decision, is_bad_override, new_review, decide,
}
use reinforcement_learning_c.Decisions.Review.Store.{
  Fixture, open_review, get_history, prepare_review, submit_review, Call, opening, submitting, call,
  calls,
}
use reinforcement_learning_c.Decisions.Review.Once.{AreReviewed, calls-AreReviewed}
use reinforcement_learning_c.Decisions.Review.Life.{status_of, Move, call-Move}
use reinforcement_learning_c.Decisions.Review.Frozen.{lookup-calls}
use reinforcement_learning_c.Decisions.Review.Override.{IsOverride, submit_review-IsOverride}

checks : Unit {0}
unfolding is_blank insert lookup is_pending find_decision update_decision is_bad_override sort_texts
    new_review decide open_review get_history prepare_review submit_review call calls
checks = tt

abbrev recommended : JointAction
recommended = record {
  observation_id = "obs";
  actions =
      record { machine_id = "M1"; action = continue }
      ∷ record { machine_id = "M2"; action = continue }
      ∷ [];
}

abbrev replacement : JointAction
replacement = record {
  observation_id = "obs";
  actions =
      record { machine_id = "M2"; action = replace }
      ∷ record { machine_id = "M1"; action = continue }
      ∷ [];
}

abbrev fixture : Fixture
fixture = record {
  ids = record { recommendation = "rec"; decision = "dec" } ∷ [];
  rows =
      record {
        recommendation_id = "rec";
        observation_key = "obs";
        machines = "M1" ∷ "M2" ∷ [];
        policy_id = "p";
        recommended = recommended;
      }
      ∷ [];
}

abbrev stamp : Stamp
stamp = record { uuid = "u"; now = "t" }

abbrev input : ReviewInput
input = record { reason = some " worn "; replacement = some replacement }

abbrev opened : Decisions
opened =
    (
      "rec",
      record {
        id = "dec";
        recommendation_id = "rec";
        status = pending_review;
        created_at = "t";
        actions = [];
      },
    )
    ∷ []

opening_opens : call fixture (opening false "rec" "t") [] ≡ opened
unfolding checks
opening_opens = refl

abbrev overriding : Call
overriding = submitting false stamp "dec" override input

abbrev decided : Decisions
decided =
    update_decision "dec"
      (decide (
        new_review stamp "dec" override input (record {
          recommendation_id = "rec";
          observation_key = "obs";
          machines = "M1" ∷ "M2" ∷ [];
          policy_id = "p";
          recommended = recommended;
        })))
      opened

overriding_decides : call fixture overriding opened ≡ decided
unfolding checks
overriding_decides = refl

second_verdict :
    (submit_review fixture false stamp "dec" approve input decided).1 ≡ err invalid_transition
unfolding checks
second_verdict = refl

other_observation :
    (submit_review fixture false stamp "dec" override
      (record {
        reason = some "x";
        replacement = some (record replacement { observation_id = "o" });
      })
      opened).1
    ≡ err invalid_replacement
unfolding checks
other_observation = refl

calls-AreReviewed_example :
    AreReviewed (calls fixture (opening false "rec" "t" ∷ overriding ∷ overriding ∷ []) [])
calls-AreReviewed_example =
    calls-AreReviewed fixture (opening false "rec" "t" ∷ overriding ∷ overriding ∷ []) [] tt

call-Move_example : Move (status_of "rec" opened) (status_of "rec" (call fixture overriding opened))
call-Move_example = call-Move fixture overriding "rec" opened

abbrev frozen : History
frozen = record {
  id = "dec";
  recommendation_id = "rec";
  status = overridden;
  created_at = "t";
  actions = [];
}

lookup-calls_example :
    lookup "rec" (calls fixture (opening false "rec" "t2" ∷ overriding ∷ []) (("rec", frozen) ∷ []))
    ≡ some frozen
unfolding checks
lookup-calls_example =
    lookup-calls "rec" refl fixture (opening false "rec" "t2" ∷ overriding ∷ [])
      (("rec", frozen) ∷ []) refl

abbrev review : Review
review = record {
  id = "u";
  decision_id = "dec";
  actor_user_id = "878c179a-a0e1-4cd7-aa36-74c48ea99a1b";
  to_status = overridden;
  reason = some "worn";
  selected_action = some replacement;
  evidence = record {
    recommendation_id = "rec";
    observation_key = "obs";
    machines = "M1" ∷ "M2" ∷ [];
    policy_id = "p";
    recommended = recommended;
  };
  created_at = "t";
}

submit_review-IsOverride_example : IsOverride fixture "dec" opened review
unfolding checks
submit_review-IsOverride_example =
    submit_review-IsOverride fixture false stamp "dec" input opened refl
