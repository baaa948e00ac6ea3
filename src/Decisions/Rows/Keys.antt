-- ===== src/Decisions/Rows/Keys.antt =====
-- Which rows frontend/lib/decision-api/normalize.ts (rowsFromEvents) makes: one for each action of
-- each recommendation, in the order of the answer.
use mathlib.Core.List.{map-append}
use reinforcement_learning_c.Prelude.{
  String, Option, none, some, List, [], ◌∷◌, ◌++◌, map, ◌≡◌, refl, ap, sym, ◌∙◌, ok, lookup, need,
  Ensures, Ensures-eq-ok, >>=-Ensures, >>=-Ensures_any, need-Ensures, arith,
}
use reinforcement_learning_c.Json.{
  Json, Fields, text, object, array, values_list, member, record_of, text_of, array_of,
}
use reinforcement_learning_c.Decisions.Rows.{
  Input, Row, MachineAction, tool_action, action_of, action_in, and_action, actions_in,
  index_observations, Advice, malformed_advice, unmatched_advice, malformed_data, advice_from,
  row_for, rows_for, rows_of, rows_from_events,
}

-- What an answer says under a key, read with no check.
abbrev text_in : Option Json → String
text_in (some (text s)) = s
text_in _ = ""

abbrev value_in : Option Json → Json
value_in (some v) = v
value_in none = text ""

abbrev list_in : Option Json → List Json
list_in (some (array vs)) = values_list vs
list_in _ = []

abbrev at : String → Json → Option Json
at key (object fs) = member key fs
at key _ = none

-- A recommendation, a machine and the tool action for it.
abbrev pub Key : Type 0
Key = String × String × String

-- The actions that an event advises.
pub event_keys : Json → List Key
event_keys v =
    map (λ (a : Json). (text_in (at "id" v), text_in (at "machine_id" a), text_in (at "action" a)))
      (list_in (at "actions" (value_in (at "actions" (value_in (at "payload" v))))))

pub all_keys : List Json → List Key
all_keys [] = []
all_keys (v ∷ vs) = event_keys v ++ all_keys vs

pub row_key : {Config : Type 0} → Row Config → Key
row_key r = (r.recommendation_id, r.machine_id, r.recommended_action)

text_of-text_in : (o : Option Json) {s : String} → text_of o ≡ some s → text_in o ≡ s
unfolding text_of
text_of-text_in none h = cc
text_of-text_in (some (text s)) h = ground arith
text_of-text_in (some _) h = cc

record_of-value_in :
    (o : Option Json) {fs : Fields} → record_of o ≡ some fs → value_in o ≡ object fs
unfolding record_of
record_of-value_in none h = cc
record_of-value_in (some (object fs)) h = ground arith
record_of-value_in (some _) h = cc

array_of-list_in : (o : Option Json) {vs : List Json} → array_of o ≡ some vs → list_in o ≡ vs
unfolding array_of
array_of-list_in none h = cc
array_of-list_in (some (array vs)) h = ground arith
array_of-list_in (some _) h = cc

tool_action-text_in : (o : Option Json) {s : String} → tool_action o ≡ some s → text_in o ≡ s
unfolding tool_action
tool_action-text_in none h = cc
tool_action-text_in (some (text s)) h = ground arith
tool_action-text_in (some _) h = cc

abbrev action_key : String → Json → Key
action_key id a = (id, text_in (at "machine_id" a), text_in (at "action" a))

abbrev key_of : String → MachineAction → Key
key_of id m = (id, m.machine_id, m.action)

action_of-eq :
    (x y : Option String) {m : MachineAction}
    → action_of x y ≡ some m
    → (x ≡ some m.machine_id) × (y ≡ some m.action)
unfolding action_of
action_of-eq none y e = cc
action_of-eq (some machine) none e = cc
action_of-eq (some machine) (some action) e = ground arith

action_in-key_of :
    (id : String) (v : Json) {m : MachineAction}
    → action_in (record_of (some v)) ≡ some m
    → action_key id v ≡ key_of id m
unfolding action_in record_of
action_in-key_of id (object fs) {m} e =
    let (is_machine, is_action) =
      action_of-eq (text_of (member "machine_id" fs)) (tool_action (member "action" fs)) e in
    let machine = text_of-text_in (member "machine_id" fs) is_machine in
    let action = tool_action-text_in (member "action" fs) is_action in rw (machine, action)
action_in-key_of id _ e = cc

and_action-eq :
    (x : Option MachineAction) (y : Option (List MachineAction)) {ms : List MachineAction}
    → and_action x y ≡ some ms
    → (m : MachineAction) × (rest : List MachineAction) × (x ≡ some m)
      × (y ≡ some rest)
      × (ms ≡ m ∷ rest)
unfolding and_action
and_action-eq none y e = cc
and_action-eq (some m) none e = cc
and_action-eq (some m) (some rest) e = (m, rest, refl, refl, ground arith)

actions_in-key_of :
    (id : String) (vs : List Json) {ms : List MachineAction}
    → actions_in vs ≡ some ms
    → map (action_key id) vs ≡ map (key_of id) ms
unfolding actions_in
actions_in-key_of id [] e = let same : [] ≡ _ = cc in ap (map (key_of id)) same
actions_in-key_of id (v ∷ vs) {ms} e =
    let (m, rest, first, others, whole) =
      and_action-eq (action_in (record_of (some v))) (actions_in vs) e in
    rw (whole, action_in-key_of id v first, actions_in-key_of id vs others)

event_keys_lem :
    (event : Fields) {id : String} {recommendation joint : Fields} {listed : List Json}
    → text_of (member "id" event) ≡ some id
    → record_of (member "payload" event) ≡ some recommendation
    → record_of (member "actions" recommendation) ≡ some joint
    → array_of (member "actions" joint) ≡ some listed
    → event_keys (object event) ≡ map (action_key id) listed
unfolding event_keys
event_keys_lem event {id} {recommendation} {joint} is_id is_recommendation is_joint is_listed = rw (
  text_of-text_in (member "id" event) is_id,
  record_of-value_in (member "payload" event) is_recommendation,
  record_of-value_in (member "actions" recommendation) is_joint,
  array_of-list_in (member "actions" joint) is_listed,
)

-- The checks of an event keep what it says.
IsAdvised : Json → Advice → Type 0
IsAdvised v advice = event_keys v ≡ map (key_of advice.id) advice.actions

advice_from-IsAdvised :
    (index : List (String × Fields)) (v : Json) → Ensures (IsAdvised v) (advice_from index v)
unfolding advice_from IsAdvised
advice_from-IsAdvised index v =
    let P : Advice → Type 0 = IsAdvised v in
    need-Ensures P (record_of (some v)) malformed_advice _ λ event is_event.
      need-Ensures P (text_of (member "id" event)) malformed_advice _ λ id is_id.
        >>=-Ensures_any P (need (text_of (member "observationId" event)) malformed_advice) _
          λ observed.
            need-Ensures P (record_of (member "payload" event)) malformed_advice _
              λ recommendation is_recommendation.
                >>=-Ensures_any P (need (lookup observed index) unmatched_advice) _
                  λ observation_event.
                    >>=-Ensures_any P
                      (need (record_of (member "payload" observation_event)) unmatched_advice) _
                      λ observation.
                        need-Ensures P (record_of (member "actions" recommendation)) malformed_data
                          _
                          λ joint is_joint.
                            need-Ensures P (array_of (member "actions" joint)) malformed_data _
                              λ listed is_listed.
                                need-Ensures P (actions_in listed) malformed_data _
                                  λ actions are_actions.
                                    >>=-Ensures_any P
                                      (need (array_of (member "machines" observation))
                                        malformed_data)
                                      _
                                      λ machines.
                                        >>=-Ensures_any P
                                          (need (record_of (member "inventory" observation))
                                            malformed_data)
                                          _
                                          λ inventory.
                                            >>=-Ensures_any P
                                              (need (text_of (member "observation_id" observation))
                                                malformed_data)
                                              _
                                              λ observation_id.
                                                let same : v ≡ object event =
                                                  record_of-value_in (some v) is_event in
                                                rw same (
                                                  event_keys_lem event is_id is_recommendation
                                                    is_joint is_listed
                                                  ∙ actions_in-key_of id listed are_actions)

module _ {Config : Type 0} (input : Input Config) where
  rows_for-row_key :
      (advice : Advice) (actions : List MachineAction)
      → Ensures
          (λ rows. map row_key rows ≡ map (key_of advice.id) actions)
          (rows_for input advice actions)
  unfolding rows_for row_for row_key
  rows_for-row_key advice [] = refl
  rows_for-row_key advice (action ∷ actions) =
      let P : List (Row Config) → Type 0 =
        λ rows. map row_key rows ≡ map (key_of advice.id) (action ∷ actions) in
      >>=-Ensures_any P (need _ _) _ λ machine.
        >>=-Ensures P _ (rows_for input advice actions) _ (rows_for-row_key advice actions)
          λ rows keys. ap (λ ks. key_of advice.id action ∷ ks) keys

  rows_of-row_key :
      (index : List (String × Fields)) (vs : List Json)
      → Ensures (λ rows. map row_key rows ≡ all_keys vs) (rows_of input index vs)
  unfolding rows_of all_keys IsAdvised
  rows_of-row_key index [] = refl
  rows_of-row_key index (v ∷ vs) =
      let P : List (Row Config) → Type 0 = λ rows. map row_key rows ≡ all_keys (v ∷ vs) in
      >>=-Ensures P (IsAdvised v) (advice_from index v) _ (advice_from-IsAdvised index v)
        λ advice advised.
          >>=-Ensures P _ (rows_for input advice advice.actions) _
            (rows_for-row_key advice advice.actions)
            λ rows keys.
              >>=-Ensures P _ (rows_of input index vs) _ (rows_of-row_key index vs) λ more later.
                let own : event_keys v ≡ map row_key rows = advised ∙ sym keys in
                rw (map-append row_key rows more, own, later) refl

  -- The rows name the recommendations, the machines and the tool actions that the events advise,
  -- one row for each, in the order of the events.
  pub rows_from_events-row_key :
      {rows : List (Row Config)}
      → rows_from_events input ≡ ok rows
      → map row_key rows ≡ all_keys input.recommendations
  unfolding rows_from_events
  rows_from_events-row_key e =
      let P : List (Row Config) → Type 0 =
        λ rows. map row_key rows ≡ all_keys input.recommendations in
      Ensures-eq-ok P (rows_from_events input)
        (>>=-Ensures_any P (index_observations input.observations []) _
          λ index. rows_of-row_key index input.recommendations)
        e
