-- ===== src/Decisions/Wire/History.antt =====
-- `getHistory` of frontend/lib/decision-api/client.ts: a decision with its review actions.
use reinforcement_learning_c.Prelude.{
  true, some, List, [], ◌∷◌, ◌≡◌, refl, arith, Result, ok, not, Option, none, Ensures,
  Ensures-eq-ok, >>=-Ensures, throw_if-Ensures, need-Ensures, need, err, String, subst,
}
use reinforcement_learning_c.Json.{
  Json, Values, Fields, null, boolean, number, text, array, object, values_list, member, record_of,
  array_of,
}
use reinforcement_learning_c.Product.{ProductApiError, malformed_product_api_response}
use reinforcement_learning_c.Decisions.{
  MaintenanceDecision, MaintenanceDecisionAction, DecisionHistory,
}
use reinforcement_learning_c.Decisions.Wire.{
  is_true, data_record, decision_from, action_from, map_ok, history_from,
}
use reinforcement_learning_c.Decisions.Wire.Members.{
  HasRecord, need-IsObject, array_of-IsArray, record_of-IsObject,
}
use reinforcement_learning_c.Decisions.Wire.Sound.{
  the_object, IsDecisionOf, IsDecision, decision_from-IsDecision, IsAction, action_from-IsAction,
}

-- The actions are the ones of the list, in its order.
abbrev pub AreActions : List Json → List MaintenanceDecisionAction → Type 0
AreActions [] [] = Unit
AreActions (v ∷ vs) (a ∷ reviews) = IsAction v a × AreActions vs reviews
AreActions [] (a ∷ reviews) = ⊥
AreActions (v ∷ vs) [] = ⊥

map_ok-AreActions : (vs : List Json) → Ensures (AreActions vs) (map_ok action_from vs)
unfolding map_ok
map_ok-AreActions [] = tt
map_ok-AreActions (v ∷ vs) =
    >>=-Ensures (AreActions (v ∷ vs)) (IsAction v) (action_from v) _ (action_from-IsAction v)
      λ a is_a.
        >>=-Ensures (AreActions (v ∷ vs)) (AreActions vs) (map_ok action_from vs) _
          (map_ok-AreActions vs) λ reviews are. (is_a, are)

-- The data of an answer that says that it succeeded.
pub record IsData (payload : Json) (fs : Fields) : Type 0 where
  pub body :
      (body : Fields) × (payload ≡ object body)
      × (member "success" body ≡ some (boolean true))
      × HasRecord "data" body fs

is_true-eq : (o : Option Json) → is_true o ≡ true → o ≡ some (boolean true)
unfolding is_true
is_true-eq (some (boolean b)) h = cc
is_true-eq none h = absurd (ground arith)
is_true-eq (some null) h = absurd (ground arith)
is_true-eq (some (number n)) h = absurd (ground arith)
is_true-eq (some (text s)) h = absurd (ground arith)
is_true-eq (some (array vs)) h = absurd (ground arith)
is_true-eq (some (object fs)) h = absurd (ground arith)

-- A history of an answer.
pub record IsHistory (payload : Json) (h : DecisionHistory) : Type 0 where
  pub data_fields : Fields
  pub is_data : IsData payload data_fields
  pub decision : IsDecisionOf data_fields h.decision
  pub actions :
      (vs : Values) × (member "actions" data_fields ≡ some (array vs))
      × AreActions (values_list vs) h.actions

data_record-IsData :
    (payload : Json) (message : String) → Ensures (IsData payload) (data_record payload message)
unfolding data_record
data_record-IsData payload message =
    let P : Fields → Type 0 = IsData payload in
    need-IsObject P (some payload) _ _ λ body is_body.
      throw_if-Ensures P (not (is_true (member "success" body))) _ _ λ succeeded.
        need_last-IsData body is_body (is_true-eq (member "success" body) (ground arith))
          (record_of (member "data" body)) refl
  where
    need_last-IsData :
        (body : Fields)
        → some payload ≡ some (object body)
        → member "success" body ≡ some (boolean true)
        → (o : Option Fields) → record_of (member "data" body) ≡ o
        → Ensures (IsData payload) (need o (malformed_product_api_response message))
    need_last-IsData body is_body good none e = tt
    need_last-IsData body is_body good (some fs) e = record {
      body = (body, the_object is_body, good, record_of-IsObject (member "data" body) e);
    }

same_fields :
    {fs gs : Fields} {d : MaintenanceDecision}
    → object gs ≡ object fs
    → IsDecisionOf fs d
    → IsDecisionOf gs d
same_fields {d} e h = subst (λ x. IsDecisionOf x d) (cc e) h

decision-IsDecisionOf : (fs : Fields) → Ensures (IsDecisionOf fs) (decision_from (object fs))
decision-IsDecisionOf fs = weaken (decision_from (object fs)) (decision_from-IsDecision (object fs))
  where
    weaken :
        (m : Result ProductApiError MaintenanceDecision)
        → Ensures (IsDecision (object fs)) m
        → Ensures (IsDecisionOf fs) m
    weaken (ok d) (gs, e, h) = same_fields {d = d} e h
    weaken (err e) h = tt

history_from-Ensures : (payload : Json) → Ensures (IsHistory payload) (history_from payload)
unfolding history_from
history_from-Ensures payload =
    let P : DecisionHistory → Type 0 = IsHistory payload in
    >>=-Ensures P (IsData payload) (data_record payload _) _ (data_record-IsData payload _)
      λ fs is_data.
        >>=-Ensures P (IsDecisionOf fs) (decision_from (object fs)) _ (decision-IsDecisionOf fs)
          λ d is_d. need-Ensures P (array_of (member "actions" fs)) _ _ λ vs is_array.
            >>=-Ensures P (AreActions vs) (map_ok action_from vs) _ (map_ok-AreActions vs)
              λ reviews are.
                let (ws, is_there, same) = array_of-IsArray (member "actions" fs) is_array in
                record {
                  data_fields = fs;
                  is_data = is_data;
                  decision = is_d;
                  actions = (ws, is_there, subst (λ x. AreActions x reviews) same are);
                }

-- A history that the client accepts is of an answer that says that it succeeded: it has the decision
-- that the data of the answer names, and the listed review actions in their order. Each member is
-- the one of its name in the answer, a text that is not blank wherever one is asked for, and none
-- where an optional one is not of its kind. A status is one of the client's list, or a list of one
-- value that is.
pub history_from-IsHistory :
    (payload : Json) {h : DecisionHistory} → history_from payload ≡ ok h → IsHistory payload h
history_from-IsHistory payload e =
    Ensures-eq-ok (IsHistory payload) (history_from payload) (history_from-Ensures payload) e
