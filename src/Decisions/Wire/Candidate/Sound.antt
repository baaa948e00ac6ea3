-- ===== src/Decisions/Wire/Candidate/Sound.antt =====
-- Rows of the queue that `candidateFrom` of frontend/lib/decision-api/client.ts has read.
use mathlib.Core.List.{Memᴰ}
use reinforcement_learning_c.Prelude.{
  String, Option, none, some, List, ◌≡◌, arith, Result, ok, ◌>>=◌, Ensures, Ensures-eq-ok,
  >>=-Ensures, Bool-cases, inl, inr, need-Ensures,
}
use reinforcement_learning_c.Json.{
  Json, null, boolean, number, text, array, object, member, text_of,
}
use reinforcement_learning_c.Decisions.{DecisionQueueItem}
use reinforcement_learning_c.Decisions.Wire.{
  is_any_named, need_named, statuses, actions, severities, load_classes,
}
use reinforcement_learning_c.Decisions.Wire.Candidate.{
  malformed_candidate, invalid_candidate, need_record, need_text, need_number, string_of,
  source_from, risk_from, candidate_from,
}
use reinforcement_learning_c.Decisions.Wire.Members.{
  is_any_named-mem, text_of-HasTextIfAny, finite_number-HasFiniteIfAny, need-HasText,
  need-HasNumber, need-IsObject, need-HasNamed,
}
use reinforcement_learning_c.Decisions.Wire.Sound.{the_object}
use reinforcement_learning_c.Decisions.Wire.Candidate.Row.{
  IsCandidate, IsRiskOf, IsSourceOf, or_not_provided-IsProvided, risk_from-IsRiskOf,
  source_from-IsSourceOf,
}

string_of-eq : (o : Option Json) {s : String} → string_of o ≡ some s → o ≡ some (text s)
unfolding string_of
string_of-eq (some (text s)) h = cc
string_of-eq none h = absurd (ground arith)
string_of-eq (some null) h = absurd (ground arith)
string_of-eq (some (boolean b)) h = absurd (ground arith)
string_of-eq (some (number n)) h = absurd (ground arith)
string_of-eq (some (array vs)) h = absurd (ground arith)
string_of-eq (some (object fs)) h = absurd (ground arith)

named_text-Ensures {κ} :
    (P : DecisionQueueItem → Type κ) (names : List String) (s : String)
    (next : Json → Result _ DecisionQueueItem)
    → (Memᴰ s names → Ensures P (next (text s)))
    → Ensures P (need_named names (some (text s)) invalid_candidate >>= next)
unfolding need_named
named_text-Ensures P names s next h = elim (Bool-cases (is_any_named names (text s))) [
  | inl named ↦ rw named (h (is_any_named-mem names s named))
  | inr other ↦ rw other tt
]

candidate_from-Ensures : (v : Json) → Ensures (IsCandidate v) (candidate_from v)
unfolding candidate_from need_record need_text need_number
candidate_from-Ensures v =
    let P : DecisionQueueItem → Type 0 = IsCandidate v in
    let E = malformed_candidate in
    need-IsObject P (some v) E _ λ fs h₁. need-IsObject P (member "source" fs) E _ λ ss h₂.
      need-IsObject P (member "risk" fs) E _ λ rs h₃.
        need-IsObject P (member "resources" fs) E _ λ es h₄.
          need-IsObject P (member "predictedCost" fs) E _ λ cs h₅.
            need-IsObject P (member "costOfDelay" fs) E _ λ ds h₆.
              need-IsObject P (member "result" fs) E _ λ os h₇.
                need-HasText P "id" fs E _ λ id is_id.
                  need-HasText P "machineId" fs E _ λ machine is_machine.
                    need-HasText P "recommendedAction" fs E _ λ action is_action.
                      need-HasText P "status" fs E _ λ status is_status.
                        >>=-Ensures P (IsSourceOf ss) (source_from ss) _ (source_from-IsSourceOf ss)
                          λ source is_source.
                            >>=-Ensures P (IsRiskOf rs) (risk_from rs) _ (risk_from-IsRiskOf rs)
                              λ risk is_risk.
                                need-HasNumber P "sparesAvailable" es E _ λ spares is_spares.
                                  need-HasNumber P "inventoryCapacity" es E _
                                    λ capacity is_capacity.
                                      need-Ensures P (string_of (member "outcome" os)) E _
                                        λ outcome is_outcome.
                                          need-HasNumber P "incurredCost" os E _
                                            λ incurred is_incurred.
                                              named_text-Ensures P statuses status _ λ known_status.
                                                named_text-Ensures P actions action _
                                                  λ known_action.
                                                    need-HasNamed P severities "severity" fs
                                                      invalid_candidate _
                                                      λ severity is_severity.
                                                        need-IsObject P (member "condition" rs)
                                                          invalid_candidate _
                                                          λ ks h₈.
                                                            need-HasNamed P load_classes "loadClass"
                                                            ks invalid_candidate _
                                                            λ load is_load. (
                                                            record {
                                                            row = fs;
                                                            source = ss;
                                                            risk = rs;
                                                            resources = es;
                                                            predicted_cost = cs;
                                                            cost_of_delay = ds;
                                                            outcome = os;
                                                            condition = ks;
                                                            },
                                                            record {
                                                            row = the_object h₁;
                                                            source = h₂;
                                                            risk = h₃;
                                                            resources = h₄;
                                                            predicted_cost = h₅;
                                                            cost_of_delay = h₆;
                                                            outcome = h₇;
                                                            condition = h₈;
                                                            },
                                                            record {
                                                            row_id = is_id;
                                                            source = is_source;
                                                            decision_id =
                                                            text_of-HasTextIfAny "decisionId" fs;
                                                            machine_id = is_machine;
                                                            tool_id =
                                                            text_of-HasTextIfAny "toolId" fs;
                                                            job_id =
                                                            text_of-HasTextIfAny "jobId" fs;
                                                            recommended_action =
                                                            (is_action, known_action);
                                                            severity = is_severity;
                                                            risk = is_risk;
                                                            predicted_rul_steps =
                                                            finite_number-HasFiniteIfAny
                                                            "predictedRulSteps" rs;
                                                            load_class = is_load;
                                                            spares_available = is_spares;
                                                            inventory_capacity = is_capacity;
                                                            predicted_expected_cost =
                                                            finite_number-HasFiniteIfAny "expected"
                                                            cs;
                                                            predicted_cvar_cost =
                                                            finite_number-HasFiniteIfAny "cvar" cs;
                                                            cost_of_delay =
                                                            finite_number-HasFiniteIfAny "amount"
                                                            ds;
                                                            rationale = (
                                                            text_of (member "rationale" fs),
                                                            text_of-HasTextIfAny "rationale" fs,
                                                            or_not_provided-IsProvided
                                                            (text_of (member "rationale" fs)),
                                                            );
                                                            outcome =
                                                            string_of-eq (member "outcome" os)
                                                            is_outcome;
                                                            incurred_cost = is_incurred;
                                                            status = (is_status, known_status);
                                                            created_at =
                                                            text_of-HasTextIfAny "createdAt" fs;
                                                            },
                                                            )

-- A row that the client accepts has the members of the answer, each under its name: a text that is
-- not blank and a number wherever one is asked for, and none where an optional one is not of its
-- kind. Its status and action are of the lists of the client; and so are its severity and its load
-- class, or each is a list of one value that is.
pub candidate_from-IsCandidate :
    (v : Json) {c : DecisionQueueItem} → candidate_from v ≡ ok c → IsCandidate v c
candidate_from-IsCandidate v e =
    Ensures-eq-ok (IsCandidate v) (candidate_from v) (candidate_from-Ensures v) e
