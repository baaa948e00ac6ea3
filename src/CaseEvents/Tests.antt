-- ===== src/CaseEvents/Tests.antt =====
-- The audit read on a history of three events, two to a page.
use reinforcement_learning_c.Prelude.{
  ℕ, String, none, ok, ◌≡◌, refl, [], ◌∷◌, List, arith, Result, err,
}
use reinforcement_learning_c.Decision.{HistoryEvent, human}
use reinforcement_learning_c.Preview.Reads.{rows_after, page_of}
use reinforcement_learning_c.CaseEvents.{
  page, History, ReadError, is_bad_event, check_events, is_bad_page, take_page, continue, round,
  read_from, read_decision_case_events, inconsistent_event,
}
use reinforcement_learning_c.CaseEvents.Sound.{IsLog, paged, read_decision_case_events_sound}
use reinforcement_learning_c.CaseEvents.Complete.{read_decision_case_events_complete}

reads : Unit {0}
unfolding rows_after page_of is_bad_event check_events is_bad_page take_page continue round
    read_from read_decision_case_events
reads = tt

abbrev event : String → ℕ → HistoryEvent
event id sequence = record {
  id = id;
  case_id = "A";
  sequence = sequence;
  type = "CASE_STATUS_CHANGED";
  actor = human;
  occurred_at = "now";
  payload = record {
    from_status = none;
    to_status = none;
    revision = sequence;
    command = none;
    recommendation_id = none;
    candidate_plan_id = none;
    candidate_version = none;
    candidate_hash = none;
    schedule_hash = none;
    plan_version = none;
  };
}

abbrev log : List HistoryEvent
log = event "e1" 1 ∷ event "e2" 2 ∷ event "e3" 3 ∷ []

abbrev history_or : Result ReadError History → History
history_or (ok h) = h
history_or (err e) = record { events = []; pages = [] }

abbrev result : Result ReadError History
result = read_decision_case_events (λ n after. page (page_of after 2 log)) "A" 4

read_ok : result ≡ ok (history_or result)
unfolding reads
read_ok = refl

-- A second event with a used id is refused.
reused_id :
    read_decision_case_events
      (λ n after. page (page_of after 2 (event "e1" 1 ∷ event "e1" 2 ∷ [])))
      "A"
      4
    ≡ err inconsistent_event
unfolding reads
reused_id = refl

read_decision_case_events_sound_example :
    IsLog "A" 0 [] (history_or result).events
    × (paged (history_or result).pages ≡ (history_or result).events)
read_decision_case_events_sound_example =
    read_decision_case_events_sound (λ n after. page (page_of after 2 log)) "A" 4
      (history_or result) read_ok

read_decision_case_events_complete_example :
    (h : History) × (read_decision_case_events (λ n after. page (page_of after 2 log)) "A" 4 ≡ ok h)
    × (h.events ≡ log)
read_decision_case_events_complete_example =
    read_decision_case_events_complete "A" 2 log 4 (omega arith)
      (
        refl,
        omega arith,
        omega arith,
        refl,
        (refl, omega arith, omega arith, refl, (refl, omega arith, omega arith, refl, tt)),
      )
      (omega arith)
